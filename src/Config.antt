-- ===== src/Config.antt =====
-- internal/config/config.go: the options for the MQTT client. `url.Parse`, the files, and the reading of
-- keys and certificates are parameters.
pub mod Options
pub mod Endpoint
pub mod Tests
use mqtt_forward.Prelude.{
  ltb, if◌then◌else◌, length, drop, Text, codes, text_eq, Result, err, ok, ◌>>=◌, ◌>>◌, ℤ, negsuc,
  split, ℕ, ◌-◌, Bool, true, false, ◌&&◌, ◌||◌, not, Option, none, some, List, [], ◌∷◌, ◌++◌,
}

pub record Config : Type 0 where
  pub broker : Text
  pub client_id : Text
  pub username : Text
  pub password : Text
  pub keep_alive : ℕ
  pub tls_cert : Text
  pub tls_key : Text
  pub tls_ca : Text
  pub max_packet_size : ℕ
  -- whether there is an event handler
  pub event_handler : Bool

pub record Url : Type 0 where
  pub scheme : Text
  pub hostname : Text
  pub port : Text

-- What `url.Parse`, `LoadX509KeyPair`, `ReadFile` and `AppendCertsFromPEM` return: a certificate and a
-- pool are named by what they were read from, and an error is its text.
pub record System : Type 0 where
  pub parse_url : Text → Option Url
  pub load_key_pair : Text → Text → Result Text Text
  pub read_file : Text → Result Text Text
  pub has_certs : Text → Bool

pub data ConfigError : Type 0 where
  load_cert : Text → ConfigError
  read_ca : Text → ConfigError
  invalid_ca : ConfigError

-- `tls.Config`, with TLS 1.2 at least.
pub record TlsConfig : Type 0 where
  pub next_protos : List Text
  pub certificates : List Text
  pub root_cas : Option Text

pub data MqttOption : Type 0 where
  with_servers : Text → MqttOption
  with_keep_alive : ℕ → MqttOption
  with_auto_reconnect : Bool → MqttOption
  with_max_reconnects : ℤ → MqttOption
  with_clean_start : Bool → MqttOption
  with_proxy_from_environment : Bool → MqttOption
  with_max_packet_size : ℕ → MqttOption
  with_client_id : Text → MqttOption
  with_credentials : Text → Text → MqttOption
  on_event : MqttOption
  with_tls : TlsConfig → MqttOption

abbrev pub non_empty : Text → Bool
non_empty [] = false
non_empty (c ∷ t) = true

-- `strings.HasSuffix`
unfoldable pub has_suffix : Text → Text → Bool
has_suffix t end =
    if ltb (length t) (length end) then false else text_eq (drop (length t - length end) t) end

abbrev pub second_is_iot : List Text → Bool
second_is_iot [] = false
second_is_iot (p ∷ []) = false
second_is_iot (p ∷ q ∷ ps) = text_eq q (codes "iot")

unfoldable pub is_aws_iot_endpoint : Text → Bool
unfolding split has_suffix
is_aws_iot_endpoint host =
    let parts = split b'.' host in
    if ltb (length parts) 4
    then false
    else second_is_iot parts && has_suffix host (codes ".amazonaws.com")

unfoldable pub is_aws_iot : System → Config → Bool
unfolding is_aws_iot_endpoint
is_aws_iot sys c = elim (sys.parse_url c.broker) [
  | none ↦ false
  | some u ↦ is_aws_iot_endpoint u.hostname
]

abbrev pub is_tls_scheme : Text → Bool
is_tls_scheme s = text_eq s (codes "tls") || (text_eq s (codes "ssl") || text_eq s (codes "tcps"))

unfoldable pub alpn_of : Url → Text
unfolding is_aws_iot_endpoint
alpn_of u =
    if not (text_eq u.port (codes "443"))
    then []
    else if not (is_aws_iot_endpoint u.hostname)
    then []
    else if is_tls_scheme u.scheme
    then codes "x-amzn-mqtt-ca"
    else []

unfoldable pub alpn_protocol : System → Config → Text
unfolding alpn_of
alpn_protocol sys c = elim (sys.parse_url c.broker) [ none ↦ [] | some u ↦ alpn_of u ]

abbrev pub protos_of : Text → List Text
protos_of [] = []
protos_of (c ∷ t) = (c ∷ t) ∷ []

unfoldable pub client_certs : System → Config → Result ConfigError (List Text)
client_certs sys c =
    if non_empty c.tls_cert && non_empty c.tls_key
    then elim (sys.load_key_pair c.tls_cert c.tls_key) [
      | err e ↦ err (load_cert e)
      | ok cert ↦ ok (cert ∷ [])
    ]
    else ok []

unfoldable pub root_pool : System → Config → Result ConfigError (Option Text)
root_pool sys c =
    if non_empty c.tls_ca
    then elim (sys.read_file c.tls_ca) [
      | err e ↦ err (read_ca e)
      | ok pem ↦ if sys.has_certs pem then ok (some pem) else err invalid_ca
    ]
    else ok none

unfoldable pub build_tls_config : System → Config → Result ConfigError TlsConfig
unfolding client_certs root_pool alpn_protocol
build_tls_config sys c = do
  certs ← client_certs sys c
  pool ← root_pool sys c
  ok (record {
    next_protos = protos_of (alpn_protocol sys c);
    certificates = certs;
    root_cas = pool;
  })

abbrev pub only_if : Bool → MqttOption → List MqttOption
only_if true o = o ∷ []
only_if false o = []

-- The options before those of TLS.
unfoldable pub plain_options : Config → List MqttOption
plain_options c =
    (with_servers c.broker
      ∷ with_keep_alive c.keep_alive
      ∷ with_auto_reconnect true
      ∷ with_max_reconnects (negsuc 0)
      ∷ with_clean_start false
      ∷ with_proxy_from_environment true
      ∷ [])
    ++ (only_if (ltb 0 c.max_packet_size) (with_max_packet_size c.max_packet_size)
        ++ (only_if (non_empty c.client_id) (with_client_id c.client_id)
            ++ (only_if (non_empty c.username) (with_credentials c.username c.password)
                ++ only_if c.event_handler on_event)))

unfoldable pub mqtt_options : System → Config → Result ConfigError (List MqttOption)
unfolding build_tls_config plain_options
mqtt_options sys c =
    if non_empty c.tls_cert || non_empty c.tls_ca
    then elim (build_tls_config sys c) [
      | err e ↦ err e
      | ok tls ↦ ok (plain_options c ++ with_tls tls ∷ [])
    ]
    else ok (plain_options c)
