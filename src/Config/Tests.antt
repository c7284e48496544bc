-- ===== src/Config/Tests.antt =====
-- Examples for internal/config/config.go.
use mqtt_forward.Prelude.{
  Text, codes, text_eq, ok, split, ◌≡◌, refl, true, false, ◌||◌, some, [], ◌∷◌, ◌++◌,
}
use mqtt_forward.Config.{
  Config, System, TlsConfig, with_tls, non_empty, has_suffix, is_aws_iot_endpoint, alpn_of,
  alpn_protocol, client_certs, root_pool, build_tls_config, plain_options, mqtt_options,
}
use mqtt_forward.Config.Options.{Uses, mqtt_options_lem}

abbrev broker_host : Text
broker_host = codes "abc-ats.iot.eu-west-1.amazonaws.com"

-- All files are there; the broker is an AWS IoT endpoint.
abbrev all_there : System
all_there = record {
  parse_url =
      λ t. some (record { scheme = codes "tls"; hostname = broker_host; port = codes "443" });
  load_key_pair = λ cert key. ok cert;
  read_file = λ path. ok path;
  has_certs = λ pem. true;
}

abbrev device_config : Config
device_config = record {
  broker = codes "tls://abc-ats.iot.eu-west-1.amazonaws.com:443";
  client_id = codes "device-7";
  username = [];
  password = [];
  keep_alive = 60;
  tls_cert = codes "device.pem";
  tls_key = codes "device.key";
  tls_ca = codes "ca.pem";
  max_packet_size = 131_072;
  event_handler = true;
}

abbrev device_tls : TlsConfig
device_tls = record {
  next_protos = codes "x-amzn-mqtt-ca" ∷ [];
  certificates = codes "device.pem" ∷ [];
  root_cas = some (codes "ca.pem");
}

mqtt_options_lem_example :
    ((non_empty device_config.tls_cert || non_empty device_config.tls_ca) ≡ true
      → (tls : TlsConfig) × (plain_options device_config ++ with_tls device_tls ∷ []
          ≡ plain_options device_config ++ with_tls tls ∷ [])
        × Uses all_there device_config tls)
    × ((non_empty device_config.tls_cert || non_empty device_config.tls_ca) ≡ false
        → plain_options device_config ++ with_tls device_tls ∷ [] ≡ plain_options device_config)
unfolding mqtt_options build_tls_config client_certs root_pool alpn_protocol alpn_of
    is_aws_iot_endpoint split has_suffix text_eq
mqtt_options_lem_example =
    mqtt_options_lem all_there device_config
      (plain_options device_config ++ with_tls device_tls ∷ []) refl

-- A host without a region is taken for one, too.
no_region : is_aws_iot_endpoint (codes "abc.iot.amazonaws.com") ≡ true
unfolding is_aws_iot_endpoint split has_suffix text_eq
no_region = refl
