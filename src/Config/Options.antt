-- ===== src/Config/Options.antt =====
-- What the options for the MQTT client say of TLS.
use mqtt_forward.Prelude.{
  Bool-cases, Option-cases, Text, codes, text_eq, text_eq_iff, ok, Result-cases, ◌≡◌, refl, sym, ap,
  ◌∙◌, subst, ◌↔◌, inl, inr, true, false, ◌||◌, Option, some, List, [], ◌∷◌, ◌++◌, arith,
}
use mqtt_forward.Config.{
  Config, Url, System, TlsConfig, MqttOption, with_tls, non_empty, is_aws_iot_endpoint,
  is_tls_scheme, alpn_of, alpn_protocol, protos_of, client_certs, root_pool, build_tls_config,
  plain_options, mqtt_options,
}
use mqtt_forward.Config.Endpoint.{IsIotHost, is_aws_iot_endpoint_iff}

-- The broker is a host that the code takes for an AWS IoT endpoint, on port 443, over TLS.
abbrev pub IsAwsTls : System → Config → Type 0
IsAwsTls sys c =
    (u : Url) × (sys.parse_url c.broker ≡ some u)
    × (u.port ≡ codes "443")
    × IsIotHost u.hostname
    × (is_tls_scheme u.scheme ≡ true)

alpn_of_iff :
    (u : Url)
    → (protos_of (alpn_of u) ≡ codes "x-amzn-mqtt-ca" ∷ [])
      ↔ ((u.port ≡ codes "443") × IsIotHost u.hostname × (is_tls_scheme u.scheme ≡ true))
unfolding alpn_of
alpn_of_iff u =
    let port = text_eq_iff u.port (codes "443") in
    let host = is_aws_iot_endpoint_iff u.hostname in
    elim (Bool-cases (text_eq u.port (codes "443"))) [
      | inr a ↦ rw a (λ h. cc, λ (p, _, _). ground (arith, port.1 p))
      | inl a ↦ elim (Bool-cases (is_aws_iot_endpoint u.hostname)) [
        | inr b ↦ rw (a, b) (λ h. cc, λ (_, q, _). ground (arith, host.1 q))
        | inl b ↦ elim (Bool-cases (is_tls_scheme u.scheme)) [
          | inr d ↦ rw (a, b, d) (λ h. cc, λ (_, _, r). cc)
          | inl d ↦ rw (a, b, d) (λ h. (port.0 a, host.0 b, refl), λ h. refl)
        ]
      ]
    ]

alpn_protocol_iff :
    (sys : System) (c : Config)
    → (protos_of (alpn_protocol sys c) ≡ codes "x-amzn-mqtt-ca" ∷ []) ↔ IsAwsTls sys c
unfolding alpn_protocol
alpn_protocol_iff sys c = elim (Option-cases (sys.parse_url c.broker)) [
  | inl e ↦ rw (e, alpn_protocol) (λ h. cc, λ (u, e', _, _, _). cc)
  | inr (u, e) ↦
      let same = alpn_of_iff u in
      rw (e, alpn_protocol)
        (
          λ h. let (p, q, r) = same.0 h in (u, refl, p, q, r),
          λ (u', e', p, q, r).
              let back : u' ≡ u = cc in
              same.1 (
                subst
                  (λ u.
                    (u.port ≡ codes "443") × IsIotHost u.hostname × (is_tls_scheme u.scheme ≡ true))
                  back (p, q, r)),
        )
]

-- A TLS configuration that uses what is configured.
abbrev pub Uses : System → Config → TlsConfig → Type 0
Uses sys c tls =
    (non_empty c.tls_cert ≡ true
      → non_empty c.tls_key ≡ true
      → (cert : Text) × (sys.load_key_pair c.tls_cert c.tls_key ≡ ok cert)
        × (tls.certificates ≡ cert ∷ []))
    × (non_empty c.tls_ca ≡ true
        → (pem : Text) × (sys.read_file c.tls_ca ≡ ok pem)
          × (sys.has_certs pem ≡ true)
          × (tls.root_cas ≡ some pem))
    × ((tls.next_protos ≡ codes "x-amzn-mqtt-ca" ∷ []) ↔ IsAwsTls sys c)

client_certs_lem :
    (sys : System) (c : Config) (certs : List Text)
    → client_certs sys c ≡ ok certs
    → non_empty c.tls_cert ≡ true
    → non_empty c.tls_key ≡ true
    → (cert : Text) × (sys.load_key_pair c.tls_cert c.tls_key ≡ ok cert) × (certs ≡ cert ∷ [])
unfolding client_certs
client_certs_lem sys c certs h a b = elim (Result-cases (sys.load_key_pair c.tls_cert c.tls_key)) [
  | inl (x, e) ↦ let h' = rw (a, b) at h in let h2 = rw (e, client_certs) at h' in absurd cc
  | inr (cert, e) ↦
      let h' = rw (a, b) at h in
      let h2 = rw (e, client_certs) at h' in let same : certs ≡ cert ∷ [] = cc in (cert, e, same)
]

root_pool_lem :
    (sys : System) (c : Config) (pool : Option Text)
    → root_pool sys c ≡ ok pool
    → non_empty c.tls_ca ≡ true
    → (pem : Text) × (sys.read_file c.tls_ca ≡ ok pem)
      × (sys.has_certs pem ≡ true)
      × (pool ≡ some pem)
unfolding root_pool
root_pool_lem sys c pool h a = elim (Result-cases (sys.read_file c.tls_ca)) [
  | inl (x, e) ↦ let h' = rw (a) at h in let h2 = rw (e, root_pool) at h' in absurd cc
  | inr (pem, e) ↦
      let h' = rw (a) at h in
      let h2 = rw (e, root_pool) at h' in
      elim (Bool-cases (sys.has_certs pem)) [
        | inl ok_pem ↦
            let h3 = rw ok_pem at h2 in let same : pool ≡ some pem = cc in (pem, e, ok_pem, same)
        | inr bad ↦ let h3 = rw bad at h2 in absurd cc
      ]
]

build_tls_config-ok :
    (sys : System) (c : Config) (tls : TlsConfig)
    → build_tls_config sys c ≡ ok tls
    → (client_certs sys c ≡ ok tls.certificates)
      × (root_pool sys c ≡ ok tls.root_cas)
      × (tls.next_protos ≡ protos_of (alpn_protocol sys c))
unfolding build_tls_config
build_tls_config-ok sys c tls h = elim (Result-cases (client_certs sys c)) [
  | inl (x, e) ↦ let h' = rw e at h in absurd cc
  | inr (certs, e) ↦ elim (Result-cases (root_pool sys c)) [
    | inl (x, f) ↦ let h' = rw (e, f) at h in absurd cc
    | inr (pool, f) ↦
        let h' = rw (e, f) at h in
        let made : TlsConfig = record {
          next_protos = protos_of (alpn_protocol sys c);
          certificates = certs;
          root_cas = pool;
        } in
        let same : made ≡ tls = cc in
        (
          e ∙ ap (λ t. ok t.certificates) same,
          f ∙ ap (λ t. ok t.root_cas) same,
          ap (λ t. t.next_protos) (sym same),
        )
  ]
]

build_tls_config-Uses :
    (sys : System) (c : Config) (tls : TlsConfig) → build_tls_config sys c ≡ ok tls → Uses sys c tls
build_tls_config-Uses sys c tls h =
    let (certs, pool, protos) = build_tls_config-ok sys c tls h in
    (
      client_certs_lem sys c tls.certificates certs,
      root_pool_lem sys c tls.root_cas pool,
      rw protos (alpn_protocol_iff sys c),
    )

-- If there are options at all, then with a certificate or a CA configured they end with a TLS
-- configuration which presents the key pair that is configured and trusts only the CA that is configured; a
-- file that does not load is an error, never a weaker configuration. The configuration asks for the protocol
-- `x-amzn-mqtt-ca` exactly if the broker is on port 443 over TLS and its host has four labels at least, of
-- which the second is `iot` and the last two are `amazonaws.com`. That is more hosts than the documented
-- form `*.iot.*.amazonaws.com` has: the region may be missing, as in `abc.iot.amazonaws.com`. Without a
-- certificate and a CA there is no TLS configuration.
pub mqtt_options_lem :
    (sys : System) (c : Config) (opts : List MqttOption)
    → mqtt_options sys c ≡ ok opts
    → ((non_empty c.tls_cert || non_empty c.tls_ca) ≡ true
        → (tls : TlsConfig) × (opts ≡ plain_options c ++ with_tls tls ∷ []) × Uses sys c tls)
      × ((non_empty c.tls_cert || non_empty c.tls_ca) ≡ false → opts ≡ plain_options c)
unfolding mqtt_options
mqtt_options_lem sys c opts h = (
  λ a.
      let h' = rw a at h in
      elim (Result-cases (build_tls_config sys c)) [
        | inl (x, e) ↦ let h2 = rw (e, mqtt_options) at h' in absurd cc
        | inr (tls, e) ↦
            let h2 = rw (e, mqtt_options) at h' in
            let same : opts ≡ plain_options c ++ with_tls tls ∷ [] = cc in
            (tls, same, build_tls_config-Uses sys c tls e)
      ],
  λ a. let h' = rw a at h in cc,
)
