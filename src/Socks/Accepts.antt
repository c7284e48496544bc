-- ===== src/Socks/Accepts.antt =====
-- The handshake accepts nothing but requests.
use mqtt_forward.Prelude.{
  leb, leb→le, Bool-cases, Option-cases, length, take, drop, take-append-drop, length-take, Text,
  contains, ok, ◌>>=◌, >>=-ok, Result-cases, ℕ, ◌+◌, ◌*◌, ◌≡◌, refl, sym, ap, ◌∙◌, subst, inl, inr,
  Bool, true, false, some, [], ◌∷◌, ◌++◌, arith, ℕ_discrete,
}
use mqtt_forward.Socks.{
  version_5, auth_none, cmd_connect, addr_type_ipv4, addr_type_domain, addr_type_ipv6, read_full,
  decimal, greeting, ipv4_addr, domain_addr, ipv6_addr, read_address, read_target, is_addr_type,
  request, handshake,
}
use mqtt_forward.Socks.Requests.{
  Address, ipv4, domain, ipv6, IsAddress, type_of, address_bytes, host_of, encode_connect,
  encode_request, type_of-is_addr_type,
}
use mqtt_forward.Forward.{join_host_port}

read_full_sound :
    (n : ℕ) (input xs ys : Text)
    → read_full n input ≡ some (xs, ys)
    → (length xs ≡ n) × (xs ++ ys ≡ input)
unfolding read_full
read_full_sound n input xs ys h = elim (Bool-cases (leb n (length input))) [
  | inr short ↦ let failed = rw short at h in absurd cc
  | inl long ↦
      let after = rw long at h in
      let front : take n input ≡ xs = cc in
      let back : drop n input ≡ ys = cc in
      let le = leb→le n (length input) long in
      (
        ap length (sym front) ∙ omega (arith, length-take n input),
        ap (λ t. t ++ ys) (sym front)
            ∙ ap (λ t. take n input ++ t) (sym back)
            ∙ take-append-drop n input,
      )
]

-- An address of a type was read from the bytes.
abbrev IsAddressOf : ℕ → Text → Text → Text → Type 0
IsAddressOf type input host rest =
    (addr : Address) × (type_of addr ≡ type)
    × (address_bytes addr ++ rest ≡ input)
    × (host_of addr ≡ host)
    × IsAddress addr

ipv4_addr_sound :
    (input host rest : Text)
    → ipv4_addr input ≡ ok (host, rest)
    → IsAddressOf addr_type_ipv4 input host rest
unfolding ipv4_addr
ipv4_addr_sound (a ∷ b ∷ c ∷ d ∷ input) host rest h =
    let same : input ≡ rest = cc in
    (ipv4 a b c d, refl, ap (λ t. a ∷ b ∷ c ∷ d ∷ t) (sym same), cc, tt)
ipv4_addr_sound (_ ∷ _ ∷ _ ∷ []) host rest h = cc
ipv4_addr_sound (_ ∷ _ ∷ []) host rest h = cc
ipv4_addr_sound (_ ∷ []) host rest h = cc
ipv4_addr_sound [] host rest h = cc

domain_addr_sound :
    (input host rest : Text)
    → domain_addr input ≡ ok (host, rest)
    → IsAddressOf addr_type_domain input host rest
unfolding domain_addr
domain_addr_sound [] host rest h = cc
domain_addr_sound (count ∷ input) host rest h = elim (Option-cases (read_full count input)) [
  | inl e ↦ let failed = rw (e, domain_addr) at h in absurd cc
  | inr ((name, left), e) ↦
      let after = rw (e, domain_addr) at h in
      let (size, spelled) = read_full_sound count input name left e in
      let same : left ≡ rest = cc in
      (
        domain name,
        refl,
        ap (λ n. n ∷ (name ++ rest)) size
            ∙ ap (λ t. count ∷ t) (ap (λ t. name ++ t) (sym same) ∙ spelled),
        cc,
        tt,
      )
]

ipv6_addr_sound :
    (input host rest : Text)
    → ipv6_addr input ≡ ok (host, rest)
    → IsAddressOf addr_type_ipv6 input host rest
unfolding ipv6_addr
ipv6_addr_sound input host rest h = elim (Option-cases (read_full 16 input)) [
  | inl e ↦ let failed = rw (e, ipv6_addr) at h in absurd cc
  | inr ((bytes, left), e) ↦
      let after = rw (e, ipv6_addr) at h in
      let (size, spelled) = read_full_sound 16 input bytes left e in
      let same : left ≡ rest = cc in
      (ipv6 bytes, refl, ap (λ t. bytes ++ t) (sym same) ∙ spelled, cc, size)
]

read_address_sound :
    (type : ℕ) (input host rest : Text)
    → read_address type input ≡ ok (host, rest)
    → IsAddressOf type input host rest
unfolding read_address
read_address_sound type input host rest h = elim (ℕ_discrete type addr_type_ipv4) [
  | yes e ↦
      subst (λ t. IsAddressOf t input host rest) (sym e)
        (ipv4_addr_sound input host rest (ground arith))
  | no n ↦ elim (ℕ_discrete type addr_type_domain) [
    | yes e ↦
        subst (λ t. IsAddressOf t input host rest) (sym e)
          (domain_addr_sound input host rest (ground arith))
    | no m ↦ elim (ℕ_discrete type addr_type_ipv6) [
      | yes e ↦
          subst (λ t. IsAddressOf t input host rest) (sym e)
            (ipv6_addr_sound input host rest (ground arith))
      | no k ↦ absurd (ground arith)
    ]
  ]
]

read_target_sound :
    (host input target rest : Text)
    → read_target host input ≡ ok (target, rest)
    → (high : ℕ) × (low : ℕ) × (input ≡ high ∷ low ∷ rest)
      × (target ≡ join_host_port host (decimal (high * 256 + low)))
unfolding read_target
read_target_sound host [] target rest h = cc
read_target_sound host (_ ∷ []) target rest h = cc
read_target_sound host (high ∷ low ∷ input) target rest h =
    let same : input ≡ rest = cc in (high, low, ap (λ t. high ∷ low ∷ t) same, cc)

-- A request was read from the bytes, and the target from the request.
abbrev IsRequest : Text → Text → Text → Type 0
IsRequest input target rest =
    (reserved : ℕ) × (addr : Address) × (high : ℕ) × (low : ℕ) × (encode_connect reserved addr high
        low rest
      ≡ input)
    × (target ≡ join_host_port (host_of addr) (decimal (high * 256 + low)))
    × IsAddress addr

-- A request of the right version for a connection, whose result is a target.
read_chain_sound :
    (reserved type : ℕ) (input target rest : Text)
    → (read_address type input >>= λ r. read_target r.0 r.1) ≡ ok (target, rest)
    → IsRequest (version_5 ∷ cmd_connect ∷ reserved ∷ type ∷ input) target rest
read_chain_sound reserved type input target rest h =
    let ((host, left), e, f) = >>=-ok (read_address type input) (λ r. read_target r.0 r.1) h in
    let (addr, same_type, spelled, same_host, valid) = read_address_sound type input host left e in
    let (high, low, port, joined) = read_target_sound host left target rest f in
    (
      reserved,
      addr,
      high,
      low,
      ap (λ t. version_5 ∷ cmd_connect ∷ reserved ∷ t ∷ (address_bytes addr ++ (high ∷ low ∷ rest)))
            same_type
          ∙ ap (λ t. version_5 ∷ cmd_connect ∷ reserved ∷ type ∷ t)
              (ap (λ t. address_bytes addr ++ t) (sym port) ∙ spelled),
      joined ∙ ap (λ t. join_host_port t (decimal (high * 256 + low))) (sym same_host),
      valid,
    )

read_address-is_addr_type :
    (type : ℕ) (input : Text) (r : Text × Text)
    → read_address type input ≡ ok r
    → is_addr_type type ≡ true
read_address-is_addr_type type input (host, rest) h =
    let (addr, same, _, _, _) = read_address_sound type input host rest h in
    subst (λ t. is_addr_type t ≡ true) same (type_of-is_addr_type addr)

request_sound :
    (input target rest : Text)
    → (request input).1 ≡ ok (target, rest)
    → ((request input).0 ≡ []) × IsRequest input target rest
unfolding request
request_sound [] target rest h = cc
request_sound (_ ∷ []) target rest h = cc
request_sound (_ ∷ _ ∷ []) target rest h = cc
request_sound (_ ∷ _ ∷ _ ∷ []) target rest h = cc
request_sound (version ∷ command ∷ reserved ∷ type ∷ input) target rest h =
    elim (ℕ_discrete version version_5) [
      | no n ↦ absurd (ground arith)
      | yes same_version ↦ elim (ℕ_discrete command cmd_connect) [
        | no n ↦ absurd (ground arith)
        | yes same_command ↦
            let chain : (read_address type input >>= λ r. read_target r.0 r.1) ≡ ok (target, rest) =
              ground arith in
            let (r, e, _) = >>=-ok (read_address type input) (λ r. read_target r.0 r.1) chain in
            let known = read_address-is_addr_type type input r e in
            (
              ground arith,
              rw (same_version, same_command)
                  (read_chain_sound reserved type input target rest chain),
            )
      ]
    ]

greeting_sound :
    (input methods rest : Text)
    → greeting input ≡ ok (methods, rest)
    → version_5 ∷ length methods ∷ (methods ++ rest) ≡ input
unfolding greeting
greeting_sound [] methods rest h = cc
greeting_sound (_ ∷ []) methods rest h = cc
greeting_sound (version ∷ count ∷ input) methods rest h = elim (ℕ_discrete version version_5) [
  | no n ↦ absurd (ground arith)
  | yes same ↦ elim (Option-cases (read_full count input)) [
    | inl e ↦ absurd (ground arith)
    | inr ((ms, left), e) ↦
        let (size, spelled) = read_full_sound count input ms left e in ground arith
  ]
]

-- Whatever bytes come, the handshake returns a target only for a greeting that offers to go without
-- authentication and a CONNECT request to an address of one of the three types; the target is the
-- address's host with the port, exactly the bytes of the two are read, and what was written to the
-- connection is that no authentication is asked for, and nothing else.
pub handshake_sound :
    (writes : Bool) (input target rest : Text)
    → (handshake writes input).1 ≡ ok (target, rest)
    → ((handshake writes input).0 ≡ version_5 ∷ auth_none ∷ [])
      × (writes ≡ true)
      × ((methods : Text) × (reserved : ℕ) × (addr : Address) × (high : ℕ) × (low : ℕ) × (contains
              methods auth_none
            ≡ true)
          × (encode_request methods reserved addr high low rest ≡ input)
          × (target ≡ join_host_port (host_of addr) (decimal (high * 256 + low)))
          × IsAddress addr)
unfolding handshake
handshake_sound false input target rest h = elim (Result-cases (greeting input)) [
  | inl (e, f) ↦ let failed = rw (f, handshake) at h in absurd cc
  | inr ((methods, left), f) ↦ elim (Bool-cases (contains methods auth_none)) [
    | inl c ↦ let failed = rw (f, handshake, c) at h in absurd cc
    | inr c ↦ let failed = rw (f, handshake, c) at h in absurd cc
  ]
]
handshake_sound true input target rest h = elim (Result-cases (greeting input)) [
  | inl (e, f) ↦ let failed = rw (f, handshake) at h in absurd cc
  | inr ((methods, left), f) ↦ elim (Bool-cases (contains methods auth_none)) [
    | inr c ↦ let failed = rw (f, handshake, c) at h in absurd cc
    | inl c ↦
        let asked = rw (f, handshake, c) at h in
        let (quiet, (reserved, addr, high, low, spelled, joined, valid)) =
          request_sound left target rest asked in
        let whole =
          ap (λ t. version_5 ∷ length methods ∷ (methods ++ t)) spelled
          ∙ greeting_sound input methods left f in
        (
          rw (f, handshake, c) (ap (λ t. version_5 ∷ auth_none ∷ t) quiet),
          refl,
          (methods, reserved, addr, high, low, c, whole, joined, valid),
        )
  ]
]
