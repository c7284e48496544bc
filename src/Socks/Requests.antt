-- ===== src/Socks/Requests.antt =====
-- The requests that the handshake accepts.
use mqtt_forward.Prelude.{
  leb, length, take, drop, length-append, Text, contains, Result, ok, ℕ, ◌+◌, ◌*◌, ◌≡◌, refl, ap,
  subst, true, some, [], ◌∷◌, ◌++◌, arith,
}
use mqtt_forward.Socks.{
  version_5, auth_none, cmd_connect, addr_type_ipv4, addr_type_domain, addr_type_ipv6,
  HandshakeError, read_full, decimal, ipv4_string, ipv6_string, greeting, ipv4_addr, domain_addr,
  ipv6_addr, read_address, read_target, is_addr_type, request, handshake,
}
use mqtt_forward.Forward.{join_host_port}

pub data Address : Type 0 where
  ipv4 : ℕ → ℕ → ℕ → ℕ → Address
  domain : Text → Address
  ipv6 : Text → Address

abbrev pub IsAddress : Address → Type 0
IsAddress (ipv4 a b c d) = Unit
IsAddress (domain name) = Unit
IsAddress (ipv6 bytes) = length bytes ≡ 16

-- An address on the wire, after its type, and as a host.
abbrev pub type_of : Address → ℕ
type_of (ipv4 a b c d) = addr_type_ipv4
type_of (domain name) = addr_type_domain
type_of (ipv6 bytes) = addr_type_ipv6

abbrev pub address_bytes : Address → Text
address_bytes (ipv4 a b c d) = a ∷ b ∷ c ∷ d ∷ []
address_bytes (domain name) = length name ∷ name
address_bytes (ipv6 bytes) = bytes

abbrev pub host_of : Address → Text
host_of (ipv4 a b c d) = ipv4_string a b c d
host_of (domain name) = name
host_of (ipv6 bytes) = ipv6_string bytes

-- A CONNECT request, a greeting before it, and what the client sends after them.
abbrev pub encode_connect : ℕ → Address → ℕ → ℕ → Text → Text
encode_connect reserved addr high low rest =
    version_5 ∷ cmd_connect ∷ reserved ∷ type_of addr ∷ (address_bytes addr ++ (high ∷ low ∷ rest))

abbrev pub encode_request : Text → ℕ → Address → ℕ → ℕ → Text → Text
encode_request methods reserved addr high low rest =
    version_5 ∷ length methods ∷ (methods ++ encode_connect reserved addr high low rest)

take-append : (xs ys : Text) → take (length xs) (xs ++ ys) ≡ xs
take-append [] [] = refl
take-append [] (y ∷ ys) = refl
take-append (x ∷ xs) ys = ap (◌∷◌ x) (take-append xs ys)

drop-append : (xs ys : Text) → drop (length xs) (xs ++ ys) ≡ ys
drop-append [] [] = refl
drop-append [] (y ∷ ys) = refl
drop-append (x ∷ xs) ys = drop-append xs ys

read_full-append : (n : ℕ) (xs ys : Text) → length xs ≡ n → read_full n (xs ++ ys) ≡ some (xs, ys)
unfolding read_full
read_full-append n xs ys e =
    let fits : leb n (length (xs ++ ys)) ≡ true = ground (arith, length-append xs ys) in
    let front : take n (xs ++ ys) ≡ xs =
      subst (λ k. take k (xs ++ ys) ≡ xs) e (take-append xs ys) in
    let back : drop n (xs ++ ys) ≡ ys = subst (λ k. drop k (xs ++ ys) ≡ ys) e (drop-append xs ys) in
    rw (fits, front, back)

read_address_complete :
    (addr : Address) (rest : Text)
    → IsAddress addr
    → read_address (type_of addr) (address_bytes addr ++ rest) ≡ ok (host_of addr, rest)
unfolding read_address ipv4_addr domain_addr ipv6_addr
read_address_complete (ipv4 a b c d) rest h = refl
read_address_complete (domain name) rest h =
    rw (read_full-append (length name) name rest refl, read_address, domain_addr)
read_address_complete (ipv6 bytes) rest h =
    rw (read_full-append 16 bytes rest h, read_address, ipv6_addr)

request_read :
    (reserved type : ℕ) (input host rest : Text)
    → is_addr_type type ≡ true
    → read_address type input ≡ ok (host, rest)
    → request (version_5 ∷ cmd_connect ∷ reserved ∷ type ∷ input) ≡ ([], read_target host rest)
unfolding request
request_read reserved type input host rest known e = rw (e, request) (rw known)

pub type_of-is_addr_type : (addr : Address) → is_addr_type (type_of addr) ≡ true
type_of-is_addr_type (ipv4 a b c d) = refl
type_of-is_addr_type (domain name) = refl
type_of-is_addr_type (ipv6 bytes) = refl

request_complete :
    (reserved : ℕ) (addr : Address) (high low : ℕ) (rest : Text)
    → IsAddress addr
    → request (encode_connect reserved addr high low rest)
      ≡ ([], ok (join_host_port (host_of addr) (decimal (high * 256 + low)), rest))
unfolding read_target
request_complete reserved addr high low rest h =
    request_read reserved (type_of addr) _ (host_of addr) (high ∷ low ∷ rest)
      (type_of-is_addr_type addr) (read_address_complete addr (high ∷ low ∷ rest) h)

greeting_complete :
    (methods rest : Text)
    → greeting (version_5 ∷ length methods ∷ (methods ++ rest)) ≡ ok (methods, rest)
unfolding greeting
greeting_complete methods rest = rw (read_full-append (length methods) methods rest refl, greeting)

handshake_greeted :
    (input methods rest : Text) (r : Text × Result HandshakeError (Text × Text))
    → greeting input ≡ ok (methods, rest)
    → contains methods auth_none ≡ true
    → request rest ≡ r
    → handshake true input ≡ (version_5 ∷ auth_none ∷ r.0, r.1)
unfolding handshake
handshake_greeted input methods rest r e no_auth f =
    subst (λ r. handshake true input ≡ (version_5 ∷ auth_none ∷ r.0, r.1)) f
      (rw (e, handshake) (rw no_auth))

-- A client that offers to go without authentication and asks for a connection to an address of any of
-- the three types gets the greeting answered, and the target that is returned is its host and port; no
-- byte after the request is read.
pub handshake_complete :
    (methods : Text) (reserved : ℕ) (addr : Address) (high low : ℕ) (rest : Text)
    → contains methods auth_none ≡ true
    → IsAddress addr
    → handshake true (encode_request methods reserved addr high low rest) ≡ (
      version_5 ∷ auth_none ∷ [],
      ok (join_host_port (host_of addr) (decimal (high * 256 + low)), rest),
    )
handshake_complete methods reserved addr high low rest no_auth h =
    handshake_greeted (encode_request methods reserved addr high low rest) methods
      (encode_connect reserved addr high low rest) _
      (greeting_complete methods (encode_connect reserved addr high low rest)) no_auth
      (request_complete reserved addr high low rest h)
