-- ===== src/Socks.antt =====
-- internal/socks5/socks5.go: the greeting and the CONNECT request, read from the bytes that come from
-- the connection. Of package net, `IP.String` is written out.
pub mod Requests
pub mod Accepts
pub mod Tests
use mqtt_forward.Prelude.{
  ltb, leb, ◌==◌, if◌then◌else◌, length, take, drop, Text, text_eq, contains, Result, err, ok,
  ◌>>=◌, ◌>>◌, join, ℕ, zero, suc, ◌+◌, ◌-◌, ◌*◌, ◌/◌, ◌%◌, Bool, ◌&&◌, ◌||◌, not, Option, none,
  some, List, [], ◌∷◌, ◌++◌, map,
}
use mqtt_forward.Forward.{join_host_port}

abbrev pub version_5 : ℕ
version_5 = 5

abbrev pub auth_none : ℕ
auth_none = 0

abbrev pub auth_no_acceptable : ℕ
auth_no_acceptable = 255

abbrev pub cmd_connect : ℕ
cmd_connect = 1

abbrev pub addr_type_ipv4 : ℕ
addr_type_ipv4 = 1

abbrev pub addr_type_domain : ℕ
addr_type_domain = 3

abbrev pub addr_type_ipv6 : ℕ
addr_type_ipv6 = 4

abbrev pub reply_success : ℕ
reply_success = 0

abbrev pub reply_general_failure : ℕ
reply_general_failure = 1

abbrev pub reply_connection_refused : ℕ
reply_connection_refused = 5

abbrev pub reply_command_not_supported : ℕ
reply_command_not_supported = 7

pub data HandshakeError : Type 0 where
  read_greeting read_auth_methods no_acceptable_auth write_auth read_request read_addr read_port :
      HandshakeError
  unsupported_version unsupported_request unsupported_command unsupported_addr_type :
      ℕ → HandshakeError

-- `SendFailure`, and `SendSuccess` without an address.
abbrev pub send_failure : ℕ → Text
send_failure code = version_5 ∷ code ∷ 0 ∷ addr_type_ipv4 ∷ 0 ∷ 0 ∷ 0 ∷ 0 ∷ 0 ∷ 0 ∷ []

abbrev pub send_success : Text
send_success = send_failure reply_success

-- `io.ReadFull`: so many bytes, and those after them.
unfoldable pub read_full : ℕ → Text → Option (Text × Text)
read_full n input = if leb n (length input) then some (take n input, drop n input) else none

-- The digit of a number below sixteen, and the digits of a number in a base, of five at most.
abbrev pub digit : ℕ → ℕ
digit n = if ltb n 10 then b'0' + n else b'a' + (n - 10)

unfoldable pub digits : ℕ → ℕ → ℕ → Text
digits zero base n = []
digits (suc fuel) base n =
    let front = digits fuel base (n / base) in
    if ltb n base then digit n ∷ [] else front ++ digit (n % base) ∷ []

-- A number below 65536, which has five decimal digits and four hexadecimal ones at most.
abbrev pub decimal : ℕ → Text
decimal n = digits 5 10 n

abbrev pub hexadecimal : ℕ → Text
hexadecimal n = digits 5 16 n

unfoldable pub ipv4_string : ℕ → ℕ → ℕ → ℕ → Text
unfolding digits join
ipv4_string a b c d = join b'.' (decimal a ∷ decimal b ∷ decimal c ∷ decimal d ∷ [])

-- The pairs of bytes of an IPv6 address, as numbers.
abbrev pub groups : Text → List ℕ
groups [] = []
groups (a ∷ []) = []
groups (a ∷ b ∷ bytes) = (a * 256 + b) ∷ groups bytes

abbrev pub leading_zeros : List ℕ → ℕ
leading_zeros [] = 0
leading_zeros (zero ∷ gs) = suc (leading_zeros gs)
leading_zeros (suc n ∷ gs) = 0

-- The first of the longest runs of zero groups: its place and its length.
abbrev pub longest_run : ℕ → List ℕ → ℕ × ℕ → ℕ × ℕ
longest_run i [] best = best
longest_run i (g ∷ gs) best =
    let run = leading_zeros (g ∷ gs) in
    longest_run (suc i) gs (if ltb 1 run && ltb best.1 run then (i, run) else best)

unfoldable pub ipv6_groups_string : List ℕ → Text
unfolding digits join
ipv6_groups_string gs =
    let (at, run) = longest_run 0 gs (0, 0) in
    if run == 0
    then join b':' (map hexadecimal gs)
    else join b':' (map hexadecimal (take at gs))
      ++ b':' ∷ b':' ∷ join b':' (map hexadecimal (drop (at + run) gs))

-- `IP.String` of sixteen bytes: an IPv4 address in the mapped range is written as such.
unfoldable pub ipv6_string : Text → Text
unfolding ipv4_string ipv6_groups_string text_eq
ipv6_string bytes =
    if text_eq (take 12 bytes) (0 ∷ 0 ∷ 0 ∷ 0 ∷ 0 ∷ 0 ∷ 0 ∷ 0 ∷ 0 ∷ 0 ∷ 255 ∷ 255 ∷ [])
    then mapped (drop 12 bytes)
    else ipv6_groups_string (groups bytes)
  where
    mapped : Text → Text
    mapped (a ∷ b ∷ c ∷ d ∷ _) = ipv4_string a b c d
    mapped (a ∷ b ∷ c ∷ []) = []
    mapped (a ∷ b ∷ []) = []
    mapped (a ∷ []) = []
    mapped [] = []

-- The greeting: the methods that the client offers.
unfoldable pub greeting : Text → Result HandshakeError (Text × Text)
unfolding read_full
greeting [] = err read_greeting
greeting (_ ∷ []) = err read_greeting
greeting (version ∷ count ∷ input) =
    if not (version == version_5)
    then err (unsupported_version version)
    else elim (read_full count input) [
      | none ↦ err read_auth_methods
      | some (methods, rest) ↦ ok (methods, rest)
    ]

-- The three forms of an address, and the address of a request, as a host.
unfoldable pub ipv4_addr : Text → Result HandshakeError (Text × Text)
unfolding ipv4_string
ipv4_addr (a ∷ b ∷ c ∷ d ∷ rest) = ok (ipv4_string a b c d, rest)
ipv4_addr (_ ∷ _ ∷ _ ∷ []) = err read_addr
ipv4_addr (_ ∷ _ ∷ []) = err read_addr
ipv4_addr (_ ∷ []) = err read_addr
ipv4_addr [] = err read_addr

unfoldable pub domain_addr : Text → Result HandshakeError (Text × Text)
unfolding read_full
domain_addr [] = err read_addr
domain_addr (count ∷ input) = elim (read_full count input) [
  | none ↦ err read_addr
  | some (domain, rest) ↦ ok (domain, rest)
]

unfoldable pub ipv6_addr : Text → Result HandshakeError (Text × Text)
unfolding read_full ipv6_string
ipv6_addr input = elim (read_full 16 input) [
  | none ↦ err read_addr
  | some (bytes, rest) ↦ ok (ipv6_string bytes, rest)
]

unfoldable pub read_address : ℕ → Text → Result HandshakeError (Text × Text)
unfolding ipv4_addr domain_addr ipv6_addr
read_address type input =
    if type == addr_type_ipv4
    then ipv4_addr input
    else if type == addr_type_domain
    then domain_addr input
    else if type == addr_type_ipv6
    then ipv6_addr input
    else err (unsupported_addr_type type)

-- The port, after the host: the target, and the bytes after it.
unfoldable pub read_target : Text → Text → Result HandshakeError (Text × Text)
unfolding join_host_port digits
read_target host [] = err read_port
read_target host (_ ∷ []) = err read_port
read_target host (high ∷ low ∷ rest) = ok (join_host_port host (decimal (high * 256 + low)), rest)

-- Whether an address type is one of the three.
abbrev pub is_addr_type : ℕ → Bool
is_addr_type type = type == addr_type_ipv4 || type == addr_type_domain || type == addr_type_ipv6

-- The CONNECT request: what is written before the result, and the result.
unfoldable pub request : Text → Text × Result HandshakeError (Text × Text)
unfolding read_address read_target
request [] = ([], err read_request)
request (_ ∷ []) = ([], err read_request)
request (_ ∷ _ ∷ []) = ([], err read_request)
request (_ ∷ _ ∷ _ ∷ []) = ([], err read_request)
request (version ∷ command ∷ reserved ∷ type ∷ input) =
    if not (version == version_5)
    then ([], err (unsupported_request version))
    else if not (command == cmd_connect)
    then (send_failure reply_command_not_supported, err (unsupported_command command))
    else (
      if is_addr_type type then [] else send_failure reply_general_failure,
      do (host, rest) ← read_address type input; read_target host rest,
    )

-- `Handshake`: what is written to the connection, and the target with the bytes that are not read
-- yet. `writes` tells whether the connection takes the answer to the greeting.
unfoldable pub handshake : Bool → Text → Text × Result HandshakeError (Text × Text)
unfolding greeting request contains
handshake writes input = elim (greeting input) [
  | err e ↦ ([], err e)
  | ok (methods, rest) ↦
      if not (contains methods auth_none)
      then (version_5 ∷ auth_no_acceptable ∷ [], err no_acceptable_auth)
      else if writes
      then (version_5 ∷ auth_none ∷ (request rest).0, (request rest).1)
      else ([], err write_auth)
]
