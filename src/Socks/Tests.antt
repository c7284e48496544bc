-- ===== src/Socks/Tests.antt =====
-- Examples for internal/socks5/socks5.go.
use mqtt_forward.Prelude.{Text, codes, contains, ok, join, ℕ, ◌+◌, ◌*◌, ◌≡◌, refl, true, [], ◌∷◌}
use mqtt_forward.Socks.{
  version_5, auth_none, read_full, digits, decimal, ipv4_string, ipv6_groups_string, greeting,
  ipv4_addr, read_address, read_target, request, handshake,
}
use mqtt_forward.Socks.Requests.{
  Address, domain, IsAddress, host_of, encode_request, handshake_complete,
}
use mqtt_forward.Socks.Accepts.{handshake_sound}
use mqtt_forward.Forward.{join_host_port}

-- A request for port 443 of a host, after which eight is the first byte of the data.
abbrev example_com : Address
example_com = domain (codes "example.com")

abbrev example_request : Text
example_request = encode_request (2 ∷ 0 ∷ []) 0 example_com 1 187 (8 ∷ [])

handshake_complete_example :
    handshake true example_request
    ≡ (version_5 ∷ auth_none ∷ [], ok (codes "example.com:443", 8 ∷ []))
unfolding contains join_host_port digits
handshake_complete_example = handshake_complete (2 ∷ 0 ∷ []) 0 example_com 1 187 (8 ∷ []) refl tt

loopback_request :
    (handshake true (5 ∷ 1 ∷ 0 ∷ 5 ∷ 1 ∷ 0 ∷ 1 ∷ 127 ∷ 0 ∷ 0 ∷ 1 ∷ 0 ∷ 80 ∷ [])).1
    ≡ ok (codes "127.0.0.1:80", [])
unfolding handshake greeting read_full contains request read_address ipv4_addr ipv4_string digits
    join read_target join_host_port
loopback_request = refl

handshake_sound_example :
    ((handshake true (5 ∷ 1 ∷ 0 ∷ 5 ∷ 1 ∷ 0 ∷ 1 ∷ 127 ∷ 0 ∷ 0 ∷ 1 ∷ 0 ∷ 80 ∷ [])).0
      ≡ version_5 ∷ auth_none ∷ [])
    × (true ≡ true)
    × ((methods : Text) × (reserved : ℕ) × (addr : Address) × (high : ℕ) × (low : ℕ) × (contains
            methods auth_none
          ≡ true)
        × (encode_request methods reserved addr high low []
            ≡ 5 ∷ 1 ∷ 0 ∷ 5 ∷ 1 ∷ 0 ∷ 1 ∷ 127 ∷ 0 ∷ 0 ∷ 1 ∷ 0 ∷ 80 ∷ [])
        × (codes "127.0.0.1:80" ≡ join_host_port (host_of addr) (decimal (high * 256 + low)))
        × IsAddress addr)
handshake_sound_example =
    handshake_sound true (5 ∷ 1 ∷ 0 ∷ 5 ∷ 1 ∷ 0 ∷ 1 ∷ 127 ∷ 0 ∷ 0 ∷ 1 ∷ 0 ∷ 80 ∷ [])
      (codes "127.0.0.1:80") [] loopback_request

-- The addresses that Go's documentation gives.
ipv6_string_test :
    ipv6_groups_string (8193 ∷ 3512 ∷ 0 ∷ 0 ∷ 0 ∷ 0 ∷ 0 ∷ 1 ∷ []) ≡ codes "2001:db8::1"
unfolding ipv6_groups_string digits join
ipv6_string_test = refl

ipv6_loopback_test : ipv6_groups_string (0 ∷ 0 ∷ 0 ∷ 0 ∷ 0 ∷ 0 ∷ 0 ∷ 1 ∷ []) ≡ codes "::1"
unfolding ipv6_groups_string digits join
ipv6_loopback_test = refl
