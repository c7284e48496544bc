-- ===== src/Shadow/Reported.antt =====
-- The interfaces that are reported: internal/shadow/network.go, `localInterfaces`.
use mqtt_forward.Prelude.{
  Bool-cases, Option-cases, length, All, Text, text_eq, Dict, insert, Unique, insert-Unique, ◌<◌,
  ◌≡◌, refl, inl, inr, true, false, Option, none, some, List, [], ◌∷◌, arith,
}
use mqtt_forward.Shadow.Network.{Interface, add_interface, add_interfaces, local_interfaces}

-- What an interface is reported with: it is up, is no loopback, and has these addresses, one at least.
abbrev pub Reports : Interface → Text × List Text → Type 0
Reports iface (name, ips) =
    (iface.loopback ≡ false)
    × (iface.up ≡ true)
    × (iface.name ≡ name)
    × (iface.addrs ≡ some ips)
    × (0 < length ips)

module _ {κ} (P : Text × List Text → Type κ) where
  insert-All :
      (k : Text) (v : List Text) (m : Dict (List Text)) → P (k, v) → All P m → All P (insert k v m)
  unfolding insert
  insert-All k v [] h a = (h, tt)
  insert-All k v ((j, w) ∷ m) h a = elim (Bool-cases (text_eq j k)) [
    | inl e ↦ rw e (h, a.1)
    | inr e ↦ rw e (a.0, insert-All k v m h a.1)
  ]

  add_interface-All :
      (iface : Interface) (m : Dict (List Text))
      → ((e : Text × List Text) → Reports iface e → P e)
      → All P m
      → All P (add_interface iface m)
  unfolding add_interface
  add_interface-All iface m h a = elim (Bool-cases iface.loopback) [
    | inl l ↦ rw l a
    | inr l ↦ elim (Bool-cases iface.up) [
      | inr u ↦ rw (l, u) a
      | inl u ↦ elim (Option-cases iface.addrs) [
        | inl e ↦ rw (l, u) (rw (e, add_interface) a)
        | inr ([], e) ↦ rw (l, u) (rw (e, add_interface) a)
        | inr (ip ∷ ips, e) ↦
            rw (l, u)
              (rw (e, add_interface)
                (insert-All iface.name (ip ∷ ips) m
                  (h (iface.name, ip ∷ ips) (l, u, refl, e, omega arith)) a))
      ]
    ]
  ]

  add_interfaces-All :
      (ifaces : List Interface) (m : Dict (List Text))
      → All (λ iface. (e : Text × List Text) → Reports iface e → P e) ifaces
      → All P m
      → All P (add_interfaces ifaces m)
  unfolding add_interfaces
  add_interfaces-All [] m h a = a
  add_interfaces-All (iface ∷ ifaces) m h a =
      add_interfaces-All ifaces (add_interface iface m) h.1 (add_interface-All iface m h.0 a)

  -- Every entry that is reported is the report of one of the interfaces.
  pub local_interfaces-All :
      (ifaces : List Interface)
      → All (λ iface. (e : Text × List Text) → Reports iface e → P e) ifaces
      → All P (local_interfaces (some ifaces))
  unfolding local_interfaces
  local_interfaces-All ifaces h = add_interfaces-All ifaces [] h tt

-- No interface is reported twice.
add_interface-Unique :
    (iface : Interface) (m : Dict (List Text)) → Unique m → Unique (add_interface iface m)
unfolding add_interface
add_interface-Unique iface m a = elim (Bool-cases iface.loopback) [
  | inl l ↦ rw l a
  | inr l ↦ elim (Bool-cases iface.up) [
    | inr u ↦ rw (l, u) a
    | inl u ↦ elim (Option-cases iface.addrs) [
      | inl e ↦ rw (l, u) (rw (e, add_interface) a)
      | inr ([], e) ↦ rw (l, u) (rw (e, add_interface) a)
      | inr (ip ∷ ips, e) ↦
          rw (l, u) (rw (e, add_interface) (insert-Unique iface.name (ip ∷ ips) m a))
    ]
  ]
]

add_interfaces-Unique :
    (ifaces : List Interface) (m : Dict (List Text)) → Unique m → Unique (add_interfaces ifaces m)
unfolding add_interfaces
add_interfaces-Unique [] m u = u
add_interfaces-Unique (iface ∷ ifaces) m u =
    add_interfaces-Unique ifaces (add_interface iface m) (add_interface-Unique iface m u)

pub local_interfaces-Unique : (ifaces : Option (List Interface)) → Unique (local_interfaces ifaces)
unfolding local_interfaces
local_interfaces-Unique none = tt
local_interfaces-Unique (some ifaces) = add_interfaces-Unique ifaces [] tt
