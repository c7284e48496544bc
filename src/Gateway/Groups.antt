-- ===== src/Gateway/Groups.antt =====
-- What `groupByDevice` collects.
use mqtt_forward.Prelude.{
  if◌then◌else◌, Bool-cases, Text, text_eq, text_eq→eq, Dict, lookup, insert, lookup-insert, Unique,
  insert-Unique, ◌≡◌, refl, sym, ap, ◌∙◌, inl, inr, Bool, true, false, Option, some, List, [], ◌∷◌,
  ◌++◌, append_assoc, append-nil,
}
use mqtt_forward.Client.Listeners.{TcpForward}
use mqtt_forward.Gateway.{Route, forward_of, forwards_in, forwards_at, group_each, group_by_device}

-- The forwards of one device, in the order of the routes.
abbrev pub device_forwards : Text → List Route → List TcpForward
device_forwards device [] = []
device_forwards device (r ∷ rs) =
    if text_eq r.device device
    then forward_of r ∷ device_forwards device rs
    else device_forwards device rs

forwards_at-insert :
    (k device : Text) (l : List TcpForward) (d : Dict (List TcpForward))
    → forwards_at device (insert k l d) ≡ (if text_eq k device then l else forwards_at device d)
forwards_at-insert k device l d =
    ap forwards_in (lookup-insert k device l d) ∙ chosen (text_eq k device) (lookup device d)
  where
    chosen :
        (b : Bool) (o : Option (List TcpForward))
        → forwards_in (if b then some l else o) ≡ (if b then l else forwards_in o)
    chosen true o = refl
    chosen false o = refl

group_each_lem :
    (device : Text) (rs : List Route) (d : Dict (List TcpForward))
    → forwards_at device (group_each rs d) ≡ forwards_at device d ++ device_forwards device rs
unfolding group_each
group_each_lem device [] d = sym (append-nil (forwards_at device d))
group_each_lem device (r ∷ rs) d =
    let l = forwards_at r.device d ++ forward_of r ∷ [] in
    let rest = group_each_lem device rs (insert r.device l d) in
    elim (Bool-cases (text_eq r.device device)) [
      | inl e ↦
          let same : r.device ≡ device = text_eq→eq r.device device e in
          let put_here : forwards_at device (insert r.device l d)
              ≡ forwards_at device d ++ forward_of r ∷ [] =
            forwards_at-insert r.device device l d
            ∙ rw e (ap (λ k. forwards_at k d ++ forward_of r ∷ []) same) in
          rest
          ∙ ap (λ x. x ++ device_forwards device rs) put_here
          ∙ append_assoc (forwards_at device d) (forward_of r ∷ []) (device_forwards device rs)
          ∙ rw e
      | inr e ↦
          let untouched : forwards_at device (insert r.device l d) ≡ forwards_at device d =
            forwards_at-insert r.device device l d ∙ rw e in
          rest ∙ ap (λ x. x ++ device_forwards device rs) untouched ∙ rw e
    ]

group_each-Unique :
    (rs : List Route) (d : Dict (List TcpForward)) → Unique d → Unique (group_each rs d)
unfolding group_each
group_each-Unique [] d u = u
group_each-Unique (r ∷ rs) d u = group_each-Unique rs _ (insert-Unique r.device _ d u)

-- Every device stands once in the result, with exactly the forwards of its routes, in their order.
pub group_by_device_lem :
    (routes : List Route)
    → Unique (group_by_device routes)
      × ((device : Text)
          → forwards_at device (group_by_device routes) ≡ device_forwards device routes)
unfolding group_by_device
group_by_device_lem routes = (
  group_each-Unique routes [] tt,
  λ device. group_each_lem device routes [] ∙ unfold lookup in refl,
)
