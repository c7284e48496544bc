-- ===== src/Client/Status/Table.antt =====
-- Which devices the table of `RunStatus` has.
use mqtt_forward.Prelude.{
  if◌then◌else◌, Bool-cases, Option-cases, is_some, Text, text_eq, text_eq_self, text_eq→eq,
  text_eq_iff, Dict, lookup, lookup-insert, Unique, insert-Unique, mem, Result, err, ok, text_le,
  sort_insert, sort_strings, IsRising, IsDistinct, sort_strings-IsRising, ℕ, ◌-◌, ◌≡◌, refl, sym,
  ap, ◌∙◌, subst, inl, inr, ◌&&◌, Option, none, some, List, [], ◌∷◌, arith,
}
use mqtt_forward.Client.Status.{
  DeviceStatus, Reply, is_pong, put_first, take_reply, handle_reply, handle_replies, insert_sorted,
  sort_devices, run_status,
}
use mqtt_forward.Topic.{ParsedTopic, TopicError, parse_topic}
use mqtt_forward.Transport.{ControlMessage}

abbrev pub ids : Dict DeviceStatus → List Text
ids [] = []
ids ((id, s) ∷ l) = id ∷ ids l

-- The first of the replies that is a pong of the device to this ping.
abbrev pub from_parts :
    Text
    → Text
    → ℕ
    → ℕ
    → Result TopicError ParsedTopic
    → Option ControlMessage
    → Option DeviceStatus
from_parts id ping_id sent_at now (err _) message = none
from_parts id ping_id sent_at now (ok parsed) none = none
from_parts id ping_id sent_at now (ok parsed) (some msg) =
    if is_pong ping_id msg && text_eq parsed.device_id id
    then some (record { version = msg.version; arch = msg.arch; rtt = now - sent_at })
    else none

abbrev pub from_device : Text → Text → ℕ → Reply → Option DeviceStatus
from_device id ping_id sent_at r =
    from_parts id ping_id sent_at r.at (parse_topic r.topic) r.message

abbrev pub or_else : Option DeviceStatus → Option DeviceStatus → Option DeviceStatus
or_else none o = o
or_else (some s) o = some s

abbrev pub first_pong : Text → Text → ℕ → List Reply → Option DeviceStatus
first_pong id ping_id sent_at [] = none
first_pong id ping_id sent_at (r ∷ rs) =
    or_else (from_device id ping_id sent_at r) (first_pong id ping_id sent_at rs)

ids-insert_sorted :
    (e : Text × DeviceStatus) (l : Dict DeviceStatus)
    → ids (insert_sorted e l) ≡ sort_insert e.0 (ids l)
unfolding insert_sorted sort_insert
ids-insert_sorted e [] = refl
ids-insert_sorted e (f ∷ l) = elim (Bool-cases (text_le e.0 f.0)) [
  | inl h ↦ rw h refl
  | inr h ↦ rw h (ap (◌∷◌ (f.0)) (ids-insert_sorted e l))
]

ids-sort_devices : (l : Dict DeviceStatus) → ids (sort_devices l) ≡ sort_strings (ids l)
unfolding sort_devices sort_strings
ids-sort_devices [] = refl
ids-sort_devices (e ∷ l) =
    ids-insert_sorted e (sort_devices l) ∙ ap (sort_insert (e.0)) (ids-sort_devices l)

or_else-none : (o : Option DeviceStatus) → or_else o none ≡ o
or_else-none none = refl
or_else-none (some s) = refl

or_else_assoc : (o p q : Option DeviceStatus) → or_else (or_else o p) q ≡ or_else o (or_else p q)
or_else_assoc none p q = refl
or_else_assoc (some s) p q = refl

put_first-lookup_self :
    (k : Text) (s : DeviceStatus) (m : Dict DeviceStatus)
    → lookup k (put_first k s m) ≡ or_else (lookup k m) (if text_eq k k then some s else none)
unfolding put_first
put_first-lookup_self k s m = elim (Option-cases (lookup k m)) [
  | inl h ↦ rw h (lookup-insert k k s m ∙ rw (text_eq_self k) refl)
  | inr (s', h) ↦ rw h h
]

put_first-lookup :
    (k j : Text) (s : DeviceStatus) (m : Dict DeviceStatus)
    → lookup j (put_first k s m) ≡ or_else (lookup j m) (if text_eq k j then some s else none)
unfolding put_first
put_first-lookup k j s m = elim (Bool-cases (text_eq k j)) [
  | inl e ↦
      subst
        (λ j.
          lookup j (put_first k s m) ≡ or_else (lookup j m) (if text_eq k j then some s else none))
        (text_eq→eq k j e) (same_key k s m)
  | inr e ↦ elim (Option-cases (lookup k m)) [
    | inl h ↦ rw (h, e) (lookup-insert k j s m ∙ rw e (sym (or_else-none (lookup j m))))
    | inr (s', h) ↦ rw (h, e) (sym (or_else-none (lookup j m)))
  ]
]
  where
    same_key :
        (k : Text) (s : DeviceStatus) (m : Dict DeviceStatus)
        → lookup k (put_first k s m) ≡ or_else (lookup k m) (if text_eq k k then some s else none)
    same_key k s m = put_first-lookup_self k s m

take_reply-lookup :
    (id ping_id : Text) (sent_at now : ℕ) (parsed : Result TopicError ParsedTopic)
    (message : Option ControlMessage) (m : Dict DeviceStatus)
    → lookup id (take_reply ping_id sent_at now parsed message m)
      ≡ or_else (lookup id m) (from_parts id ping_id sent_at now parsed message)
unfolding take_reply
take_reply-lookup id ping_id sent_at now (err x) message m = sym (or_else-none (lookup id m))
take_reply-lookup id ping_id sent_at now (ok p) none m = sym (or_else-none (lookup id m))
take_reply-lookup id ping_id sent_at now (ok p) (some msg) m =
    elim (Bool-cases (is_pong ping_id msg)) [
      | inr other ↦ rw other (sym (or_else-none (lookup id m)))
      | inl ours ↦ rw ours (put_first-lookup p.device_id id _ m)
    ]

handle_reply-lookup :
    (id ping_id : Text) (sent_at : ℕ) (r : Reply) (m : Dict DeviceStatus)
    → lookup id (handle_reply ping_id sent_at r m)
      ≡ or_else (lookup id m) (from_device id ping_id sent_at r)
unfolding handle_reply
handle_reply-lookup id ping_id sent_at r m =
    take_reply-lookup id ping_id sent_at r.at (parse_topic r.topic) r.message m

handle_replies-lookup :
    (id ping_id : Text) (sent_at : ℕ) (rs : List Reply) (m : Dict DeviceStatus)
    → lookup id (handle_replies ping_id sent_at rs m)
      ≡ or_else (lookup id m) (first_pong id ping_id sent_at rs)
unfolding handle_replies
handle_replies-lookup id ping_id sent_at [] m = sym (or_else-none (lookup id m))
handle_replies-lookup id ping_id sent_at (r ∷ rs) m =
    handle_replies-lookup id ping_id sent_at rs (handle_reply ping_id sent_at r m)
    ∙ ap (λ o. or_else o (first_pong id ping_id sent_at rs))
        (handle_reply-lookup id ping_id sent_at r m)
    ∙ or_else_assoc (lookup id m) _ _

handle_reply-Unique :
    (ping_id : Text) (sent_at now : ℕ) (parsed : Result TopicError ParsedTopic)
    (message : Option ControlMessage) (m : Dict DeviceStatus)
    → Unique m
    → Unique (take_reply ping_id sent_at now parsed message m)
unfolding take_reply put_first
handle_reply-Unique ping_id sent_at now (err x) message m u = u
handle_reply-Unique ping_id sent_at now (ok p) none m u = u
handle_reply-Unique ping_id sent_at now (ok p) (some msg) m u =
    let status : DeviceStatus = record {
      version = msg.version;
      arch = msg.arch;
      rtt = now - sent_at;
    } in
    ground (arith, insert-Unique p.device_id status m u)

handle_replies-Unique :
    (ping_id : Text) (sent_at : ℕ) (rs : List Reply) (m : Dict DeviceStatus)
    → Unique m
    → Unique (handle_replies ping_id sent_at rs m)
unfolding handle_replies handle_reply
handle_replies-Unique ping_id sent_at [] m u = u
handle_replies-Unique ping_id sent_at (r ∷ rs) m u =
    handle_replies-Unique ping_id sent_at rs (handle_reply ping_id sent_at r m)
      (handle_reply-Unique ping_id sent_at r.at (parse_topic r.topic) r.message m u)

ids-mem : (k : Text) (m : Dict DeviceStatus) → mem k (ids m) ≡ is_some (lookup k m)
unfolding mem lookup
ids-mem k [] = refl
ids-mem k ((j, s) ∷ m) = ground (arith, ids-mem k m)

ids-IsDistinct : (m : Dict DeviceStatus) → Unique m → IsDistinct (ids m)
ids-IsDistinct [] u = tt
ids-IsDistinct ((k, s) ∷ m) u = (ids-mem k m ∙ ap is_some u.0, ids-IsDistinct m u.1)

insert_sorted-lookup :
    (k j : Text) (s : DeviceStatus) (l : Dict DeviceStatus)
    → lookup k l ≡ none
    → lookup j (insert_sorted (k, s) l) ≡ (if text_eq k j then some s else lookup j l)
unfolding insert_sorted lookup
insert_sorted-lookup k j s [] h = refl
insert_sorted-lookup k j s ((i, t) ∷ l) h =
    ground (arith, insert_sorted-lookup k j s l, text_eq_iff i k, text_eq_iff i j, text_eq_iff k j)

sort_devices-lookup :
    (j : Text) (l : Dict DeviceStatus) → Unique l → lookup j (sort_devices l) ≡ lookup j l
unfolding sort_devices lookup
sort_devices-lookup j [] u = refl
sort_devices-lookup j ((k, s) ∷ l) u =
    insert_sorted-lookup k j s (sort_devices l) (sort_devices-lookup k l u.1 ∙ u.0)
    ∙ ap (λ o. if text_eq k j then some s else o) (sort_devices-lookup j l u.1)

-- The table of a status request has its devices in strictly rising order of their ids, none twice; and the
-- entry of a device is what its first pong to this request says, whatever else comes. A device that
-- sends none is not in the table.
pub run_status_lem :
    (ping_id : Text) (sent_at : ℕ) (replies : List Reply)
    → let table = sort_devices (run_status ping_id sent_at replies) in
      IsRising (ids table) × ((id : Text) → lookup id table ≡ first_pong id ping_id sent_at replies)
unfolding run_status
run_status_lem ping_id sent_at replies =
    let devices = handle_replies ping_id sent_at replies [] in
    let u = handle_replies-Unique ping_id sent_at replies [] tt in
    (
      subst IsRising (sym (ids-sort_devices devices))
          (sort_strings-IsRising (ids devices) (ids-IsDistinct devices u)),
      λ id.
          sort_devices-lookup id devices u
          ∙ handle_replies-lookup id ping_id sent_at replies []
          ∙ unfold lookup in refl,
    )
