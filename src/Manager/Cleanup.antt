-- ===== src/Manager/Cleanup.antt =====
-- Closing sessions in bulk: the stale ones, and all of them.
use mathlib.Core.Bool.{false≢true}
use mqtt_forward.Prelude.{
  ltb, if◌then◌else◌, Option-cases, is_some, All, All-map, Text, text_eq_self, text_eq_iff, Dict,
  lookup, delete, lookup-delete, Unique, mem, delete_all, lookup-delete_all, delete_all-Unique,
  delete_absent, ℕ, ◌-◌, ◌≡◌, refl, sym, ap, ◌∙◌, subst, inl, inr, Bool, true, false, none, some,
  List, [], ◌∷◌, map, arith,
}
use mqtt_forward.Session.{Session, Closing, close}
use mqtt_forward.Manager.{
  Manager, new_manager, remove_session, count, close_each, values, close_all, stale_ids, pick,
  cleanup_stale,
}
use mqtt_forward.Manager.Invariant.{IsWellFormed}

-- Whether the session with this id was last seen longer ago than the timeout.
abbrev pub is_stale : ℕ → ℕ → Manager → Text → Bool
is_stale now timeout m id = elim (lookup id m.last_seen) [
  | none ↦ false
  | some seen ↦ ltb timeout (now - seen)
]

module _ (now timeout : ℕ) where
  stale_ids-lookup :
      (id : Text) (d : Dict ℕ) → lookup id d ≡ none → mem id (stale_ids now timeout d) ≡ false
  unfolding lookup stale_ids mem
  stale_ids-lookup id [] h = refl
  stale_ids-lookup id ((k, t) ∷ d) h = ground (arith, stale_ids-lookup id d)

  -- The list of the stale ids, read by the map from which it is made.
  mem-stale_ids :
      (id : Text) (d : Dict ℕ)
      → Unique d
      → mem id (stale_ids now timeout d)
        ≡ (elim (lookup id d) [ none ↦ false | some seen ↦ ltb timeout (now - seen) ])
  unfolding lookup stale_ids mem
  mem-stale_ids id [] u = refl
  mem-stale_ids id ((k, t) ∷ d) u =
      ground (arith, mem-stale_ids id d u.1, stale_ids-lookup k d u.0, text_eq_iff k id)

-- The ids of a list are distinct.
abbrev Distinct : List Text → Type 0
Distinct [] = Unit
Distinct (k ∷ ks) = (mem k ks ≡ false) × Distinct ks

stale_ids-Distinct : (now timeout : ℕ) (d : Dict ℕ) → Unique d → Distinct (stale_ids now timeout d)
unfolding stale_ids
stale_ids-Distinct now timeout [] u = tt
stale_ids-Distinct now timeout ((k, t) ∷ d) u =
    ground (arith, stale_ids-Distinct now timeout d u.1, stale_ids-lookup now timeout k d u.0)

-- If every id has a session, all are found, each once, in the order of the ids.
pick-total :
    (ids : List Text) (d : Dict Session)
    → ((k : Text) (s : Session) → lookup k d ≡ some s → s.id ≡ k)
    → ((k : Text) → mem k ids ≡ true → is_some (lookup k d) ≡ true)
    → Distinct ids
    → (ss : List Session) × (pick ids d ≡ some ss)
      × (map (λ s. s.id) ss ≡ ids)
      × All (λ s. lookup s.id d ≡ some s) ss
unfolding pick mem
pick-total [] d own found u = ([], refl, refl, tt)
pick-total (k ∷ ks) d own found u = elim (Option-cases (lookup k d)) [
  | inl e ↦
      absurd
        (false≢true (ap is_some (sym e) ∙ found k (unfold mem in ground (arith, text_eq_self k))))
  | inr (s, e) ↦
      let (ss, p, ids, mine) =
        pick-total ks (delete k d) (λ j t h. own j t (ground (arith, lookup-delete k j d)))
          (λ j h. ground (arith, lookup-delete k j d, found j, text_eq_iff k j, u.0)) u.1 in
      let named = own k s e in
      (
        s ∷ ss,
        rw (e, pick) (rw (p, pick)),
        ground (arith),
        (
          subst (λ j. lookup j d ≡ some s) (sym named) e,
          All-map _ _ (λ t h. ground (arith, lookup-delete k t.id d)) ss mine,
        ),
      )
]

-- Neither map has a session or a time under the id.
abbrev IsAbsent : Manager → Session → Type 0
IsAbsent m s = (lookup s.id m.sessions ≡ none) × (lookup s.id m.last_seen ≡ none)

remove_absent : (m : Manager) (s : Session) → IsAbsent m s → remove_session s.id m ≡ m
unfolding remove_session
remove_absent m s h =
    ground (arith, delete_absent s.id m.sessions h.0, delete_absent s.id m.last_seen h.1)

-- Closing sessions that have been taken out already leaves the manager as it is, whatever hooks run.
close_each-absent :
    (ss : List Session) (m : Manager) → All (IsAbsent m) ss → close_each ss m ≡ (m, map close ss)
unfolding close_each
close_each-absent [] m h = refl
close_each-absent (s ∷ ss) m h = ground (arith, remove_absent m s h.0, close_each-absent ss m h.1)

close_each-closings : (ss : List Session) (m : Manager) → (close_each ss m).1 ≡ map close ss
unfolding close_each
close_each-closings [] m = refl
close_each-closings (s ∷ ss) m =
    ap (◌∷◌ (close s))
      (close_each-closings ss (if (close s).calls_hook then remove_session s.id m else m))

All-IsAbsent :
    (ids : List Text) (ss : List Session) (m : Manager)
    → map (λ s. s.id) ss ≡ ids
    → ((k : Text) → mem k ids ≡ true → (lookup k m.sessions ≡ none) × (lookup k m.last_seen ≡ none))
    → All (IsAbsent m) ss
All-IsAbsent ids [] m e h = tt
All-IsAbsent [] (s ∷ ss) m e h = cc
All-IsAbsent (k ∷ ids) (s ∷ ss) m e h = (
  h s.id (unfold mem in ground (arith, text_eq_self s.id)),
  All-IsAbsent ids ss m (ground arith) (λ j g. h j (unfold mem in ground arith)),
)

-- What a cleanup at the time `now` leaves and what it closes: the sessions seen within the timeout
-- stay with their times, and the others are closed, each once.
pub record IsCleaned (now timeout : ℕ) (m : Manager) (r : Manager × List Closing) : Type 0 where
  pub sessions_left :
      (k : Text)
      → lookup k r.0.sessions ≡ (if is_stale now timeout m k then none else lookup k m.sessions)
  pub times_left :
      (k : Text)
      → lookup k r.0.last_seen ≡ (if is_stale now timeout m k then none else lookup k m.last_seen)
  pub well_formed : IsWellFormed r.0
  pub closed :
      (ss : List Session) × (r.1 ≡ map close ss)
      × (map (λ s. s.id) ss ≡ stale_ids now timeout m.last_seen)
      × All (λ s. lookup s.id m.sessions ≡ some s) ss

delete_all-IsWellFormed :
    (ids : List Text) (m : Manager)
    → IsWellFormed m
    → IsWellFormed
        (record { sessions = delete_all ids m.sessions; last_seen = delete_all ids m.last_seen })
delete_all-IsWellFormed ids m v = record {
  own_id = λ k s h. ground (arith, lookup-delete_all ids k m.sessions, v.own_id k s);
  same_keys = λ k. ground (
    arith,
    lookup-delete_all ids k m.sessions,
    lookup-delete_all ids k m.last_seen,
    v.same_keys k,
  );
  unique_sessions = delete_all-Unique ids m.sessions v.unique_sessions;
  unique_times = delete_all-Unique ids m.last_seen v.unique_times;
}

-- A cleanup of a well-formed manager never meets an id without a session, takes out and closes
-- exactly the stale sessions, and keeps the manager well formed.
pub cleanup_stale-IsCleaned :
    (now timeout : ℕ) (m : Manager)
    → IsWellFormed m
    → (r : Manager × List Closing) × (cleanup_stale now timeout m ≡ some r)
      × IsCleaned now timeout m r
cleanup_stale-IsCleaned now timeout m v =
    let ids = stale_ids now timeout m.last_seen in
    let stale = λ (k : Text). mem-stale_ids now timeout k m.last_seen v.unique_times in
    let left : Manager = record {
      sessions = delete_all ids m.sessions;
      last_seen = delete_all ids m.last_seen;
    } in
    let (ss, picked, named, mine) =
      pick-total ids m.sessions v.own_id (λ k h. ground (arith, stale k, v.same_keys k))
        (stale_ids-Distinct now timeout m.last_seen v.unique_times) in
    let gone : All (IsAbsent left) ss = All-IsAbsent ids ss left named (λ k h. (
      ground (arith, lookup-delete_all ids k m.sessions),
      ground (arith, lookup-delete_all ids k m.last_seen),
    )) in
    (
      (left, map close ss),
      unfold cleanup_stale in rw (picked, cleanup_stale) (ap some (close_each-absent ss left gone)),
      record {
        sessions_left = λ k.
            lookup-delete_all ids k m.sessions
            ∙ ap (λ b. if b then none else lookup k m.sessions) (stale k);
        times_left = λ k.
            lookup-delete_all ids k m.last_seen
            ∙ ap (λ b. if b then none else lookup k m.last_seen) (stale k);
        well_formed = delete_all-IsWellFormed ids m v;
        closed = (ss, refl, named, mine);
      },
    )

-- `CloseAll` closes every session that the manager holds, and leaves it empty.
pub close_all_lem :
    (m : Manager)
    → (close_all m ≡ (new_manager, map close (values m.sessions))) × (count (close_all m).0 ≡ 0)
unfolding close_all new_manager count
close_all_lem m = (ap (λ cs. (new_manager, cs)) (close_each-closings (values m.sessions) m), refl)
