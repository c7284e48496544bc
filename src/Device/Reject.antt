-- ===== src/Device/Reject.antt =====
-- The rate limit on rejects of unknown sessions.
use mqtt_forward.Prelude.{
  ltb, leb, ltb→lt, Bool-cases, length, All, All-map, Text, text_eq, text_eq_self, text_eq→eq, Dict,
  lookup, insert, lookup-insert, Unique, insert-Unique, ℕ, ◌+◌, ◌-◌, ◌≤◌, ◌<◌, ◌≡◌, refl, sym, ◌∙◌,
  subst, ◌⊎◌, inl, inr, true, false, none, some, List, [], ◌∷◌, arith,
}
use mqtt_forward.Device.{
  Device, unknown_session_reject_throttle, reject_map_limit, drop_old, gc_reject_map, is_throttled,
  reject_message, send_unknown_session_reject,
}

drop_old-none :
    (now : ℕ) (id : Text) (d : Dict ℕ) → lookup id d ≡ none → lookup id (drop_old now d) ≡ none
unfolding drop_old lookup
drop_old-none now id [] h = refl
drop_old-none now id ((k, t) ∷ d) h = ground (arith, drop_old-none now id d)

drop_old-Unique : (now : ℕ) (d : Dict ℕ) → Unique d → Unique (drop_old now d)
unfolding drop_old
drop_old-Unique now [] u = tt
drop_old-Unique now ((k, t) ∷ d) u =
    ground (arith, drop_old-Unique now d u.1, drop_old-none now k d u.0)

-- An entry is dropped only if it is older than the throttle.
abbrev IsKeptOrOld : ℕ → Text → Dict ℕ → Dict ℕ → Type 0
IsKeptOrOld now id d d' =
    (lookup id d' ≡ lookup id d)
    ⊎ ((t : ℕ) × (lookup id d ≡ some t) × (unknown_session_reject_throttle < now - t))

drop_old-IsKeptOrOld :
    (now : ℕ) (id : Text) (d : Dict ℕ) → Unique d → IsKeptOrOld now id d (drop_old now d)
unfolding drop_old lookup
drop_old-IsKeptOrOld now id [] u = inl refl
drop_old-IsKeptOrOld now id ((k, t) ∷ d) u = elim (Bool-cases (text_eq k id)) [
  | inl same ↦ elim (Bool-cases (ltb unknown_session_reject_throttle (now - t))) [
    | inl old ↦ inr (t, ground arith, ltb→lt _ _ old)
    | inr new ↦ inl (ground arith)
  ]
  | inr other ↦ elim (drop_old-IsKeptOrOld now id d u.1) [
    | inl e ↦ inl (ground arith)
    | inr (s, e, old) ↦ inr (s, ground arith, old)
  ]
]

gc_reject_map-IsKeptOrOld :
    (now : ℕ) (id : Text) (d : Dict ℕ) → Unique d → IsKeptOrOld now id d (gc_reject_map now d)
unfolding gc_reject_map
gc_reject_map-IsKeptOrOld now id d u = elim (Bool-cases (leb (length d) reject_map_limit)) [
  | inl b ↦ rw b (inl refl)
  | inr b ↦ rw b (drop_old-IsKeptOrOld now id d u)
]

gc_reject_map-Unique : (now : ℕ) (d : Dict ℕ) → Unique d → Unique (gc_reject_map now d)
unfolding gc_reject_map
gc_reject_map-Unique now d u = ground (arith, drop_old-Unique now d u)

-- The rejects that are published in a row of requests for unknown sessions, each with its time.
unfoldable pub rejects : List (ℕ × Text) → Device → List (ℕ × Text)
rejects [] d = []
rejects ((now, id) ∷ rs) d =
    let r = send_unknown_session_reject now id d in
    let rest = rejects rs r.0 in elim (r.1) [ [] ↦ rest | _ ∷ _ ↦ (now, id) ∷ rest ]

-- The time does not go back.
abbrev pub IsTimely : ℕ → List (ℕ × Text) → Type 0
IsTimely from [] = Unit
IsTimely from ((now, id) ∷ rs) = (from ≤ now) × IsTimely now rs

-- Two rejects for one session are never less than the throttle apart.
abbrev pub IsSpaced : List (ℕ × Text) → Type 0
IsSpaced [] = Unit
IsSpaced ((t, id) ∷ rs) =
    All (λ r. r.1 ≡ id → t + unknown_session_reject_throttle ≤ r.0) rs × IsSpaced rs

abbrev rejected : ℕ → Text → Device → Device
rejected now id d = record d {
  last_rejected_at = gc_reject_map now (insert id now d.last_rejected_at);
}

-- A request is held back, or the reject is published and its time noted.
send_unknown_session_reject_cases :
    (now : ℕ) (id : Text) (d : Device)
    → ((is_throttled now id d.last_rejected_at ≡ true)
        × (send_unknown_session_reject now id d ≡ (d, [])))
      ⊎ ((is_throttled now id d.last_rejected_at ≡ false)
          × (send_unknown_session_reject now id d
              ≡ (rejected now id d, reject_message d.device_id id ∷ [])))
unfolding send_unknown_session_reject
send_unknown_session_reject_cases now id d =
    elim (Bool-cases (is_throttled now id d.last_rejected_at)) [
      | inl b ↦ inl (b, rw b)
      | inr b ↦ inr (b, rw b)
    ]

rejects-held :
    (now : ℕ) (id : Text) (rs : List (ℕ × Text)) (d : Device)
    → send_unknown_session_reject now id d ≡ (d, [])
    → rejects ((now, id) ∷ rs) d ≡ rejects rs d
unfolding rejects
rejects-held now id rs d e = rw (e, rejects) (rw e)

rejects-published :
    (now : ℕ) (id : Text) (rs : List (ℕ × Text)) (d : Device)
    → send_unknown_session_reject now id d ≡ (rejected now id d, reject_message d.device_id id ∷ [])
    → rejects ((now, id) ∷ rs) d ≡ (now, id) ∷ rejects rs (rejected now id d)
unfolding rejects
rejects-published now id rs d e = rw (e, rejects) (rw e)

-- No reject is published before its request.
rejects-later :
    (from : ℕ) (rs : List (ℕ × Text)) (d : Device)
    → IsTimely from rs
    → All (λ r. from ≤ r.0) (rejects rs d)
rejects-later from [] d h = unfold rejects in tt
rejects-later from ((now, id) ∷ rs) d h =
    let later = λ (e : Device).
      All-map (λ r. now ≤ r.0) (λ r. from ≤ r.0) (λ r k. omega arith) (rejects rs e)
        (rejects-later now rs e h.1) in
    elim (send_unknown_session_reject_cases now id d) [
      | inl (_, e) ↦ rw (rejects-held now id rs d e) (later d)
      | inr (_, e) ↦ rw (rejects-published now id rs d e) (h.0, later (rejected now id d))
    ]

rejected-noted :
    (now : ℕ) (id : Text) (d : Device)
    → Unique d.last_rejected_at
    → lookup id (rejected now id d).last_rejected_at ≡ some now
rejected-noted now id d u =
    let new : lookup id (insert id now d.last_rejected_at) ≡ some now =
      ground (arith, lookup-insert id id now d.last_rejected_at, text_eq_self id) in
    elim (gc_reject_map-IsKeptOrOld now id _ (insert-Unique id now d.last_rejected_at u)) [
      | inl e ↦ e ∙ new
      | inr (t, e, old) ↦ absurd (ground arith)
    ]

free_late :
    (now t : ℕ) (id : Text) (d : Dict ℕ)
    → is_throttled now id d ≡ false
    → lookup id d ≡ some t
    → t ≤ now
    → t + unknown_session_reject_throttle ≤ now
unfolding is_throttled
free_late now t id d h e le = ground arith

-- An entry of another session, after a reject: it is still there, or it was out of date.
rejected-other :
    (now t : ℕ) (id j : Text) (d : Device)
    → Unique d.last_rejected_at
    → lookup id d.last_rejected_at ≡ some t
    → text_eq j id ≡ false
    → (lookup id (rejected now j d).last_rejected_at ≡ some t)
      ⊎ (t + unknown_session_reject_throttle ≤ now)
rejected-other now t id j d u e other =
    let same : lookup id (insert j now d.last_rejected_at) ≡ some t =
      ground (arith, lookup-insert j id now d.last_rejected_at) in
    elim (gc_reject_map-IsKeptOrOld now id _ (insert-Unique j now d.last_rejected_at u)) [
      | inl k ↦ inl (k ∙ same)
      | inr (s, k, old) ↦ inr (ground arith)
    ]

-- After a reject at the time `t`, what is published later for the same session is published at
-- `t` and the throttle at the earliest.
rejects-after :
    (t : ℕ) (id : Text) (from : ℕ) (rs : List (ℕ × Text)) (d : Device)
    → Unique d.last_rejected_at
    → lookup id d.last_rejected_at ≡ some t
    → t ≤ from
    → IsTimely from rs
    → All (λ r. r.1 ≡ id → t + unknown_session_reject_throttle ≤ r.0) (rejects rs d)
rejects-after t id from [] d u e le h = unfold rejects in tt
rejects-after t id from ((now, j) ∷ rs) d u e le h =
    let u' : Unique (rejected now j d).last_rejected_at =
      gc_reject_map-Unique now _ (insert-Unique j now d.last_rejected_at u) in
    elim (send_unknown_session_reject_cases now j d) [
      | inl (_, r) ↦
          rw (rejects-held now j rs d r) (rejects-after t id now rs d u e (omega arith) h.1)
      | inr (free, r) ↦ rw (rejects-published now j rs d r) (
        λ same.
            free_late now t j d.last_rejected_at free
              (subst (λ k. lookup k d.last_rejected_at ≡ some t) (sym same) e) (omega arith),
        elim (Bool-cases (text_eq j id)) [
          | inl same ↦
              let noted =
                subst (λ k. lookup k (rejected now j d).last_rejected_at ≡ some now)
                  (text_eq→eq j id same) (rejected-noted now j d u) in
              All-map _ _ (λ r k i. omega (arith, k i)) _
                (rejects-after now id now rs (rejected now j d) u' noted (omega arith) h.1)
          | inr other ↦ elim (rejected-other now t id j d u e other) [
            | inl k ↦ rejects-after t id now rs (rejected now j d) u' k (omega arith) h.1
            | inr old ↦
                All-map _ _ (λ r k i. omega arith) _ (rejects-later now rs (rejected now j d) h.1)
          ]
        ],
      )
    ]

-- Whatever requests come for unknown sessions, as long as the clock does not go back, the rejects for
-- any one of them are published five seconds apart at least, also when old entries are cleared. (No
-- session has two entries to begin with.)
pub rejects-IsSpaced :
    (from : ℕ) (rs : List (ℕ × Text)) (d : Device)
    → Unique d.last_rejected_at
    → IsTimely from rs
    → IsSpaced (rejects rs d)
rejects-IsSpaced from [] d u h = unfold rejects in tt
rejects-IsSpaced from ((now, id) ∷ rs) d u h =
    let u' : Unique (rejected now id d).last_rejected_at =
      gc_reject_map-Unique now _ (insert-Unique id now d.last_rejected_at u) in
    elim (send_unknown_session_reject_cases now id d) [
      | inl (_, r) ↦ rw (rejects-held now id rs d r) (rejects-IsSpaced now rs d u h.1)
      | inr (_, r) ↦ rw (rejects-published now id rs d r) (
        rejects-after now id now rs (rejected now id d) u' (rejected-noted now id d u) (omega arith)
            h.1,
        rejects-IsSpaced now rs (rejected now id d) u' h.1,
      )
    ]
