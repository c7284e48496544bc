-- ===== src/Client/PingBounds.antt =====
-- The statistics of `RunPing`.
use native.Mathlib.Nat.{mul-suc, suc-mul, le-div_iff_mul-le, div-lt_iff_lt-mul}
use mqtt_forward.Prelude.{
  ltb, ◌==◌, if◌then◌else◌, ltb→lt, Bool-cases, length, All, All-map, ℕ, zero, suc, ◌+◌, ◌*◌, ◌≤◌,
  ◌<◌, ◌≡◌, refl, sym, subst, ◌⊎◌, inl, inr, true, ◌||◌, Option, none, some, List, [], ◌∷◌, arith,
}
use mqtt_forward.Client.Ping.{PingStats, no_pings, count_ping, run_ping, avg_rtt}

-- The round-trip times of the answered pings among the first.
abbrev pub answered : ℕ → List (Option ℕ) → List ℕ
answered zero rest = []
answered (suc count) [] = []
answered (suc count) (none ∷ rest) = answered count rest
answered (suc count) (some rtt ∷ rest) = rtt ∷ answered count rest

abbrev pub sum : List ℕ → ℕ
sum [] = 0
sum (n ∷ l) = n + sum l

abbrev pub Occurs : ℕ → List ℕ → Type 0
Occurs n [] = ⊥
Occurs n (r ∷ l) = (r ≡ n) ⊎ Occurs n l

-- The least and the greatest of the times.
abbrev pub IsLeast : ℕ → List ℕ → Type 0
IsLeast m [] = m ≡ 0
IsLeast m (r ∷ l) = (0 < m) × All (λ k. m ≤ k) (r ∷ l) × Occurs m (r ∷ l)

abbrev pub IsGreatest : ℕ → List ℕ → Type 0
IsGreatest m [] = m ≡ 0
IsGreatest m (r ∷ l) = All (λ k. k ≤ m) (r ∷ l) × Occurs m (r ∷ l)

-- What the statistics say of the times, the latest first.
pub record IsStats (rtts : List ℕ) (s : PingStats) : Type 0 where
  pub received : s.received ≡ length rtts
  pub total : s.total_rtt ≡ sum rtts
  pub received_le : s.received ≤ s.sent
  pub least : IsLeast s.min_rtt rtts
  pub greatest : IsGreatest s.max_rtt rtts

IsLeast-cons :
    (rtt m : ℕ) (rtts : List ℕ)
    → 0 < rtt
    → IsLeast m rtts
    → IsLeast (if (m == 0) || ltb rtt m then rtt else m) (rtt ∷ rtts)
IsLeast-cons rtt m [] h v = rw v (h, (omega arith, tt), inl refl)
IsLeast-cons rtt m (r ∷ l) h (positive, all, there) = elim (Bool-cases (ltb rtt m)) [
  | inl e ↦
      let lt = ltb→lt rtt m e in
      let new : (if (m == 0) || ltb rtt m then rtt else m) ≡ rtt = ground arith in
      subst (λ k. IsLeast k (rtt ∷ r ∷ l)) (sym new)
        (
          h,
          (omega arith, All-map (λ k. m ≤ k) (λ k. rtt ≤ k) (λ k le. omega arith) (r ∷ l) all),
          inl refl,
        )
  | inr e ↦
      let kept : (if (m == 0) || ltb rtt m then rtt else m) ≡ m = ground arith in
      subst (λ k. IsLeast k (rtt ∷ r ∷ l)) (sym kept) (positive, (ground arith, all), inr there)
]

IsGreatest-cons :
    (rtt m : ℕ) (rtts : List ℕ)
    → 0 < rtt
    → IsGreatest m rtts
    → IsGreatest (if ltb m rtt then rtt else m) (rtt ∷ rtts)
IsGreatest-cons rtt m [] h v =
    let first : ltb m rtt ≡ true = ground arith in rw first ((omega arith, tt), inl refl)
IsGreatest-cons rtt m (r ∷ l) h (all, there) = elim (Bool-cases (ltb m rtt)) [
  | inl e ↦
      let lt = ltb→lt m rtt e in
      let new : (if ltb m rtt then rtt else m) ≡ rtt = ground arith in
      subst (λ k. IsGreatest k (rtt ∷ r ∷ l)) (sym new)
        (
          (omega arith, All-map (λ k. k ≤ m) (λ k. k ≤ rtt) (λ k le. omega arith) (r ∷ l) all),
          inl refl,
        )
  | inr e ↦
      let kept : (if ltb m rtt then rtt else m) ≡ m = ground arith in
      subst (λ k. IsGreatest k (rtt ∷ r ∷ l)) (sym kept) ((ground arith, all), inr there)
]

count_ping-IsStats :
    (rtt : ℕ) (rtts : List ℕ) (s : PingStats)
    → 0 < rtt
    → IsStats rtts s
    → IsStats (rtt ∷ rtts) (count_ping (some rtt) s)
unfolding count_ping
count_ping-IsStats rtt rtts s h v = record {
  received = omega (arith, v.received);
  total = omega (arith, v.total);
  received_le = omega (arith, v.received_le);
  least = IsLeast-cons rtt s.min_rtt rtts h v.least;
  greatest = IsGreatest-cons rtt s.max_rtt rtts h v.greatest;
}

count_ping-missed :
    (rtts : List ℕ) (s : PingStats) → IsStats rtts s → IsStats rtts (count_ping none s)
unfolding count_ping
count_ping-missed rtts s v = record {
  received = v.received;
  total = v.total;
  received_le = omega (arith, v.received_le);
  least = v.least;
  greatest = v.greatest;
}

-- The times of the answered pings, the latest first, before those that were there.
abbrev pub later : List ℕ → List ℕ → List ℕ
later [] rtts = rtts
later (r ∷ l) rtts = later l (r ∷ rtts)

run_ping-IsStats :
    (count : ℕ) (rest : List (Option ℕ)) (rtts : List ℕ) (s : PingStats)
    → All (λ r. 0 < r) (answered count rest)
    → IsStats rtts s
    → IsStats (later (answered count rest) rtts) (run_ping count rest s)
unfolding run_ping
run_ping-IsStats zero rest rtts s h v = v
run_ping-IsStats (suc count) [] rtts s h v = v
run_ping-IsStats (suc count) (none ∷ rest) rtts s h v =
    run_ping-IsStats count rest rtts (count_ping none s) h (count_ping-missed rtts s v)
run_ping-IsStats (suc count) (some rtt ∷ rest) rtts s h v =
    run_ping-IsStats count rest (rtt ∷ rtts) (count_ping (some rtt) s) h.1
      (count_ping-IsStats rtt rtts s h.0 v)

sum_bounds :
    (lo hi : ℕ) (l : List ℕ)
    → All (λ k. lo ≤ k) l
    → All (λ k. k ≤ hi) l
    → (lo * length l ≤ sum l) × (sum l ≤ hi * length l)
sum_bounds lo hi [] a b = (omega arith, omega arith)
sum_bounds lo hi (r ∷ l) a b =
    let (below, above) = sum_bounds lo hi l a.1 b.1 in
    (
      omega (arith, mul-suc lo (length l), below, a.0),
      omega (arith, mul-suc hi (length l), above, b.0),
    )

avg_bounds :
    (r : ℕ) (l : List ℕ) (s : PingStats)
    → IsStats (r ∷ l) s
    → (s.min_rtt ≤ avg_rtt s) × (avg_rtt s ≤ s.max_rtt)
unfolding avg_rtt
avg_bounds r l s v =
    let (below, above) = sum_bounds s.min_rtt s.max_rtt (r ∷ l) v.least.1 v.greatest.0 in
    rw (v.received, v.total)
      (
        (le-div_iff_mul-le (omega arith)).1 below,
        le_of_lt_suc (
            (div-lt_iff_lt-mul (omega arith)).1
              (omega (arith, suc-mul s.max_rtt (length (r ∷ l)), above))),
      )
  where
    le_of_lt_suc : {a b : ℕ} → a < suc b → a ≤ b
    le_of_lt_suc h = omega arith

stats_average :
    (rtts : List ℕ) (s : PingStats)
    → IsStats rtts s
    → 0 < s.received
    → (s.min_rtt ≤ avg_rtt s) × (avg_rtt s ≤ s.max_rtt)
stats_average [] s v h = absurd (omega (arith, v.received))
stats_average (r ∷ l) s v h = avg_bounds r l s v

-- The statistics of a run of pings, each answered after a time that is not 0 or not at all: no more are
-- counted as received than as sent, as many as were answered; the total is that of the times, the least
-- and the greatest time are among them and bound all of them; and if there is an answer the average
-- lies between the two.
pub run_ping_lem :
    (count : ℕ) (rest : List (Option ℕ))
    → All (λ r. 0 < r) (answered count rest)
    → let s = run_ping count rest no_pings in
      IsStats (later (answered count rest) []) s
      × (0 < s.received → (s.min_rtt ≤ avg_rtt s) × (avg_rtt s ≤ s.max_rtt))
unfolding no_pings
run_ping_lem count rest h =
    let v = run_ping-IsStats count rest [] no_pings h (record {
      received = refl;
      total = refl;
      received_le = omega arith;
      least = refl;
      greatest = refl;
    }) in
    (v, stats_average (later (answered count rest) []) (run_ping count rest no_pings) v)
