-- ===== src/Shadow/Sets.antt =====
-- `equalStringSet` compares multisets.
use mathlib.Core.List.{Perm, Permᴰ, perm_middle}
use mathlib.Core.Logic.{∥∥₁_elim}
use native.Mathlib.Nat.{ℕ_set}
use mathlib.Core.List.Perm
use mqtt_forward.Prelude.{
  if◌then◌else◌, Bool-cases, length, length-append, Text, text_eq, text_eq_self, text_eq→eq,
  text_eq_iff, Dict, lookup, insert, lookup-insert, ℕ, suc, ◌+◌, ◌-◌, ◌≤◌, ◌<◌, ◌≡◌, refl, sym, ap,
  ◌∙◌, ◌↔◌, inl, inr, true, List, [], ◌∷◌, ◌++◌, arith,
}
use mqtt_forward.Shadow.Compare.{count_of, tally, spend, equal_string_set}

-- How often a text stands in a list.
abbrev pub occurs : Text → List Text → ℕ
occurs v [] = 0
occurs v (w ∷ l) = (if text_eq v w then 1 else 0) + occurs v l

occurs-append : (v : Text) (l m : List Text) → occurs v (l ++ m) ≡ occurs v l + occurs v m
occurs-append v [] m = omega arith
occurs-append v (w ∷ l) m = omega (arith, occurs-append v l m)

-- A text that stands in a list, with what is before it and after it.
occurs-split :
    (v : Text) (l : List Text)
    → 0 < occurs v l
    → (before : List Text) × (after : List Text) × (l ≡ before ++ v ∷ after)
occurs-split v [] h = absurd (omega arith)
occurs-split v (w ∷ l) h = elim (Bool-cases (text_eq v w)) [
  | inl e ↦ ([], l, ap (λ w. w ∷ l) (sym (text_eq→eq v w e)))
  | inr e ↦
      let more : 0 < occurs v l = ground arith in
      let (before, after, same) = occurs-split v l more in (w ∷ before, after, ap (◌∷◌ w) same)
]

count_of-nil : (v : Text) → count_of v [] ≡ 0
unfolding count_of lookup
count_of-nil v = refl

count_of-insert :
    (v w : Text) (n : ℕ) (counts : Dict ℕ)
    → count_of v (insert w n counts) ≡ (if text_eq v w then n else count_of v counts)
unfolding count_of
count_of-insert v w n counts =
    ground (arith, lookup-insert w v n counts, text_eq_iff v w, text_eq_iff w v)

tally-occurs :
    (v : Text) (a : List Text) (counts : Dict ℕ)
    → count_of v (tally a counts) ≡ occurs v a + count_of v counts
unfolding tally
tally-occurs v [] counts = omega arith
tally-occurs v (w ∷ a) counts = ground (
  arith,
  tally-occurs v a (insert w (count_of w counts + 1) counts),
  count_of-insert v w (count_of w counts + 1) counts,
  text_eq→eq v w,
)

spend_sound :
    (b : List Text) (counts : Dict ℕ) (v : Text)
    → spend b counts ≡ true
    → occurs v b ≤ count_of v counts
unfolding spend
spend_sound [] counts v h = omega arith
spend_sound (w ∷ b) counts v h = ground (
  arith,
  spend_sound b (insert w (count_of w counts - 1) counts) v,
  count_of-insert v w (count_of w counts - 1) counts,
  text_eq→eq v w,
)

spend_complete :
    (b : List Text) (counts : Dict ℕ)
    → ((v : Text) → occurs v b ≤ count_of v counts)
    → spend b counts ≡ true
unfolding spend
spend_complete [] counts h = refl
spend_complete (w ∷ b) counts h = ground (
  arith,
  h w,
  text_eq_self w,
  spend_complete b (insert w (count_of w counts - 1) counts) (λ v.
      ground (arith, h v, count_of-insert v w (count_of w counts - 1) counts, text_eq→eq v w)),
)

-- A list that has each text at most as often as one of the same length has the same texts.
fits-Perm :
    (b a : List Text) → length a ≡ length b → ((v : Text) → occurs v b ≤ occurs v a) → Perm a b
fits-Perm [] [] n h = Perm.refl []
fits-Perm [] (x ∷ a) n h = absurd (omega arith)
fits-Perm (w ∷ b) a n h =
    let (before, after, same) = occurs-split w a (ground (arith, h w, text_eq_self w)) in
    let rest : Perm (before ++ after) b =
      fits-Perm b (before ++ after)
        (omega
          (arith, length-append before after, length-append before (w ∷ after), ap length same))
        (λ v. omega (
          arith,
          h v,
          occurs-append v before after,
          occurs-append v before (w ∷ after),
          ap (occurs v) same,
        )) in
    rw same (Perm.trans (perm_middle before after) (Perm.cons w rest))

Permᴰ-occurs : (v : Text) {a b : List Text} → Permᴰ a b → occurs v a ≡ occurs v b
Permᴰ-occurs v Permᴰ.nil = refl
Permᴰ-occurs v (Permᴰ.cons {b = w} {l₁ = l} e p) =
    ap (λ w. occurs v (w ∷ l)) e ∙ ap (λ k. (if text_eq v w then 1 else 0) + k) (Permᴰ-occurs v p)
Permᴰ-occurs v (Permᴰ.swap {a = a} {b = b} {l = l} e f) =
    omega (arith, ap (λ w. occurs v (w ∷ l)) e, ap (λ w. occurs v (w ∷ l)) f)
Permᴰ-occurs v (Permᴰ.trans p q) = Permᴰ-occurs v p ∙ Permᴰ-occurs v q

Permᴰ-length : {a b : List Text} → Permᴰ a b → length a ≡ length b
Permᴰ-length Permᴰ.nil = refl
Permᴰ-length (Permᴰ.cons e p) = ap suc (Permᴰ-length p)
Permᴰ-length (Permᴰ.swap e f) = refl
Permᴰ-length (Permᴰ.trans p q) = Permᴰ-length p ∙ Permᴰ-length q

-- The comparison of the public addresses holds exactly of lists that are the same but for their order.
pub equal_string_set_iff : (a b : List Text) → (equal_string_set a b ≡ true) ↔ Perm a b
unfolding equal_string_set
equal_string_set_iff a b = (
  λ h. fits-Perm b a (ground arith) (λ v.
      let spent : spend b (tally a []) ≡ true = ground arith in
      omega (arith, spend_sound b (tally a []) v spent, tally-occurs v a [], count_of-nil v)),
  λ p.
      let n : length a ≡ length b = ∥∥₁_elim p (ℕ_set _ _) Permᴰ-length in
      let fits = spend_complete b (tally a []) (λ v.
        let same : occurs v a ≡ occurs v b = ∥∥₁_elim p (ℕ_set _ _) (Permᴰ-occurs v) in
        omega (arith, same, tally-occurs v a [], count_of-nil v)) in
      ground arith,
)
