-- ===== src/Tunnel/Streams.antt =====
-- The pieces of a stream, and the bytes of the first of them.
use mqtt_forward.Prelude.{
  Option-cases, length, length-append, get_elem?, get_elem?-snoc, get_elem?-lt, Text, ℕ, zero, suc,
  ◌+◌, ◌≤◌, ◌<◌, ◌≡◌, refl, sym, ap, ◌∙◌, inl, inr, some, [], ◌∷◌, ◌++◌, append_assoc, append-nil,
  arith, ℕ_discrete,
}
use mqtt_forward.Reorder.Order.{first}

-- The bytes of the `n` pieces from the piece `i` on, and how many there are in the first `n`.
abbrev pub bytes_from : (ℕ → Text) → ℕ → ℕ → Text
bytes_from stream i zero = []
bytes_from stream i (suc n) = bytes_from stream i n ++ stream (i + n)

abbrev pub total_to : (ℕ → Text) → ℕ → ℕ
total_to stream zero = 0
total_to stream (suc n) = total_to stream n + length (stream n)

pub length-bytes_from :
    (stream : ℕ → Text) (n : ℕ) → length (bytes_from stream 0 n) ≡ total_to stream n
length-bytes_from stream zero = refl
length-bytes_from stream (suc n) =
    let same : 0 + n ≡ n = omega arith in
    rw same (
      length-append (bytes_from stream 0 n) (stream n)
      ∙ ap (λ k. k + length (stream n)) (length-bytes_from stream n))

pub total_to_mono : (stream : ℕ → Text) (m n : ℕ) → m ≤ n → total_to stream m ≤ total_to stream n
total_to_mono stream m zero h = let same : m ≡ 0 = omega arith in rw same (omega arith)
total_to_mono stream m (suc n) h = elim (ℕ_discrete m (suc n)) [
  | yes same ↦ rw same (omega arith)
  | no other ↦ omega (arith, total_to_mono stream m n (omega arith))
]

-- The first of the pieces at the front.
pub bytes_from-suc :
    (stream : ℕ → Text) (i n : ℕ)
    → bytes_from stream i (suc n) ≡ stream i ++ bytes_from stream (suc i) n
bytes_from-suc stream i zero = ap stream (omega arith) ∙ sym (append-nil (stream i))
bytes_from-suc stream i (suc n) =
    ap (λ t. t ++ stream (i + suc n)) (bytes_from-suc stream i n)
    ∙ append_assoc (stream i) (bytes_from stream (suc i) n) (stream (i + suc n))
    ∙ ap (λ k. stream i ++ (bytes_from stream (suc i) n ++ stream k)) (next i n)
  where
    next : (i n : ℕ) → i + suc n ≡ suc i + n
    next i n = omega arith

length-first : (n : ℕ) (stream : ℕ → Text) → length (first n stream) ≡ n
length-first zero stream = refl
length-first (suc n) stream =
    omega (arith, length-append (first n stream) (stream n ∷ []), length-first n stream)

pub get_elem?-first :
    (n : ℕ) (stream : ℕ → Text) (i : ℕ) (p : Text)
    → get_elem? (first n stream) i ≡ some p
    → (i < n) × (p ≡ stream i)
get_elem?-first zero stream i p e = cc
get_elem?-first (suc n) stream i p e = elim (get_elem?-snoc (first n stream) (stream n) i p e) [
  | inl f ↦ let (lt, same) = get_elem?-first n stream i p f in (omega arith, same)
  | inr (at_end, same) ↦
      let place : i ≡ n = at_end ∙ length-first n stream in
      (omega arith, sym same ∙ ap stream (sym place))
]

-- The element is there.
pub first-get_elem? :
    (n : ℕ) (stream : ℕ → Text) (i : ℕ) → i < n → get_elem? (first n stream) i ≡ some (stream i)
first-get_elem? n stream i lt = elim (Option-cases (get_elem? (first n stream) i)) [
  | inl e ↦ absurd (get_elem?-lt (first n stream) i (omega (arith, length-first n stream)) e)
  | inr (p, e) ↦ e ∙ ap some (get_elem?-first n stream i p e).1
]

pub bytes_from-append :
    (stream : ℕ → Text) (i n : ℕ)
    → bytes_from stream 0 i ++ bytes_from stream i n ≡ bytes_from stream 0 (i + n)
bytes_from-append stream i zero =
    let same : i + 0 ≡ i = omega arith in rw same (append-nil (bytes_from stream 0 i))
bytes_from-append stream i (suc n) =
    let next : i + suc n ≡ suc (i + n) = omega arith in
    rw next (
      sym (append_assoc (bytes_from stream 0 i) (bytes_from stream i n) (stream (i + n)))
      ∙ ap (λ t. t ++ stream (i + n)) (bytes_from-append stream i n)
      ∙ ap (λ k. bytes_from stream 0 (i + n) ++ stream k) (omega arith))
