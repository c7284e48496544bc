-- ===== src/Reorder/Order.antt =====
-- The reorder buffer delivers a stream in order, each frame once, whatever order the frames come in.
use mqtt_forward.Prelude.{
  ltb, leb, Bool-cases, Option-cases, length, All, Text, ℕ, zero, suc, ◌+◌, ◌-◌, ◌%◌, ◌^◌, ◌≤◌, ◌<◌,
  ◌≡◌, refl, ap, ◌∙◌, ◌⊎◌, inl, inr, false, Option, none, some, List, [], ◌∷◌, ◌++◌, arith,
}
use mqtt_forward.Reorder.{
  ReorderBuffer, find, remove, InsertError, buffer_full, Select, flush, insert_frame,
}
use mqtt_forward.Reorder.Held.{find-remove, length-remove-lt, IsHeld, find-IsHeld, remove-IsHeld}

-- The first `n` payloads of a stream.
abbrev pub first : ℕ → (ℕ → Text) → List Text
first zero stream = []
first (suc n) stream = first n stream ++ stream n ∷ []

-- An open buffer that has sent the first `next_seq` payloads of the stream, and holds frames of it.
pub record IsOrdered (stream : ℕ → Text) (limit : ℕ) (rb : ReorderBuffer) : Type 0 where
  pub in_order : rb.data_ch ≡ first rb.next_seq stream
  pub held : All (IsHeld stream limit rb.next_seq rb.size) rb.buf
  pub within : rb.next_seq ≤ limit
  pub is_open : rb.closed ≡ false

-- What a later state of the buffer keeps of an earlier one: the window, the numbers already passed,
-- and each held frame until it is sent.
pub record Extends (rb rb' : ReorderBuffer) : Type 0 where
  pub same_size : rb'.size ≡ rb.size
  pub grows : rb.next_seq ≤ rb'.next_seq
  pub keeps :
      (s : ℕ) (p : Text) → find s rb.buf ≡ some p → (s < rb'.next_seq) ⊎ (find s rb'.buf ≡ some p)

pub Extends-refl : (rb : ReorderBuffer) → Extends rb rb
Extends-refl rb = record { same_size = refl; grows = omega arith; keeps = λ s p h. inr h }

pub Extends-trans : (a b c : ReorderBuffer) → Extends a b → Extends b c → Extends a c
Extends-trans a b c f g = record {
  same_size = g.same_size ∙ f.same_size;
  grows = omega (arith, f.grows, g.grows);
  keeps = λ s p h. elim (f.keeps s p h) [
    | inl lt ↦ inl (omega (arith, g.grows))
    | inr k ↦ g.keeps s p k
  ];
}

-- The buffer with one more frame in it, before the loop.
abbrev hold : ℕ → Text → ReorderBuffer → ReorderBuffer
hold seq payload rb = record rb { buf = (seq, payload) ∷ rb.buf }

find-hold :
    (seq : ℕ) (payload : Text) (rb : ReorderBuffer)
    → find seq (hold seq payload rb).buf ≡ some payload
unfolding find
find-hold seq payload rb = ground arith

hold-Extends :
    (seq : ℕ) (payload : Text) (rb : ReorderBuffer)
    → find seq rb.buf ≡ none
    → Extends rb (hold seq payload rb)
unfolding find
hold-Extends seq payload rb h = record {
  same_size = refl;
  grows = omega arith;
  keeps = λ s p e. inr (ground arith);
}

-- The four ways of an insertion.
data InsertCases (sel : Select) (seq : ℕ) (payload : Text) (rb : ReorderBuffer) : Type 0 where
  old :
      (seq < rb.next_seq) × (insert_frame sel seq payload rb ≡ (rb, none))
      → InsertCases sel seq payload rb
  full :
      (rb.next_seq + rb.size ≤ seq) × (insert_frame sel seq payload rb ≡ (rb, some buffer_full))
      → InsertCases sel seq payload rb
  again :
      (seq < rb.next_seq + rb.size)
        × (q : Text) × (find seq rb.buf ≡ some q)
        × (insert_frame sel seq payload rb ≡ (rb, none))
      → InsertCases sel seq payload rb
  fresh :
      (rb.next_seq ≤ seq)
        × (seq < rb.next_seq + rb.size)
        × (find seq rb.buf ≡ none)
        × (insert_frame sel seq payload rb
            ≡ (flush (suc (suc (length rb.buf))) sel (hold seq payload rb), none))
      → InsertCases sel seq payload rb

insert_frame_cases :
    (sel : Select) (seq : ℕ) (payload : Text) (rb : ReorderBuffer) → InsertCases sel seq payload rb
unfolding insert_frame
insert_frame_cases sel seq payload rb = elim (Bool-cases (ltb seq rb.next_seq)) [
  | inl a ↦ old (ground arith, ground arith)
  | inr a ↦ elim (Bool-cases (leb rb.size (seq - rb.next_seq))) [
    | inl b ↦ full (ground arith, ground arith)
    | inr b ↦ elim (Option-cases (find seq rb.buf)) [
      | inl c ↦ fresh (ground arith, ground arith, c, ground arith)
      | inr (q, c) ↦ again (ground arith, q, c, ground arith)
    ]
  ]
]

-- What one insertion of the stream's frame `seq` does: an error that leaves the buffer as it was,
-- for a frame beyond the window only, or a buffer in which the frame is held or sent.
abbrev pub Inserted : (ℕ → Text) → ℕ → ReorderBuffer → ReorderBuffer × Option InsertError → Type 0
Inserted stream seq rb (rb', e) =
    ((e ≡ some buffer_full) × (rb' ≡ rb) × (rb.next_seq + rb.size ≤ seq))
    ⊎ ((e ≡ none)
        × (seq < rb.next_seq + rb.size)
        × Extends rb rb'
        × ((seq < rb'.next_seq) ⊎ (find seq rb'.buf ≡ some (stream seq))))

module _ (stream : ℕ → Text) (limit : ℕ) (short : limit < 2 ^ 32) where
  -- One round of the loop, on an open buffer.
  advance : ReorderBuffer → Text → ReorderBuffer
  advance rb payload = record rb {
    buf = remove rb.next_seq rb.buf;
    next_seq = (rb.next_seq + 1) % 2 ^ 32;
    data_ch = rb.data_ch ++ payload ∷ [];
  }

  advance-IsOrdered :
      (rb : ReorderBuffer) (p : Text)
      → IsOrdered stream limit rb
      → find rb.next_seq rb.buf ≡ some p
      → IsOrdered stream limit (advance rb p)
  unfolding advance
  advance-IsOrdered rb p v e =
      let (_, _, lt, same) =
        find-IsHeld stream limit rb.next_seq rb.size rb.next_seq p rb.buf v.held e in
      let step : (rb.next_seq + 1) % 2 ^ 32 ≡ suc rb.next_seq = omega arith in
      record {
        in_order = rw step (rw (v.in_order, same));
        held = rw step (remove-IsHeld stream limit rb.next_seq rb.size rb.buf v.held);
        within = omega arith;
        is_open = v.is_open;
      }

  advance-Extends :
      (rb : ReorderBuffer) (p : Text)
      → IsOrdered stream limit rb
      → find rb.next_seq rb.buf ≡ some p
      → Extends rb (advance rb p)
  unfolding advance
  advance-Extends rb p v e =
      let (_, _, lt, same) =
        find-IsHeld stream limit rb.next_seq rb.size rb.next_seq p rb.buf v.held e in
      record {
        same_size = refl;
        grows = omega arith;
        keeps = λ s q h. ground (arith, find-remove rb.next_seq s rb.buf);
      }

  flush_step :
      (fuel : ℕ) (sel : Select) (rb : ReorderBuffer) (p : Text)
      → rb.closed ≡ false
      → find rb.next_seq rb.buf ≡ some p
      → flush (suc fuel) sel rb ≡ flush fuel sel (advance rb p)
  unfolding flush advance
  flush_step fuel sel rb p o e = rw (e, flush) (ground arith)

  -- The loop on an open buffer keeps the order, and ends when the next frame is not there.
  flush-IsOrdered :
      (fuel : ℕ) (sel : Select) (rb : ReorderBuffer)
      → IsOrdered stream limit rb
      → length rb.buf < fuel
      → IsOrdered stream limit (flush fuel sel rb)
        × Extends rb (flush fuel sel rb)
        × (find (flush fuel sel rb).next_seq (flush fuel sel rb).buf ≡ none)
  flush-IsOrdered zero sel rb v h = absurd (omega arith)
  flush-IsOrdered (suc fuel) sel rb v h = elim (Option-cases (find rb.next_seq rb.buf)) [
    | inl e ↦ unfold flush in rw (e, flush) (v, Extends-refl rb, e)
    | inr (p, e) ↦
        let fits : length (advance rb p).buf < fuel =
          unfold advance in omega (arith, length-remove-lt rb.next_seq p rb.buf e) in
        let (v', x, done) =
          flush-IsOrdered fuel sel (advance rb p) (advance-IsOrdered rb p v e) fits in
        rw (flush_step fuel sel rb p v.is_open e)
          (v', Extends-trans rb (advance rb p) _ (advance-Extends rb p v e) x, done)
  ]

  hold-IsOrdered :
      (seq : ℕ) (rb : ReorderBuffer)
      → seq < limit
      → IsOrdered stream limit rb
      → rb.next_seq ≤ seq
      → seq < rb.next_seq + rb.size
      → IsOrdered stream limit (hold seq (stream seq) rb)
  hold-IsOrdered seq rb lt v b c = record {
    in_order = v.in_order;
    held = ((b, c, lt, refl), v.held);
    within = v.within;
    is_open = v.is_open;
  }

  pub insert_frame-IsOrdered :
      (sel : Select) (seq : ℕ) (rb : ReorderBuffer)
      → seq < limit
      → IsOrdered stream limit rb
      → find rb.next_seq rb.buf ≡ none
      → let r = insert_frame sel seq (stream seq) rb in
        IsOrdered stream limit r.0 × (find r.0.next_seq r.0.buf ≡ none) × Inserted stream seq rb r
  insert_frame-IsOrdered sel seq rb lt v gap = elim (insert_frame_cases sel seq (stream seq) rb) [
    | old (b, e) ↦ rw e (v, gap, inr (refl, omega arith, Extends-refl rb, inl b))
    | full (b, e) ↦ rw e (v, gap, inl (refl, refl, b))
    | again (b, q, h, e) ↦
        let k = find-IsHeld stream limit rb.next_seq rb.size seq q rb.buf v.held h in
        rw e (v, gap, inr (refl, b, Extends-refl rb, inr (rw h (ap some k.3))))
    | fresh (b, c, h, e) ↦
        let (v', x, done) =
          flush-IsOrdered _ sel (hold seq (stream seq) rb) (hold-IsOrdered seq rb lt v b c)
            (omega arith) in
        rw e (
          v',
          done,
          inr (
            refl,
            c,
            Extends-trans rb _ _ (hold-Extends seq (stream seq) rb h) x,
            x.keeps seq (stream seq) (find-hold seq (stream seq) rb),
          ),
        )
  ]
