-- ===== src/Reorder/Delivery.antt =====
-- A whole stream through the reorder buffer.
use mqtt_forward.Prelude.{
  All, Text, ℕ, ◌^◌, ◌≤◌, ◌<◌, ◌≡◌, refl, sym, ap, ◌∙◌, subst, ◌⊎◌, inl, inr, Option, none, some,
  List, [], ◌∷◌, arith, dec_lt,
}
use mqtt_forward.Reorder.{
  ReorderBuffer, new_reorder_buffer, find, InsertError, Select, insert_frame,
}
use mqtt_forward.Reorder.Order.{
  first, IsOrdered, Extends, Extends-refl, Extends-trans, Inserted, insert_frame-IsOrdered,
}

-- The frames of a stream, inserted in the order in which their numbers arrive.
unfoldable pub receive : Select → (ℕ → Text) → List ℕ → ReorderBuffer → ReorderBuffer
receive sel stream [] rb = rb
receive sel stream (s ∷ seqs) rb = receive sel stream seqs (insert_frame sel s (stream s) rb).0

-- No insertion of the run is refused.
abbrev pub AllAccepted : Select → (ℕ → Text) → List ℕ → ReorderBuffer → Type 0
AllAccepted sel stream [] rb = Unit
AllAccepted sel stream (s ∷ seqs) rb =
    ((insert_frame sel s (stream s) rb).1 ≡ none)
    × AllAccepted sel stream seqs (insert_frame sel s (stream s) rb).0

abbrev pub IsIn : ℕ → List ℕ → Type 0
IsIn a [] = ⊥
IsIn a (x ∷ xs) = (x ≡ a) ⊎ IsIn a xs

new-IsOrdered :
    (stream : ℕ → Text) (limit size : ℕ) → IsOrdered stream limit (new_reorder_buffer size)
unfolding new_reorder_buffer
new-IsOrdered stream limit size = record {
  in_order = refl;
  held = tt;
  within = omega arith;
  is_open = refl;
}

-- A frame has been sent, or waits in the buffer.
abbrev pub IsKept : (ℕ → Text) → ReorderBuffer → ℕ → Type 0
IsKept stream rb s = (s < rb.next_seq) ⊎ (find s rb.buf ≡ some (stream s))

module _ (sel : Select) (stream : ℕ → Text) (limit : ℕ) (short : limit < 2 ^ 32) where
  pub Extends-IsKept :
      (rb rb' : ReorderBuffer) (s : ℕ) → Extends rb rb' → IsKept stream rb s → IsKept stream rb' s
  Extends-IsKept rb rb' s x (inl lt) = inl (omega (arith, x.grows))
  Extends-IsKept rb rb' s x (inr e) = x.keeps s (stream s) e

  pub Inserted-Extends :
      (s : ℕ) (rb : ReorderBuffer) (r : ReorderBuffer × Option InsertError)
      → Inserted stream s rb r
      → Extends rb r.0 × (r.1 ≡ none → IsKept stream r.0 s)
  Inserted-Extends s rb (rb', e) (inl (full, same, _)) =
      (subst (Extends rb) (sym same) (Extends-refl rb), λ h. cc)
  Inserted-Extends s rb (rb', e) (inr (_, _, x, k)) = (x, λ h. k)

  receive-IsOrdered :
      (seqs : List ℕ) (rb : ReorderBuffer)
      → All (λ s. s < limit) seqs
      → IsOrdered stream limit rb
      → find rb.next_seq rb.buf ≡ none
      → let r = receive sel stream seqs rb in
        IsOrdered stream limit r
        × (find r.next_seq r.buf ≡ none)
        × Extends rb r
        × (AllAccepted sel stream seqs rb → (s : ℕ) → IsIn s seqs → IsKept stream r s)
  unfolding receive
  receive-IsOrdered [] rb h v gap = (v, gap, Extends-refl rb, λ _ s i. absurd i)
  receive-IsOrdered (s ∷ seqs) rb h v gap =
      let (v', gap', ins) = insert_frame-IsOrdered stream limit short sel s rb h.0 v gap in
      let r = receive sel stream seqs (insert_frame sel s (stream s) rb).0 in
      let (x, k) = Inserted-Extends s rb _ ins in
      let (w, g, y, all) =
        receive-IsOrdered seqs (insert_frame sel s (stream s) rb).0 h.1 v' gap' in
      (
        w,
        g,
        Extends-trans rb _ _ x y,
        λ a t i. elim i [
          | inl e ↦ subst (IsKept stream r) e (Extends-IsKept _ r s y (k a.0))
          | inr i' ↦ all a.1 t i'
        ],
      )

-- Whatever order frames of a stream come in, repeated or refused ones among them, an open buffer
-- has sent the payloads of the first numbers of the stream in their order, each once, up to the
-- number that it waits for. (Sequence numbers below 2^32, so that none wraps.)
pub receive_in_order :
    (sel : Select) (stream : ℕ → Text) (size : ℕ) (seqs : List ℕ) (limit : ℕ)
    → limit < 2 ^ 32
    → All (λ s. s < limit) seqs
    → let rb = receive sel stream seqs (new_reorder_buffer size) in
      (rb.data_ch ≡ first rb.next_seq stream) × (rb.next_seq ≤ limit)
receive_in_order sel stream size seqs limit short h =
    let r =
      receive-IsOrdered sel stream limit short seqs (new_reorder_buffer size) h
        (new-IsOrdered stream limit size) (unfold find new_reorder_buffer in refl) in
    (r.0.in_order, r.0.within)

-- For a stream of fewer than 2^32 payloads: if every number below `n` arrives at least once, none from `n` on does, and no insertion is refused
-- for lack of room, the whole stream of `n` payloads has been sent, in order.
pub receive_complete :
    (sel : Select) (stream : ℕ → Text) (size : ℕ) (seqs : List ℕ) (n : ℕ)
    → n < 2 ^ 32
    → All (λ s. s < n) seqs
    → ((i : ℕ) → i < n → IsIn i seqs)
    → AllAccepted sel stream seqs (new_reorder_buffer size)
    → (receive sel stream seqs (new_reorder_buffer size)).data_ch ≡ first n stream
receive_complete sel stream size seqs n short h every acc =
    let (w, gap, _, kept) =
      receive-IsOrdered sel stream n short seqs (new_reorder_buffer size) h
        (new-IsOrdered stream n size) (unfold find new_reorder_buffer in refl) in
    let rb = receive sel stream seqs (new_reorder_buffer size) in
    let all : rb.next_seq ≡ n = elim (dec_lt rb.next_seq n) [
      | no h' ↦ omega (arith, w.within)
      | yes lt ↦ elim (kept acc rb.next_seq (every rb.next_seq lt)) [
        | inl lt' ↦ absurd (omega arith)
        | inr e ↦ cc
      ]
    ] in
    w.in_order ∙ ap (λ k. first k stream) all
