-- ===== src/Tunnel/Growth.antt =====
-- How the parts of a tunnel grow in a step: internal/tunnel/session.go, session_tcp.go.
use mqtt_forward.Tunnel.Invariant.{IsPosted}
use mqtt_forward.Prelude.{
  length, All, All-append, All-map, get_elem?-last, Text, ℕ, ◌+◌, ◌^◌, ◌≤◌, ◌<◌, ◌≡◌, refl, ap, inl,
  inr, true, Option, List, [], ◌∷◌, ◌++◌, append-nil, arith,
}
use mqtt_forward.Flow.{FlowControl, outstanding, can_send, update_ack}
use mqtt_forward.Flow.Window.{IsWithin}
use mqtt_forward.Reorder.{ReorderBuffer, InsertError}
use mqtt_forward.Reorder.Order.{IsOrdered, Inserted}
use mqtt_forward.Pump.Acks.{IsCounted, count_received_cases}
use mqtt_forward.Reorder.Held.{IsHeld}
use mqtt_forward.Pump.{Receipt, count_received}

-- More pieces may be sent.
pub IsOrdered-grows :
    (stream : ℕ → Text) (m n : ℕ) (rb : ReorderBuffer)
    → m ≤ n
    → IsOrdered stream m rb
    → IsOrdered stream n rb
IsOrdered-grows stream m n rb h v = record {
  in_order = v.in_order;
  held =
      All-map (IsHeld stream m rb.next_seq rb.size) (IsHeld stream n rb.next_seq rb.size)
        (λ (s, p) k. (k.0, k.1, omega (arith, k.2), k.3)) rb.buf v.held;
  within = omega (arith, v.within);
  is_open = v.is_open;
}

-- What the window has room for is short, if the count does not wrap.
pub can_send-short :
    (fc : FlowControl) (n : ℕ)
    → IsWithin fc
    → can_send fc n ≡ true
    → fc.sent_bytes + n < 2 ^ 64
    → n < 2 ^ 63
unfolding can_send outstanding
can_send-short fc n v room small = ground (arith, v.small)

pub update_ack-le :
    (n bound : ℕ) (fc : FlowControl)
    → n ≤ bound
    → fc.acked_bytes ≤ bound
    → (update_ack n fc).acked_bytes ≤ bound
unfolding update_ack
update_ack-le n bound fc a b = ground arith

pub Inserted-grows :
    (stream : ℕ → Text) (seq : ℕ) (rb : ReorderBuffer) (r : ReorderBuffer × Option InsertError)
    → Inserted stream seq rb r
    → rb.next_seq ≤ r.0.next_seq
Inserted-grows stream seq rb r (inl (_, same, _)) = omega (arith, ap (λ b. b.next_seq) same)
Inserted-grows stream seq rb r (inr (_, _, x, _)) = x.grows

pub Inserted-size :
    (stream : ℕ → Text) (seq : ℕ) (rb : ReorderBuffer) (r : ReorderBuffer × Option InsertError)
    → Inserted stream seq rb r
    → r.0.size ≡ rb.size
Inserted-size stream seq rb r (inl (_, same, _)) = ap (λ b. b.size) same
Inserted-size stream seq rb r (inr (_, _, x, _)) = x.same_size

-- What is done for one payload, as long as the count does not wrap.
pub count_received-IsPosted :
    (n : ℕ) (r : Receipt) (acks : List ℕ)
    → IsCounted r
    → r.total_received + n < 2 ^ 64
    → All (λ k. k ≤ r.total_received) acks
    → IsPosted r acks
    → let one = count_received n r in
      (one.0.total_received ≡ r.total_received + n)
      × IsCounted one.0
      × All (λ k. k ≤ r.total_received + n) (acks ++ one.1)
      × IsPosted one.0 (acks ++ one.1)
count_received-IsPosted n r acks v small claims posted =
    let total = r.total_received + n in
    let old : All (λ k. k ≤ total) acks =
      All-map (λ k. k ≤ r.total_received) (λ k. k ≤ total) (λ k h. omega arith) acks claims in
    elim (count_received_cases n r v small) [
      | inl (e, lt) ↦ rw (e, append-nil acks) (refl, (omega (arith, v.0), lt), old, posted)
      | inr e ↦ rw e (
        refl,
        (omega arith, omega arith),
        All-append (λ k. k ≤ total) acks (total ∷ []) old (omega arith, tt),
        inr (length acks, get_elem?-last acks total),
      )
    ]
