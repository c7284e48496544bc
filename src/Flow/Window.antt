-- ===== src/Flow/Window.antt =====
-- The window of the flow control: what a sender may have outstanding.
use mqtt_forward.Prelude.{
  Bool-cases, ℕ, ◌+◌, ◌^◌, ◌≤◌, ◌<◌, ◌≡◌, refl, ◌∙◌, ◌↔◌, inl, inr, true, false, List, [], ◌∷◌,
  ◌++◌, map, arith,
}
use mqtt_forward.Flow.{
  FlowControl, can_send, add_sent, update_ack, Event, ack, notified, done, Wait, granted, cancelled,
  blocked, taken_notice, select_wait, wait_for_window,
}

-- Nothing is acknowledged that was not sent, the window is respected, and no count is near the end of
-- 64 bits.
pub record IsWithin (fc : FlowControl) : Type 0 where
  pub acked_le : fc.acked_bytes ≤ fc.sent_bytes
  pub window : fc.sent_bytes ≤ fc.acked_bytes + fc.window_size
  pub small : fc.window_size < 2 ^ 63

pub update_ack-IsWithin :
    (acked : ℕ) (fc : FlowControl) → IsWithin fc → IsWithin (update_ack acked fc)
unfolding update_ack
update_ack-IsWithin acked fc v = ground arith

-- Of a sender that keeps its window, `CanSend` allows exactly what fits in the window, of fewer than
-- 2^63 bytes.
pub can_send_iff :
    (fc : FlowControl) (n : ℕ)
    → IsWithin fc
    → n < 2 ^ 63
    → (can_send fc n ≡ true) ↔ (fc.sent_bytes + n ≤ fc.acked_bytes + fc.window_size)
unfolding can_send
can_send_iff fc n v h = ground arith

-- An acknowledgement never takes one back, never exceeds what was sent, and a value within range that
-- is newer is taken as it is; what was sent and the window stay, and a blocked sender is told. (No more
-- is acknowledged to begin with than was sent.)
pub update_ack_lem :
    (acked : ℕ) (fc : FlowControl)
    → fc.acked_bytes ≤ fc.sent_bytes
    → let fc' = update_ack acked fc in
      (fc.acked_bytes ≤ fc'.acked_bytes)
      × (fc'.acked_bytes ≤ fc.sent_bytes)
      × (fc'.sent_bytes ≡ fc.sent_bytes)
      × (fc'.window_size ≡ fc.window_size)
      × (fc'.blocked_notify ≡ true)
      × (fc.acked_bytes ≤ acked → acked ≤ fc.sent_bytes → fc'.acked_bytes ≡ acked)
unfolding update_ack
update_ack_lem acked fc h = (ground arith, ground arith, refl, refl, refl, λ a b. ground arith)

-- A send that was granted keeps the window.
pub add_sent-IsWithin :
    (n : ℕ) (fc : FlowControl)
    → IsWithin fc
    → n < 2 ^ 63
    → fc.sent_bytes + n < 2 ^ 64
    → can_send fc n ≡ true
    → IsWithin (add_sent n fc)
unfolding add_sent can_send
add_sent-IsWithin n fc v h k e = ground arith

-- The outcome of a wait for room for `n` bytes.
abbrev pub WaitFor : ℕ → FlowControl → Wait → Type 0
WaitFor n fc (granted fc' events) =
    IsWithin fc'
    × (can_send fc' n ≡ true)
    × (fc'.sent_bytes ≡ fc.sent_bytes)
    × (fc'.window_size ≡ fc.window_size)
WaitFor n fc (cancelled fc') =
    IsWithin fc' × (fc'.sent_bytes ≡ fc.sent_bytes) × (fc'.window_size ≡ fc.window_size)
WaitFor n fc (blocked fc') =
    IsWithin fc'
    × (can_send fc' n ≡ false)
    × (fc'.sent_bytes ≡ fc.sent_bytes)
    × (fc'.window_size ≡ fc.window_size)

WaitFor-same :
    (n : ℕ) (fc fc' : FlowControl) (w : Wait)
    → fc'.sent_bytes ≡ fc.sent_bytes
    → fc'.window_size ≡ fc.window_size
    → WaitFor n fc' w
    → WaitFor n fc w
WaitFor-same n fc fc' (granted f es) a b (v, room, c, d) = (v, room, c ∙ a, d ∙ b)
WaitFor-same n fc fc' (cancelled f) a b (v, c, d) = (v, c ∙ a, d ∙ b)
WaitFor-same n fc fc' (blocked f) a b (v, full, c, d) = (v, full, c ∙ a, d ∙ b)

-- No sender waits for room that is there, without a notification.
abbrev IsTold : ℕ → FlowControl → Type 0
IsTold n fc = (can_send fc n ≡ true) → (fc.blocked_notify ≡ true)

taken_notice-IsWithin : (fc : FlowControl) → IsWithin fc → IsWithin (taken_notice fc)
taken_notice-IsWithin fc v = record { acked_le = v.acked_le; window = v.window; small = v.small }

full_unless_told :
    (n : ℕ) (fc : FlowControl) → IsTold n fc → fc.blocked_notify ≡ false → can_send fc n ≡ false
full_unless_told n fc told quiet = elim (Bool-cases (can_send fc n)) [
  | inl room ↦ absurd (let e = told room in cc)
  | inr full ↦ full
]

select_wait-WaitFor :
    (n : ℕ) (events : List Event) (fc : FlowControl)
    → IsWithin fc
    → IsTold n fc
    → WaitFor n fc (select_wait n events fc)
unfolding select_wait can_send
select_wait-WaitFor n [] fc v told = elim (Bool-cases fc.blocked_notify) [
  | inr quiet ↦
      rw (quiet, select_wait)
        (taken_notice-IsWithin fc v, full_unless_told n fc told quiet, refl, refl)
  | inl b ↦ elim (Bool-cases (can_send fc n)) [
    | inl e ↦ rw (b, e, select_wait) (taken_notice-IsWithin fc v, e, refl, refl)
    | inr e ↦ rw (b, e, select_wait) (taken_notice-IsWithin fc v, e, refl, refl)
  ]
]
select_wait-WaitFor n (done ∷ events) fc v told = (v, refl, refl)
select_wait-WaitFor n (ack acked ∷ events) fc v told =
    let (_, _, same_sent, same_window, notice, _) = update_ack_lem acked fc v.acked_le in
    WaitFor-same n fc (update_ack acked fc) _ same_sent same_window (
      select_wait-WaitFor n events (update_ack acked fc) (update_ack-IsWithin acked fc v)
        (λ _. notice))
select_wait-WaitFor n (notified ∷ events) fc v told = elim (Bool-cases fc.blocked_notify) [
  | inr quiet ↦
      let full = full_unless_told n fc told quiet in
      rw (quiet, select_wait)
        (select_wait-WaitFor n events (taken_notice fc) (taken_notice-IsWithin fc v)
          (λ room. absurd (let h = room in cc)))
  | inl b ↦ elim (Bool-cases (can_send fc n)) [
    | inl e ↦ rw (b, e, select_wait) (taken_notice-IsWithin fc v, e, refl, refl)
    | inr e ↦
        rw (b, e, select_wait)
          (select_wait-WaitFor n events (taken_notice fc) (taken_notice-IsWithin fc v)
            (λ room. absurd (let h = room in cc)))
  ]
]

-- A wait of a sender that keeps its window changes neither what was sent nor the window. It is granted
-- only when the bytes fit, and a sender that still waits does so only while they do not.
pub wait_for_window-WaitFor :
    (n : ℕ) (events : List Event) (fc : FlowControl)
    → IsWithin fc
    → WaitFor n fc (wait_for_window n events fc)
unfolding wait_for_window
wait_for_window-WaitFor n events fc v = elim (Bool-cases (can_send fc n)) [
  | inl e ↦ rw e (v, e, refl, refl)
  | inr e ↦ rw e (select_wait-WaitFor n events fc v (λ room. absurd (let h = room in cc)))
]

-- The flow control after acknowledgements.
abbrev after_acks : List ℕ → FlowControl → FlowControl
after_acks [] fc = fc
after_acks (acked ∷ more) fc = after_acks more (update_ack acked fc)

select_wait-acks :
    (n : ℕ) (acks : List ℕ) (events : List Event) (fc : FlowControl)
    → select_wait n (map ack acks ++ events) fc ≡ select_wait n events (after_acks acks fc)
unfolding select_wait
select_wait-acks n [] events fc = refl
select_wait-acks n (acked ∷ acks) events fc = select_wait-acks n acks events (update_ack acked fc)

-- There is room, and a sender that waits is told so.
record HasRoom (n : ℕ) (fc : FlowControl) : Type 0 where
  within : IsWithin fc
  room : fc.sent_bytes + n ≤ fc.acked_bytes + fc.window_size
  told : fc.blocked_notify ≡ true

makes_room :
    (n acked : ℕ) (fc : FlowControl)
    → IsWithin fc
    → acked ≤ fc.sent_bytes
    → fc.sent_bytes + n ≤ acked + fc.window_size
    → HasRoom n (update_ack acked fc)
unfolding update_ack
makes_room n acked fc v b fits = record {
  within = update_ack-IsWithin acked fc v;
  room = ground arith;
  told = refl;
}

keeps_room :
    (n : ℕ) (acks : List ℕ) (fc : FlowControl) → HasRoom n fc → HasRoom n (after_acks acks fc)
unfolding update_ack
keeps_room n [] fc h = h
keeps_room n (acked ∷ acks) fc h =
    let v = h.within in
    keeps_room n acks (update_ack acked fc) (record {
      within = update_ack-IsWithin acked fc v;
      room = (let r = h.room in let l = v.acked_le in ground arith);
      told = refl;
    })

after_acks-HasRoom :
    (n acked : ℕ) (before after : List ℕ) (fc : FlowControl)
    → IsWithin fc
    → acked ≤ fc.sent_bytes
    → fc.sent_bytes + n ≤ acked + fc.window_size
    → HasRoom n (after_acks (before ++ acked ∷ after) fc)
after_acks-HasRoom n acked [] after fc v b fits =
    keeps_room n after (update_ack acked fc) (makes_room n acked fc v b fits)
after_acks-HasRoom n acked (x ∷ before) after fc v b fits =
    let (_, _, same_sent, same_window, _, _) = update_ack_lem x fc v.acked_le in
    after_acks-HasRoom n acked before after (update_ack x fc) (update_ack-IsWithin x fc v)
      (omega (arith, same_sent, b)) (omega (arith, same_sent, same_window, fits))

-- A sender that keeps its window is not left waiting for the room of fewer than 2^63 bytes once
-- acknowledgements have come of which one, of bytes that were sent, makes the room: there is a
-- notification for it, and when it takes that, it is granted the room.
pub wait_for_window_wakes :
    (n acked : ℕ) (before after : List ℕ) (events : List Event) (fc : FlowControl)
    → IsWithin fc
    → n < 2 ^ 63
    → acked ≤ fc.sent_bytes
    → fc.sent_bytes + n ≤ acked + fc.window_size
    → (fc' : FlowControl) × (events' : List Event) × (wait_for_window n
          (map ack (before ++ acked ∷ after) ++ notified ∷ events)
          fc
        ≡ granted fc' events')
unfolding wait_for_window select_wait
wait_for_window_wakes n acked before after events fc v h b fits =
    let acks = before ++ acked ∷ after in
    let fc' = after_acks acks fc in
    let r = after_acks-HasRoom n acked before after fc v b fits in
    let room : can_send fc' n ≡ true = (can_send_iff fc' n r.within h).1 r.room in
    let told = r.told in
    elim (Bool-cases (can_send fc n)) [
      | inl e ↦ (fc, map ack acks ++ notified ∷ events, rw e refl)
      | inr e ↦ (
        taken_notice fc',
        events,
        rw e (select_wait-acks n acks (notified ∷ events) fc ∙ rw (told, room, select_wait) refl),
      )
    ]
