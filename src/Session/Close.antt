-- ===== src/Session/Close.antt =====
-- Closing a session.
use mqtt_forward.Prelude.{Bool-cases, ◌≡◌, refl, inl, inr, true, false, [], arith}
use mqtt_forward.Session.{Session, close_once, close}
use mqtt_forward.Reorder.{close_reorder}

-- The state of a session after a call of `Close`.
abbrev pub IsClosed : Session → Session → Type 0
IsClosed s t = (t.closed ≡ true) × (t.id ≡ s.id) × (t.kind ≡ s.kind) × (t.reorder.closed ≡ true)

close_once-IsClosed : (s : Session) → IsClosed s (close_once s).session
unfolding close_once close_reorder
close_once-IsClosed s = ground arith

close_again :
    (s : Session)
    → s.closed ≡ true
    → close s ≡ record { session = s; messages = []; calls_hook = false }
unfolding close
close_again s h = rw h

-- After `Close` a session is closed, and its reorder buffer with it, under the same id and of the
-- same kind; and closing it again changes nothing, publishes nothing, and does not call the hook. (If it was closed
-- before, so was its buffer.)
pub close_lem :
    (s : Session)
    → (s.closed ≡ true → s.reorder.closed ≡ true)
    → let c = close s in
      IsClosed s c.session
      × (close c.session ≡ record { session = c.session; messages = []; calls_hook = false })
close_lem s v = (closed, close_again (close s).session closed.0)
  where
    closed : IsClosed s (close s).session
    closed = elim (Bool-cases s.closed) [
      | inl h ↦ rw (close_again s h) (h, refl, refl, v h)
      | inr h ↦ unfold close in rw h (close_once-IsClosed s)
    ]
