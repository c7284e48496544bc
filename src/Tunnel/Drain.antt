-- ===== src/Tunnel/Drain.antt =====
-- A tunnel is never stuck: what was published can always come out, and the window open again.
use mqtt_forward.Prelude.{get_elem?, Text, ℕ, ◌<◌, ◌≡◌, some, List}
use mqtt_forward.Tunnel.{Tunnel}
use mqtt_forward.Writer.{SequenceWriter, data_message}
use mqtt_forward.Transport.{PubMessage}

-- The client has taken every piece so far.
abbrev pub Published : (ℕ → Text) → SequenceWriter → ℕ → List PubMessage → Type 0
Published stream w i ms = (k : ℕ) × (get_elem? ms k ≡ some (data_message w.topic i (stream i)))

abbrev pub AllPublished : (ℕ → Text) → Tunnel → Type 0
AllPublished stream t =
    (i : ℕ) → i < t.writer.seq → Published stream t.writer i t.transport.published
