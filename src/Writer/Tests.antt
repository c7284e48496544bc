-- ===== src/Writer/Tests.antt =====
-- Examples for internal/tunnel/session.go, the sequence writer.
use mqtt_forward.Flow.{ack, done}
use mqtt_forward.Prelude.{length, Text, codes, ◌+◌, ◌≡◌, true, false, [], ◌∷◌, arith}
use mqtt_forward.Writer.{Writing, write_loop, write}
use mqtt_forward.Flow.Window.{IsWithin}
use mqtt_forward.Writer.Frames.{Written, write-Written}
use mqtt_forward.Writer.Ends.{IsEnded, write_ends}

abbrev topic_a1 : Text
topic_a1 = codes "tunnel/device-7/in/data/a1"

-- A new writer on a transport that takes everything; two acknowledgements will come.
abbrev pub fresh : Writing
fresh = record {
  writer = record {
    seq = 0;
    topic = topic_a1;
    fc = record { sent_bytes = 0; acked_bytes = 0; window_size = 262_144; blocked_notify = false };
  };
  transport = record { published = []; accepts = λ before m. true };
  events = ack 3 ∷ done ∷ [];
}

pub fresh-IsWithin : IsWithin fresh.writer.fc
fresh-IsWithin = record { acked_le = omega arith; window = omega arith; small = omega arith }

write-Written_example : Written (codes "hello") fresh (write (codes "hello") fresh)
write-Written_example = write-Written (codes "hello") fresh fresh-IsWithin (ground arith)

write_ends_example :
    (write_loop (length (codes "hello") + 7) (codes "hello") fresh ≡ write (codes "hello") fresh)
    × IsEnded (write (codes "hello") fresh)
write_ends_example = write_ends 7 (codes "hello") fresh fresh-IsWithin (ground arith)
