-- ===== src/Pump.antt =====
-- internal/tunnel/session_tcp.go, session_shell.go and session_exec.go: the loops that copy between a
-- connection, a terminal or a process and the tunnel. What the reads and writes of the operating
-- system return is an argument.
pub mod Acks
pub mod Tests
use mqtt_forward.Prelude.{
  leb, if◌then◌else◌, length, Text, ℕ, ◌+◌, ◌-◌, ◌/◌, ◌%◌, ◌^◌, Bool, List, [], ◌∷◌, ◌++◌, map,
}
use mqtt_forward.Flow.{flow_control_window}
use mqtt_forward.Writer.{
  WriteOutcome, written, context_done, publish_failed, waiting, Writing, write,
}
use mqtt_forward.Session.{Session, ack_message}
use mqtt_forward.Transport.{PubMessage}

-- One `Read`: the bytes, and whether there is an error, the end of the file among them.
pub record Read : Type 0 where
  pub buf : Text
  pub failed : Bool

-- The loop goes on, a read has failed, or a write into the tunnel has not succeeded.
pub data ReadOutcome : Type 0 where
  reading read_failed : ReadOutcome
  write_ended : WriteOutcome → ReadOutcome

-- `if n > 0` the bytes are written; nothing is written otherwise.
unfoldable pub write_read : Text → Writing → Writing × WriteOutcome
write_read [] w = (w, written)
write_read (b ∷ bs) w = write (b ∷ bs) w

-- `readFromConn` and `readFromPTY`, on the results of the reads.
unfoldable pub read_from_conn : List Read → Writing → Writing × ReadOutcome
unfolding write_read
read_from_conn [] w = (w, reading)
read_from_conn (r ∷ rs) w =
    let sent = write_read r.buf w in
    let rest = read_from_conn rs sent.0 in
    elim (sent.1) [
      | written ↦ if r.failed then (sent.0, read_failed) else rest
      | context_done ↦ (sent.0, write_ended context_done)
      | publish_failed ↦ (sent.0, write_ended publish_failed)
      | waiting ↦ (sent.0, write_ended waiting)
    ]

-- The counters of `writeToConn` and `writeToPTY`.
pub record Receipt : Type 0 where
  pub total_received : ℕ
  pub last_ack : ℕ

abbrev pub ack_interval : ℕ
ack_interval = flow_control_window / 4

abbrev pub new_receipt : Receipt
new_receipt = record { total_received = 0; last_ack = 0 }

-- What is done for one payload that was written: the counters, and the acknowledgement, if it is
-- time for one. Counters are `uint64`.
unfoldable pub count_received : ℕ → Receipt → Receipt × List ℕ
count_received n r =
    let total = (r.total_received + n) % 2 ^ 64 in
    if leb ack_interval ((total + 2 ^ 64 - r.last_ack) % 2 ^ 64)
    then (record { total_received = total; last_ack = total }, total ∷ [])
    else (record r { total_received = total }, [])

-- The loop, on the payloads that come from the reorder buffer, each with whether its write succeeds;
-- the counts that are acknowledged, in order.
unfoldable pub write_each : List (Text × Bool) → Receipt → Receipt × List ℕ
unfolding count_received
write_each [] r = (r, [])
write_each ((payload, succeeds) ∷ ps) r =
    let one = count_received (length payload) r in
    let rest = write_each ps one.0 in if succeeds then (rest.0, one.1 ++ rest.1) else (r, [])

-- The messages that the loop of a session publishes.
unfoldable pub write_to_conn : List (Text × Bool) → Session → List PubMessage
unfolding write_each
write_to_conn ps s = map (λ count. ack_message count s) (write_each ps new_receipt).1
