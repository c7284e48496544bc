-- ===== src/Transport/SessionMode.antt =====
-- internal/tunnel/protocol.go: the modes of sessions.
use mqtt_forward.Prelude.{Text, codes}

abbrev pub tcp : Text
tcp = codes "tcp"

abbrev pub shell : Text
shell = codes "shell"

abbrev pub exec : Text
exec = codes "exec"
