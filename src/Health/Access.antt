-- ===== src/Health/Access.antt =====
-- Who may see what of the health server.
use mqtt_forward.Prelude.{if◌then◌else◌, Text, codes, text_eq, Option, none, some}
use mqtt_forward.Health.{Page, index, cmdline, profile, symbol, trace, Handler}

-- The page of the profiler below its path.
abbrev pub page_of : Text → Page
page_of rest =
    if text_eq (codes "cmdline") rest
    then cmdline
    else if text_eq (codes "profile") rest
    then profile
    else if text_eq (codes "symbol") rest
    then symbol
    else if text_eq (codes "trace") rest
    then trace
    else index

abbrev handler_of : Option (Text × Handler) → Option Handler
handler_of none = none
handler_of (some r) = some r.1
