-- ===== src/Create/Supersede.antt =====
-- src/discode/db/accessors/supersede.py: a predecessor is released when its successor fails.
use discode.Base.{Bool, List, Option, false, none, some, update_where, ◌&&◌, ◌==◌}
use discode.Data.{Ident, Reason, Session, is_archived}

abbrev pub is_superseded_by : Ident → Option Reason → Bool
is_superseded_by sid (some (Reason.superseded successor)) = successor == sid
is_superseded_by sid _ = false

abbrev pub awaits : Ident → Session → Bool
awaits failed s = is_archived s.status && is_superseded_by failed s.status_reason

abbrev pub clear_reason : Session → Session
clear_reason s = record s { status_reason = none }

-- `release_superseded`
unfoldable pub release_superseded : Ident → List Session → List Session
release_superseded failed l = update_where (awaits failed) clear_reason l
