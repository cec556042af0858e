-- ===== src/Examples/Asked.antt =====
-- The theorem on the commands of a user, at concrete data.
use discode.Base.{[], some, true, ◌∷◌}
use discode.Commands.Target.{BotTables, SessionRef}
use discode.Commands.Handlers.{Around, UserCommand}
use discode.Commands.Rights.{Asked, Gates}
use discode.Examples.Fixtures.{call, db}

abbrev around : Around
around = record { call = call; own_clock = 1000; between = λ n t. t }

abbrev gates : Gates
gates = record { allowed = 7 ∷ []; enabled = true }

abbrev tables : BotTables
tables = record { db = db; policies = [] }

-- the owner of the session stops it by its id
abbrev stop_by_uuid : Asked
stop_by_uuid =
    Asked.asks
      (record {
        guild_id = some 7;
        user = record { user_id = 5; roles = []; role_names = [] };
        channel_id = 0;
        session = some (SessionRef.by_uuid 1);
      })
      UserCommand.stop
