-- ===== src/Turn/Queue.antt =====
-- The order of turns: the query for the earliest unsettled turn of `_run_locked`.
use discode.Base.{
  Bool, List, Option, [], false, if◌then◌else◌, ltb, none, some, true, ℕ, ◌&&◌, ◌==◌, ◌∷◌,
}
use discode.Data.{Database, Ident, InputTurn, TurnStatus}

-- `status IN ('queued','executing','completed','uncertain')`
abbrev pub is_unsettled : TurnStatus → Bool
is_unsettled TurnStatus.queued = true
is_unsettled TurnStatus.executing = true
is_unsettled TurnStatus.completed = true
is_unsettled TurnStatus.uncertain = true
is_unsettled _ = false

abbrev pub is_queued : TurnStatus → Bool
is_queued TurnStatus.queued = true
is_queued _ = false

abbrev pub is_waiting : Ident → ℕ → InputTurn → Bool
is_waiting sid version t =
    t.session_id == sid && t.lifecycle_version == version && is_unsettled t.status

-- the earlier of two turns by `sequence`; the first one of a tie
abbrev pub earlier : InputTurn → Option InputTurn → InputTurn
earlier t none = t
earlier t (some u) = if ltb u.sequence t.sequence then u else t

-- `ORDER BY sequence LIMIT 1` over the turns that the clause selects
unfoldable pub first_by_sequence : (InputTurn → Bool) → List InputTurn → Option InputTurn
first_by_sequence p [] = none
first_by_sequence p (t ∷ ts) =
    let rest = first_by_sequence p ts in if p t then some (earlier t rest) else rest

unfoldable pub earliest : Ident → ℕ → Database → Option InputTurn
unfolding first_by_sequence
earliest sid version db = first_by_sequence (is_waiting sid version) db.input_turns
