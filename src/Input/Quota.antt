-- ===== src/Input/Quota.antt =====
-- The input quotas of src/discode/bot/sagas/input.py.
use discode.Base.{
  Bool, List, Option, Option-cases, [], arith, false, find_sound, if◌then◌else◌, inl, inr, leb,
  length, or_text, refl, select, true, ℕ, ◌++◌, ◌+◌, ◌∷◌, ◌≡◌, ◌≤◌,
}
use discode.Data.{Call, Database, Event, Ident, Text, Time, get_session, has_id}
use discode.Config.{Settings}
use discode.Text.{utf8_length}
use discode.Lifecycle.{Evolves, Evolves-update}
use discode.Input.Saga.{
  Answer, bytes_recent, input_event, is_recent, length_recent, run_input_saga, sum_bytes,
  touch_running,
}

length-select-append :
    (p : Event → Bool) (es : List Event) (e : Event)
    → length (select p (es ++ e ∷ [])) ≡ length (select p es) + (if p e then 1 else 0)
length-select-append p [] e = ground arith
length-select-append p (x ∷ es) e = ground (arith, length-select-append p es e)

sum_bytes-select-append :
    (p : Event → Bool) (es : List Event) (e : Event)
    → sum_bytes (select p (es ++ e ∷ [])) ≡ sum_bytes (select p es) + (if p e then e.bytes else 0)
sum_bytes-select-append p [] e = ground arith
sum_bytes-select-append p (x ∷ es) e = ground (arith, sum_bytes-select-append p es e)

-- what a row stamped `now` charges to the window that the bot's clock measures
abbrev pub charge : Time → Time → ℕ → ℕ
charge clock now n = if leb clock (now + 60) then n else 0

abbrev pub is_accepted : Answer → Bool
is_accepted (Answer.accepted k) = true
is_accepted _ = false

module _ (cfg : Settings) (clock : Time) (c : Call) (sid guild owner : Ident) (actor : Option Ident)
    (text : Text) (db : Database) where
  -- Whatever is accepted is charged to the session's window of the last minute, one message and its
  -- bytes, unless the bot's clock is more than a minute ahead of the database's; the window stays
  -- within both quotas, and the message within the size limit.
  pub run_input_saga_quota :
      (run_input_saga cfg clock c sid guild owner actor text db).1 ≡ Answer.accepted (c.uuid 0)
      → let db' = (run_input_saga cfg clock c sid guild owner actor text db).0 in
        (length_recent clock sid db' ≡ length_recent clock sid db + charge clock c.now 1)
        × (bytes_recent clock sid db'
            ≡ bytes_recent clock sid db + charge clock c.now (utf8_length text))
        × (length_recent clock sid db' ≤ cfg.max_input_messages_per_session_per_min)
        × (bytes_recent clock sid db' ≤ cfg.max_input_bytes_per_session_per_min)
        × (utf8_length text ≤ cfg.max_input_bytes_per_message)
  unfolding run_input_saga
  run_input_saga_quota h = elim (Option-cases (get_session sid db)) [
    | inl e ↦ ground arith
    | inr (s, e) ↦ ground (
      arith,
      find_sound (has_id sid) db.sessions s e,
      length-select-append (is_recent clock sid) db.events
          (input_event c s (or_text actor owner) (utf8_length text)),
      sum_bytes-select-append (is_recent clock sid) db.events
          (input_event c s (or_text actor owner) (utf8_length text)),
    )
  ]

  -- A refused message leaves the database as it was.
  pub run_input_saga_refused :
      is_accepted (run_input_saga cfg clock c sid guild owner actor text db).1 ≡ false
      → (run_input_saga cfg clock c sid guild owner actor text db).0 ≡ db
  unfolding run_input_saga
  run_input_saga_refused h = elim (Option-cases (get_session sid db)) [
    | inl e ↦ ground arith
    | inr (s, e) ↦ ground arith
  ]

  pub run_input_saga-Evolves :
      Evolves db.sessions (run_input_saga cfg clock c sid guild owner actor text db).0.sessions
  run_input_saga-Evolves =
      Evolves-update (has_id sid) (touch_running c.now) db.sessions _
        (is_accepted (run_input_saga cfg clock c sid guild owner actor text db).1) (λ s. refl)
        (λ i s h e d.
          unfold run_input_saga in ground (arith, find_sound (has_id i) db.sessions s h))
        (unfold run_input_saga in ground arith)
