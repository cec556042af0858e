-- ===== src/Dispatcher/Repeats.antt =====
-- The dispatcher's deliveries (src/discode/dispatcher/main.py) over a history: with redeliveries,
-- with what other processes do to the database between them, and with the sweep of expired keys of
-- src/discode/janitor/retention.py.
use discode.Base.{
  All, Bool, List, Option-cases, [], arith, false, find-select, inl, inr, not, refl,
  rowcount-select, true, ℕ, ◌&&◌, ◌+◌, ◌∷◌, ◌≡◌, ◌≤◌,
}
use discode.Data.{Database, Envelope, IdempotencyKey, Reason, Slot, Text, Time, get_key, has_slot}
use discode.Janitor.Retention.{is_expired_key, sweep_idempotency_keys}
use discode.Queues.Relay.{batch}
use discode.Dispatcher.Claim.{Outbound, seven_days}
use discode.Dispatcher.Handlers.{
  Course, Fields, dispatch_discord_envelope, dispatch_payload, handle_archive_thread,
  handle_system_notice, handle_terminal_notice, others, render_notice, with_answer,
}
use discode.Dispatcher.Accounts.{
  Accounted, Accounted-weaken, count_open, is_chunk, is_open_claim, lost_one, sent,
}
use discode.Dispatcher.Gated.{
  KeepsGates, archive_thread-Accounted, lost_in, others-Accounted, system_notice-Accounted,
  terminal_notice-Accounted,
}

pub data Step : Type 0 where
  deliver : Fields → Course → Step
  sweep : Time → (IdempotencyKey → Bool) → Step
  other : (Database → Database) → Step

unfoldable pub step : (Reason → Text) → Step → Outbound → Outbound
unfolding dispatch_discord_envelope sweep_idempotency_keys
step reason_text (Step.deliver fields c) w = (dispatch_discord_envelope reason_text c fields w).0
step reason_text (Step.sweep now batch) w = record w {
  db = (sweep_idempotency_keys now batch w.db).0;
}
step reason_text (Step.other f) w = others f w

unfoldable pub run_steps : (Reason → Text) → List Step → Outbound → Outbound
unfolding step
run_steps reason_text [] w = w
run_steps reason_text (s ∷ steps) w = run_steps reason_text steps (step reason_text s w)

-- A history of at most seven days, whose clock reaches `limit` at its end at the latest.
abbrev pub IsTimely : Time → Step → Type 0
IsTimely limit (Step.deliver fields c) = (limit ≤ c.now + seven_days) × KeepsGates c.between
IsTimely limit (Step.sweep now batch) = now ≤ limit
IsTimely limit (Step.other f) = KeepsGates f

-- the attempts that Discord acted on and that were lost after that
abbrev pub count_lost : List Step → ℕ
count_lost [] = 0
count_lost (Step.deliver fields c ∷ steps) = lost_in c + count_lost steps
count_lost (Step.sweep now batch ∷ steps) = count_lost steps
count_lost (Step.other f ∷ steps) = count_lost steps

sweep-Accounted :
    (limit now : Time) (batch : IdempotencyKey → Bool) (lost : ℕ) (w : Outbound)
    → now ≤ limit
    → Accounted limit lost w
    → Accounted limit lost (record w { db = (sweep_idempotency_keys now batch w.db).0 })
unfolding sweep_idempotency_keys
sweep-Accounted limit now batch lost w early (none_open, bound) =
    let taken : IdempotencyKey → Bool = λ k. is_expired_key now k && batch k in
    (
      omega (
        arith,
        none_open,
        rowcount-select is_open_claim (λ k. not (taken k)) w.db.idempotency_keys,
      ),
      λ slot gate. elim (Option-cases (get_key slot w.db)) [
        | inl e ↦ ground (arith, bound slot gate)
        | inr (k, e) ↦ elim (Option-cases k.expires_at) [
          | inl forever ↦ ground (
            arith,
            bound slot gate,
            find-select (has_slot slot) (λ k. not (taken k)) w.db.idempotency_keys k e,
          )
          | inr (t, until) ↦ ground (
            arith,
            bound slot gate,
            find-select (has_slot slot) (λ k. not (taken k)) w.db.idempotency_keys k e,
          )
        ]
      ],
    )

weakened :
    (limit : Time) (lost first second : ℕ) (w : Outbound)
    → Accounted limit (lost + first) w
    → Accounted limit (lost + (first + second)) w
weakened limit lost first second w h =
    Accounted-weaken limit (lost + first) (lost + (first + second)) w (omega arith) h

with_answer_world : (r : Outbound × Bool) → (with_answer r).0 ≡ r.0
with_answer_world (w, true) = refl
with_answer_world (w, false) = refl

payload-Accounted :
    (reason_text : Reason → Text) (limit : Time) (c : Course) (e : Envelope) (lost : ℕ)
    (w : Outbound)
    → limit ≤ c.now + seven_days
    → KeepsGates c.between
    → Accounted limit lost w
    → Accounted limit (lost + lost_in c) (dispatch_payload reason_text c e w).0
payload-Accounted reason_text limit c (Envelope.system_notice n) lost w soon keep h =
    let text = render_notice reason_text n.message in
    rw (with_answer_world (handle_system_notice c n text w)) (
      weakened limit lost (lost_one c.first) (lost_one c.second) (handle_system_notice c n text w).0
        (system_notice-Accounted limit c n text lost w soon h))
payload-Accounted reason_text limit c (Envelope.terminal_notice n) lost w soon keep h =
    let text = render_notice reason_text n.message in
    rw (with_answer_world (handle_terminal_notice c n text w)) (
      Accounted-weaken limit (lost + lost_one c.first + lost_one c.second)
        (lost + (lost_one c.first + lost_one c.second)) (handle_terminal_notice c n text w).0
        (omega arith) (terminal_notice-Accounted limit c n text lost w soon keep h))
payload-Accounted reason_text limit c (Envelope.archive_thread a) lost w soon keep h =
    rw (with_answer_world (handle_archive_thread c a w)) (
      weakened limit lost (lost_one c.first) (lost_one c.second) (handle_archive_thread c a w).0
        (archive_thread-Accounted limit c a lost w soon keep h))
payload-Accounted reason_text limit c (Envelope.create_session p) lost w soon keep h =
    Accounted-weaken limit lost (lost + lost_in c) w (omega arith) h
payload-Accounted reason_text limit c (Envelope.send_input p) lost w soon keep h =
    Accounted-weaken limit lost (lost + lost_in c) w (omega arith) h
payload-Accounted reason_text limit c (Envelope.stop_session p) lost w soon keep h =
    Accounted-weaken limit lost (lost + lost_in c) w (omega arith) h
payload-Accounted reason_text limit c (Envelope.resume_session p) lost w soon keep h =
    Accounted-weaken limit lost (lost + lost_in c) w (omega arith) h
payload-Accounted reason_text limit c (Envelope.restart_session p) lost w soon keep h =
    Accounted-weaken limit lost (lost + lost_in c) w (omega arith) h

dispatch-Accounted :
    (reason_text : Reason → Text) (limit : Time) (c : Course) (fields : Fields) (lost : ℕ)
    (w : Outbound)
    → limit ≤ c.now + seven_days
    → KeepsGates c.between
    → Accounted limit lost w
    → Accounted limit (lost + lost_in c) (dispatch_discord_envelope reason_text c fields w).0
unfolding dispatch_discord_envelope
dispatch-Accounted reason_text limit c (Fields.payload e) lost w soon keep h =
    payload-Accounted reason_text limit c e lost w soon keep h
dispatch-Accounted reason_text limit c Fields.output_chunk lost w soon keep h =
    Accounted-weaken limit lost (lost + lost_in c) w (omega arith) h
dispatch-Accounted reason_text limit c Fields.unknown_type lost w soon keep h =
    Accounted-weaken limit lost (lost + lost_in c) w (omega arith) h
dispatch-Accounted reason_text limit c Fields.malformed lost w soon keep h =
    Accounted-weaken limit lost (lost + lost_in c) w (omega arith) h

run_steps-Accounted :
    (reason_text : Reason → Text) (limit : Time) (steps : List Step) (lost : ℕ) (w : Outbound)
    → All (IsTimely limit) steps
    → Accounted limit lost w
    → Accounted limit (lost + count_lost steps) (run_steps reason_text steps w)
unfolding run_steps step
run_steps-Accounted reason_text limit [] lost w timely h =
    Accounted-weaken limit lost (lost + 0) w (omega arith) h
run_steps-Accounted reason_text limit (Step.deliver fields c ∷ steps) lost w ((soon, keep), timely)
      h =
    let after = (dispatch_discord_envelope reason_text c fields w).0 in
    Accounted-weaken limit (lost + lost_in c + count_lost steps)
      (lost + (lost_in c + count_lost steps)) (run_steps reason_text steps after) (omega arith)
      (run_steps-Accounted reason_text limit steps (lost + lost_in c) after timely
        (dispatch-Accounted reason_text limit c fields lost w soon keep h))
run_steps-Accounted reason_text limit (Step.sweep now batch ∷ steps) lost w (early, timely) h =
    run_steps-Accounted reason_text limit steps lost
      (record w { db = (sweep_idempotency_keys now batch w.db).0 }) timely
      (sweep-Accounted limit now batch lost w early h)
run_steps-Accounted reason_text limit (Step.other f ∷ steps) lost w (keep, timely) h =
    run_steps-Accounted reason_text limit steps lost (others f w) timely
      (others-Accounted limit f lost w keep h)

-- Over a history of at most seven days from an empty log and no open claims, through redeliveries,
-- failures, sweeps of expired keys and other processes that leave the dispatcher's keys alone, what
-- a keyed delivery does reaches Discord at most once, and once more for each attempt that Discord
-- acted on and that was lost.
pub deliveries_repeat_only_after_loss :
    (reason_text : Reason → Text) (limit : Time) (steps : List Step) (db : Database) (slot : Slot)
    → All (IsTimely limit) steps
    → count_open db ≡ 0
    → is_chunk slot ≡ false
    → sent slot (run_steps reason_text steps (record { db = db; discord = [] }))
      ≤ 1 + count_lost steps
deliveries_repeat_only_after_loss reason_text limit steps db slot timely none_open gate =
    let after = run_steps reason_text steps (record { db = db; discord = [] }) in
    let (closed, bound) =
      run_steps-Accounted reason_text limit steps 0 (record { db = db; discord = [] }) timely
        (none_open, λ s g. omega arith) in
    ground (arith, bound slot gate)
