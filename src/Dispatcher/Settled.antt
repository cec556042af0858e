-- ===== src/Dispatcher/Settled.antt =====
-- What an acknowledgement of src/discode/dispatcher/main.py means.
-- The call returns with its delivery finalized, or it raises and the database is as it was.
use mathlib.Core.List.{Mem}
use discode.Base.{
  All, Bool, Bool-cases, List, Option-cases, [], ap, arith, false, inl, inr, leb, none, refl, some,
  true, update_where, ℕ, ◌++◌, ◌+◌, ◌==◌, ◌||◌, ◌∷◌, ◌≡◌, ◌≤◌, ◌⊎◌,
}
use discode.Data.{
  Database, Envelope, Ident, KeyText, Reason, Slot, SystemNotice, Text, Time, get_key, has_slot,
  slot_eq_refl, update_keys,
}
use discode.Text.{is_empty}
use discode.Runner.Dispatch.{Handled}
use discode.Dispatcher.Claim.{
  Action, Attempt, Outbound, act, claim_act_finalize, claim_row, is_done, is_no_key, mark_done,
  seven_days,
}
use discode.Dispatcher.Handlers.{
  Course, Fields, dispatch_discord_envelope, handle_system_notice, keep_all, others, render_notice,
  system_slot, with_answer,
}
use discode.Dispatcher.Accounts.{count_open, done_of_key, done_of_settled, is_chunk, settled_after}
use discode.Dispatcher.Claimed.{
  claim_act_finalize_absent, claim_act_finalize_done, claim_act_finalize_unkeyed,
}
use discode.Dispatcher.Gated.{KeepsGates}
use discode.Dispatcher.Posted.{
  PostedIfDone, claim_act_finalize-PostedIfDone, others-PostedIfDone, posted_of_done,
}
use discode.Dispatcher.Consumer.{Fate, Redelivery, consume, process_dispatcher_message, settle_or}

abbrev pub Answers : Slot → Database → Outbound × Bool → Type 0
Answers slot db r = ((r.1 ≡ true) × (is_done slot r.0.db ≡ true)) ⊎ ((r.1 ≡ false) × (r.0.db ≡ db))

act-Answers :
    (now : Time) (slot : Slot) (sid : Ident) (action : Action) (finalize : Database → Database)
    (attempt : Attempt) (w : Outbound)
    → ((d : Database) → (finalize d).idempotency_keys ≡ d.idempotency_keys)
    → get_key slot w.db ≡ none
    → Answers slot w.db (
        act slot action finalize attempt
          (record w.db { idempotency_keys = w.db.idempotency_keys ++ claim_row now slot sid ∷ [] })
          w)
act-Answers now slot sid action finalize Attempt.raised w keep absent = inr (refl, refl)
act-Answers now slot sid action finalize Attempt.lost w keep absent = inr (refl, refl)
act-Answers now slot sid action finalize Attempt.replied w keep absent =
    let claimed = record w.db {
      idempotency_keys = w.db.idempotency_keys ++ claim_row now slot sid ∷ [];
    } in
    let after = update_keys (has_slot slot) mark_done (finalize claimed) in
    inl (
      refl,
      done_of_settled (now + seven_days) slot after (
          ground (
            arith,
            slot_eq_refl slot,
            settled_after (now + seven_days) now slot slot sid w.db after (omega arith) absent
                (ap (update_where (has_slot slot) mark_done) (keep claimed)),
          )),
    )

-- A gated call of the dispatcher, whatever happens to it, returns exactly with its delivery
-- finalized, and raises exactly with the database as it was; no claim was open before it.
pub claim_act_finalize-Answers :
    (now : Time) (slot : Slot) (sid : Ident) (action : Action) (finalize : Database → Database)
    (attempt : Attempt) (w : Outbound)
    → is_chunk slot ≡ false
    → ((d : Database) → (finalize d).idempotency_keys ≡ d.idempotency_keys)
    → count_open w.db ≡ 0
    → Answers slot w.db (claim_act_finalize now slot sid action finalize attempt w)
claim_act_finalize-Answers now slot sid action finalize attempt w gate keep none_open =
    elim (Bool-cases (is_no_key slot.key)) [
      | inl e ↦
          rw (claim_act_finalize_unkeyed now slot sid action finalize attempt w e)
            (inr (refl, refl))
      | inr keyed ↦ elim (Option-cases (get_key slot w.db)) [
        | inl absent ↦
            rw (claim_act_finalize_absent now slot sid action finalize attempt w keyed absent)
              (act-Answers now slot sid action finalize attempt w keep absent)
        | inr (k, found) ↦
            let done = done_of_key slot w.db k gate none_open found in
            rw (claim_act_finalize_done now slot sid action finalize attempt w k keyed found done)
              (inl (refl, ground (arith, found, done)))
      ]
    ]

-- the entry of a notice with a key, a thread and a text
abbrev pub IsPostable : (Reason → Text) → SystemNotice → Type 0
IsPostable reason_text n =
    ((n.idempotency_key == 0) ≡ false)
    × ((n.thread_id == 0 || is_empty (render_notice reason_text n.message)) ≡ false)

-- what posting the notice does
abbrev pub notice_action : (Reason → Text) → SystemNotice → Action
notice_action reason_text n =
    Action.post n.thread_id (render_notice reason_text n.message)
      (some (KeyText.plain n.idempotency_key))

-- how a delivery of the notice ends, seen from the stream
abbrev NoticeAnswers : SystemNotice → Database → Outbound × Handled → Type 0
NoticeAnswers n db r =
    ((r.1 ≡ Handled.handled) × (is_done (system_slot n.idempotency_key) r.0.db ≡ true))
    ⊎ ((r.1 ≡ Handled.raised) × (r.0.db ≡ db))

with_answer-NoticeAnswers :
    (n : SystemNotice) (db : Database) (r : Outbound × Bool)
    → Answers (system_slot n.idempotency_key) db r
    → NoticeAnswers n db (with_answer r)
with_answer-NoticeAnswers n db (w, true) (inl (e, done)) = inl (refl, done)
with_answer-NoticeAnswers n db (w, true) (inr (e, same)) = cc
with_answer-NoticeAnswers n db (w, false) (inl (e, done)) = cc
with_answer-NoticeAnswers n db (w, false) (inr (e, same)) = inr (refl, same)

dispatch-NoticeAnswers :
    (reason_text : Reason → Text) (c : Course) (n : SystemNotice) (w : Outbound)
    → IsPostable reason_text n
    → count_open w.db ≡ 0
    → NoticeAnswers n w.db
        (dispatch_discord_envelope reason_text c (Fields.payload (Envelope.system_notice n)) w)
unfolding dispatch_discord_envelope handle_system_notice
dispatch-NoticeAnswers reason_text c n w (keyed, texted) none_open =
    let slot = system_slot n.idempotency_key in
    let text = render_notice reason_text n.message in
    rw (texted, keyed)
      (with_answer-NoticeAnswers n w.db
        (claim_act_finalize c.now slot n.session_id
          (Action.post n.thread_id text (some (KeyText.plain n.idempotency_key))) keep_all c.first
          w)
        (claim_act_finalize-Answers c.now slot n.session_id
          (Action.post n.thread_id text (some (KeyText.plain n.idempotency_key))) keep_all c.first w
          refl (λ d. refl) none_open))

with_answer-PostedIfDone :
    (slot : Slot) (action : Action) (r : Outbound × Bool)
    → PostedIfDone slot action r.0
    → PostedIfDone slot action (with_answer r).0
with_answer-PostedIfDone slot action (w, true) h = h
with_answer-PostedIfDone slot action (w, false) h = h

dispatch-PostedIfDone :
    (reason_text : Reason → Text) (c : Course) (n : SystemNotice) (w : Outbound)
    → IsPostable reason_text n
    → count_open w.db ≡ 0
    → PostedIfDone (system_slot n.idempotency_key) (notice_action reason_text n) w
    → PostedIfDone
        (system_slot n.idempotency_key)
        (notice_action reason_text n)
        (dispatch_discord_envelope reason_text c (Fields.payload (Envelope.system_notice n)) w).0
unfolding dispatch_discord_envelope handle_system_notice
dispatch-PostedIfDone reason_text c n w (keyed, texted) none_open h =
    let slot = system_slot n.idempotency_key in
    let action = notice_action reason_text n in
    rw (texted, keyed)
      (with_answer-PostedIfDone slot action
        (claim_act_finalize c.now slot n.session_id action keep_all c.first w)
        (claim_act_finalize-PostedIfDone c.now slot n.session_id action keep_all c.first w refl
          none_open h))

-- The entry is acknowledged only once its notice is posted and finalized, and it becomes a dead letter only at
-- the server's count of the most deliveries.
abbrev pub IsAccountedFor : (Reason → Text) → ℕ → SystemNotice → Outbound × Fate → Type 0
IsAccountedFor reason_text max_deliveries n (w, Fate.waiting) = Unit
IsAccountedFor reason_text max_deliveries n (w, Fate.acked) =
    (is_done (system_slot n.idempotency_key) w.db ≡ true)
    × Mem
        (record {
          sent_for = some (system_slot n.idempotency_key);
          action = notice_action reason_text n;
        })
        w.discord
IsAccountedFor reason_text max_deliveries n (w, Fate.dead_lettered count) = max_deliveries ≤ count

abbrev pub KeepsOpen : Redelivery → Type 0
KeepsOpen r = KeepsGates r.before

settle_or-IsAccountedFor :
    (reason_text : Reason → Text) (max_deliveries count : ℕ) (n : SystemNotice) (db : Database)
    (d : Outbound × Handled) (later : Outbound × Fate)
    → NoticeAnswers n db d
    → PostedIfDone (system_slot n.idempotency_key) (notice_action reason_text n) d.0
    → count_open db ≡ 0
    → (count_open d.0.db ≡ 0 → IsAccountedFor reason_text max_deliveries n later)
    → IsAccountedFor reason_text max_deliveries n
        (settle_or (process_dispatcher_message d.1 max_deliveries count) d.0 later)
unfolding process_dispatcher_message
settle_or-IsAccountedFor reason_text m count n db (w, h) later (inl (e, done)) posted none_open
      rest =
    rw e (
      done,
      posted_of_done (system_slot n.idempotency_key) (notice_action reason_text n) w posted done,
    )
settle_or-IsAccountedFor reason_text m count n db (w, h) later (inr (e, same)) posted none_open
      rest =
    elim (Bool-cases (leb m count)) [
      | inl late ↦ rw (e, late) (ground arith)
      | inr early ↦ rw (e, early) (rest (ground arith))
    ]

-- A system notice with a key, a thread and a text leaves the stream only when its text has been
-- posted to its thread and its delivery is finalized, or as a dead letter after the most deliveries.
-- At the start no claim of the dispatcher is open, and the notice is not finalized, or has been
-- posted; other processes leave the dispatcher's keys alone.
pub notice_never_dropped :
    (reason_text : Reason → Text) (max_deliveries : ℕ) (n : SystemNotice)
    (deliveries : List Redelivery) (w : Outbound)
    → IsPostable reason_text n
    → count_open w.db ≡ 0
    → PostedIfDone (system_slot n.idempotency_key) (notice_action reason_text n) w
    → All KeepsOpen deliveries
    → IsAccountedFor reason_text max_deliveries n (
        consume reason_text max_deliveries (Fields.payload (Envelope.system_notice n)) deliveries w)
unfolding consume
notice_never_dropped reason_text m n [] w postable none_open posted keep = tt
notice_never_dropped reason_text m n (r ∷ rest) w postable none_open posted (keep, keeps) =
    let start = others r.before w in
    let d =
      dispatch_discord_envelope reason_text r.course (Fields.payload (Envelope.system_notice n))
        start in
    let closed : count_open start.db ≡ 0 = omega (arith, none_open, (keep w.db).0) in
    let slot = system_slot n.idempotency_key in
    let action = notice_action reason_text n in
    let reached =
      dispatch-PostedIfDone reason_text r.course n start postable closed
        (others-PostedIfDone slot action r.before w refl keep posted) in
    settle_or-IsAccountedFor reason_text m r.count n start.db d
      (consume reason_text m (Fields.payload (Envelope.system_notice n)) rest d.0)
      (dispatch-NoticeAnswers reason_text r.course n start postable closed) reached closed
      (λ c. notice_never_dropped reason_text m n rest d.0 postable c reached keeps)
