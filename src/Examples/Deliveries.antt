-- ===== src/Examples/Deliveries.antt =====
-- The theorems on the dispatcher and the replies, at concrete data.
use discode.Base.{List, [], arith, inl, refl, some, true, ◌*◌, ◌+◌, ◌∷◌, ◌≤◌}
use discode.Data.{Envelope, Message, Reason, SystemNotice, TerminalNotice, Text}
use discode.Text.{codes}
use discode.Dispatcher.Claim.{Attempt}
use discode.Dispatcher.Handlers.{Course, Fields, notice_slot, render_notice}
use discode.Dispatcher.Accounts.{sent}
use discode.Dispatcher.Gated.{KeepsGates}
use discode.Dispatcher.Repeats.{Step, count_lost, deliveries_repeat_only_after_loss, run_steps}
use discode.Dispatcher.Consumer.{Redelivery, consume, dispatcher_max_deliveries}
use discode.Dispatcher.Settled.{IsAccountedFor, IsPostable, notice_never_dropped}
use discode.Dispatcher.Limiter.{
  IsClocked, Use, acquire, apply_use, apply_uses, clock, count_acquires, new_bucket,
  note_retry_after,
}
use discode.Dispatcher.Rate.{acquires_within_rate}
use discode.Examples.Fixtures.{db}

abbrev machine_text : Reason → Text
machine_text r = codes "failed"

abbrev lost_host_notice : TerminalNotice
lost_host_notice = record {
  idempotency_key = 80;
  session_id = 1;
  guild_id = some 7;
  thread_id = 9;
  message = Message.host_lost;
  then_archive = true;
}

abbrev course : Attempt → Attempt → Course
course first second = record { now = 1000; first = first; second = second; between = λ d. d }

-- the first delivery is lost after its post, the next one cannot archive, the last one goes through
abbrev deliveries : List Step
deliveries =
    Step.deliver (Fields.payload (Envelope.terminal_notice lost_host_notice))
      (course Attempt.lost Attempt.replied)
    ∷ Step.deliver (Fields.payload (Envelope.terminal_notice lost_host_notice))
        (course Attempt.replied Attempt.raised)
    ∷ Step.sweep 2000 (λ k. true)
    ∷ Step.deliver (Fields.payload (Envelope.terminal_notice lost_host_notice))
        (course Attempt.replied Attempt.replied)
    ∷ []

abbrev same_gates : KeepsGates (λ d. d)
same_gates d = (omega arith, λ slot g. refl)

deliveries_repeat_only_after_loss_example :
    sent (notice_slot 80) (run_steps machine_text deliveries (record { db = db; discord = [] }))
    ≤ 1 + count_lost deliveries
deliveries_repeat_only_after_loss_example =
    deliveries_repeat_only_after_loss machine_text 3000 deliveries db (notice_slot 80)
      (
        (omega arith, same_gates),
        ((omega arith, same_gates), (omega arith, ((omega arith, same_gates), tt))),
      )
      refl refl

abbrev ready_notice : SystemNotice
ready_notice = record {
  idempotency_key = 81;
  session_id = 1;
  guild_id = some 7;
  thread_id = 9;
  message = Message.session_ready;
}

abbrev redeliveries : List Redelivery
redeliveries =
    record { before = λ d. d; course = course Attempt.raised Attempt.raised; count = 1 }
    ∷ record { before = λ d. d; course = course Attempt.replied Attempt.raised; count = 2 }
    ∷ []

postable : IsPostable machine_text ready_notice
unfolding render_notice
postable = (refl, refl)

notice_never_dropped_example : IsAccountedFor machine_text dispatcher_max_deliveries ready_notice (
    consume machine_text dispatcher_max_deliveries
      (Fields.payload (Envelope.system_notice ready_notice))
      redeliveries
      (record { db = db; discord = [] }))
notice_never_dropped_example =
    notice_never_dropped machine_text dispatcher_max_deliveries ready_notice redeliveries
      (record { db = db; discord = [] }) postable refl (inl refl) (same_gates, (same_gates, tt))

abbrev burst : List Use
burst =
    Use.acquires (record { now = 10; cooloff_late = 0; wait_late = 0 })
    ∷ Use.retries 10 700
    ∷ Use.acquires (record { now = 20; cooloff_late = 3; wait_late = 0 })
    ∷ []

burst-IsClocked : IsClocked 1 5 burst (apply_uses 1 (Use.retries 2 3 ∷ []) new_bucket)
unfolding apply_uses apply_use note_retry_after acquire
burst-IsClocked = (omega arith, (omega arith, tt))

acquires_within_rate_example :
    let b = apply_uses 1 (Use.retries 2 3 ∷ []) new_bucket in
    1000 * count_acquires burst + clock 5 b ≤ 1000 * 1 + clock 5 (apply_uses 1 burst b)
acquires_within_rate_example =
    acquires_within_rate 1 5 (Use.retries 2 3 ∷ []) burst (omega arith) tt burst-IsClocked
