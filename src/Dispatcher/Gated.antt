-- ===== src/Dispatcher/Gated.antt =====
-- What each handler of src/discode/dispatcher/main.py does to the keys and to what has reached
-- Discord.
-- Other processes leave the dispatcher's keys as they are, and open no claims of theirs.
use discode.Base.{
  Bool, Bool-cases, [], arith, false, inl, inr, none, refl, rowcount-append, some, true, ℕ, ◌+◌,
  ◌==◌, ◌||◌, ◌∷◌, ◌≡◌, ◌≤◌,
}
use discode.Data.{
  ArchiveThread, Database, Ident, KeyText, Slot, SystemNotice, TerminalNotice, Text, Time, get_key,
}
use discode.Text.{is_empty}
use discode.Dispatcher.Claim.{Action, Attempt, Outbound, seven_days}
use discode.Dispatcher.Handlers.{
  Course, archive_slot, archive_stage, finalize_archive, handle_archive_thread,
  handle_system_notice, handle_terminal_notice, is_live_session, keep_all, notice_archive_slot,
  notice_slot, others, post_stage, post_ungated, system_slot, then_call,
}
use discode.Dispatcher.Accounts.{
  Accounted, Accounted-weaken, count_open, is_chunk, is_sent_for, lost_one,
}
use discode.Dispatcher.Claimed.{claim_act_finalize-Accounted}

abbrev pub KeepsGates : (Database → Database) → Type 0
KeepsGates f =
    (d : Database)
    → (count_open (f d) ≤ count_open d)
      × ((slot : Slot) → is_chunk slot ≡ false → get_key slot (f d) ≡ get_key slot d)

abbrev pub lost_in : Course → ℕ
lost_in c = lost_one c.first + lost_one c.second

pub others-Accounted :
    (limit : Time) (f : Database → Database) (lost : ℕ) (w : Outbound)
    → KeepsGates f
    → Accounted limit lost w
    → Accounted limit lost (others f w)
others-Accounted limit f lost w keep (none_open, bound) = (
  omega (arith, none_open, (keep w.db).0),
  λ slot gate. ground (arith, bound slot gate, (keep w.db).1 slot gate),
)

then_call-Accounted :
    (limit : Time) (n more : ℕ) (r : Outbound × Bool) (next : Outbound → Outbound × Bool)
    → Accounted limit n r.0
    → ((w : Outbound) → Accounted limit n w → Accounted limit (n + more) (next w).0)
    → Accounted limit (n + more) (then_call r next).0
then_call-Accounted limit n more (w, true) next h after = after w h
then_call-Accounted limit n more (w, false) next h after =
    Accounted-weaken limit n (n + more) w (omega arith) h

post_stage-Accounted :
    (limit : Time) (c : Course) (n : TerminalNotice) (text : Text) (lost : ℕ) (w : Outbound)
    → limit ≤ c.now + seven_days
    → Accounted limit lost w
    → Accounted limit (lost + lost_one c.first) (post_stage c n text w).0
post_stage-Accounted limit c n text lost w soon h = elim (Bool-cases (is_empty text)) [
  | inl e ↦ rw e (Accounted-weaken limit lost (lost + lost_one c.first) w (omega arith) h)
  | inr e ↦ rw e (
      claim_act_finalize-Accounted limit c.now (notice_slot n.idempotency_key) n.session_id
        (Action.post n.thread_id text (some (KeyText.post n.idempotency_key))) keep_all c.first lost
        w soon refl (λ d. refl) h)
]

archive_stage-Accounted :
    (limit : Time) (c : Course) (n : TerminalNotice) (lost : ℕ) (w : Outbound)
    → limit ≤ c.now + seven_days
    → KeepsGates c.between
    → Accounted limit lost w
    → Accounted limit (lost + lost_one c.second) (archive_stage c n w).0
archive_stage-Accounted limit c n lost w soon keep h = elim (Bool-cases n.then_archive) [
  | inr e ↦ rw e (Accounted-weaken limit lost (lost + lost_one c.second) w (omega arith) h)
  | inl e ↦ rw e (
      claim_act_finalize-Accounted limit c.now (notice_archive_slot n.idempotency_key) n.session_id
        (Action.archive n.thread_id) (finalize_archive c.now n.session_id) c.second lost
        (others c.between w) soon refl (λ d. refl) (others-Accounted limit c.between lost w keep h))
]

pub terminal_notice-Accounted :
    (limit : Time) (c : Course) (n : TerminalNotice) (text : Text) (lost : ℕ) (w : Outbound)
    → limit ≤ c.now + seven_days
    → KeepsGates c.between
    → Accounted limit lost w
    → Accounted limit
        (lost + lost_one c.first + lost_one c.second)
        (handle_terminal_notice c n text w).0
unfolding handle_terminal_notice
terminal_notice-Accounted limit c n text lost w soon keep h =
    then_call-Accounted limit (lost + lost_one c.first) (lost_one c.second) (post_stage c n text w)
      (archive_stage c n) (post_stage-Accounted limit c n text lost w soon h)
      (λ v k. archive_stage-Accounted limit c n (lost + lost_one c.first) v soon keep k)

pub archive_thread-Accounted :
    (limit : Time) (c : Course) (a : ArchiveThread) (lost : ℕ) (w : Outbound)
    → limit ≤ c.now + seven_days
    → KeepsGates c.between
    → Accounted limit lost w
    → Accounted limit (lost + lost_one c.first) (handle_archive_thread c a w).0
unfolding handle_archive_thread
archive_thread-Accounted limit c a lost w soon keep h =
    elim (Bool-cases (is_live_session a.session_id w.db)) [
      | inl e ↦ rw e (Accounted-weaken limit lost (lost + lost_one c.first) w (omega arith) h)
      | inr e ↦ rw e (
          claim_act_finalize-Accounted limit c.now (archive_slot a.idempotency_key) a.session_id
            (Action.archive a.thread_id) (finalize_archive c.now a.session_id) c.first lost
            (others c.between w) soon refl (λ d. refl)
            (others-Accounted limit c.between lost w keep h))
    ]

post_ungated-Accounted :
    (limit : Time) (thread : Ident) (text : Text) (attempt : Attempt) (lost : ℕ) (w : Outbound)
    → Accounted limit lost w
    → Accounted limit (lost + lost_one attempt) (post_ungated thread text attempt w).0
post_ungated-Accounted limit thread text Attempt.raised lost w h =
    Accounted-weaken limit lost (lost + 0) w (omega arith) h
post_ungated-Accounted limit thread text Attempt.lost lost w (none_open, bound) = (
  none_open,
  λ slot gate. ground (
    arith,
    bound slot gate,
    rowcount-append (is_sent_for slot) w.discord
        (record { sent_for = none; action = Action.post thread text none } ∷ []),
  ),
)
post_ungated-Accounted limit thread text Attempt.replied lost w (none_open, bound) = (
  none_open,
  λ slot gate. ground (
    arith,
    bound slot gate,
    rowcount-append (is_sent_for slot) w.discord
        (record { sent_for = none; action = Action.post thread text none } ∷ []),
  ),
)

pub system_notice-Accounted :
    (limit : Time) (c : Course) (n : SystemNotice) (text : Text) (lost : ℕ) (w : Outbound)
    → limit ≤ c.now + seven_days
    → Accounted limit lost w
    → Accounted limit (lost + lost_one c.first) (handle_system_notice c n text w).0
unfolding handle_system_notice
system_notice-Accounted limit c n text lost w soon h =
    elim (Bool-cases (n.thread_id == 0 || is_empty text)) [
      | inl e ↦ rw e (Accounted-weaken limit lost (lost + lost_one c.first) w (omega arith) h)
      | inr e ↦ elim (Bool-cases (n.idempotency_key == 0)) [
        | inl z ↦ rw (e, z) (post_ungated-Accounted limit n.thread_id text c.first lost w h)
        | inr z ↦
            rw (e, z)
              (claim_act_finalize-Accounted limit c.now (system_slot n.idempotency_key) n.session_id
                (Action.post n.thread_id text (some (KeyText.plain n.idempotency_key))) keep_all
                c.first lost w soon refl (λ d. refl) h)
      ]
    ]
