-- ===== src/Examples/Replies.antt =====
-- The theorems on the control API, at concrete data.
use discode.Base.{Bool, List, [], arith, leb, refl, rowcount, some, true, ℕ, ◌+◌, ◌∷◌, ◌≡◌, ◌≤◌}
use discode.Data.{IsUnique, Slot, slot_eq}
use discode.Text.{codes}
use discode.Dispatcher.Message.{build, build_message}
use discode.Dispatcher.Claim.{Outbound}
use discode.Control.Chunks.{checkpoint, chunk_slot, claim_chunk, release}
use discode.Control.Sending.{IsFair, clock_after, is_sending, one_sender_at_a_time, run_moves}
use discode.Control.Idempotent.{Takes, post_reply_idempotent}
use discode.Control.Reply.{
  ChunkCourse, DiscordAnswer, ReplyBody, Response, post_chunks, post_reply, send_checkpointed,
  send_chunk,
}
use discode.Control.Leases.{Ending, Move, move}
use discode.Examples.Fixtures.{alice, cfg, db}

abbrev chunk_0 : Slot
chunk_0 = chunk_slot 1 50 0

-- a call dies with its lease; another one gets the chunk when the lease has run out
abbrev takeover : List Move
takeover =
    Move.claims 1000 31 chunk_0 1
    ∷ Move.claims 1100 32 chunk_0 1
    ∷ Move.claims 1700 33 chunk_0 1
    ∷ Move.ends (record { owner = 33; slot = chunk_0; until = 2300 }) (Ending.delivered 91)
    ∷ []

abbrev no_keys : IsUnique db
no_keys = λ slot. omega arith

takeover-IsFair : IsFair 900 takeover (record { db = db; working = [] })
unfolding move claim_chunk slot_eq release checkpoint
takeover-IsFair = (omega arith, refl, (omega arith, refl, (omega arith, refl, tt)))

one_sender_at_a_time_example :
    rowcount
      (is_sending (clock_after 900 takeover) chunk_0)
      (run_moves takeover (record { db = db; working = [] })).working
    ≤ 1
one_sender_at_a_time_example = one_sender_at_a_time 900 takeover db chunk_0 no_keys takeover-IsFair

abbrev reply : ReplyBody
reply = record { text = codes "hi"; idempotency_key = 50; lifecycle_version = some 2 }

abbrev at_once : ℕ → ChunkCourse
at_once idx = record {
  now = 1000;
  owner = 40 + idx;
  before = λ d. d;
  after = λ d. d;
  quota = true;
  answer = DiscordAnswer.message (90 + idx);
}

abbrev is_word : ℕ → Bool
is_word c = leb 97 c

abbrev nothing_sent : Outbound
nothing_sent = record { db = db; discord = [] }

abbrev first_post : Outbound × Response
first_post = post_reply cfg is_word (λ t. t) 6 1 reply at_once nothing_sent

first_post_ok : first_post.1 ≡ Response.ok (90 ∷ [])
unfolding post_reply post_chunks send_checkpointed send_chunk claim_chunk release checkpoint slot_eq
    build_message build
first_post_ok = refl

Takes-now : Takes cfg 6 1 reply db
Takes-now = (alice, refl, refl, refl, refl)

Takes-again : Takes cfg 6 1 reply first_post.0.db
unfolding post_reply post_chunks send_checkpointed send_chunk claim_chunk release checkpoint slot_eq
    build_message build
Takes-again = (alice, refl, refl, refl, refl)

post_reply_idempotent_example :
    post_reply cfg is_word (λ t. t) 6 1 reply at_once first_post.0
    ≡ (first_post.0, Response.ok (90 ∷ []))
post_reply_idempotent_example =
    post_reply_idempotent cfg is_word (λ t. t) 6 1 reply at_once at_once nothing_sent first_post.0
      (90 ∷ []) Takes-now Takes-again (λ idx. (λ d. (λ u. u, λ j. refl), λ d. (λ u. u, λ j. refl)))
      no_keys first_post_ok (λ j. refl)
