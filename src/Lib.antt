-- ===== src/Lib.antt =====
-- Discode runs coding agents from Discord. A bot turns commands and messages into transactions on a
-- PostgreSQL database, each of which also writes the messages for other processes into an outbox; a
-- relay publishes them on Redis streams; a runner on each host takes its jobs from there, runs the
-- tools and posts their replies; a janitor sweeps the database. This library models the sessions and
-- their turns, from the commands to what reaches Discord, and what the bot keeps for a guild.
--
-- The model of the database. `Database` (Data) holds the tables as lists of rows in primary-key
-- order; the statements of the program are `find`, `update_where`, `select` and `rowcount`
-- (Base/Tables). A transaction is a function of the database with its answer: statements run in
-- order, and an error leaves the database as it was, as rollback does. The row and advisory locks
-- that a transaction takes are held to its end, so transactions do not interleave; where the code
-- makes several transactions, the model makes several steps and says what other processes may do
-- between them. SQLAlchemy refreshes a loaded row after an UPDATE in the same session, so a job
-- carries the new lifecycle version. What a call draws from outside, the database clock and its
-- uuid4 values, is a `Call`.
--
-- The modules, and the code they model (paths from the repository's root):
--   Data               src/discode/db/models, src/discode/specs/redis_envelopes.py,
--                      src/discode/queues/outbox.py
--   Config             src/discode/config.py, src/discode/security/execution_policy.py
--   Text, Paths        src/discode/security/paths.py, and `revalidate_cwd` of
--                      src/discode/runner/saga_create.py
--   Lifecycle          what may happen to a row of `sessions`; Lifecycle/Registry is
--                      src/discode/specs/state_machine.py
--   Session            src/discode/bot/session_service.py: Scope, Sagas, Binding, Members; their
--                      outcomes and moves
--   Input, Create      src/discode/bot/sagas/{input,create}.py, src/discode/db/accessors/supersede.py
--   Turn               src/discode/runner/saga_input.py: `run_input_job` and `_run_locked`
--   Runner             src/discode/runner/{saga_create,resume_runner,saga_resume,main}.py
--   Janitor            src/discode/janitor/{timeouts,lifecycle,retention}.py
--   Queues             src/discode/queues/relay.py
--   Dispatcher         src/discode/dispatcher: Message, Chunks and Plain are message_builder.py; Claim
--                      and Handlers the gate and the handlers of an envelope, Accounts, Claimed,
--                      Gated, Posted, Repeats and Settled their theorems; Consumer main.py's
--                      deliveries; Limiter and Rate rate_limiter.py
--   Control            src/discode/runner/control_api.py: Access its middlewares, Chunks the claims
--                      and checkpoints of a chunk, Leases their interleavings, Reply `post_reply`
--   Guild              src/discode/bot/{setup_service,session_config_service,start_validation}.py and
--                      src/discode/bot/policies
--   Security           src/discode/security/env_scrub.py
--   Commands           src/discode/bot/main.py: Handlers the commands on sessions and `on_message`,
--                      Target what they resolve to (src/discode/bot/session_service.py)
--   Program            the modelled transactions of bot, runner and janitor together, in any order,
--                      around the jobs of the runners
--   Examples           concrete runs
--
-- How the parts interact. A bot saga (`run_stop_saga`, `run_input_saga`, ...) changes a session or
-- adds a turn and writes an envelope into the outbox; `dispatch_runner_job` (Runner/Dispatch) takes
-- an envelope on the runner. A turn is a job of phases (Turn/Job): `check`, `admit`, the execution,
-- `persist`, the reply and its mark, one transaction or one call to the outside each. At most one
-- job of a session runs at a time, because a job holds the session's advisory lock; a crash drops it
-- at any phase and its message is delivered again. `Turn.System` is that transition system over any
-- other transactions; `Program.History` is the one whose other transactions are the program's own.
--
-- Outbound, the database comes with the log of what has reached Discord (`Outbound`). A delivery of
-- the dispatcher is one transaction that stays open over its side effect, and may be lost after it;
-- the sending of a chunk of a reply is a claim under a lease, the call to Discord and a checkpoint,
-- with other processes between them. What `setup_service` registers (`Guild.Aliases`) is what
-- `revalidate_cwd` reads on the runner.
--
-- Parameters. The file system's realpath, what a tool execution answers, how the posting of a
-- reply ends, how XADD answers, the order in which messages and transactions happen, whether a
-- lock is free, and whether a commit goes through are arguments; so are what `ipaddress` says of a
-- host, what `urlparse` finds in a URL, Fernet's ciphertexts and what they decrypt to, how a call
-- of Discord ends, and how long a sleep oversleeps. The hash and the ciphertext of a hook secret
-- are data of a request. A hypothesis that a table is keyed (at most one row for an id) is the
-- primary key that PostgreSQL enforces.
--
-- Bounds. Identifiers and opaque texts are numbers, 0 the empty text, as they are only compared and
-- tested for emptiness. Lifecycle versions, sequences and times are unbounded numbers: the columns
-- are integers of 32 bits or more, and a version grows by one for each lifecycle command. `run_job`
-- takes the answers of its phases as a list: six are enough, as no path through the phases is
-- longer. `build_message` runs on fuel, one more than the length of the text: each round takes at
-- least one character more than the fence line that the round before added. The delivery budget is
-- five.
--
-- Simplifications. The reads of `check` are one step, though the code makes several unlocked
-- SELECTs; the count of active sessions and the insert of a new one are one step, though a
-- concurrent resume does not wait for them. Of the constraints of the tables, only the primary
-- keys, where a hypothesis says so, and the unique thread of a session in `bind_session_thread`
-- are kept. An XADD that Redis does not answer has added nothing. Acknowledgements and dead
-- letters reach Redis, and a runner keeps its counts of deliveries. The bot and the runner of a
-- theorem on both see the same file system.
--
-- Not modelled: the streams of Redis, Discord's HTTP client, the diff preview of the control API,
-- the other commands of discord.py and what users are told, the editing of tools and of the JSON
-- settings of a guild, tool processes, redaction (an argument where replies are posted), logging
-- and metrics. The runner's session store in memory is left out because turns read the database.
pub mod Base
pub mod Data
pub mod Config
pub mod Text
pub mod Paths
pub mod Lifecycle
pub mod Session
pub mod Input
pub mod Turn
pub mod Create
pub mod Runner
pub mod Janitor
pub mod Program
pub mod Queues
pub mod Control
pub mod Dispatcher
pub mod Guild
pub mod Commands
pub mod Security
pub mod Examples
