-- ===== src/Lib.antt =====
-- oh-my-github-runner: a queue consumer that runs coding tasks triggered from GitHub. A webhook
-- event becomes a task in a queue on disk; a daemon polls the queue, starts the tasks that the
-- scheduler selects, and moves them to their next status when their runs end. The rate limits of the
-- tools pause them, and a rate-limited task waits in the queue again.
--
-- The files here and the files of the repository they model:
--   Task            src/domain/task.ts, task-status.ts and queue-task.ts: the records.
--   Queue           src/infra/queue/file-queue-store.ts, on an explicit disk. Transitions are the
--                   operations on one task, Listing the reads of directories and `enqueue`, Sweeps
--                   the recovery and the pruning. Consistency states the invariant of the disk,
--                   `Consistent`, and the view: the record of each task. The other
--                   children are about parts of these: Files about single writes, Refinement
--                   about the transitions on the view, Reads and Scan about the listings, Fifo
--                   about the order, Recovery and Pruning about the sweeps, and Crash about a stop
--                   inside a transition.
--   Strategies      src/strategies/index.ts and the policies of the strategies beside it.
--   Enqueue         src/services/enqueue-service.ts, over the queue of Daemon, with the hook that
--                   src/index.ts wires, `supersede` of the daemon. Stores is about its part on
--                   the queue, Told about the notices.
--   Scheduling      src/domain/rules/scheduling.ts, src/services/scheduler-service.ts.
--   RateLimit       src/infra/queue/rate-limit-state-store.ts.
--   Checkpoint      src/infra/checkpoint/file-checkpoint-store.ts.
--   Daemon          src/daemon/runner-daemon.ts: `tick`, `runTask` from the end of a run, startup.
--                   It composes Queue, Scheduling, RateLimit and Checkpoint. Supervision and
--                   Reach are about the invariant of the states between its calls, `Supervised`.
--   Commands        src/domain/rules/command-parser.ts.
--   Dispatch        src/services/event-dispatcher.ts, src/domain/rules/event-routing.ts.
--   GithubFetch     src/infra/github/github-fetch.ts.
--   TokenCache      src/infra/github/installation-token-cache.ts.
--   DeliveryDedup   src/infra/webhook/delivery-dedup.ts.
--   RunnerStatus    src/services/runner-status-service.ts.
--   Signature       src/infra/webhook/hmac-verifier.ts.
--   Payload         src/services/webhook-handler.ts: the event that a delivery's JSON stands for.
--   Webhook         src/services/webhook-handler.ts: `handle`, which composes Signature,
--                   DeliveryDedup, Payload, Dispatch and Enqueue with the calls to GitHub, whose
--                   pauses go to RateLimit. Effects is about what each step leaves alone.
--   Server          src/infra/webhook/webhook-server.ts, with the wiring of src/index.ts: it
--                   composes Webhook, RunnerStatus and RateLimit.
--   Tools           src/domain/tool.ts and src/infra/tool/_shared.ts; Pattern has the regular
--                   expressions, Claude and Codex the two runners, claude-tool-runner.ts and
--                   codex-tool-runner.ts; Limits, Answers and Cleanup are about these.
--   Toolkit         src/services/toolkit.ts, over Checkpoint and Tools, with tool-registry.ts and
--                   src/domain/rules/task-naming.ts.
--   Replies         src/strategies/_shared/reply-actions.ts.
--   Runs            the runs of the strategies, src/strategies/*.ts, over Toolkit and Replies.
--   GithubClient    src/infra/github/github-app-client.ts, over TokenCache; LinkedRefs has the
--                   reading of linked references, Tokens and Deletes are about the requests.
--   Sticky          src/services/sticky-comment.ts: the texts of the comments on tasks.
--   Notices         src/index.ts: the hooks that tell GitHub how a task ended, over Sticky.
--   Masking         src/infra/workspaces/secret-mask.ts, with the expressions of Tools.Pattern.
--   Workspaces      src/infra/workspaces/git-workspace-manager.ts, over Masking.
--   Prelude         shared names: tests, lists, maps with text keys, and actions that keep their
--                   state beside an error.
-- A function keeps the name of the source's, in snake case.
--
-- Choices of the model. State is passed explicitly: an operation takes the store and returns it,
-- also when it throws. Times are milliseconds as natural numbers, in files too, where the source
-- writes ISO texts, and a cutoff before the epoch is the epoch; an operation reads the clock once.
-- A file is its parsed content or marked as corrupt, and the temporary files of an atomic write
-- are left out, except in Queue.Crash, which stops inside a transition. Of the errors of the file
-- system only a missing file is modelled, but for the routes of the server, where the errors of
-- the status and of the clearing are arguments. A method runs without another between its steps; the
-- daemon is the only process that moves tasks. The runs of the strategies enter the daemon as
-- their outcomes. What lies outside is an argument: the server of GitHub, child processes, digests,
-- paths and the parse of JSON are functions, whose answers may depend on the calls so far where the
-- code could tell; the calls are recorded in order, each before its answer.
-- The texts of comments are lists of UTF-16 code units, and reasons and warnings are constructors
-- in place of messages. Fields of TaskCounts have other names than the statuses they count.
--
-- Fuel: only `do_request` has it. `request` gives it two more than the limit of transient retries,
-- one call for each retry that the two counters allow and one for the first.
--
-- Not modelled: the fetch of an issue's context and the texts of prompts, the process runner,
-- logs, and the composition root beyond the wiring and the hooks named above. A service that a
-- modelled part is given and that is not modelled itself is an argument of that part. Abort
-- signals are left out, but for the strategies, which ask whether they are aborted.
pub mod Prelude
pub mod Task
pub mod Scheduling
pub mod RateLimit
pub mod Queue
pub mod Strategies
pub mod Enqueue
pub mod Checkpoint
pub mod Daemon
pub mod GithubFetch
pub mod Commands
pub mod Dispatch
pub mod DeliveryDedup
pub mod RunnerStatus
pub mod TokenCache
pub mod Signature
pub mod Payload
pub mod Webhook
pub mod Server
pub mod Tools
pub mod Toolkit
pub mod Replies
pub mod Runs
pub mod GithubClient
pub mod Sticky
pub mod Notices
pub mod Masking
pub mod Workspaces
