-- ===== src/Lib.antt =====
-- plastic-wan: a Telegram bot whose conversations run on a language-model agent. Ingested messages
-- are collected into buckets and handed to invocations; an invocation runs the agent on the
-- conversation's context, whose tools may start long tasks; a scheduler settles what is due. The
-- state lives in one SQLite database, which the stores under src/store and src/context access.
--
-- Base: shared names, Boolean tests on numbers, lists, database tables as association lists under
-- their primary key, and the stable sort of the source's `Array.prototype.sort`.
--
-- LongTasks: src/store/long-tasks.ts with the tables `long_tasks` and `task_receipts` of
-- src/store/schema.ts. `Service` is the two tables with the number of wake-ups of the scheduler;
-- `create`, `finish`, `cancel`, `process_due` and `next_deadline` are `#create`, `#finish`,
-- `#cancel`, `processDue` and `nextDeadline`, and errors are values of `TaskError`. A transaction
-- that throws leaves the old state, since an error carries none. JavaScript values, their JSON text,
-- dates and the ids of new rows are the fields of a parameter, `Platform`. The loop of `processDue`
-- runs over the rows selected at its start, so it needs no fuel. `get` and `list` are `#get` and
-- `#list`.
--
-- Concurrency: `AsyncSemaphore` of src/platform/concurrency.ts. `acquire`, `release` and `on_abort`
-- return the new semaphore with what they did to promises; `System` adds the number of permits in
-- use, and a history is a list of actions in any order.
--
-- Context: src/context/context-gc.ts, `planContextGc` and its helpers under their names. The hard
-- ratio is a fraction, so the comparisons are exact where the source rounds.
--
-- `Context.Store` and `Context.Refs` are src/context/context-store.ts and
-- src/context/context-refs.ts over the tables in `Context.Tables`. A header is a handle that a
-- caller may hold while others change the context; operations return the new one, and
-- `Context.Eviction` runs calls by any headers. `open_context`'s new id, the fresh tokens, the text of
-- a number and the database's order of text are arguments. The decoding of a payload by `retained`
-- and the administrative listing are left out.
--
-- Conversation: `ConversationRuntime` of src/orchestration/conversation-runtime.ts. The clock, an
-- agent object and a waiting promise are arguments or identities; `wait_for_injection` is the part of
-- `waitForInjection` before its promise, `finish_wait` the end of one by its timer or its signal, and
-- `queue_injection` returns the waiter that it wakes. The loop of `#evictOverflow` runs on fuel, the
-- number of cached agents, which is enough since each round takes one away.
--
-- Sleep: src/store/sleep.ts, with the row of `app_state` that keeps a sleep as an option; log lines and
-- the tool around it are left out.
--
-- Participation: src/platform/participation.ts and src/store/participation.ts. A text is the list of its
-- UTF-16 code units; a lower-cased text, the number of a text and the local time of a time zone are
-- parameters. The rows of `conversation_attention` stand beside the queue's tables, and the log line
-- of a trigger is left out.
--
-- Thinking: src/platform/thinking-levels.ts; the model library that reads the registered map is a
-- parameter with the behaviour that the source documents.
--
-- Codec: src/context/context-codec.ts. JavaScript's JSON and the compiled checks of the schema library
-- are a record of functions, `Libraries`, with the laws that a text that was made of a value is
-- parsed to it and that a check decides what the schema says; `Codec.View` reads a checked value as
-- the message that the decoder's cast takes it for. The token estimate is left out.
--
-- Queue: `InvocationQueueService` of src/orchestration/invocation-queue.ts, the snapshots of
-- src/store/invocation-snapshot.ts and `BucketScheduler` of src/orchestration/scheduler.ts, over the
-- tables in `Queue.Tables`, with the service of `LongTasks`, the sleep of `Sleep` and the attachment
-- target of `Conversation`. An `Environment` holds the configuration, SQLite's choice of new ids
-- and the JSON text of a snapshot. `Queue.Collect` is the part of
-- src/ingress/telegram-ingestion.ts that gives a stored message to a bucket, and `Queue.Pause` the
-- writes of `/pause` and `/resume` in src/orchestration/bot-commands.ts. `Queue.Actions` runs starts,
-- rounds of the loop, ends of runs, arrivals, catch-ups, pauses and resumes in any order; an
-- operation that throws ends such a sequence. `Queue.CatchUp` is the catch-up after a start, for the
-- rows of the join that its select begins with. A time is a number of milliseconds;
-- `launch_queued` takes one time for a round of its loop, where the source reads the clock
-- again before its select and its writes, and has fuel for its rounds: one more than the free
-- places of the process is enough. `Queue.Delay` is the wait between rounds. Abort
-- signals and log lines are left out.
--
-- Not modelled: the network, the processes, the model providers, the Telegram API, the web
-- interface and the terminal dialogues, which are input and output; and SQLite, whose statements are
-- functions on tables.
pub mod Base
pub mod LongTasks
pub mod Concurrency
pub mod Context
pub mod Conversation
pub mod Sleep
pub mod Participation
pub mod Thinking
pub mod Codec
pub mod Queue
