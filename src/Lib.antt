-- ===== src/Lib.antt =====
-- Verification of parts of arvel, a Python web framework (src/arvel). Each part is a module tree named
-- after it. A stateful class is a record with one function for each method, which takes the state and
-- returns it; what another library or another machine answers is an argument with its documented laws.
--
-- Queue.Batch: job batches (src/arvel/queue/batch.py, and PendingBatch.dispatch of
-- src/arvel/queue/__init__.py). The row's atomic updates are record_job_outcome, cancel_batch_once,
-- finish_batch_once and is_batch_cancelled. apply_job_outcome and finalize_empty_batch are processes that
-- stop at each database call (Pc, and step in Queue.Batch.Run); Reach is any interleaving of them with
-- outside cancellations, in which the row stays: step also has what the code does when the row is gone, but
-- no theorem speaks of it. Callbacks may raise.
--
-- Queue.Schedule: the scheduler (src/arvel/queue/scheduler.py). Cron has the matching of expressions, on
-- texts as lists of code points (ASCII); Event the fluent methods of ScheduledEvent; Due the gates of
-- is_due; Run the method run over the lock table of the cache. A hook is whether it raises; between the
-- two ends of a run anybody may use the lock table.
--
-- Queue.Worker: run_job_with_retries (src/arvel/queue/worker.py): run_inline is the loop in place,
-- run_durable one pass of a durable queue, passes the passes of a job that is released and picked up.
-- A job is what its n-th attempt comes to, a hook what it raises.
--
-- Queue.Middleware: src/arvel/queue/middleware.py, over Cache.Locks, Http.RateLimiter and
-- Cache.Repository. The job is a function of the locks, or of the cache and anything else that it can act on,
-- so a run of it shows. Window has jobs one after the other, Race jobs that overlap.
--
-- Cache.Locks: _ArrayLockStore (src/arvel/cache/__init__.py), against a view that shows for each name the
-- unexpired entry. The clock, a float, is a number of ticks. Handle is CacheLock over that table, in which
-- anybody may act between two attempts. Cache.Client is the cashews client as a
-- record of operations and laws; Cache.Client.Memory is a dictionary that satisfies it. Cache.Repository
-- has the methods of CacheRepository over any such client.
--
-- Http.RateLimiter: src/arvel/http/rate_limiter.py, over Cache.Repository, whose exact count of a window
-- rests on the client's atomic counter. A callback acts on a Site, the cache and anything else, so that its
-- runs show.
--
-- Auth.Gate: src/arvel/auth/gate.py. Annotation reads a callback's first parameter, Check has the data,
-- Raw the registries and _raw, Verbs the methods that read its result. A callback is what it returns or
-- raises.
--
-- Auth.Throttle: src/arvel/auth/throttle.py, over Cache.Repository. Each cache call is told whether it is
-- up; strip and casefold, which need the tables of Unicode, are an argument.
--
-- Events: src/arvel/events/dispatcher.py. Registry has the maps of Dispatcher, Glob the matching of
-- Python's own fnmatch, World the state that its calls have an effect on, Fire dispatch, until, flush and broadcasts,
-- Transaction the after-commit buffer around a body of calls. A listener is what it returns or raises.
--
-- Kernel.Container: the container (src/arvel/kernel/container.py). The file itself has the verbs that
-- register, Resolve has make: each function takes the resolution inside as an argument, and resolve ties
-- the knot on fuel. A class is what _build and _resolve_dependencies ask of it, an object its identity, and
-- a log keeps what was built, called and extended. A callback of rebinding is a function of the container
-- that it is called with, and may raise.
--
-- Pagination: src/arvel/pagination/__init__.py. Base is AbstractPaginator, LengthAware, Simple and Cursor
-- its three forms; urlencode is an argument.
--
-- Support.Money: src/arvel/support/money.py. Amounts are integers in minor units; in allocate the float
-- fractions, which only order the remainder's recipients, are a parameter.
--
-- Support.CommandSignature: src/arvel/support/command_signature.py, on texts as code points: the tokens that
-- the regular expression finds, how each is read, and the order that is refused.
--
-- Support.Pipeline: src/arvel/support/pipeline.py; an awaitable result is the value that it comes to.
--
-- Common passes on the shared names: Boolean tests on the native numbers, lists, integers with Python's
-- floor division, dictionaries in insertion order, and Python's methods on texts.
--
-- Bounds and fuel: numbers are unbounded, as Python's are. All loops of the modelled code are structural
-- here, but the passes of a released job, for which its tries are enough, the attempts to get a lock, each of
-- which is at least one tick after the one before, the resolutions inside one
-- another, which nest no deeper than there are classes unless factories or names lead in a circle, the
-- aliases of a name, whose fuel is one more than their number, and the printing of a number in decimal,
-- whose fuel is the number itself, more than its digits.
--
-- Not modelled: the wire formats and network drivers, the lookup of configuration and of the maintenance
-- flag, whose answers are arguments, decimal arithmetic with a context and the formatting of money, HTML
-- rendering, the concurrent gather of due events (each run is modelled with arbitrary use of the lock
-- table by others), flexible entries and tags of the cache, and the other packages of src/arvel.
pub mod Common
pub mod Auth
pub mod Cache
pub mod Events
pub mod Http
pub mod Kernel
pub mod Pagination
pub mod Queue
pub mod Support
