-- ===== src/Lib.antt =====
-- Verification of dhongu/others_addons: above all its job queue, the modules of Odoo that run jobs in
-- the background, its audit log, its import of bank statements, and its date ranges.
--
-- A job is a row of the database with a state. The job runner keeps, in memory, a tree of channels
-- with capacities; PostgreSQL notifies it of each change of a job's state, and it moves the job in
-- the channels. Whenever there is capacity it takes jobs out of the channels, marks them as
-- enqueued and asks an HTTP worker to run them. The worker runs one job: it locks it, calls its
-- method, and stores it as done, as waiting for another try, or as failed.
--
-- Channels models queue_job/jobrunner/channels.py:
--   Channels/PriorityQueue   `PriorityQueue`: a heap with removal. Contents: what is in the queue;
--                            Order: the order of the heap; Pop: `pop`, `self[0]` and `len`;
--                            Refinement: the set that it implements.
--   Channels/Job             `ChannelJob` and its comparison; the etas, which the queues reset, are
--                            a store that the operations pass on.
--   Channels/Queue           `ChannelQueue`: jobs with an eta are set aside in a second heap.
--                            Invariant: well-formed queues; Promote, Ready, Pop: the phases of
--                            `pop`; Members: what else changes a queue.
--   Channels/Channel         `Channel`: the set_ methods act on the channel of a job and its
--                            ancestors, a list of channels with the root last. Chain: where a job
--                            is after them; Transition: the branches of `ChannelManager.notify`;
--                            Run, Yields, Throttle, Loop: the loop of `get_jobs_to_run`, whose
--                            consumer is an argument; Spacing: the throttle; Served: what is left.
--   Channels/Tree            the tree of channels: `get_jobs_to_run` and `get_wakeup_time`. Each
--                            channel hands its jobs to the queue of its parent; what the root
--                            channel yields is the result. Capacity: no channel runs too many.
--   Channels/Manager         `get_channel_by_name`, on names that are the lists of their parts. Names:
--                            what a lookup finds and creates; Notify: `notify`, `remove_job` and
--                            `remove_db`; Index: the jobs that are known afterwards.
--   Channels/Config          `parse_simple_config`, `simple_configure`, `get_channel_from_config` and
--                            `Channel.configure`. Text: Python's functions on texts; Sequential: the
--                            channels that are configured; Entries: how a configuration is split.
-- Jobs models one job:
--   Jobs/State, Jobs/Job     the states and the set_ methods of `Job` (queue_job/job.py).
--   Jobs/Retry               `_get_retry_seconds` and `postpone` (queue_job/job.py).
--   Jobs/Run                 `perform` (queue_job/job.py), and `_acquire_job`, `_try_perform_job`,
--                            `_runjob` and `runjob` (queue_job/controllers/main.py). Outcome: how a
--                            run ends; Retries: what many runs do.
--   Jobs/Dependents          the table of the jobs and their dependencies: `enqueue_waiting` and
--                            `cancel_dependent_jobs` (queue_job/job.py), `_change_job_state` and its
--                            buttons (queue_job/models/queue_job.py), and
--                            `_enqueue_dependent_jobs` (queue_job/controllers/main.py). Waiting,
--                            Buttons: what the changes leave waiting; Attempts: the retry loop.
-- Delay models queue_job/delay.py:
--   Delay/Graph              `Graph`: vertices, edges and `topological_sort`. Build: graphs that `add_edge`
--                            builds; Pending, Relax, Loop: the parents that a vertex waits for, the
--                            inner and the outer loop; Sorted: what is yielded.
--   Delay/Delayables         delayables, chains and groups with their graphs, a table that `on_done`
--                            changes; `_merge_graph` and `_connect_graphs`. Edges: what a merge adds;
--                            Connected, Whole: the graphs that are visited and their links.
--   Delay/Delaying           `delay` of the whole graph: the jobs that are stored, run or replaced.
--                            Uuids: the jobs that may share a graph uuid; Outcome: what is stored.
-- DateRanges models date ranges: `_validate_range` over the table of the ranges
-- (date_range/models/date_range.py), and in DateRanges/Generator the wizard that makes successive
-- ranges (date_range/wizard/date_range_generator.py), with `rrule` of dateutil as a parameter.
-- AuditLog models auditlog/models/auditlog_rule.py:
--   AuditLog/Differ          `DictDiffer`; Partition: what its sets hold.
--   AuditLog/Lines           `_create_log_line_on_read`, `_on_write` and `_on_create`, and the lines that
--                            they prepare. What `_get_field`, `display_name` and `_search` answer is
--                            an argument, the record `Models`.
--   AuditLog/Logs            `create_logs`. Lookup: the line of a field; Complete, Replay, Excluded,
--                            Unchanged: what is logged and what is not.
--   AuditLog/Methods         the methods that a rule puts in the place of those of a model, in Patched:
--                            `create`, `read`, `write`, `unlink` and `export_data`, where the method that
--                            they call as `origin` and what a read gives are arguments. Transparent,
--                            Unlogged: their effect and the gaps of the log.
--   AuditLog/Rules           the rules and the classes that they patch: `_patch_method`, `_patch_methods`,
--                            `_revert_methods`. Actions: `_register_hook`, `create`, `write`, `unlink`,
--                            `set_to_confirmed` and `set_to_draft`; Sound, Coherent, Reached: what every
--                            sequence of them keeps; Turns, Reverted, Unloaded: the way back to draft.
-- StatementImport models account_statement_import_file/wizard/account_statement_import.py: the statements
-- that the parser gives, and their completion, with that of
-- account_statement_import_base/models/account_journal.py.
--   StatementImport/Matching `_match_currency` and `_match_journal`.
--   StatementImport/Creation `_create_bank_statements` over the tables of the statements and lines, with
--                            the constraint on `unique_import_id`. Known: transactions that are known;
--                            Rows: the lines of one statement; Steps, Created: the loop and what is
--                            known afterwards; Balance: the balances of the new statements.
--   StatementImport/Import   `import_single_statement`, `import_single_file` and `_import_file`.
--                            Identified: the completed transactions; Again: a second import.
-- Cron models the runner of queue_job_cron_jobrunner/models/queue_job.py, `_job_runner`, over the
-- table of the jobs; Idle: it ends.
-- Base holds what they share.
--
-- The value of a field is, for the audit log, a number, a text or a list of ids, as far as Python's `==`
-- tells them apart: `False` is 0. The classes of the models are functions of the names; a class has its
-- own patches and marks, and inherits those of the classes that the registry names as its bases. An
-- exception is `none`, and then there is no log. Reads and flushes of auditlog may fail.
--
-- In the import of statements an amount is a whole number of the smallest unit, a missing or empty value is
-- none, and a line has its place in the table as its id. What a search gives is the record `Odoo`; the
-- search for a line is the code's, as an import changes its answers.
--
-- Times, priorities, sequences and the names of databases and jobs are natural numbers, as only
-- their order and equality count. A heap of `heapq` is the list of its entries in the order in which
-- it gives them back: the code only looks at the first entry, pushes and pops. Of two jobs of
-- different databases with equal keys `heapq` may give back either first. A set is a list
-- without repetitions. A branch that would raise an `IndexError` is written out, and not reached,
-- as the code tests the length first. The capacity of a channel is an integer or none, and one below
-- 0 blocks it, as in the code.
--
-- Loops run on fuel: the first loop of `ChannelQueue.pop` on the size of the heap of jobs with an
-- eta, each round taking one off, and the loop of `Channel.get_jobs_to_run` on one more than the
-- entries of both heaps, as each round takes one entry off. Both end by a test of their own before
-- that.
--
-- `_connect_graphs` has fuel for one graph and one more for each vertex of each graph, as the vertices of
-- a graph are pushed only once.
--
-- `topological_sort` has fuel for the number of the vertices, as none is yielded twice. The
-- loop of `_enqueue_dependent_jobs` has fuel for its maximum of tries and one more.
--
-- `_job_runner` has fuel for the jobs that are pending or wait and whose eta is past due, as each that
-- it processes is no longer one of them while the clock stands still and no more are made; what the
-- clock shows and what else happens to the table in each round are arguments.
--
-- `_jobs_by_uuid` is a weak dictionary: which objects Python still finds referred to at the end of a
-- notification is an argument.
--
-- The clock, the process id, `randint`, what the method of a job does, and what the database answers
-- are arguments. Not modelled: logging, sockets and threads, the test mode of Odoo, throttles below 0,
-- digits other than 0 to 9 in a configuration, and the other modules of the repository.
mod Base
pub mod Jobs
pub mod Channels
pub mod DateRanges
pub mod Delay
pub mod Cron
pub mod AuditLog
pub mod StatementImport
