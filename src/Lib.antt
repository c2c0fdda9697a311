-- ===== src/Lib.antt =====
-- Background jobs for Odoo, as in the directory integration_queue_job of the repository.
--
-- The program. A job is a row of the table `queue_job`. The job runner (jobrunner/runner.py) is told of
-- each change of a row and keeps, in memory, a tree of channels with the jobs that are pending, running
-- or failed (jobrunner/channels.py). It asks the tree for the jobs to run, marks each as enqueued in its
-- row and sends an HTTP request for it. The controller (controllers/main.py) answers: it loads the job
-- (job.py), performs it and stores how it ended, which the runner is told of in turn. A cron of the
-- model (models/queue_job.py) takes jobs back that a lost request or a killed worker left behind. Jobs that
-- wait for each other are delayed together, as a graph (delay.py).
--
-- The files, with the code that each is about; paths start at the repository's root.
--   Prelude: Booleans, integers, Python's sets, strings and `split`, which all parts share.
--   Runner/PriorityQueue: `PriorityQueue` of integration_queue_job/jobrunner/channels.py. Laws, Order,
--     Heap and Least hold its proofs.
--   Runner/ChannelJob: `ChannelJob` and its order; Order holds the proofs.
--   Runner/ChannelQueue: `ChannelQueue`; Laws, Release, Pop, Measure and Idle hold the proofs.
--   Runner/Channel: `Channel` on its own and as a tree; Loop, Flow, Yields, Capacity, Throttle and
--     Kept hold the proofs.
--   Runner/Config, Runner/ChannelTree, Runner/Manager: `parse_simple_config`, the channels by name and
--     the rest of `ChannelManager`. Runner/Errors: what they raise.
--   Runner/Database, Runner/Request: `Database.set_job_enqueued` and `_async_http_get` of
--     integration_queue_job/jobrunner/runner.py; Request/Delay holds the proofs of the latter.
--   Runner/QueueJobRunner: `Database` and `QueueJobRunner` of that file, with `run` in Run; Rows, Sent,
--     Wait, Closed, Opens, Lifetime and Recovery hold the proofs. Keyed, Removal, Notified and Owned in
--     Runner/Manager are about the dictionary of jobs.
--   Job/State, Job/Record: the states and the attributes of `Job` of integration_queue_job/job.py, and
--     the methods `set_pending` to `set_failed`.
--   Job/Perform: `perform`, `postpone` and the seconds before the next try, with the exceptions of
--     integration_queue_job/exception.py.
--   Job/Store: `load`, `store`, `enqueue`, and the query that updates the dependent jobs; Rows,
--     Dependents and Keys hold the proofs.
--   Job/Create: the constructor of `Job`, and `add_depends`.
--   Delay/Graph: `Graph` of integration_queue_job/delay.py; Keys, Release, SortLoop, Sort and Build hold
--     the proofs.
--   Delay/Delayable: `Delayable`, `DelayableChain`, `DelayableGroup` and `split`; Split, Made and Ending
--     hold the proofs on `split`, Ends those on heads and tails.
--   Delay/Connect: `_merge_graph` and `_connect_graphs` of `DelayableGraph`; Merge and Visit hold the
--     proofs.
--   Delay/Launch: `_ensure_same_graph_uuid` and `delay` of `DelayableGraph`, with `store` of its jobs;
--     Same, Depends, Rows and Stored hold the proofs.
--   JobFunction: names of job functions, retry patterns and `job_config` of
--     integration_queue_job/models/queue_job_function.py; Names, Decimals, Patterns and Stored hold the
--     proofs.
--   Controller: `runjob` of integration_queue_job/controllers/main.py; Rows, Tries, Settled, Retries,
--     Concurrency and Budget hold the proofs.
--   QueueJob: changes of state and the garbage collector of integration_queue_job/models/queue_job.py;
--     Rescue and Collect hold the proofs. QueueJob/Autovacuum: `autovacuum`, with its proofs in Removed.
--   Tests: the sessions of the docstrings of channels.py, run, and the theorems at concrete inputs.
--
-- State. A function takes the state that the source's method reads and returns the state that it
-- leaves, beside the result; a raise is `none` or a value of an error type. A `ChannelJob` stands by a
-- number, its identity, and its attributes are in a store from numbers to attributes, since `pop`
-- changes the eta of a job that several queues may hold. A channel's children are in the tree; the
-- channels of a job are the path from its channel to the root, which `remove`, `set_done`,
-- `set_pending`, `set_running` and `set_failed` walk. The table of jobs is a list of rows.
--
-- Numbers. Etas, dates and clocks are natural numbers; for a channel job an eta of 0 is None, as the
-- code's tests of truth take it. In Job and Controller a clock counts seconds. A capacity is an
-- optional integer, and a throttle an integer; a negative throttle takes the clock back at most to 0.
--
-- Bounds. The loop of `get_jobs_to_run` has fuel `queue_fuel`, one more than the entries of the two
-- heaps, and the loop of `ChannelQueue.pop` one more than the entries of the eta heap: each round takes
-- an entry out. `topological_sort` has as much fuel as the graph has vertices, of which no one is yielded
-- twice. `_connect_graphs` has one more than `work`, which counts each graph that can be met and its
-- vertices. The loop of `split` has one more than the records, and that of `autovacuum` one more than
-- the rows of the table, of which each round deletes one at least. The loop of `PriorityQueue.pop` runs
-- on the heap, and `_enqueue_dependent_jobs` on the number of tries that it has left.
--
-- Choices. `heapq` is the list in the order in which `heappop` gives its entries; entries that compare
-- equal come out in the order of insertion, where heapq promises no order. A set is a list. A child's
-- generator is run to its end before the parent takes its jobs. The weak dictionary of jobs keeps its
-- entries, where the source may lose the entry of a job that no channel holds. Strings are ASCII for `strip` and `int`. The function of a job, the clock, the process id,
-- `randint`, the texts of exceptions and the errors of the database are in the controller's environment
-- or arguments. What a job's function writes to other tables, and the rollback of it, are left out;
-- sleeps and log lines too.
--
-- The runner's methods run while `_stop` is not set; it is set after the last round of a session, or by
-- an interrupt. A session takes as arguments what the server answers and where it fails: when a database
-- is opened or its jobs are selected, at a notification, or in a wait. An error of the `UPDATE` of
-- `run_jobs` is left out. In the controller, the first store or commit, the job's function, the flush and
-- the last commit may each raise; an update of the row by the runner's request may fail or not be made.
--
-- Not modelled: the threads, pipes, connections and settings of the runner; `paths`, texts and attribute
-- access of delay.py; the edited texts of job functions, channels in the database, serialised fields,
-- hooks, wizards and the bridge module; descriptions, users and companies of jobs; messages, views and
-- actions.
pub mod Prelude
pub mod Job
pub mod Controller
pub mod QueueJob
pub mod Delay
pub mod JobFunction
pub mod Runner
mod Tests
