-- ===== src/Runner/Manager.antt =====
-- `ChannelManager` of integration_queue_job/jobrunner/channels.py: its configuration, and the jobs
-- that it is notified of.
pub mod Keyed
pub mod Removal
pub mod Notified
pub mod Owned
use integration_queue.Prelude.{
  ℕ, suc, Bool, true, false, not, ◌&&◌, ◌||◌, List, [], ◌∷◌, reverse, Option, none, some,
  if◌then◌else◌, ◌==◌, ℤ, pos, Text, text, text_eq, ends_with, parse_int,
}
use integration_queue.Job.State.{
  State, wait_dependencies, pending, enqueued, cancelled, done, started, failed,
}
use integration_queue.Runner.Errors.{Result, ok, err, value_error, assertion_error}
use integration_queue.Runner.ChannelJob.{ChannelJob, Jobs}
use integration_queue.Runner.Config.{Config, Value, flag, given, lookup, parse_simple_config}
use integration_queue.Runner.ChannelTree.{
  ChannelPath, path_eq, line_at, get_channel_by_name, on_channel, root_name, fullname,
}
use integration_queue.Runner.Channel
use integration_queue.Runner.Channel.{Channel, Tree, Forest, node, nil, child}

-- `bool(config.get("sequential", False))`
unfoldable pub config_sequential : Option Value → Bool
config_sequential none = false
config_sequential (some flag) = true
config_sequential (some (given [])) = false
config_sequential (some (given (c ∷ s))) = true

-- `int(config.get("throttle", 0))`, where `int(True)` is 1.
unfoldable pub config_throttle : Option Value → Result ℤ
config_throttle none = ok (pos 0)
config_throttle (some flag) = ok (pos 1)
config_throttle (some (given s)) = elim (parse_int s) [ none ↦ err value_error | some n ↦ ok n ]

-- `self.capacity != 1`
unfoldable pub is_one : Option ℤ → Bool
is_one (some (pos n)) = n == 1
is_one _ = false

-- `configure`. Its exceptions leave the channel half configured, and nothing uses it then: they end
-- the construction of the runner.
unfoldable pub configure : ChannelPath → Config → Channel → Result Channel
unfolding config_sequential config_throttle is_one
configure p config c =
    if ends_with config.name (fullname p)
    then (let sequential = config_sequential (lookup (text "sequential") config.keys) in
        elim (config_throttle (lookup (text "throttle") config.keys)) [
          | err e ↦ err e
          | ok throttle ↦
              if sequential && not (is_one (some config.capacity))
              then err value_error
              else ok (record c {
                capacity = some config.capacity;
                queue = record (c.queue) { sequential = sequential };
                throttle = throttle;
              })
        ])
    else err assertion_error

-- The first channel of a list, changed.
unfoldable pub on_first : (Channel → Channel) → List Channel → List Channel
on_first f [] = []
on_first f (c ∷ line) = f c ∷ line

unfoldable pub first_of_line : List Channel → Channel
first_of_line [] = Channel.new [] none
first_of_line (c ∷ line) = c

unfoldable pub get_channel_from_config : Config → Tree → Result Tree
get_channel_from_config config t = elim (get_channel_by_name true false config.name t) [
  | err e ↦ err e
  | ok (p, t') ↦ elim (configure p config (first_of_line (reverse (line_at p t')))) [
    | err e ↦ err e
    | ok c ↦ ok (on_channel (on_first (λ _. c)) p t')
  ]
]

unfoldable pub configure_all : List Config → Tree → Result Tree
configure_all [] t = ok t
configure_all (config ∷ configs) t = elim (get_channel_from_config config t) [
  | err e ↦ err e
  | ok t' ↦ configure_all configs t'
]

unfoldable pub simple_configure : Text → Tree → Result Tree
simple_configure s t = elim (parse_simple_config s) [
  | err e ↦ err e
  | ok configs ↦ configure_all configs t
]

-- `jobs` is the store of the job objects and `fresh` the identity of the next one. The weak
-- dictionary `_jobs_by_uuid` keeps its entries: an object that nothing else holds may be gone from
-- it in the source, and is made anew by the next `notify`.
pub record Manager : Type 0 where
  pub jobs : Jobs
  pub fresh : ℕ
  pub jobs_by_uuid : List (Text × ℕ)
  pub root_channel : Tree

abbrev pub no_job : ChannelJob
no_job = record {
  db_name = [];
  channel = [];
  uuid = [];
  seq = 0;
  date_created = 0;
  priority = 0;
  eta = 0;
}

unfoldable pub init : Manager
init = record {
  jobs = λ _. no_job;
  fresh = 0;
  jobs_by_uuid = [];
  root_channel = node (Channel.new root_name (some (pos 1))) nil;
}

unfoldable pub find_job : Text → List (Text × ℕ) → Option ℕ
find_job uuid [] = none
find_job uuid ((u, o) ∷ rest) = if text_eq u uuid then some o else find_job uuid rest

unfoldable pub delete_job : Text → List (Text × ℕ) → List (Text × ℕ)
delete_job uuid [] = []
delete_job uuid ((u, o) ∷ rest) =
    if text_eq u uuid then delete_job uuid rest else (u, o) ∷ delete_job uuid rest

-- The arguments of `notify`: a row of the table of jobs.
pub record Row : Type 0 where
  pub db_name : Text
  pub channel_name : Text
  pub uuid : Text
  pub seq : ℕ
  pub date_created : ℕ
  pub priority : ℕ
  pub eta : ℕ
  pub state : Option State

-- `job.channel.remove(job)`
unfoldable pub remove_object : ℕ → Manager → Manager
remove_object o m = record m {
  root_channel = on_channel (Channel.remove o) (m.jobs o).channel m.root_channel;
}

unfoldable pub remove_job : Text → Manager → Manager
unfolding remove_object
remove_job uuid m = elim (find_job uuid m.jobs_by_uuid) [
  | none ↦ m
  | some o ↦ record (remove_object o m) { jobs_by_uuid = delete_job (m.jobs o).uuid m.jobs_by_uuid }
]

-- The loop of `remove_db`, over the entries at its start.
unfoldable pub remove_db_from : Text → List (Text × ℕ) → Manager → Manager
unfolding remove_object
remove_db_from db_name [] m = m
remove_db_from db_name ((u, o) ∷ rest) m = remove_db_from db_name rest (
    if text_eq (m.jobs o).db_name db_name
    then record (remove_object o m) { jobs_by_uuid = delete_job (m.jobs o).uuid m.jobs_by_uuid }
    else m)

unfoldable pub remove_db : Text → Manager → Manager
unfolding remove_db_from
remove_db db_name m = remove_db_from db_name m.jobs_by_uuid m

-- A job property that influences the scheduling order has changed.
unfoldable pub has_changed : ChannelJob → ChannelPath → Row → Bool
has_changed job p row =
    not (row.seq == job.seq)
    || not (row.priority == job.priority)
    || not (row.eta == job.eta)
    || not (path_eq p job.channel)

-- `job = ChannelJob(...)`, entered in `_jobs_by_uuid`.
unfoldable pub new_job : ChannelPath → Row → Manager → ℕ × Manager
new_job p row m = (
  m.fresh,
  record m {
    jobs = λ a.
        if m.fresh == a
        then record {
          db_name = row.db_name;
          channel = p;
          uuid = row.uuid;
          seq = row.seq;
          date_created = row.date_created;
          priority = row.priority;
          eta = row.eta;
        }
        else m.jobs a;
    fresh = suc m.fresh;
    jobs_by_uuid = (row.uuid, m.fresh) ∷ m.jobs_by_uuid;
  },
)

-- The job object of the row: the known one, or a new one if there is none or it has changed.
unfoldable pub get_job : ChannelPath → Row → Manager → Result (ℕ × Manager)
unfolding has_changed new_job remove_job
get_job p row m = elim (find_job row.uuid m.jobs_by_uuid) [
  | none ↦ ok (new_job p row m)
  | some o ↦
      if not (text_eq (m.jobs o).db_name row.db_name)
      then err assertion_error
      else if not ((m.jobs o).date_created == row.date_created)
      then err assertion_error
      else if has_changed (m.jobs o) p row
      then ok (new_job p row (remove_job row.uuid m))
      else ok (o, m)
]

-- The state transitions of `notify`; `none` is the falsy state.
unfoldable pub mark : Option State → Jobs → ℕ → List Channel → List Channel
mark none jobs o line = Channel.set_done o line
mark (some done) jobs o line = Channel.set_done o line
mark (some cancelled) jobs o line = Channel.set_done o line
mark (some pending) jobs o line = Channel.set_pending jobs o line
mark (some enqueued) jobs o line = Channel.set_running o line
mark (some started) jobs o line = Channel.set_running o line
mark (some failed) jobs o line = Channel.set_failed o line
mark (some wait_dependencies) jobs o line = line

unfoldable pub apply_state : Option State → ℕ → Manager → Manager
unfolding mark
apply_state state o m = record m {
  root_channel = on_channel (mark state m.jobs o) (m.jobs o).channel m.root_channel;
}

unfoldable pub notify : Row → Manager → Result Manager
unfolding apply_state
notify row m = elim (get_channel_by_name false true row.channel_name m.root_channel) [
  | err e ↦ err e
  | ok (p, t) ↦ elim (get_job p row (record m { root_channel = t })) [
    | err e ↦ err e
    | ok (o, m') ↦ ok (apply_state row.state o m')
  ]
]

unfoldable pub get_jobs_to_run : ℕ → Manager → List ℕ × Manager
get_jobs_to_run now m =
    let (yielded, jobs, t) = Channel.get_jobs_to_run now m.jobs m.root_channel in
    (yielded, record m { jobs = jobs; root_channel = t })

unfoldable pub get_wakeup_time : Manager → ℕ × Manager
get_wakeup_time m =
    let (t, tree) = Channel.get_wakeup_time m.jobs m.root_channel 0 in
    (t, record m { root_channel = tree })
