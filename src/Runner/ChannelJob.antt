-- ===== src/Runner/ChannelJob.antt =====
-- `ChannelJob` of integration_queue_job/jobrunner/channels.py: the objects that the channels hold.
-- An object stands by its identity, a number, and `Jobs` is the store of their attributes. Times
-- are whole ticks since the epoch. The source tests `eta` by its truth only, so 0 is its `None`.
pub mod Order
use integration_queue.Prelude.{
  ℕ, Bool, true, false, not, ◌&&◌, compare, Ordering, if◌then◌else◌, ◌==◌, List, ltb, Text,
}

pub record ChannelJob : Type 0 where
  pub db_name : Text
  pub channel : List Text
  pub uuid : Text
  pub seq : ℕ
  pub date_created : ℕ
  pub priority : ℕ
  pub eta : ℕ

abbrev pub Jobs : Type 0
Jobs = ℕ → ChannelJob

-- `j.eta = None` on the object `o`; every holder of the object sees it.
unfoldable pub clear_eta : ℕ → Jobs → Jobs
clear_eta o jobs a = if o == a then record (jobs o) { eta = 0 } else jobs a

-- One component of the comparison of two tuples.
abbrev pub then_by : ℕ → ℕ → Bool → Bool
then_by a b rest = elim (compare a b) [
  | Ordering.lt ↦ true
  | Ordering.eq ↦ rest
  | Ordering.gt ↦ false
]

-- `a.sorting_key_ignoring_eta() < b.sorting_key_ignoring_eta()`
unfoldable pub lt_ignoring_eta : ChannelJob → ChannelJob → Bool
lt_ignoring_eta a b =
    then_by a.priority b.priority
      (then_by a.date_created b.date_created (then_by a.seq b.seq false))

-- `a.sorting_key() < b.sorting_key()`
unfoldable pub lt_sorting_key : ChannelJob → ChannelJob → Bool
unfolding lt_ignoring_eta
lt_sorting_key a b = then_by a.eta b.eta (lt_ignoring_eta a b)

-- `__lt__`
unfoldable pub job_lt : ChannelJob → ChannelJob → Bool
unfolding lt_sorting_key
job_lt a b =
    if ltb 0 a.eta && not (ltb 0 b.eta)
    then true
    else if not (ltb 0 a.eta) && ltb 0 b.eta
    then false
    else lt_sorting_key a b

abbrev pub lt_in : Jobs → ℕ → ℕ → Bool
lt_in jobs a b = job_lt (jobs a) (jobs b)
