-- ===== src/Job/Perform.antt =====
-- `perform`, the delay before a retry and `postpone` of integration_queue_job/job.py, with the
-- exceptions of integration_queue_job/exception.py.
use integration_queue.Prelude.{
  ℕ, zero, suc, ◌+◌, ◌-◌, ◌*◌, Bool, true, false, List, [], ◌∷◌, Option, none, some, if◌then◌else◌,
  leb, ◌==◌, Text,
}
use integration_queue.Job.Record.{Job, or_keep}

-- What the performed function raises; `seconds` is 0 where it is not given.
pub data Exception : Type 0 where
  retryable_job_error : (seconds : ℕ) (ignore_retry : Bool) (message : Text) → Exception
  failed_job_error : (message : Text) → Exception
  operational_error : (concurrency : Bool) (message : Text) → Exception
  other_error : (name message : Text) → Exception

pub data Outcome : Type 0 where
  returned : Option Text → Outcome
  raised : Exception → Outcome

-- The `except RetryableJobError` of `perform`, once `retry` counts this try.
-- The words that the `FailedJobError` puts before the message are left out.
unfoldable pub on_retryable : ℕ → Bool → Text → Job → Job × Outcome
on_retryable seconds ignore_retry message job =
    if ignore_retry
    then (record job { retry = job.retry - 1 }, raised (retryable_job_error seconds true message))
    else if job.max_retries == 0
    then (job, raised (retryable_job_error seconds false message))
    else if leb job.max_retries job.retry
    then (job, raised (failed_job_error message))
    else (job, raised (retryable_job_error seconds false message))

-- The function's outcome is an argument.
unfoldable pub perform : Outcome → Job → Job × Outcome
unfolding on_retryable
perform outcome job =
    let tried = record job { retry = job.retry + 1 } in
    elim outcome [
      | returned result ↦ (record tried { result = result }, returned result)
      | raised (retryable_job_error seconds ignore_retry message) ↦
          on_retryable seconds ignore_retry message tried
      | raised e ↦ (tried, raised e)
    ]

-- A value of the retry pattern: a number of seconds, or a range to choose from at random.
pub data Seconds : Type 0 where
  exactly : ℕ → Seconds
  between : ℕ → ℕ → Seconds

abbrev pub retry_interval : ℕ
retry_interval = 10 * 60

unfoldable pub insert_pattern : ℕ × Seconds → List (ℕ × Seconds) → List (ℕ × Seconds)
insert_pattern (c, s) [] = (c, s) ∷ []
insert_pattern (c, s) ((d, t) ∷ rest) =
    if leb c d then (c, s) ∷ (d, t) ∷ rest else (d, t) ∷ insert_pattern (c, s) rest

-- `sorted(retry_pattern.items(), key=lambda t: t[0])`
unfoldable pub sort_pattern : List (ℕ × Seconds) → List (ℕ × Seconds)
unfolding insert_pattern
sort_pattern [] = []
sort_pattern (p ∷ rest) = insert_pattern p (sort_pattern rest)

-- The loop over the sorted pattern.
unfoldable pub pattern_seconds : ℕ → Seconds → List (ℕ × Seconds) → Seconds
pattern_seconds retry seconds [] = seconds
pattern_seconds retry seconds ((retry_count, postpone_seconds) ∷ rest) =
    let later = pattern_seconds retry postpone_seconds rest in
    if leb retry_count retry then later else seconds

-- The number of seconds, or the range, before the next try.
unfoldable pub choose_seconds : List (ℕ × Seconds) → ℕ → ℕ → Seconds
unfolding sort_pattern pattern_seconds
choose_seconds [] seconds retry = exactly (if seconds == 0 then retry_interval else seconds)
choose_seconds (p ∷ rest) seconds retry =
    if seconds == 0
    then pattern_seconds retry (exactly retry_interval) (sort_pattern (p ∷ rest))
    else exactly seconds

unfoldable pub draw : (randint : ℕ → ℕ → ℕ) → Seconds → ℕ
draw randint (exactly n) = n
draw randint (between lo hi) = randint lo hi

-- `_get_retry_seconds`; `randint` is an argument.
unfoldable pub get_retry_seconds : (ℕ → ℕ → ℕ) → List (ℕ × Seconds) → ℕ → Job → ℕ
unfolding draw
get_retry_seconds randint retry_pattern seconds job =
    draw randint (choose_seconds retry_pattern seconds job.retry)

-- `self.eta = timedelta(seconds=eta_seconds)`: no delay is no eta.
unfoldable pub eta_after : ℕ → ℕ → Option ℕ
eta_after now zero = none
eta_after now (suc n) = some (now + suc n)

unfoldable pub postpone : ℕ → ℕ → Option Text → Job → Job
unfolding eta_after or_keep
postpone now eta_seconds result job = record job {
  eta = eta_after now eta_seconds;
  exc_name = none;
  exc_info = none;
  result = or_keep result job.result;
}
