-- ===== src/Runner/Request.antt =====
-- `_async_http_get` of integration_queue_job/jobrunner/runner.py: what the answer to the request for a
-- job does to the job's row. How the update of the row ends is an argument.
pub mod Delay
use integration_queue.Prelude.{
  ℕ, ◌+◌, Bool, true, false, ◌&&◌, [], ◌∷◌, Option, none, some, if◌then◌else◌, min, max, ◌==◌, Text,
  text_eq, is_digit, digits_from, map,
}
use integration_queue.Job.State.{pending, enqueued, ◌is◌}
use integration_queue.Job.Record.{Job, Table}

-- How the request ends: with a status that is no error, the timeout, an HTTP error with its header
-- `Retry-After`, or another exception.
pub data Answer : Type 0 where
  answered : Answer
  timed_out : Answer
  http_error : (status : ℕ) (retry_after : Option Text) → Answer
  other_failure : Answer

all_digits : Text → Bool
all_digits [] = true
all_digits (c ∷ s) = is_digit c && all_digits s

-- `str.isdigit`
unfoldable pub is_number : Text → Bool
unfolding all_digits
is_number [] = false
is_number (c ∷ s) = all_digits (c ∷ s)

-- The delay before it is bounded; `int` of digits gives a number.
unfoldable pub asked_delay : Option Text → ℕ
asked_delay none = 60
asked_delay (some s) =
    if is_number s then elim (digits_from 0 false s) [ none ↦ 60 | some n ↦ n ] else 60

unfoldable pub retry_delay : Option Text → ℕ
retry_delay retry_after = min (max (asked_delay retry_after) 1) 600

-- The rows that the statements change.
abbrev pub is_waiting : Text → Job → Bool
is_waiting uuid row = text_eq row.uuid uuid && row.state is enqueued

unfoldable pub reset_row : Text → Job → Job
reset_row uuid row =
    if is_waiting uuid row
    then record row { state = pending; date_enqueued = none; date_started = none }
    else row

unfoldable pub postpone_row : ℕ → Text → Job → Job
postpone_row eta uuid row =
    if is_waiting uuid row
    then record row { state = pending; date_enqueued = none; date_started = none; eta = some eta }
    else row

unfoldable pub set_job_pending : Text → Table → Table
set_job_pending uuid table = map (reset_row uuid) table

-- How the update with an eta ends: it is made; its statement raises, and the row is reset without an
-- eta; or no update is made, since the first connection, which is outside the `try`, or the one for
-- the reset raises.
pub data Update : Type 0 where
  postpones resets raises : Update

unfoldable pub set_job_pending_with_eta : Update → ℕ → ℕ → Text → Table → Table
set_job_pending_with_eta postpones now delay uuid table =
    map (postpone_row (now + delay) uuid) table
set_job_pending_with_eta resets now delay uuid table = set_job_pending uuid table
set_job_pending_with_eta raises now delay uuid table = table

unfoldable pub async_http_get : Answer → Update → ℕ → Text → Table → Table
async_http_get (http_error status retry_after) update now uuid table =
    if status == 429
    then set_job_pending_with_eta update now (retry_delay retry_after) uuid table
    else table
async_http_get _ update now uuid table = table
