-- ===== src/QueueJob/Rescue.antt =====
-- The jobs that the garbage collector takes for dead, and what it makes of them.
use integration_queue.Prelude.{
  ℕ, ◌+◌, ◌*◌, ◌≡◌, ◌<◌, ◌≤◌, refl, Bool, true, false, not, ◌&&◌, ◌||◌, Option, none, some, Text,
  leb, ◌==◌, arith, Bool-cases, inl, inr, ◌⊎◌, ◌∙◌, ap, pos,
}
use integration_queue.Job.State.{wait_dependencies, pending, enqueued, started, failed, ◌is◌}
use integration_queue.Job.Record.{Job, Table, set_pending, set_failed}
use integration_queue.Job.Store.{find_row, from_row, load, store, stored_row}
use integration_queue.Job.Store.Rows.{find_row-uuid}
use integration_queue.Controller.Rows.{find_row-store_self}
use integration_queue.Controller.Settled.{wait_or_pending}
use integration_queue.QueueJob.{
  kill_delay_seconds, minimum_started_delta, safe_started_delta, older, stuck_in, is_stuck,
  DeadTexts, rescue, rescue_dead_job,
}

-- The minutes cover the limit and the delay of the kill.
minimum_started_delta-covers :
    (n : ℕ) → 0 < n → n + kill_delay_seconds ≤ 60 * minimum_started_delta (pos n)
unfolding minimum_started_delta
minimum_started_delta-covers n h = ground arith

minimum-safe :
    (n d : ℕ)
    → 0 < n
    → (safe_started_delta (pos n) d ≡ 0)
      ⊎ (minimum_started_delta (pos n) ≤ safe_started_delta (pos n) d)
unfolding safe_started_delta
minimum-safe n d h = ground arith

aged_part :
    (now minutes t s : ℕ) (b : Bool)
    → (not (minutes == 0) && leb (t + 60 * minutes) now && b) ≡ true
    → t ≡ s
    → (0 < minutes) × (s + 60 * minutes ≤ now)
aged_part now minutes t s b h e = ground arith

absent_part : (a b : Bool) → (a && false && b) ≡ true → ⊥
absent_part a b h = ground arith

date_or : Option ℕ → ℕ
date_or none = 0
date_or (some t) = t

stuck_in-age :
    (now minutes s : ℕ) (date : Option ℕ) (j : Job)
    → stuck_in started now minutes date j ≡ true
    → date ≡ some s
    → (0 < minutes) × (s + 60 * minutes ≤ now)
unfolding stuck_in older date_or
stuck_in-age now minutes s none j h e = absurd (absent_part _ _ h)
stuck_in-age now minutes s (some t) j h e = aged_part now minutes t s _ h (ap date_or e)

either_part : (a b c d : Bool) → (a && b && c || d) ≡ true → c ≡ false → d ≡ true
either_part a b c d h e = ground arith

is_stuck-started :
    (now enqueued_delta started_delta : ℕ) (j : Job)
    → is_stuck now enqueued_delta started_delta j ≡ true
    → j.state ≡ started
    → stuck_in started now started_delta j.date_started j ≡ true
unfolding is_stuck stuck_in
is_stuck-started now enqueued_delta started_delta j h e =
    either_part (not (enqueued_delta == 0)) (older now enqueued_delta j.date_enqueued) _ _ h
      (ap (λ s. s is enqueued) e)

-- A started job that is taken for stuck began longer ago than a request may run and be killed.
pub stuck_started_age :
    (n started_delta enqueued_delta now s : ℕ) (j : Job)
    → 0 < n
    → is_stuck now enqueued_delta (safe_started_delta (pos n) started_delta) j ≡ true
    → j.state ≡ started
    → j.date_started ≡ some s
    → s + n + kill_delay_seconds ≤ now
stuck_started_age n started_delta enqueued_delta now s j p h e d =
    let (positive, aged) =
      stuck_in-age now _ s j.date_started j (is_stuck-started now enqueued_delta _ j h e) d in
    let covers = minimum_started_delta-covers n p in
    elim (minimum-safe n started_delta p) [
      | inl never ↦ absurd (omega arith)
      | inr above ↦ omega arith
    ]

-- What the rescue of a started job leaves: its lost run counts as a try.
pub record IsRescued (row after : Job) : Type 0 where
  pub retry : after.retry ≡ row.retry + 1
  pub ends :
      (((row.max_retries ≡ 0) ⊎ (row.retry + 1 < row.max_retries))
        × ((after.state ≡ pending) ⊎ (after.state ≡ wait_dependencies))
        × (after.date_started ≡ none))
      ⊎ ((0 < row.max_retries) × (row.max_retries ≤ row.retry + 1) × (after.state ≡ failed))

pub rescue-IsRescued :
    (texts : DeadTexts) (table : Table) (row held : Job)
    → IsRescued row (stored_row table (rescue texts table (from_row row)) held)
      × ((rescue texts table (from_row row)).uuid ≡ row.uuid)
unfolding rescue from_row stored_row set_pending set_failed
rescue-IsRescued texts table row held = elim (Bool-cases (row.max_retries == 0)) [
  | inl unlimited ↦
      rw unlimited
        (record { retry = refl; ends = inl (inl (ground arith), wait_or_pending _, refl) }, refl)
  | inr limited ↦ elim (Bool-cases (leb row.max_retries (row.retry + 1))) [
    | inl elapsed ↦
        rw (limited, elapsed)
          (record { retry = refl; ends = inr (ground arith, ground arith, refl) }, refl)
    | inr left ↦
        rw (limited, left)
          (record { retry = refl; ends = inl (inr (ground arith), wait_or_pending _, refl) }, refl)
  ]
]

-- The rescue of a job in the table counts the lost run, and fails the job if no try is left.
pub rescue_dead_job-IsRescued :
    (texts : DeadTexts) (uuid : Text) (table : Table) {row : Job}
    → find_row uuid table ≡ some row
    → (after : Table) × (found : Job) × (rescue_dead_job texts uuid table ≡ some after)
      × (find_row uuid after ≡ some found)
      × IsRescued row found
unfolding rescue_dead_job load from_row
rescue_dead_job-IsRescued texts uuid table {row} f =
    let (rescued, same) = rescue-IsRescued texts table row row in
    (
      store (rescue texts table (from_row row)) table,
      stored_row table (rescue texts table (from_row row)) row,
      rw (rescue_dead_job, load, f) refl,
      find_row-store_self _ uuid table f (same ∙ find_row-uuid uuid table f),
      rescued,
    )
