-- ===== src/Runner/Request/Delay.antt =====
-- The row of a job after the request for it.
use integration_queue.Prelude.{
  ℕ, ◌+◌, ◌≡◌, ◌≤◌, refl, Bool, true, false, ◌&&◌, Option, some, ◌==◌, Text, text_eq, text_eq_iff,
  arith, Bool-cases, inl, inr, ◌⊎◌, ap,
}
use integration_queue.Job.State.{pending, enqueued, ◌is◌}
use integration_queue.Job.Record.{Job, Table}
use integration_queue.Job.Store.{find_row}
use integration_queue.Job.Store.Rows.{find_row-map, is_iff}
use integration_queue.Runner.Request.{
  Answer, answered, timed_out, http_error, other_failure, Update, postpones, resets, raises,
  retry_delay, is_waiting, reset_row, postpone_row, set_job_pending, set_job_pending_with_eta,
  async_http_get,
}

reset_row-uuid : (uuid : Text) (r : Job) → (reset_row uuid r).uuid ≡ r.uuid
unfolding reset_row
reset_row-uuid uuid r = elim (Bool-cases (is_waiting uuid r)) [
  | inl e ↦ rw e refl
  | inr e ↦ rw e refl
]

postpone_row-uuid : (eta : ℕ) (uuid : Text) (r : Job) → (postpone_row eta uuid r).uuid ≡ r.uuid
unfolding postpone_row
postpone_row-uuid eta uuid r = elim (Bool-cases (is_waiting uuid r)) [
  | inl e ↦ rw e refl
  | inr e ↦ rw e refl
]

retry_delay-bounds : (h : Option Text) → (1 ≤ retry_delay h) × (retry_delay h ≤ 600)
unfolding retry_delay
retry_delay-bounds h = (omega arith, omega arith)

-- The answer 429 to the request for the job of the row, which is enqueued.
pub record IsLimited (answer : Answer) (uuid : Text) (row : Job) : Type 0 where
  pub retry_after : Option Text
  pub status : answer ≡ http_error 429 retry_after
  pub same : row.uuid ≡ uuid
  pub state : row.state ≡ enqueued

-- The eta that the row gets, in one second to ten minutes, or keeps, if the row is only reset.
abbrev pub EtaAfter : Update → ℕ → Job → Job → Type 0
EtaAfter update now row row' =
    ((update ≡ postpones)
      × ((delay : ℕ) × (1 ≤ delay) × (delay ≤ 600) × (row'.eta ≡ some (now + delay))))
    ⊎ ((update ≡ resets) × (row'.eta ≡ row.eta))

abbrev pub RequestEnds : Answer → Update → ℕ → Text → Job → Job → Type 0
RequestEnds answer update now uuid row row' =
    ((IsLimited answer uuid row → ⊥) × (row' ≡ row))
    ⊎ (IsLimited answer uuid row × (row'.state ≡ pending) × EtaAfter update now row row')
    ⊎ (IsLimited answer uuid row × (update ≡ raises) × (row' ≡ row))

and_parts : (a b : Bool) → (a && b) ≡ true → (a ≡ true) × (b ≡ true)
and_parts a b h = ground arith

and_false : (a b : Bool) → (a && b) ≡ false → a ≡ true → b ≡ true → ⊥
and_false a b h p q = ground arith

waiting-IsLimited :
    (h : Option Text) (uuid : Text) (row : Job)
    → is_waiting uuid row ≡ true
    → IsLimited (http_error 429 h) uuid row
waiting-IsLimited h uuid row e =
    let (same, state) = and_parts (text_eq row.uuid uuid) (row.state is enqueued) e in
    record {
      retry_after = h;
      status = refl;
      same = (text_eq_iff row.uuid uuid).0 same;
      state = is_iff row.state enqueued state;
    }

IsLimited-waiting :
    {answer : Answer} (uuid : Text) (row : Job)
    → IsLimited answer uuid row
    → is_waiting uuid row ≡ false
    → ⊥
IsLimited-waiting uuid row l e =
    and_false (text_eq row.uuid uuid) (row.state is enqueued) e
      ((text_eq_iff row.uuid uuid).1 l.same) (ap (λ s. s is enqueued) l.state)

reset_row-ends :
    (h : Option Text) (now : ℕ) (uuid : Text) (row : Job)
    → RequestEnds (http_error 429 h) resets now uuid row (reset_row uuid row)
unfolding reset_row
reset_row-ends h now uuid row = elim (Bool-cases (is_waiting uuid row)) [
  | inl e ↦ rw e (inr (inl (waiting-IsLimited h uuid row e, refl, inr (refl, refl))))
  | inr e ↦ rw e (inl (λ l. IsLimited-waiting uuid row l e, refl))
]

postpone_row-ends :
    (h : Option Text) (now : ℕ) (uuid : Text) (row : Job)
    → RequestEnds
        (http_error 429 h)
        postpones
        now
        uuid
        row
        (postpone_row (now + retry_delay h) uuid row)
unfolding postpone_row
postpone_row-ends h now uuid row = elim (Bool-cases (is_waiting uuid row)) [
  | inl e ↦
      let (low, high) = retry_delay-bounds h in
      rw e (
        inr (
          inl (waiting-IsLimited h uuid row e, refl, inl (refl, (retry_delay h, low, high, refl)))))
  | inr e ↦ rw e (inl (λ l. IsLimited-waiting uuid row l e, refl))
]

status_of : Answer → ℕ
status_of (http_error status h) = status
status_of _ = 0

IsLimited-status :
    {answer : Answer} (uuid : Text) (row : Job)
    → IsLimited answer uuid row
    → (status_of answer == 429) ≡ true
unfolding status_of
IsLimited-status uuid row l = ap (λ a. status_of a == 429) l.status

equal_status : {n : ℕ} → (n == 429) ≡ true → n ≡ 429
equal_status h = ground arith

true-ne-false : {b : Bool} → b ≡ true → b ≡ false → ⊥
true-ne-false p q = ground arith

-- The row that the request leaves.
abbrev pub RequestLeaves : Answer → Update → ℕ → Text → Text → Job → Table → Type 0
RequestLeaves answer update now uuid u row after =
    (row' : Job) × (find_row u after ≡ some row') × RequestEnds answer update now uuid row row'

limited-RequestLeaves :
    (h : Option Text) (update : Update) (now : ℕ) (uuid u : Text) (table : Table) (row : Job)
    → find_row u table ≡ some row
    → RequestLeaves
        (http_error 429 h)
        update
        now
        uuid
        u
        row
        (set_job_pending_with_eta update now (retry_delay h) uuid table)
unfolding set_job_pending_with_eta set_job_pending
limited-RequestLeaves h postpones now uuid u table row f = (
  _,
  find_row-map (postpone_row (now + retry_delay h) uuid)
      (postpone_row-uuid (now + retry_delay h) uuid) u table f,
  postpone_row-ends h now uuid row,
)
limited-RequestLeaves h raises now uuid u table row f = (
  row,
  f,
  elim (Bool-cases (is_waiting uuid row)) [
    | inl e ↦ inr (inr (waiting-IsLimited h uuid row e, refl, refl))
    | inr e ↦ inl (λ l. IsLimited-waiting uuid row l e, refl)
  ],
)
limited-RequestLeaves h resets now uuid u table row f = (
  _,
  find_row-map (reset_row uuid) (reset_row-uuid uuid) u table f,
  reset_row-ends h now uuid row,
)

-- The row of the job of a request becomes pending if it is enqueued and the answer is 429, with an eta
-- in one second to ten minutes, or with the eta it has if the statement for that raises, and stays as
-- it is if no update is made, since no connection is; any other row, and any row on another answer,
-- stays as it is.
pub async_http_get-RequestLeaves :
    (answer : Answer) (update : Update) (now : ℕ) (uuid u : Text) (table : Table) {row : Job}
    → find_row u table ≡ some row
    → RequestLeaves answer update now uuid u row (async_http_get answer update now uuid table)
unfolding async_http_get status_of
async_http_get-RequestLeaves answered update now uuid u table {row} f =
    (row, f, inl (λ l. true-ne-false (IsLimited-status uuid row l) refl, refl))
async_http_get-RequestLeaves timed_out update now uuid u table {row} f =
    (row, f, inl (λ l. true-ne-false (IsLimited-status uuid row l) refl, refl))
async_http_get-RequestLeaves other_failure update now uuid u table {row} f =
    (row, f, inl (λ l. true-ne-false (IsLimited-status uuid row l) refl, refl))
async_http_get-RequestLeaves (http_error status h) update now uuid u table {row} f =
    elim (Bool-cases (status == 429)) [
      | inl limited ↦
          rw (equal_status limited) (limited-RequestLeaves h update now uuid u table row f)
      | inr other ↦
          rw other (row, f, inl (λ l. true-ne-false (IsLimited-status uuid row l) other, refl))
    ]
