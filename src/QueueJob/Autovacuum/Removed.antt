-- ===== src/QueueJob/Autovacuum/Removed.antt =====
-- What `autovacuum` leaves in the table.
use integration_queue.Prelude.{
  ◌*◌, ◌+◌, ◌⊎◌, ◌↔◌, leb→le, text_eq, text_eq_iff, ℕ, zero, suc, Option, none, ◌&&◌, sym, ◌≡◌, ◌≤◌,
  ◌<◌, refl, ap, ◌∙◌, Bool, true, false, not, ◌||◌, List, [], ◌∷◌, some, if◌then◌else◌, length,
  arith, Bool-cases, inl, inr,
}
use integration_queue.Job.Record.{Job, Table}
use integration_queue.QueueJob.{filter}
use integration_queue.QueueJob.Autovacuum.{
  is_past, ChannelRecord, is_expired, any_expired, unlink_found, search_limit, vacuum_loop,
  autovacuum,
}

-- The row is expired for one of the channels.
abbrev pub expired_in : ℕ → List ChannelRecord → Job → Bool
expired_in now [] job = false
expired_in now (channel ∷ channels) job = is_expired now channel job || expired_in now channels job

filter-cons :
    (test : Job → Bool) (row : Job) (rows : Table)
    → filter test (row ∷ rows) ≡ (if test row then row ∷ filter test rows else filter test rows)
unfolding filter
filter-cons test row rows = refl

module _ (test : Job → Bool) where
  abbrev keeps : Job → Bool
  keeps row = not (test row)

  -- A search with a limit finds some of the expired rows.
  filter-unlink_found :
      (n : ℕ) (rows : Table) → filter keeps (unlink_found test n rows) ≡ filter keeps rows
  unfolding filter unlink_found
  filter-unlink_found zero rows = refl
  filter-unlink_found (suc n) [] = refl
  filter-unlink_found (suc n) (row ∷ rows) = elim (Bool-cases (test row)) [
    | inl e ↦ rw (e, unlink_found, filter) (filter-unlink_found n rows)
    | inr e ↦
        rw (e, unlink_found, filter) (rw e (ap (λ t. row ∷ t) (filter-unlink_found (suc n) rows)))
  ]

  length-unlink_found-le : (n : ℕ) (rows : Table) → length (unlink_found test n rows) ≤ length rows
  unfolding unlink_found
  length-unlink_found-le zero rows = omega arith
  length-unlink_found-le (suc n) [] = omega arith
  length-unlink_found-le (suc n) (row ∷ rows) = elim (Bool-cases (test row)) [
    | inl e ↦ rw (e, unlink_found) (omega (arith, length-unlink_found-le n rows))
    | inr e ↦ rw (e, unlink_found) (omega (arith, length-unlink_found-le (suc n) rows))
  ]

  length-unlink_found :
      (n : ℕ) (rows : Table)
      → any_expired test rows ≡ true
      → length (unlink_found test (suc n) rows) < length rows
  unfolding unlink_found any_expired
  length-unlink_found n [] h = absurd (ground arith)
  length-unlink_found n (row ∷ rows) h = elim (Bool-cases (test row)) [
    | inl e ↦ rw (e, unlink_found) (omega (arith, length-unlink_found-le n rows))
    | inr e ↦
        let more : any_expired test rows ≡ true = ground (arith, h, e) in
        rw (e, unlink_found) (omega (arith, length-unlink_found n rows more))
  ]

  none_expired : (rows : Table) → any_expired test rows ≡ false → rows ≡ filter keeps rows
  unfolding filter any_expired
  none_expired [] h = refl
  none_expired (row ∷ rows) h =
      let kept : test row ≡ false = ground (arith, h) in
      let rest : any_expired test rows ≡ false = ground (arith, h) in
      ap (λ t. row ∷ t) (none_expired rows rest) ∙ rw (kept, filter) refl

  vacuum_loop-filter :
      (fuel : ℕ) (rows : Table)
      → length rows < fuel
      → vacuum_loop test fuel rows ≡ some (filter keeps rows)
  unfolding vacuum_loop
  vacuum_loop-filter zero rows l = absurd (omega arith)
  vacuum_loop-filter (suc fuel) rows l = elim (Bool-cases (any_expired test rows)) [
    | inl e ↦
        let fewer = length-unlink_found 999 rows e in
        rw (e, vacuum_loop)
          (vacuum_loop-filter fuel (unlink_found test search_limit rows) (omega (arith, fewer))
            ∙ ap some (filter-unlink_found search_limit rows))
    | inr e ↦ rw (e, vacuum_loop) (ap some (none_expired rows e))
  ]

filter-filter :
    (p q : Job → Bool) (rows : Table)
    → filter (λ row. not (q row)) (filter (λ row. not (p row)) rows)
      ≡ filter (λ row. not (p row || q row)) rows
unfolding filter
filter-filter p q [] = refl
filter-filter p q (row ∷ rows) = elim (Bool-cases (p row)) [
  | inl e ↦ rw (e, filter) (filter-filter p q rows)
  | inr e ↦ elim (Bool-cases (q row)) [
    | inl e' ↦ rw (e, e', filter) (filter-filter p q rows)
    | inr e' ↦ rw (e, e', filter) (ap (λ t. row ∷ t) (filter-filter p q rows))
  ]
]

filter-all : (rows : Table) → rows ≡ filter (λ row. true) rows
unfolding filter
filter-all [] = refl
filter-all (row ∷ rows) = ap (λ t. row ∷ t) (filter-all rows)

autovacuum-filter :
    (now : ℕ) (channels : List ChannelRecord) (table : Table)
    → autovacuum now channels table ≡ some (filter (λ row. not (expired_in now channels row)) table)
unfolding autovacuum
autovacuum-filter now [] table = ap some (filter-all table)
autovacuum-filter now (channel ∷ channels) table =
    rw
      (
        vacuum_loop-filter (is_expired now channel) (suc (length table)) table (omega arith),
        autovacuum,
      )
      (autovacuum-filter now channels (filter (λ row. not (is_expired now channel row)) table)
        ∙ ap some (filter-filter (is_expired now channel) (expired_in now channels) table))

-- The channel is one of the records.
abbrev pub IsOneOf : ChannelRecord → List ChannelRecord → Type 0
IsOneOf channel [] = ⊥
IsOneOf channel (c ∷ cs) = (channel ≡ c) ⊎ IsOneOf channel cs

-- The job was done or cancelled at a time from which the removal interval of a channel with its
-- channel's name has run out.
pub record IsOverdue (now : ℕ) (channels : List ChannelRecord) (row : Job) : Type 0 where
  pub channel : ChannelRecord
  pub is_known : IsOneOf channel channels
  pub same_name : row.channel ≡ channel.complete_name
  pub ended : ℕ
  pub has_ended : (row.date_done ≡ some ended) ⊎ (row.date_cancelled ≡ some ended)
  pub run_out : ended + channel.removal_interval * 86400 ≤ now

past_date :
    (now days : ℕ) (date : Option ℕ)
    → is_past now days date ≡ true
    → (d : ℕ) × (date ≡ some d) × (d + days * 86400 ≤ now)
unfolding is_past
past_date now days none h = absurd (ground arith)
past_date now days (some d) h = (d, refl, leb→le (d + days * 86400) now h)

date_past :
    (now days d : ℕ) (date : Option ℕ)
    → date ≡ some d
    → d + days * 86400 ≤ now
    → is_past now days date ≡ true
unfolding is_past
date_past now days d date e l = rw e (ground (arith, l))

either_true : (a b c : Bool) → ((a || b) && c) ≡ true → ((a ≡ true) ⊎ (b ≡ true)) × (c ≡ true)
either_true a b c h = (ground arith, ground arith)

expired-IsOverdue :
    (now : ℕ) (channel : ChannelRecord) (channels : List ChannelRecord) (row : Job)
    → IsOneOf channel channels
    → is_expired now channel row ≡ true
    → IsOverdue now channels row
unfolding is_expired
expired-IsOverdue now channel channels row known h =
    let days = channel.removal_interval in
    let (end, name) =
      either_true (is_past now days row.date_done) (is_past now days row.date_cancelled)
        (text_eq row.channel channel.complete_name) h in
    let same = (text_eq_iff row.channel channel.complete_name).0 name in
    elim end [
      | inl e ↦
          let (d, is_d, l) = past_date now days row.date_done e in
          record {
            channel = channel;
            is_known = known;
            same_name = same;
            ended = d;
            has_ended = inl is_d;
            run_out = l;
          }
      | inr e ↦
          let (d, is_d, l) = past_date now days row.date_cancelled e in
          record {
            channel = channel;
            is_known = known;
            same_name = same;
            ended = d;
            has_ended = inr is_d;
            run_out = l;
          }
    ]

expired_in-IsOverdue :
    (now : ℕ) (all channels : List ChannelRecord) (row : Job)
    → ((c : ChannelRecord) → IsOneOf c channels → IsOneOf c all)
    → expired_in now channels row ≡ true
    → IsOverdue now all row
expired_in-IsOverdue now all [] row sub h = absurd (ground arith)
expired_in-IsOverdue now all (c ∷ cs) row sub h = elim (Bool-cases (is_expired now c row)) [
  | inl e ↦ expired-IsOverdue now c all row (sub c (inl refl)) e
  | inr e ↦ expired_in-IsOverdue now all cs row (λ d k. sub d (inr k)) (ground arith)
]

IsOneOf-expired_in :
    (now : ℕ) (channel : ChannelRecord) (channels : List ChannelRecord) (row : Job)
    → IsOneOf channel channels
    → is_expired now channel row ≡ true
    → expired_in now channels row ≡ true
IsOneOf-expired_in now channel [] row known h = absurd known
IsOneOf-expired_in now channel (c ∷ cs) row (inl e) h =
    let here : is_expired now c row ≡ true = ap (λ d. is_expired now d row) (sym e) ∙ h in
    ground arith
IsOneOf-expired_in now channel (c ∷ cs) row (inr k) h =
    let there = IsOneOf-expired_in now channel cs row k h in ground arith

both_true : (a b c : Bool) → (a ≡ true) ⊎ (b ≡ true) → c ≡ true → ((a || b) && c) ≡ true
both_true a b c h k = ground arith

IsOverdue-expired_in :
    (now : ℕ) (channels : List ChannelRecord) (row : Job)
    → IsOverdue now channels row
    → expired_in now channels row ≡ true
unfolding is_expired
IsOverdue-expired_in now channels row o =
    let days = o.channel.removal_interval in
    IsOneOf-expired_in now o.channel channels row o.is_known (
      both_true (is_past now days row.date_done) (is_past now days row.date_cancelled)
        (text_eq row.channel o.channel.complete_name)
        (elim o.has_ended [
          | inl e ↦ inl (date_past now days o.ended row.date_done e o.run_out)
          | inr e ↦ inr (date_past now days o.ended row.date_cancelled e o.run_out)
        ])
        ((text_eq_iff row.channel o.channel.complete_name).1 o.same_name))

kept_or_not : (b : Bool) → (not b ≡ false) → b ≡ true
kept_or_not b h = ground arith

-- `autovacuum` ends, and leaves the rows of the table in their order without just those whose job was
-- done or cancelled so long ago that the removal interval of a channel with its channel's name has run
-- out.
pub autovacuum-IsOverdue :
    (now : ℕ) (channels : List ChannelRecord) (table : Table)
    → (keeps : Job → Bool) × (autovacuum now channels table ≡ some (filter keeps table))
      × ((row : Job) → (keeps row ≡ false) ↔ IsOverdue now channels row)
autovacuum-IsOverdue now channels table = (
  λ row. not (expired_in now channels row),
  autovacuum-filter now channels table,
  λ row. (
    λ h.
        expired_in-IsOverdue now channels channels row (λ c k. k)
          (kept_or_not (expired_in now channels row) h),
    λ o. ap not (IsOverdue-expired_in now channels row o),
  ),
)
