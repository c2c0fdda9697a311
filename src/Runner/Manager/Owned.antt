-- ===== src/Runner/Manager/Owned.antt =====
-- The databases of the jobs that the manager knows.
use integration_queue.Prelude.{
  ℕ, ◌≡◌, refl, ap, ◌∙◌, subst, Bool, true, false, not, List, [], ◌∷◌, ◌==◌, Text, text_eq, arith,
  Bool-cases, Option-cases, inl, inr,
}
use integration_queue.Runner.Errors.{Result, ok, err}
use integration_queue.Runner.ChannelJob.{Jobs}
use integration_queue.Runner.ChannelTree.{ChannelPath, get_channel_by_name}
use integration_queue.Runner.Channel.Kept.{get_jobs_to_run-Kept}
use integration_queue.Runner.Manager.{
  Manager, Row, find_job, delete_job, remove_object, remove_job, has_changed, new_job, get_job,
  apply_state, notify, get_jobs_to_run,
}
use integration_queue.Runner.Manager.Keyed.{KeysMatch, IsKeyed}
use integration_queue.Runner.Manager.Notified.{
  Notified, notify-Notified, remove_job-IsKeyed, Result-cases,
}

-- The job of each entry is of a database that passes the test.
abbrev pub Entries : (Text → Bool) → Jobs → List (Text × ℕ) → Type 0
Entries opens jobs [] = Unit {0}
Entries opens jobs ((u, o) ∷ es) = (opens (jobs o).db_name ≡ true) × Entries opens jobs es

-- One entry for each uuid, of a job of such a database.
pub record Owned (opens : Text → Bool) (m : Manager) : Type 0 where
  pub keyed : IsKeyed m
  pub entries : Entries opens m.jobs m.jobs_by_uuid

Entries-mono :
    (p q : Text → Bool) (jobs : Jobs) (es : List (Text × ℕ))
    → ((n : Text) → p n ≡ true → q n ≡ true)
    → Entries p jobs es
    → Entries q jobs es
Entries-mono p q jobs [] h e = tt
Entries-mono p q jobs ((u, o) ∷ es) h (e, rest) = (h _ e, Entries-mono p q jobs es h rest)

pub Owned-mono :
    (p q : Text → Bool) (m : Manager)
    → ((n : Text) → p n ≡ true → q n ≡ true)
    → Owned p m
    → Owned q m
Owned-mono p q m h o = record {
  keyed = o.keyed;
  entries = Entries-mono p q m.jobs m.jobs_by_uuid h o.entries;
}

module _ (opens : Text → Bool) where
  Entries-same :
      (jobs jobs' : Jobs) (es : List (Text × ℕ))
      → ((a : ℕ) → opens (jobs a).db_name ≡ true → opens (jobs' a).db_name ≡ true)
      → Entries opens jobs es
      → Entries opens jobs' es
  Entries-same jobs jobs' [] h e = tt
  Entries-same jobs jobs' ((u, o) ∷ es) h (e, rest) = (h o e, Entries-same jobs jobs' es h rest)

  Entries-delete_job :
      (w : Text) (jobs : Jobs) (es : List (Text × ℕ))
      → Entries opens jobs es
      → Entries opens jobs (delete_job w es)
  unfolding delete_job
  Entries-delete_job w jobs [] e = tt
  Entries-delete_job w jobs ((v, o) ∷ es) (e, rest) = elim (Bool-cases (text_eq v w)) [
    | inl same ↦ rw (same, delete_job) (Entries-delete_job w jobs es rest)
    | inr other ↦ rw (other, delete_job) (e, Entries-delete_job w jobs es rest)
  ]

  remove_job-Entries :
      (u : Text) (m : Manager)
      → Entries opens m.jobs m.jobs_by_uuid
      → Entries opens (remove_job u m).jobs (remove_job u m).jobs_by_uuid
  unfolding remove_job remove_object
  remove_job-Entries u m e = elim (Option-cases (find_job u m.jobs_by_uuid)) [
    | inl n ↦ rw (n, remove_job) e
    | inr (o, f) ↦ rw (f, remove_job) (Entries-delete_job (m.jobs o).uuid m.jobs m.jobs_by_uuid e)
  ]

  pub remove_job-Owned : (u : Text) (m : Manager) → Owned opens m → Owned opens (remove_job u m)
  remove_job-Owned u m o = record {
    keyed = (remove_job-IsKeyed u m o.keyed).0;
    entries = remove_job-Entries u m o.entries;
  }

  new_job-Entries :
      (p : ChannelPath) (row : Row) (m : Manager)
      → opens row.db_name ≡ true
      → Entries opens m.jobs m.jobs_by_uuid
      → Entries opens (new_job p row m).1.jobs (new_job p row m).1.jobs_by_uuid
  unfolding new_job
  new_job-Entries p row m is_open e = (
    elim (Bool-cases (m.fresh == m.fresh)) [
      | inl here ↦ rw here is_open
      | inr there ↦ absurd (ground (arith, there))
    ],
    Entries-same m.jobs (new_job p row m).1.jobs m.jobs_by_uuid
        (λ a h. elim (Bool-cases (m.fresh == a)) [
          | inl here ↦ rw here is_open
          | inr there ↦ rw there h
        ])
        e,
  )

  abbrev GotEntries : Result (ℕ × Manager) → Type 0
  GotEntries (ok (o, m)) = Entries opens m.jobs m.jobs_by_uuid
  GotEntries (err e) = Unit {0}

  get_job-Entries :
      (p : ChannelPath) (row : Row) (m : Manager)
      → opens row.db_name ≡ true
      → Entries opens m.jobs m.jobs_by_uuid
      → GotEntries (get_job p row m)
  unfolding get_job
  get_job-Entries p row m is_open e = elim (Option-cases (find_job row.uuid m.jobs_by_uuid)) [
    | inl n ↦ rw (n, get_job) (new_job-Entries p row m is_open e)
    | inr (o, f) ↦ elim (Bool-cases (not (text_eq (m.jobs o).db_name row.db_name))) [
      | inl db ↦ rw (f, db, get_job) tt
      | inr db ↦ elim (Bool-cases (not ((m.jobs o).date_created == row.date_created))) [
        | inl date ↦ rw (f, db, date, get_job) tt
        | inr date ↦ elim (Bool-cases (has_changed (m.jobs o) p row)) [
          | inl changed ↦
              rw (f, db, date, changed, get_job)
                (new_job-Entries p row (remove_job row.uuid m) is_open
                  (remove_job-Entries row.uuid m e))
          | inr same ↦ rw (f, db, date, same, get_job) e
        ]
      ]
    ]
  ]

  abbrev NotifyEntries : Result Manager → Type 0
  NotifyEntries (ok m) = Entries opens m.jobs m.jobs_by_uuid
  NotifyEntries (err e) = Unit {0}

  notify-Entries :
      (row : Row) (m : Manager)
      → opens row.db_name ≡ true
      → Entries opens m.jobs m.jobs_by_uuid
      → NotifyEntries (notify row m)
  unfolding notify apply_state
  notify-Entries row m is_open e =
      elim (Result-cases (get_channel_by_name false true row.channel_name m.root_channel)) [
        | inr (x, no_channel) ↦ rw (no_channel, notify) tt
        | inl ((p, t), channel) ↦
            let with_channel : Manager = record m { root_channel = t } in
            let got = get_job-Entries p row with_channel is_open e in
            elim (Result-cases (get_job p row with_channel)) [
              | inr (x, conflict) ↦ rw (channel, conflict, notify) tt
              | inl ((o, after), job) ↦ rw (channel, job, notify) (subst GotEntries job got)
            ]
      ]

  Notified-IsKeyed :
      (row : Row) (m after : Manager) → notify row m ≡ ok after → IsKeyed m → IsKeyed after
  Notified-IsKeyed row m after h k = (subst (Notified row m) h (notify-Notified row m k)).0

  pub notify-Owned :
      (row : Row) (m after : Manager)
      → opens row.db_name ≡ true
      → Owned opens m
      → notify row m ≡ ok after
      → Owned opens after
  notify-Owned row m after is_open o h = record {
    keyed = Notified-IsKeyed row m after h o.keyed;
    entries = subst NotifyEntries h (notify-Entries row m is_open o.entries);
  }

KeysMatch-same :
    (jobs jobs' : Jobs) (fresh : ℕ) (es : List (Text × ℕ))
    → ((a : ℕ) → (jobs' a).uuid ≡ (jobs a).uuid)
    → KeysMatch jobs fresh es
    → KeysMatch jobs' fresh es
KeysMatch-same jobs jobs' fresh [] same k = tt
KeysMatch-same jobs jobs' fresh ((u, o) ∷ es) same (e, l, k) =
    (same o ∙ e, l, KeysMatch-same jobs jobs' fresh es same k)

pub get_jobs_to_run-Owned :
    (opens : Text → Bool) (now : ℕ) (m : Manager)
    → Owned opens m
    → Owned opens (get_jobs_to_run now m).1
unfolding get_jobs_to_run
get_jobs_to_run-Owned opens now m o = record {
  keyed = record {
    keys_match =
        KeysMatch-same m.jobs (get_jobs_to_run now m).1.jobs m.fresh m.jobs_by_uuid
          (get_jobs_to_run-Kept (λ j. j.uuid) (λ j. refl) now m.jobs m.root_channel)
          o.keyed.keys_match;
    keys_distinct = o.keyed.keys_distinct;
  };
  entries =
      Entries-same opens m.jobs (get_jobs_to_run now m).1.jobs m.jobs_by_uuid
        (λ a h.
          ap opens (get_jobs_to_run-Kept (λ j. j.db_name) (λ j. refl) now m.jobs m.root_channel a)
          ∙ h)
        o.entries;
}
