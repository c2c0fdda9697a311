-- ===== src/Runner/Manager/Removal.antt =====
-- What `remove_db` leaves of the dictionary of jobs.
use integration_queue.Prelude.{
  ℕ, ◌≡◌, refl, sym, ap, ◌∙◌, Bool, true, false, ◌&&◌, ◌||◌, List, [], ◌∷◌, Option, none, some,
  if◌then◌else◌, Text, text_eq, text_eq_iff, arith, Bool-cases, inl, inr,
}
use integration_queue.Runner.ChannelJob.{Jobs}
use integration_queue.Runner.Manager.{
  Manager, find_job, delete_job, remove_object, remove_db_from, remove_db,
}
use integration_queue.Runner.Manager.Keyed.{
  KeysMatch, DistinctKeys, has_entry, IsKeyed, find_job-delete_job, delete_job-DistinctKeys,
  delete_job-KeysMatch,
}

-- The entry of `o` in the dictionary is taken out.
abbrev drop_entry : ℕ → Manager → Manager
drop_entry o m = record (remove_object o m) {
  jobs_by_uuid = delete_job (m.jobs o).uuid m.jobs_by_uuid;
}

-- The found job, unless it is of the database.
abbrev pub of_other_db : Jobs → Text → Option ℕ → Option ℕ
of_other_db jobs name none = none
of_other_db jobs name (some o) = if text_eq (jobs o).db_name name then none else some o

-- One of the entries has this key and a job of the database.
abbrev is_dropped : Jobs → Text → Text → List (Text × ℕ) → Bool
is_dropped jobs name u [] = false
is_dropped jobs name u ((v, o) ∷ es) =
    (text_eq v u && text_eq (jobs o).db_name name) || is_dropped jobs name u es

find_job_without :
    (es : List (Text × ℕ)) {w v : Text}
    → w ≡ v
    → (u : Text) → find_job u (delete_job w es) ≡ (if text_eq v u then none else find_job u es)
find_job_without es {w} e u =
    find_job-delete_job u w es ∙ ap (λ x. if text_eq x u then none else find_job u es) e

is_dropped-has_entry :
    (jobs : Jobs) (name u : Text) (es : List (Text × ℕ))
    → has_entry u es ≡ false
    → is_dropped jobs name u es ≡ false
is_dropped-has_entry jobs name u [] h = refl
is_dropped-has_entry jobs name u ((v, o) ∷ es) h =
    ground (arith, is_dropped-has_entry jobs name u es)

-- Each key has one entry, so what is dropped is the job that is found.
is_dropped-of_other_db :
    (jobs : Jobs) (name u : Text) (es : List (Text × ℕ))
    → DistinctKeys es
    → (if is_dropped jobs name u es then none else find_job u es)
      ≡ of_other_db jobs name (find_job u es)
unfolding find_job
is_dropped-of_other_db jobs name u [] d = refl
is_dropped-of_other_db jobs name u ((v, o) ∷ es) (out, d) = elim (Bool-cases (text_eq v u)) [
  | inl e ↦
      let no_more =
        is_dropped-has_entry jobs name u es
          (ap (λ x. has_entry x es) (sym ((text_eq_iff v u).0 e)) ∙ out) in
      elim (Bool-cases (text_eq (jobs o).db_name name)) [
        | inl of_db ↦ rw (e, of_db) refl
        | inr other ↦ rw (e, other, no_more) refl
      ]
  | inr e ↦ rw e (is_dropped-of_other_db jobs name u es d)
]

module _ (name : Text) where
  remove_db_from-drop :
      (u : Text) (o : ℕ) (es : List (Text × ℕ)) (m : Manager)
      → text_eq (m.jobs o).db_name name ≡ true
      → remove_db_from name ((u, o) ∷ es) m ≡ remove_db_from name es (drop_entry o m)
  unfolding remove_db_from
  remove_db_from-drop u o es m e = rw e refl

  remove_db_from-keep :
      (u : Text) (o : ℕ) (es : List (Text × ℕ)) (m : Manager)
      → text_eq (m.jobs o).db_name name ≡ false
      → remove_db_from name ((u, o) ∷ es) m ≡ remove_db_from name es m
  unfolding remove_db_from
  remove_db_from-keep u o es m e = rw e refl

  drop_entry-IsKeyed : (o : ℕ) (m : Manager) → IsKeyed m → IsKeyed (drop_entry o m)
  unfolding remove_object
  drop_entry-IsKeyed o m k = record {
    keys_match = delete_job-KeysMatch (m.jobs o).uuid m.jobs m.fresh m.jobs_by_uuid k.keys_match;
    keys_distinct = delete_job-DistinctKeys (m.jobs o).uuid m.jobs_by_uuid k.keys_distinct;
  }

  drop_entry-jobs : (o : ℕ) (m : Manager) → (drop_entry o m).jobs ≡ m.jobs
  unfolding remove_object
  drop_entry-jobs o m = refl

  drop_entry-fresh : (o : ℕ) (m : Manager) → (drop_entry o m).fresh ≡ m.fresh
  unfolding remove_object
  drop_entry-fresh o m = refl

  -- What holds of the manager after each entry is looked at.
  record Removed (es : List (Text × ℕ)) (m after : Manager) : Type 0 where
    same_jobs : after.jobs ≡ m.jobs
    still_keyed : IsKeyed after
    found :
        (u : Text)
        → find_job u after.jobs_by_uuid
          ≡ (if is_dropped m.jobs name u es then none else find_job u m.jobs_by_uuid)

  remove_db_from-Removed :
      (es : List (Text × ℕ)) (m : Manager)
      → IsKeyed m
      → KeysMatch m.jobs m.fresh es
      → Removed es m (remove_db_from name es m)
  unfolding remove_db_from remove_object
  remove_db_from-Removed [] m k h = record { same_jobs = refl; still_keyed = k; found = λ u. refl }
  remove_db_from-Removed ((v, o) ∷ es) m k (e, l, h) =
      elim (Bool-cases (text_eq (m.jobs o).db_name name)) [
        | inl of_db ↦
            let rest = remove_db_from-Removed es (drop_entry o m) (drop_entry-IsKeyed o m k) h in
            let by_key = find_job_without m.jobs_by_uuid e in
            rw (remove_db_from-drop v o es m of_db) (record {
              same_jobs = rest.same_jobs;
              still_keyed = rest.still_keyed;
              found = λ u. rest.found u ∙ ground (arith, of_db, by_key u);
            })
        | inr of_other ↦
            let rest = remove_db_from-Removed es m k h in
            rw (remove_db_from-keep v o es m of_other) (record {
              same_jobs = rest.same_jobs;
              still_keyed = rest.still_keyed;
              found = λ u. rest.found u ∙ ground (arith, of_other);
            })
      ]

-- A database's jobs, and no others, are gone from the dictionary once it is removed.
pub record WithoutDb (name : Text) (m after : Manager) : Type 0 where
  pub same_jobs : after.jobs ≡ m.jobs
  pub still_keyed : IsKeyed after
  pub found :
      (u : Text)
      → find_job u after.jobs_by_uuid ≡ of_other_db m.jobs name (find_job u m.jobs_by_uuid)

pub remove_db-WithoutDb :
    (name : Text) (m : Manager) → IsKeyed m → WithoutDb name m (remove_db name m)
unfolding remove_db
remove_db-WithoutDb name m k =
    let removed = remove_db_from-Removed name m.jobs_by_uuid m k k.keys_match in
    record {
      same_jobs = removed.same_jobs;
      still_keyed = removed.still_keyed;
      found = λ u.
          removed.found u ∙ is_dropped-of_other_db m.jobs name u m.jobs_by_uuid k.keys_distinct;
    }
