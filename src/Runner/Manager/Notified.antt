-- ===== src/Runner/Manager/Notified.antt =====
-- The dictionary of jobs after `notify`.
use integration_queue.Prelude.{
  ℕ, suc, ◌≡◌, ◌<◌, ◌⊎◌, refl, sym, ap, ◌∙◌, subst, true, false, not, List, [], ◌∷◌, none, some,
  Option, ◌==◌, Text, text_eq, text_eq_iff, text_eq_self, arith, Bool-cases, Option-cases, inl, inr,
}
use integration_queue.Job.State.{
  State, wait_dependencies, pending, enqueued, cancelled, done, started, failed,
}
use integration_queue.Runner.Errors.{Error, Result, ok, err}
use integration_queue.Runner.ChannelJob.{Jobs}
use integration_queue.Runner.ChannelTree.{ChannelPath, path_eq, get_channel_by_name}
use integration_queue.Runner.Channel.{Tree}
use integration_queue.Runner.Manager.{
  Manager, Row, find_job, remove_object, remove_job, has_changed, new_job, get_job, apply_state,
  notify,
}
use integration_queue.Runner.Manager.Keyed.{
  KeysMatch, IsKeyed, find_job-delete_job, delete_job-DistinctKeys, delete_job-KeysMatch,
  has_entry-find_job,
}

-- A job object made after the others leaves theirs as they are.
KeysMatch-new :
    (jobs jobs' : Jobs) (fresh : ℕ) (es : List (Text × ℕ))
    → ((a : ℕ) → a < fresh → (jobs' a).uuid ≡ (jobs a).uuid)
    → KeysMatch jobs fresh es
    → KeysMatch jobs' (suc fresh) es
KeysMatch-new jobs jobs' fresh [] same k = tt
KeysMatch-new jobs jobs' fresh ((v, o) ∷ es) same (e, l, k) =
    (same o l ∙ e, omega arith, KeysMatch-new jobs jobs' fresh es same k)

other_object : (fresh a : ℕ) → a < fresh → fresh == a ≡ false
other_object fresh a l = ground arith

self_test : (n : ℕ) → n == n ≡ true
self_test n = ground arith

new_job-IsKeyed :
    (p : ChannelPath) (row : Row) (m : Manager)
    → IsKeyed m
    → find_job row.uuid m.jobs_by_uuid ≡ none
    → IsKeyed (new_job p row m).1
unfolding new_job
new_job-IsKeyed p row m k n = record {
  keys_match = (
    rw (self_test m.fresh) refl,
    omega arith,
    KeysMatch-new m.jobs (new_job p row m).1.jobs m.fresh m.jobs_by_uuid
        (λ a l. rw (other_object m.fresh a l) refl) k.keys_match,
  );
  keys_distinct = (has_entry-find_job row.uuid m.jobs_by_uuid n, k.keys_distinct);
}

find_job-KeysMatch :
    (u : Text) (jobs : Jobs) (fresh : ℕ) (es : List (Text × ℕ)) {o : ℕ}
    → KeysMatch jobs fresh es
    → find_job u es ≡ some o
    → (jobs o).uuid ≡ u
unfolding find_job
find_job-KeysMatch u jobs fresh [] k h = ground arith
find_job-KeysMatch u jobs fresh ((v, p) ∷ es) {o} (e, l, k) h = elim (Bool-cases (text_eq v u)) [
  | inl same ↦
      let p_o : p ≡ o = ground (arith, same, h) in
      ap (λ a. (jobs a).uuid) (sym p_o) ∙ e ∙ (text_eq_iff v u).0 same
  | inr other ↦ find_job-KeysMatch u jobs fresh es k (ground (arith, other, h))
]

pub remove_job-IsKeyed :
    (u : Text) (m : Manager)
    → IsKeyed m
    → IsKeyed (remove_job u m) × (find_job u (remove_job u m).jobs_by_uuid ≡ none)
unfolding remove_job remove_object
remove_job-IsKeyed u m k = elim (Option-cases (find_job u m.jobs_by_uuid)) [
  | inl n ↦ rw (n, remove_job) (k, n)
  | inr (o, f) ↦
      rw (f, remove_job)
        (
          record {
            keys_match =
                delete_job-KeysMatch (m.jobs o).uuid m.jobs m.fresh m.jobs_by_uuid k.keys_match;
            keys_distinct = delete_job-DistinctKeys (m.jobs o).uuid m.jobs_by_uuid k.keys_distinct;
          },
          find_job-delete_job u (m.jobs o).uuid m.jobs_by_uuid
              ∙ rw
                  (
                    find_job-KeysMatch u m.jobs m.fresh m.jobs_by_uuid k.keys_match f,
                    text_eq_self u,
                  )
                  refl,
        )
]

path_eq-same : (p q : ChannelPath) → path_eq p q ≡ true → p ≡ q
unfolding path_eq
path_eq-same [] [] h = refl
path_eq-same [] (y ∷ q) h = absurd (ground arith)
path_eq-same (x ∷ p) [] h = absurd (ground arith)
path_eq-same (x ∷ p) (y ∷ q) h =
    let heads = (text_eq_iff x y).0 (ground arith) in
    let tails = path_eq-same p q (ground arith) in ap (λ z. z ∷ p) heads ∙ ap (λ r. y ∷ r) tails

-- The job object of a row, which has what decides the order of the jobs from the row.
pub record IsOf (row : Row) (p : ChannelPath) (m : Manager) (o : ℕ) : Type 0 where
  pub is_found : find_job row.uuid m.jobs_by_uuid ≡ some o
  pub same_db : (m.jobs o).db_name ≡ row.db_name
  pub same_channel : (m.jobs o).channel ≡ p
  pub same_seq : (m.jobs o).seq ≡ row.seq
  pub same_date : (m.jobs o).date_created ≡ row.date_created
  pub same_priority : (m.jobs o).priority ≡ row.priority
  pub same_eta : (m.jobs o).eta ≡ row.eta

new_job-IsOf :
    (p : ChannelPath) (row : Row) (m : Manager) → IsOf row p (new_job p row m).1 (new_job p row m).0
unfolding new_job find_job
new_job-IsOf p row m = record {
  is_found = rw (text_eq_self row.uuid) refl;
  same_db = rw (self_test m.fresh) refl;
  same_channel = rw (self_test m.fresh) refl;
  same_seq = rw (self_test m.fresh) refl;
  same_date = rw (self_test m.fresh) refl;
  same_priority = rw (self_test m.fresh) refl;
  same_eta = rw (self_test m.fresh) refl;
}

unchanged-IsOf :
    (p : ChannelPath) (row : Row) (m : Manager) (o : ℕ)
    → find_job row.uuid m.jobs_by_uuid ≡ some o
    → not (text_eq (m.jobs o).db_name row.db_name) ≡ false
    → not ((m.jobs o).date_created == row.date_created) ≡ false
    → has_changed (m.jobs o) p row ≡ false
    → IsOf row p m o
unfolding has_changed
unchanged-IsOf p row m o f db date same = record {
  is_found = f;
  same_db = (text_eq_iff (m.jobs o).db_name row.db_name).0 (ground (arith, db));
  same_channel = sym (path_eq-same p (m.jobs o).channel (ground (arith, same)));
  same_seq = ground (arith, same);
  same_date = ground (arith, date);
  same_priority = ground (arith, same);
  same_eta = ground (arith, same);
}

-- The object that has the uuid is of another database, or of another date.
pub record Conflicts (row : Row) (m : Manager) : Type 0 where
  pub holder : ℕ
  pub is_held : find_job row.uuid m.jobs_by_uuid ≡ some holder
  pub differs :
      (text_eq (m.jobs holder).db_name row.db_name ≡ false)
      ⊎ ((m.jobs holder).date_created == row.date_created ≡ false)

-- How `get_job` ends.
abbrev Got : ChannelPath → Row → Manager → Result (ℕ × Manager) → Type 0
Got p row m (ok (o, after)) = IsKeyed after × IsOf row p after o
Got p row m (err e) = Conflicts row m

get_job-Got :
    (p : ChannelPath) (row : Row) (m : Manager) → IsKeyed m → Got p row m (get_job p row m)
unfolding get_job
get_job-Got p row m k = elim (Option-cases (find_job row.uuid m.jobs_by_uuid)) [
  | inl n ↦ rw (n, get_job) (new_job-IsKeyed p row m k n, new_job-IsOf p row m)
  | inr (o, f) ↦ elim (Bool-cases (not (text_eq (m.jobs o).db_name row.db_name))) [
    | inl db ↦
        rw (f, db, get_job) (record { holder = o; is_held = f; differs = inl (ground (arith, db)) })
    | inr db ↦ elim (Bool-cases (not ((m.jobs o).date_created == row.date_created))) [
      | inl date ↦
          rw (f, db, date, get_job)
            (record { holder = o; is_held = f; differs = inr (ground (arith, date)) })
      | inr date ↦ elim (Bool-cases (has_changed (m.jobs o) p row)) [
        | inl changed ↦
            let (keyed, gone) = remove_job-IsKeyed row.uuid m k in
            rw (f, db, date, changed, get_job)
              (
                new_job-IsKeyed p row (remove_job row.uuid m) keyed gone,
                new_job-IsOf p row (remove_job row.uuid m),
              )
        | inr same ↦ rw (f, db, date, same, get_job) (k, unchanged-IsOf p row m o f db date same)
      ]
    ]
  ]
]

-- The row's uuid has its object, if the state keeps it in the queue, the running or the failed jobs of
-- its channel; in another state no channel holds it, and the weak dictionary may not either.
abbrev pub HasObject : Option State → Row → ChannelPath → Manager → Type 0
HasObject (some pending) row p after = (o : ℕ) × IsOf row p after o
HasObject (some enqueued) row p after = (o : ℕ) × IsOf row p after o
HasObject (some started) row p after = (o : ℕ) × IsOf row p after o
HasObject (some failed) row p after = (o : ℕ) × IsOf row p after o
HasObject (some done) row p after = Unit {0}
HasObject (some cancelled) row p after = Unit {0}
HasObject (some wait_dependencies) row p after = Unit {0}
HasObject none row p after = Unit {0}

IsOf-HasObject :
    (state : Option State) (row : Row) (p : ChannelPath) (after : Manager) (o : ℕ)
    → IsOf row p after o
    → HasObject state row p after
IsOf-HasObject (some pending) row p after o i = (o, i)
IsOf-HasObject (some enqueued) row p after o i = (o, i)
IsOf-HasObject (some started) row p after o i = (o, i)
IsOf-HasObject (some failed) row p after o i = (o, i)
IsOf-HasObject (some done) row p after o i = tt
IsOf-HasObject (some cancelled) row p after o i = tt
IsOf-HasObject (some wait_dependencies) row p after o i = tt
IsOf-HasObject none row p after o i = tt

-- How `notify` ends; `p` is the channel that the row's channel name stands for.
abbrev pub Notified : Row → Manager → Result Manager → Type 0
Notified row m (ok after) =
    IsKeyed after
    × ((p : ChannelPath) × (t : Tree) × (get_channel_by_name false true row.channel_name
            m.root_channel
          ≡ ok (p, t))
        × HasObject row.state row p after)
Notified row m (err e) =
    (get_channel_by_name false true row.channel_name m.root_channel ≡ err e) ⊎ Conflicts row m

apply_state-IsKeyed :
    (m : Manager) (row : Row) (o : ℕ) → IsKeyed m → IsKeyed (apply_state row.state o m)
unfolding apply_state
apply_state-IsKeyed m row o k = record {
  keys_match = k.keys_match;
  keys_distinct = k.keys_distinct;
}

apply_state-IsOf :
    (p : ChannelPath) (m : Manager) (row : Row) (o : ℕ)
    → IsOf row p m o
    → IsOf row p (apply_state row.state o m) o
unfolding apply_state
apply_state-IsOf p m row o i = record {
  is_found = i.is_found;
  same_db = i.same_db;
  same_channel = i.same_channel;
  same_seq = i.same_seq;
  same_date = i.same_date;
  same_priority = i.same_priority;
  same_eta = i.same_eta;
}

pub Result-cases {ℓ} :
    {A : Type ℓ} (x : Result A) → ((a : A) × (x ≡ ok a)) ⊎ ((e : Error) × (x ≡ err e))
Result-cases (ok a) = inl (a, refl)
Result-cases (err e) = inr (e, refl)

-- A `notify` that raises finds no channel for the row, or an object with its uuid that is of another
-- database or date. One that returns leaves one entry for each uuid, and for the row's uuid,
-- if its state is pending, enqueued, started or failed, an object in the channel that the row's channel
-- name stands for, with the database, sequence, date, priority and eta of the row.
pub notify-Notified : (row : Row) (m : Manager) → IsKeyed m → Notified row m (notify row m)
unfolding notify
notify-Notified row m k =
    let located = get_channel_by_name false true row.channel_name m.root_channel in
    elim (Result-cases located) [
      | inr (e, no_channel) ↦ rw (no_channel, notify) (inl no_channel)
      | inl ((p, t), channel) ↦
          let with_channel : Manager = record m { root_channel = t } in
          let keyed : IsKeyed with_channel = record {
            keys_match = k.keys_match;
            keys_distinct = k.keys_distinct;
          } in
          let got = get_job-Got p row with_channel keyed in
          elim (Result-cases (get_job p row with_channel)) [
            | inr (e, conflict) ↦
                let c : Conflicts row with_channel = subst (Got p row with_channel) conflict got in
                rw (channel, conflict, notify)
                  (inr (record { holder = c.holder; is_held = c.is_held; differs = c.differs }))
            | inl ((o, after), job) ↦
                let (still, is_of) = subst (Got p row with_channel) job got in
                rw (channel, job, notify)
                  (
                    apply_state-IsKeyed after row o still,
                    (
                      p,
                      t,
                      channel,
                      IsOf-HasObject row.state row p (apply_state row.state o after) o
                          (apply_state-IsOf p after row o is_of),
                    ),
                  )
          ]
    ]
