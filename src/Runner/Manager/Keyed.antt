-- ===== src/Runner/Manager/Keyed.antt =====
-- The dictionary `_jobs_by_uuid` of the channel manager.
use integration_queue.Prelude.{
  ℕ, ◌≡◌, ◌<◌, refl, sym, ap, ◌∙◌, Bool, true, false, ◌||◌, List, [], ◌∷◌, none, some,
  if◌then◌else◌, Text, text_eq, text_eq_iff, text_eq-flip, arith, Bool-cases, inl, inr,
}
use integration_queue.Runner.ChannelJob.{Jobs}
use integration_queue.Runner.Manager.{Manager, find_job, delete_job}

-- Each key is the uuid of its job, whose identity has been given out.
abbrev pub KeysMatch : Jobs → ℕ → List (Text × ℕ) → Type 0
KeysMatch jobs fresh [] = Unit {0}
KeysMatch jobs fresh ((u, o) ∷ es) = ((jobs o).uuid ≡ u) × (o < fresh) × KeysMatch jobs fresh es

abbrev pub has_entry : Text → List (Text × ℕ) → Bool
has_entry u [] = false
has_entry u ((v, o) ∷ es) = text_eq v u || has_entry u es

abbrev pub DistinctKeys : List (Text × ℕ) → Type 0
DistinctKeys [] = Unit {0}
DistinctKeys ((u, o) ∷ es) = (has_entry u es ≡ false) × DistinctKeys es

pub record IsKeyed (m : Manager) : Type 0 where
  pub keys_match : KeysMatch m.jobs m.fresh m.jobs_by_uuid
  pub keys_distinct : DistinctKeys m.jobs_by_uuid

find_job-here :
    (u v : Text) (o : ℕ) (es : List (Text × ℕ))
    → text_eq v u ≡ true
    → find_job u ((v, o) ∷ es) ≡ some o
unfolding find_job
find_job-here u v o es e = rw e refl

find_job-there :
    (u v : Text) (o : ℕ) (es : List (Text × ℕ))
    → text_eq v u ≡ false
    → find_job u ((v, o) ∷ es) ≡ find_job u es
unfolding find_job
find_job-there u v o es e = rw e refl

-- The entries without a key.
pub find_job-delete_job :
    (u w : Text) (es : List (Text × ℕ))
    → find_job u (delete_job w es) ≡ (if text_eq w u then none else find_job u es)
unfolding find_job delete_job
find_job-delete_job u w [] = elim (Bool-cases (text_eq w u)) [
  | inl e ↦ rw e refl
  | inr e ↦ rw e refl
]
find_job-delete_job u w ((v, o) ∷ es) = elim (Bool-cases (text_eq v w)) [
  | inl same ↦
      let v_w = (text_eq_iff v w).0 same in
      rw (same, delete_job)
        (elim (Bool-cases (text_eq w u)) [
          | inl e ↦ find_job-delete_job u w es ∙ rw e refl
          | inr e ↦
              find_job-delete_job u w es
              ∙ rw e (sym (find_job-there u v o es (ap (λ x. text_eq x u) v_w ∙ e)))
        ])
  | inr other ↦
      rw (other, delete_job)
        (elim (Bool-cases (text_eq v u)) [
          | inl e ↦
              find_job-here u v o (delete_job w es) e
              ∙ rw (text_eq-flip u w (sym (ap (λ x. text_eq x w) ((text_eq_iff v u).0 e)) ∙ other))
                  (sym (find_job-here u v o es e))
          | inr e ↦
              find_job-there u v o (delete_job w es) e
              ∙ find_job-delete_job u w es
              ∙ ap (λ x. if text_eq w u then none else x) (sym (find_job-there u v o es e))
        ])
]

has_entry-delete_job :
    (u w : Text) (es : List (Text × ℕ))
    → has_entry u es ≡ false
    → has_entry u (delete_job w es) ≡ false
unfolding delete_job
has_entry-delete_job u w [] h = refl
has_entry-delete_job u w ((v, o) ∷ es) h = ground (arith, has_entry-delete_job u w es)

pub delete_job-DistinctKeys :
    (w : Text) (es : List (Text × ℕ)) → DistinctKeys es → DistinctKeys (delete_job w es)
unfolding delete_job
delete_job-DistinctKeys w [] d = tt
delete_job-DistinctKeys w ((v, o) ∷ es) (out, d) = elim (Bool-cases (text_eq v w)) [
  | inl e ↦ rw (e, delete_job) (delete_job-DistinctKeys w es d)
  | inr e ↦ rw (e, delete_job) (has_entry-delete_job v w es out, delete_job-DistinctKeys w es d)
]

pub delete_job-KeysMatch :
    (w : Text) (jobs : Jobs) (fresh : ℕ) (es : List (Text × ℕ))
    → KeysMatch jobs fresh es
    → KeysMatch jobs fresh (delete_job w es)
unfolding delete_job
delete_job-KeysMatch w jobs fresh [] k = tt
delete_job-KeysMatch w jobs fresh ((v, o) ∷ es) (e, l, k) = elim (Bool-cases (text_eq v w)) [
  | inl same ↦ rw (same, delete_job) (delete_job-KeysMatch w jobs fresh es k)
  | inr other ↦ rw (other, delete_job) (e, l, delete_job-KeysMatch w jobs fresh es k)
]

pub has_entry-find_job :
    (u : Text) (es : List (Text × ℕ)) → find_job u es ≡ none → has_entry u es ≡ false
unfolding find_job
has_entry-find_job u [] h = refl
has_entry-find_job u ((v, o) ∷ es) h = ground (arith, has_entry-find_job u es)

pub find_job-has_entry :
    (u : Text) (es : List (Text × ℕ)) → has_entry u es ≡ false → find_job u es ≡ none
unfolding find_job
find_job-has_entry u [] h = refl
find_job-has_entry u ((v, o) ∷ es) h = ground (arith, find_job-has_entry u es)
