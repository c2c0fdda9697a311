-- ===== src/Runner/ChannelQueue/Laws.antt =====
-- What holds of a channel queue between its operations: the jobs with an eta are set aside from the
-- others, in two sorted queues. Clearing an eta that has passed keeps this.
use integration_queue.Prelude.{
  ℕ, ◌≡◌, ◌<◌, Bool, true, false, List, [], ◌∷◌, some, inl, inr, arith, ltb, if◌then◌else◌, elem,
  Bool-cases, Option-cases, All, ◌==◌,
}
use integration_queue.Runner.PriorityQueue.{PriorityQueue}
use integration_queue.Runner.PriorityQueue
use integration_queue.Runner.PriorityQueue.Laws.{
  IsValid, empty-IsValid, pop-IsValid, add-IsValid, remove-IsValid, contains-add, contains-remove,
  contains-heap,
}
use integration_queue.Runner.PriorityQueue.Order.{
  Sorted, pop-Sorted, add-Sorted, remove-Sorted, All-elem,
}
use integration_queue.Runner.PriorityQueue.Heap.{
  All-add, All-remove, All-pop, pop-absent, contains-pop_self,
}
use integration_queue.Runner.ChannelJob.{Jobs, ChannelJob, clear_eta, lt_in, job_lt}
use integration_queue.Runner.ChannelJob.Order.{job_lt-IsOrder}
use integration_queue.Runner.ChannelQueue.{
  ChannelQueue, empty, add, remove, contains, release_first,
}

abbrev pub HasEta : Jobs → ℕ → Type 0
HasEta jobs o = 0 < (jobs o).eta

abbrev pub NoEta : Jobs → ℕ → Type 0
NoEta jobs o = (jobs o).eta ≡ 0

pub record Inv (jobs : Jobs) (q : ChannelQueue) : Type 0 where
  pub etas : IsValid q.eta_queue
  pub plain : IsValid q.queue
  pub etas_sorted : Sorted (lt_in jobs) q.eta_queue.heap
  pub plain_sorted : Sorted (lt_in jobs) q.queue.heap
  pub etas_set : All (HasEta jobs) q.eta_queue.heap
  pub plain_unset : All (NoEta jobs) q.queue.heap

clear_eta_self : (o : ℕ) (jobs : Jobs) → (clear_eta o jobs o).eta ≡ 0
unfolding clear_eta
clear_eta_self o jobs = ground arith

pub empty-Inv : (jobs : Jobs) (sequential : Bool) → Inv jobs (empty sequential)
unfolding empty PriorityQueue.empty
empty-Inv jobs sequential = record {
  etas = empty-IsValid;
  plain = empty-IsValid;
  etas_sorted = tt;
  plain_sorted = tt;
  etas_set = tt;
  plain_unset = tt;
}

-- An object outside a list can change without a change to what the list is sorted by.
module _ (o : ℕ) (jobs : Jobs) where
  All-clear :
      (P : ChannelJob → Type 0) (xs : List ℕ)
      → elem o xs ≡ false
      → All (λ y. P (jobs y)) xs
      → All (λ y. P (clear_eta o jobs y)) xs
  unfolding elem clear_eta
  All-clear P [] h all = tt
  All-clear P (x ∷ xs) h all = elim (Bool-cases (o == x)) [
    | inl same ↦ absurd (ground arith)
    | inr other ↦ rw other (all.0, All-clear P xs (ground arith) all.1)
  ]

  Sorted-clear :
      (xs : List ℕ)
      → elem o xs ≡ false
      → Sorted (lt_in jobs) xs
      → Sorted (lt_in (clear_eta o jobs)) xs
  unfolding elem clear_eta
  Sorted-clear [] h s = tt
  Sorted-clear (x ∷ xs) h s = elim (Bool-cases (o == x)) [
    | inl same ↦ absurd (ground arith)
    | inr other ↦ rw other (
      All-clear (λ j. job_lt j (jobs x) ≡ false) xs (ground arith) s.0,
      Sorted-clear xs (ground arith) s.1,
    )
  ]

pub contains-remove_any :
    (o a : ℕ) (q : ChannelQueue)
    → contains a (remove o q) ≡ (if o == a then false else contains a q)
unfolding contains remove
contains-remove_any o a q =
    ground (arith, contains-remove o a q.eta_queue, contains-remove o a q.queue)

module _ (jobs : Jobs) (q : ChannelQueue) (v : Inv jobs q) where
  -- No object is in both queues.
  pub etas-not_plain : (o : ℕ) → elem o q.eta_queue.heap ≡ true → elem o q.queue.heap ≡ false
  etas-not_plain o h = elim (Bool-cases (elem o q.queue.heap)) [
    | inl both ↦ absurd (
        ground (
          arith,
          All-elem (HasEta jobs) q.eta_queue.heap o v.etas_set h,
          All-elem (NoEta jobs) q.queue.heap o v.plain_unset both,
        ))
    | inr apart ↦ apart
  ]

  pub add-Inv : (o : ℕ) → Inv jobs (add jobs o q)
  unfolding add
  add-Inv o = elim (Bool-cases (ltb 0 (jobs o).eta)) [
    | inl set ↦ rw set (record {
      etas = add-IsValid (lt_in jobs) o q.eta_queue v.etas;
      plain = v.plain;
      etas_sorted = add-Sorted (lt_in jobs) o q.eta_queue (job_lt-IsOrder jobs) v.etas_sorted;
      plain_sorted = v.plain_sorted;
      etas_set = All-add (HasEta jobs) (lt_in jobs) o q.eta_queue (ground arith) v.etas_set;
      plain_unset = v.plain_unset;
    })
    | inr unset ↦ rw unset (record {
      etas = v.etas;
      plain = add-IsValid (lt_in jobs) o q.queue v.plain;
      etas_sorted = v.etas_sorted;
      plain_sorted = add-Sorted (lt_in jobs) o q.queue (job_lt-IsOrder jobs) v.plain_sorted;
      etas_set = v.etas_set;
      plain_unset = All-add (NoEta jobs) (lt_in jobs) o q.queue (ground arith) v.plain_unset;
    })
  ]

  pub remove-Inv : (o : ℕ) → Inv jobs (remove o q)
  unfolding remove
  remove-Inv o = record {
    etas = remove-IsValid o q.eta_queue v.etas;
    plain = remove-IsValid o q.queue v.plain;
    etas_sorted = remove-Sorted (lt_in jobs) o q.eta_queue v.etas_sorted;
    plain_sorted = remove-Sorted (lt_in jobs) o q.queue v.plain_sorted;
    etas_set = All-remove (HasEta jobs) o q.eta_queue v.etas_set;
    plain_unset = All-remove (NoEta jobs) o q.queue v.plain_unset;
  }

  pub contains-add_lem :
      (o a : ℕ) → contains a (add jobs o q) ≡ (if o == a then true else contains a q)
  unfolding contains add
  contains-add_lem o a = ground (
    arith,
    contains-add (lt_in jobs) o a q.eta_queue v.etas,
    contains-add (lt_in jobs) o a q.queue v.plain,
  )

  -- The first job of the eta queue, once popped, is in neither heap.
  popped_absent :
      {o : ℕ}
      → (PriorityQueue.pop q.eta_queue).0 ≡ some o
      → (elem o (PriorityQueue.pop q.eta_queue).1.heap ≡ false) × (elem o q.queue.heap ≡ false)
  popped_absent {o} e = (
    pop-absent q.eta_queue v.etas e,
    etas-not_plain o
        (contains-heap o q.eta_queue v.etas (contains-pop_self q.eta_queue v.etas e).0),
  )

  pub release_first-Inv : Inv (release_first jobs q).0 (release_first jobs q).1
  unfolding release_first
  release_first-Inv = elim (Option-cases (PriorityQueue.pop q.eta_queue).0) [
    | inl e ↦
        rw (e, release_first)
          (record {
            etas = pop-IsValid q.eta_queue v.etas;
            plain = v.plain;
            etas_sorted = pop-Sorted (lt_in jobs) q.eta_queue v.etas_sorted;
            plain_sorted = v.plain_sorted;
            etas_set = All-pop (HasEta jobs) q.eta_queue v.etas_set;
            plain_unset = v.plain_unset;
          })
    | inr (o, e) ↦ rw (e, release_first) (released o e)
  ]
    where
      released :
          (o : ℕ)
          → (PriorityQueue.pop q.eta_queue).0 ≡ some o
          → Inv (clear_eta o jobs) (record q {
            eta_queue = (PriorityQueue.pop q.eta_queue).1;
            queue = PriorityQueue.add (lt_in (clear_eta o jobs)) o q.queue;
          })
      released o e = record {
        etas = pop-IsValid q.eta_queue v.etas;
        plain = add-IsValid (lt_in (clear_eta o jobs)) o q.queue v.plain;
        etas_sorted =
            Sorted-clear o jobs _ (popped_absent e).0
              (pop-Sorted (lt_in jobs) q.eta_queue v.etas_sorted);
        plain_sorted =
            add-Sorted (lt_in (clear_eta o jobs)) o q.queue (job_lt-IsOrder (clear_eta o jobs))
              (Sorted-clear o jobs _ (popped_absent e).1 v.plain_sorted);
        etas_set =
            All-clear o jobs (λ j. 0 < j.eta) _ (popped_absent e).0
              (All-pop (HasEta jobs) q.eta_queue v.etas_set);
        plain_unset =
            All-add (NoEta (clear_eta o jobs)) (lt_in (clear_eta o jobs)) o q.queue
              (clear_eta_self o jobs)
              (All-clear o jobs (λ j. j.eta ≡ 0) _ (popped_absent e).1 v.plain_unset);
      }
