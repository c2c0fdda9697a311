-- ===== src/Delay/Delayable/Ending.antt =====
-- How `split` ends.
use integration_queue.Prelude.{
  ℕ, zero, suc, ◌+◌, ◌≡◌, ◌≤◌, ◌<◌, ◌⊎◌, refl, Bool, true, false, List, [], ◌∷◌, All, length, Text,
  ℤ, pos, negsuc, arith, inl, inr,
}
use integration_queue.Delay.Delayable.{
  Graphs, identity_of, new_delayable, new_delayables, new_chain, new_group, slices_of, SplitResult,
  value_error, stop_iteration, returns, combine, split,
}
use integration_queue.Delay.Delayable.Made.{GraphOf, put_graph-same, chain-GraphOf, group-GraphOf}
use integration_queue.Delay.Delayable.Split.{
  concat, concat-batches, batches_sizes, length-descriptions,
}

-- The record sets are the records, one behind the other, none empty or above the size; a negative size
-- loses every record.
abbrev pub IsDivided : {A : Type 0} → ℤ → List A → List (List A) → Type 0
IsDivided size records slices =
    ((n : ℕ) × (size ≡ pos (suc n))
      × (concat slices ≡ records)
      × All (λ b. (0 < length b) × (length b ≤ suc n)) slices)
    ⊎ ((n : ℕ) × (size ≡ negsuc n) × (slices ≡ []))

-- How `split` ends. The object that it returns has a description for each record set, and in its graph
-- the new delayables, one for each.
abbrev pub SplitEnds :
    {A : Type 0} → (has_method is_chain : Bool) → ℤ → ℕ → List A → SplitResult A → Type 0
SplitEnds has_method is_chain size fresh records value_error = (has_method ≡ false) ⊎ (size ≡ pos 0)
SplitEnds has_method is_chain size fresh records stop_iteration =
    (has_method ≡ true) × (is_chain ≡ true) × IsDivided size records []
SplitEnds has_method is_chain size fresh records (returns slices names object graphs) =
    (has_method ≡ true)
    × IsDivided size records slices
    × ((is_chain ≡ false) ⊎ (0 < length slices))
    × (length names ≡ length slices)
    × GraphOf is_chain fresh (length slices) (graphs (identity_of object))

module _ {A : Type 0} where
  combine-SplitEnds :
      (is_chain : Bool) (description : Text) (size : ℤ) (fresh : ℕ) (graphs : Graphs)
      (records : List A) (slices : List (List A))
      → IsDivided size records slices
      → SplitEnds true is_chain size fresh records (
          combine is_chain description
            (fresh + length slices)
            slices
            (new_delayables fresh slices graphs).0
            (new_delayables fresh slices graphs).1)
  unfolding combine new_chain new_group new_delayables new_delayable
  combine-SplitEnds true description size fresh graphs records [] h = (refl, refl, h)
  combine-SplitEnds true description size fresh graphs records (b ∷ bs) h = (
    refl,
    h,
    inr (omega arith),
    length-descriptions description 0 (suc (length bs)) (b ∷ bs),
    rw (put_graph-same (fresh + suc (length bs))) (chain-GraphOf fresh _ b bs),
  )
  combine-SplitEnds false description size fresh graphs records slices h = (
    refl,
    h,
    inl refl,
    length-descriptions description 0 (length slices) slices,
    rw (put_graph-same (fresh + length slices)) (group-GraphOf fresh graphs slices),
  )

  -- `split` raises a ValueError if no method is set or the size is 0, and a StopIteration if a chain is
  -- asked for and there is no record or the size is negative. Else its record sets are, one behind the
  -- other, the records, none empty or above the size, or, with a negative size, there is none and the
  -- records are lost. Each record set has a description and a new delayable, the vertices of the graph of
  -- the object; in a chain each delayable is followed by the next, in a group there is no edge.
  pub split-SplitEnds :
      (has_method is_chain : Bool) (description : Text) (size : ℤ) (fresh : ℕ) (graphs : Graphs)
      (records : List A)
      → SplitEnds has_method is_chain size fresh records
          (split has_method is_chain description size fresh graphs records)
  unfolding split slices_of
  split-SplitEnds false is_chain description size fresh graphs records = inl refl
  split-SplitEnds true is_chain description (pos zero) fresh graphs records = inr refl
  split-SplitEnds true is_chain description (pos (suc n)) fresh graphs records =
      combine-SplitEnds is_chain description (pos (suc n)) fresh graphs records _ (
        inl (
          n,
          refl,
          concat-batches (suc (length records)) n 0 records (omega arith),
          batches_sizes (suc (length records)) n 0 records,
        ))
  split-SplitEnds true is_chain description (negsuc n) fresh graphs records =
      combine-SplitEnds is_chain description (negsuc n) fresh graphs records []
        (inr (n, refl, refl))
