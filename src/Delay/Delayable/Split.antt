-- ===== src/Delay/Delayable/Split.antt =====
-- The record sets that `split` makes.
use integration_queue.Prelude.{
  ℕ, zero, suc, ◌+◌, ◌≡◌, ◌≤◌, ◌<◌, refl, true, List, [], ◌∷◌, ◌++◌, ltb, ltb→lt, All, length, take,
  drop, take-append-drop, length-take, length-drop, drop-nil, Text, arith, Bool-cases, inl, inr,
  ◌∙◌, ap, sym,
}
use integration_queue.Delay.Delayable.{batches, descriptions}

suc_sum : (m n : ℕ) → suc m + n ≡ suc (m + n)
suc_sum m n = omega arith

module _ {ℓ} {A : Type ℓ} where
  -- The lists, one behind the other.
  abbrev pub concat : List (List A) → List A
  concat [] = []
  concat (x ∷ xs) = x ++ concat xs

  drop-add : (m n : ℕ) (xs : List A) → drop (m + n) xs ≡ drop n (drop m xs)
  drop-add zero n xs = ap (λ k. drop k xs) (omega arith)
  drop-add (suc m) n [] = drop-nil (suc m + n) [] (omega arith) ∙ sym (drop-nil n [] (omega arith))
  drop-add (suc m) n (x ∷ xs) = ap (λ k. drop k (x ∷ xs)) (suc_sum m n) ∙ drop-add m n xs

  pub concat-batches :
      (fuel n index : ℕ) (records : List A)
      → length records ≤ index + fuel
      → concat (batches fuel (suc n) index records) ≡ drop index records
  unfolding batches
  concat-batches zero n index records h = sym (drop-nil index records (omega arith))
  concat-batches (suc fuel) n index records h = elim (Bool-cases (ltb index (length records))) [
    | inl more ↦ rw more (
        ap (λ r. take (suc n) (drop index records) ++ r)
          (concat-batches fuel n (index + suc n) records (omega arith)
            ∙ drop-add index (suc n) records)
        ∙ take-append-drop (suc n) (drop index records))
    | inr end ↦ rw end (sym (drop-nil index records (ground arith)))
  ]

  slice_size :
      (n index : ℕ) (records : List A)
      → ltb index (length records) ≡ true
      → (0 < length (take (suc n) (drop index records)))
        × (length (take (suc n) (drop index records)) ≤ suc n)
  slice_size n index records more =
      let size = length-take (suc n) (drop index records) in
      let left = length-drop index records in
      let below : index < length records = ltb→lt index (length records) more in
      (omega arith, omega arith)

  pub batches_sizes :
      (fuel n index : ℕ) (records : List A)
      → All (λ b. (0 < length b) × (length b ≤ suc n)) (batches fuel (suc n) index records)
  unfolding batches
  batches_sizes zero n index records = tt
  batches_sizes (suc fuel) n index records = elim (Bool-cases (ltb index (length records))) [
    | inl more ↦
        rw more (slice_size n index records more, batches_sizes fuel n (index + suc n) records)
    | inr end ↦ rw end tt
  ]

  pub length-descriptions :
      (description : Text) (index total : ℕ) (bs : List (List A))
      → length (descriptions description index total bs) ≡ length bs
  unfolding descriptions
  length-descriptions description index total [] = refl
  length-descriptions description index total (b ∷ bs) =
      ap suc (length-descriptions description (index + 1) total bs)
