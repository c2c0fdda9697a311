-- ===== src/JobFunction/Stored.antt =====
-- The round trip of a retry pattern: its keys are texts in the stored JSON.
use mathlib.Core.List.{append_assoc, append-nil}
use integration_queue.Prelude.{
  ℕ, ◌≡◌, refl, sym, ap, ◌∙◌, Bool, false, ◌||◌, List, [], ◌∷◌, ◌++◌, some, ◌==◌, ℤ, pos, arith,
  decimal,
}
use integration_queue.Job.Perform.{Seconds, exactly, between}
use integration_queue.JobFunction.{
  Value, integer, items, nil, cons, Pattern, passes, and_check, int_check, retry_value_type_check,
  check_keys, check_values, check_retry_pattern, Postpone, seconds, tuple, elements, postpone_of,
  int_eq, put_pattern, parsed, parse_items, parse_retry_pattern,
}
use integration_queue.JobFunction.Decimals.{parse_int-decimal}

-- The seconds of `_get_retry_seconds` as a value that is stored, and as one that is read.
abbrev pub stored_seconds : Seconds → Value
stored_seconds (exactly n) = integer (pos n)
stored_seconds (between a b) = items (cons (integer (pos a)) (cons (integer (pos b)) nil))

abbrev pub read_seconds : Seconds → Postpone
read_seconds (exactly n) = seconds (pos n)
read_seconds (between a b) = tuple (integer (pos a) ∷ integer (pos b) ∷ [])

abbrev pub stored : List (ℕ × Seconds) → Pattern
stored [] = []
stored ((n, s) ∷ p) = (decimal n, stored_seconds s) ∷ stored p

abbrev pub read : List (ℕ × Seconds) → List (ℤ × Postpone)
read [] = []
read ((n, s) ∷ p) = (pos n, read_seconds s) ∷ read p

abbrev pub has_count : ℕ → List (ℕ × Seconds) → Bool
has_count n [] = false
has_count n ((m, s) ∷ p) = m == n || has_count n p

abbrev pub DistinctCounts : List (ℕ × Seconds) → Type 0
DistinctCounts [] = Unit {0}
DistinctCounts ((n, s) ∷ p) = (has_count n p ≡ false) × DistinctCounts p

abbrev has_number : ℤ → List (ℤ × Postpone) → Bool
has_number k [] = false
has_number k ((j, w) ∷ rest) = int_eq j k || has_number k rest

put_pattern-new :
    (k : ℤ) (v : Postpone) (rest : List (ℤ × Postpone))
    → has_number k rest ≡ false
    → put_pattern k v rest ≡ rest ++ (k, v) ∷ []
unfolding put_pattern
put_pattern-new k v [] h = refl
put_pattern-new k v ((j, w) ∷ rest) h =
    let other : int_eq j k ≡ false = ground (arith, h) in
    rw (other, put_pattern) (ap (λ r. (j, w) ∷ r) (put_pattern-new k v rest (ground (arith, h))))

has_number-append :
    (k : ℤ) (xs ys : List (ℤ × Postpone))
    → has_number k (xs ++ ys) ≡ (has_number k xs || has_number k ys)
has_number-append k [] ys = refl
has_number-append k ((j, w) ∷ xs) ys = ground (arith, has_number-append k xs ys)

postpone_of-stored_seconds : (s : Seconds) → postpone_of (stored_seconds s) ≡ some (read_seconds s)
unfolding postpone_of elements
postpone_of-stored_seconds (exactly n) = refl
postpone_of-stored_seconds (between a b) = refl

-- None of the counts has been read.
abbrev AreNew : List (ℕ × Seconds) → List (ℤ × Postpone) → Type 0
AreNew [] so_far = Unit {0}
AreNew ((n, s) ∷ p) so_far = (has_number (pos n) so_far ≡ false) × AreNew p so_far

AreNew-after :
    (n : ℕ) (w : Postpone) (p : List (ℕ × Seconds)) (so_far : List (ℤ × Postpone))
    → has_count n p ≡ false
    → AreNew p so_far
    → AreNew p (so_far ++ (pos n, w) ∷ [])
AreNew-after n w [] so_far h a = tt
AreNew-after n w ((m, s) ∷ p) so_far h (first, rest) = (
  ground (arith, has_number-append (pos m) so_far ((pos n, w) ∷ []), first, h),
  AreNew-after n w p so_far (ground (arith, h)) rest,
)

AreNew-nil : (p : List (ℕ × Seconds)) → AreNew p []
AreNew-nil [] = tt
AreNew-nil ((n, s) ∷ p) = (refl, AreNew-nil p)

parse_items-stored :
    (p : List (ℕ × Seconds)) (so_far : List (ℤ × Postpone))
    → DistinctCounts p
    → AreNew p so_far
    → parse_items (stored p) so_far ≡ parsed (so_far ++ read p)
unfolding parse_items
parse_items-stored [] so_far d a = ap parsed (sym (append-nil so_far))
parse_items-stored ((n, s) ∷ p) so_far (out, d) (first, rest) =
    rw (postpone_of-stored_seconds s, parse_int-decimal n, parse_items)
      (ap (parse_items (stored p)) (put_pattern-new (pos n) (read_seconds s) so_far first)
        ∙ parse_items-stored p (so_far ++ (pos n, read_seconds s) ∷ []) d
            (AreNew-after n (read_seconds s) p so_far out rest)
        ∙ ap parsed (append_assoc so_far ((pos n, read_seconds s) ∷ []) (read p)))

check_keys-stored : (p : List (ℕ × Seconds)) → check_keys (stored p) ≡ passes
unfolding check_keys retry_value_type_check int_check
check_keys-stored [] = refl
check_keys-stored ((n, s) ∷ p) =
    ap (λ o. and_check (int_check o) (check_keys (stored p))) (parse_int-decimal n)
    ∙ check_keys-stored p

stored_seconds-passes : (s : Seconds) → retry_value_type_check (stored_seconds s) ≡ passes
unfolding retry_value_type_check
stored_seconds-passes (exactly n) = refl
stored_seconds-passes (between a b) = refl

check_values-stored : (p : List (ℕ × Seconds)) → check_values (stored p) ≡ passes
unfolding check_values
check_values-stored [] = refl
check_values-stored ((n, s) ∷ p) =
    ap (λ c. and_check c (check_values (stored p))) (stored_seconds-passes s)
    ∙ check_values-stored p

-- A pattern of numbers of tries, each once, with their seconds or ranges passes the constraint in the
-- stored form, and is read as the same numbers with the same seconds, in the same order.
pub parse_retry_pattern-stored :
    (p : List (ℕ × Seconds))
    → DistinctCounts p
    → (check_retry_pattern (stored p) ≡ passes) × (parse_retry_pattern (stored p) ≡ parsed (read p))
unfolding check_retry_pattern parse_retry_pattern
parse_retry_pattern-stored p d = (
  ap (λ c. and_check c (check_values (stored p))) (check_keys-stored p) ∙ check_values-stored p,
  parse_items-stored p [] d (AreNew-nil p),
)
