-- ===== src/JobFunction/Patterns.antt =====
-- Retry patterns that the constraint lets pass, and what is read of them.
use integration_queue.Prelude.{
  ◌≡◌, ◌⊎◌, refl, Bool, true, false, ◌||◌, List, [], ◌∷◌, Option, none, some, ℤ, arith, inl, inr,
  parse_int,
}
use integration_queue.JobFunction.{
  Value, integer, word, real, null, items, Pattern, Check, passes, value_error, type_error,
  and_check, int_check, retry_value_type_check, check_keys, check_values, check_retry_pattern,
  Postpone, postpone_of, put_pattern, Parsed, parsed, raises_type_error, parse_items,
  parse_retry_pattern,
}

-- One of the values is a float.
abbrev pub is_real : Value → Bool
is_real real = true
is_real (integer n) = false
is_real (word s) = false
is_real null = false
is_real (items vs) = false

abbrev pub has_real : Pattern → Bool
has_real [] = false
has_real ((key, v) ∷ p) = is_real v || has_real p

and_check-passes : (a b : Check) → and_check a b ≡ passes → (a ≡ passes) × (b ≡ passes)
and_check-passes passes b h = (refl, h)
and_check-passes value_error b h = absurd (ground (arith, h))
and_check-passes type_error b h = absurd (ground (arith, h))

int_check-passes : (o : Option ℤ) → int_check o ≡ passes → (n : ℤ) × (o ≡ some n)
unfolding int_check
int_check-passes none h = absurd (ground (arith, h))
int_check-passes (some n) h = (n, refl)

-- A value that passes is a float, or something that `tuple` takes.
passes-postpone_of :
    (v : Value)
    → retry_value_type_check v ≡ passes
    → ((is_real v ≡ true) × (postpone_of v ≡ none))
      ⊎ ((is_real v ≡ false) × ((w : Postpone) × (postpone_of v ≡ some w)))
unfolding retry_value_type_check postpone_of
passes-postpone_of (integer n) h = inr (refl, (_, refl))
passes-postpone_of (word s) h = inr (refl, (_, refl))
passes-postpone_of real h = inl (refl, refl)
passes-postpone_of null h = absurd (ground (arith, h))
passes-postpone_of (items vs) h = inr (refl, (_, refl))

-- How the reading of a pattern ends that passes.
abbrev pub ReadsIf : Bool → Parsed → Type 0
ReadsIf true p = p ≡ raises_type_error
ReadsIf false p = (q : List (ℤ × Postpone)) × (p ≡ parsed q)

parse_items-ReadsIf :
    (p : Pattern) (so_far : List (ℤ × Postpone))
    → check_keys p ≡ passes
    → check_values p ≡ passes
    → ReadsIf (has_real p) (parse_items p so_far)
unfolding check_keys check_values parse_items retry_value_type_check
parse_items-ReadsIf [] so_far k v = (so_far, refl)
parse_items-ReadsIf ((key, value) ∷ p) so_far k v =
    let (key_ok, keys_ok) = and_check-passes (retry_value_type_check (word key)) (check_keys p) k in
    let (value_ok, values_ok) =
      and_check-passes (retry_value_type_check value) (check_values p) v in
    let (n, number) = int_check-passes (parse_int key) key_ok in
    elim (passes-postpone_of value value_ok) [
      | inl (float, e) ↦ rw (float, e, parse_items) refl
      | inr (other, (w, e)) ↦
          rw (other, e, number, parse_items)
            (parse_items-ReadsIf p (put_pattern n w so_far) keys_ok values_ok)
    ]

-- A pattern that the constraint lets pass never falls back on the empty one: it is read if none of its
-- values is a float, and raises a TypeError if one is.
pub check_retry_pattern-ReadsIf :
    (p : Pattern) → check_retry_pattern p ≡ passes → ReadsIf (has_real p) (parse_retry_pattern p)
unfolding check_retry_pattern parse_retry_pattern
check_retry_pattern-ReadsIf p h =
    let (keys, values) = and_check-passes (check_keys p) (check_values p) h in
    parse_items-ReadsIf p [] keys values
