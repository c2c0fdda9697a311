-- ===== src/JobFunction/Decimals.antt =====
-- `int` of the decimal text of a natural number.
use mathlib.Core.List.{reverse_aux, reverse-reverse}
use integration_queue.JobFunction.Names.{all_of}
use integration_queue.Prelude.{
  ℕ, zero, suc, ◌+◌, ◌*◌, ◌/◌, ◌%◌, ◌≡◌, ◌≤◌, ◌<◌, refl, ap, ◌∙◌, Bool, true, false, ◌&&◌, ◌==◌, [],
  ◌∷◌, reverse, some, pos, ltb, Text, arith, Bool-cases, inl, inr, is_digit, digits_from, signed,
  strip, lstrip, is_space, parse_int, digits_onto, decimal,
}

quotient_remainder : (n : ℕ) → n / 10 * 10 + n % 10 ≡ n
quotient_remainder n = omega arith

digit_is : (n : ℕ) → n < 10 → is_digit (b'0' + n) ≡ true
unfolding is_digit
digit_is n l = ground arith

digits_from-digit :
    (acc n : ℕ) (seen : Bool) (s : Text)
    → n < 10
    → digits_from acc seen ((b'0' + n) ∷ s) ≡ digits_from (acc * 10 + n) true s
unfolding digits_from
digits_from-digit acc n seen s l =
    rw (digit_is n l, digits_from) (ap (λ d. digits_from (acc * 10 + d) true s) (omega arith))

digits_from-digits_onto :
    (fuel n : ℕ) (after : Text)
    → n < fuel
    → digits_from 0 false (digits_onto fuel n after) ≡ digits_from n true after
unfolding digits_onto
digits_from-digits_onto zero n after l = absurd (omega arith)
digits_from-digits_onto (suc fuel) n after l = elim (Bool-cases (ltb n 10)) [
  | inl small ↦
      rw (small, digits_onto)
        (digits_from-digit 0 n false after (ground (arith, small))
          ∙ ap (λ m. digits_from m true after) (omega arith))
  | inr large ↦
      let some_tens : 10 ≤ n = ground (arith, large) in
      rw (large, digits_onto)
        (digits_from-digits_onto fuel (n / 10) ((b'0' + n % 10) ∷ after) (omega arith)
          ∙ digits_from-digit (n / 10) (n % 10) true after (omega arith)
          ∙ ap (λ m. digits_from m true after) (quotient_remainder n))
]

all_of-digits_onto :
    (fuel n : ℕ) (after : Text)
    → all_of is_digit after ≡ true
    → all_of is_digit (digits_onto fuel n after) ≡ true
unfolding digits_onto
all_of-digits_onto zero n after h = h
all_of-digits_onto (suc fuel) n after h = elim (Bool-cases (ltb n 10)) [
  | inl small ↦ rw (small, digits_onto) (rw (digit_is n (ground (arith, small))) h)
  | inr large ↦
      rw (large, digits_onto)
        (all_of-digits_onto fuel (n / 10) ((b'0' + n % 10) ∷ after)
          (rw (digit_is (n % 10) (omega arith)) h))
]

-- Digits are no spaces, so `strip` keeps them.
lstrip-digits : (s : Text) → all_of is_digit s ≡ true → lstrip s ≡ s
unfolding lstrip is_digit is_space
lstrip-digits [] h = refl
lstrip-digits (c ∷ s) h = ground (arith, h)

all_of-reverse_aux :
    (s r : Text) → all_of is_digit (reverse_aux s r) ≡ (all_of is_digit s && all_of is_digit r)
all_of-reverse_aux [] r = refl
all_of-reverse_aux (c ∷ s) r = ground (arith, all_of-reverse_aux s (c ∷ r))

strip-digits : (s : Text) → all_of is_digit s ≡ true → strip s ≡ s
unfolding strip
strip-digits s h =
    ap (λ t. reverse (lstrip (reverse t))) (lstrip-digits s h)
    ∙ ap reverse (lstrip-digits (reverse s) (ground (arith, h, all_of-reverse_aux s [])))
    ∙ reverse-reverse s

signed-digits :
    (s : Text) (n : ℕ)
    → all_of is_digit s ≡ true
    → digits_from 0 false s ≡ some n
    → signed s ≡ some (pos n)
unfolding signed digits_from is_digit
signed-digits [] n h e = absurd (ground (arith, e))
signed-digits (c ∷ s) n h e =
    let no_minus : c == b'-' ≡ false = ground (arith, h) in
    let no_plus : c == b'+' ≡ false = ground (arith, h) in
    rw (no_minus, no_plus, signed) (rw e refl)

-- `int(str(n))`
pub parse_int-decimal : (n : ℕ) → parse_int (decimal n) ≡ some (pos n)
unfolding parse_int decimal digits_from
parse_int-decimal n =
    let digits = all_of-digits_onto (suc n) n [] refl in
    ap signed (strip-digits (decimal n) digits)
    ∙ signed-digits (decimal n) n digits (digits_from-digits_onto (suc n) n [] (omega arith))
