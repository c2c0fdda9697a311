-- ===== src/Prelude/Split.antt =====
-- The operations of Python's `str` that the source uses, on texts of ASCII.
use Prim.Native.Nat.{ℕ, zero, suc, ◌+◌, ◌-◌, ◌*◌}
use mathlib.Core.Bool.{Bool, true, false, ◌&&◌, ◌||◌}
use mathlib.Core.Option.{Option, none, some}
use mathlib.Core.List.{List, [], ◌∷◌, ◌++◌, reverse}
use integration_queue.Prelude.Tests.{◌==◌, leb, if◌then◌else◌}
use integration_queue.Prelude.Int.{ℤ, pos, negsuc}
use integration_queue.Prelude.Strings.{Text}

-- `s.split(sep)` for one separator; `word` is what has been read of the current part.
unfoldable pub split_from : ℕ → Text → Text → List Text
split_from sep word [] = word ∷ []
split_from sep word (c ∷ s) =
    if c == sep then word ∷ split_from sep [] s else split_from sep (word ++ c ∷ []) s

unfoldable pub split : ℕ → Text → List Text
unfolding split_from
split sep s = split_from sep [] s

unfoldable pub is_space : ℕ → Bool
is_space c = leb 9 c && leb c 13 || leb 28 c && leb c 32

unfoldable pub lstrip : Text → Text
unfolding is_space
lstrip [] = []
lstrip (c ∷ s) = if is_space c then lstrip s else c ∷ s

-- `s.strip()`
unfoldable pub strip : Text → Text
unfolding lstrip
strip s = reverse (lstrip (reverse (lstrip s)))

unfoldable pub replace_char : ℕ → ℕ → Text → Text
replace_char a b [] = []
replace_char a b (c ∷ s) = (if c == a then b else c) ∷ replace_char a b s

unfoldable pub starts_with : Text → Text → Bool
starts_with [] s = true
starts_with (c ∷ p) [] = false
starts_with (c ∷ p) (d ∷ s) = c == d && starts_with p s

unfoldable pub ends_with : Text → Text → Bool
unfolding starts_with
ends_with p s = starts_with (reverse p) (reverse s)

-- `sep.join(parts)`
unfoldable pub join : ℕ → List Text → Text
join sep [] = []
join sep (x ∷ []) = x
join sep (x ∷ y ∷ xs) = x ++ sep ∷ join sep (y ∷ xs)

unfoldable pub is_digit : ℕ → Bool
is_digit c = leb b'0' c && leb c b'9'

-- Digits, with single underscores between them; `seen` says that the last one was a digit.
unfoldable pub digits_from : ℕ → Bool → Text → Option ℕ
unfolding is_digit
digits_from acc seen [] = if seen then some acc else none
digits_from acc seen (c ∷ s) =
    let digit = digits_from (acc * 10 + (c - b'0')) true s in
    let gap = digits_from acc false s in
    if is_digit c then digit else if seen && c == b'_' then gap else none

unfoldable pub negate : ℕ → ℤ
negate zero = pos zero
negate (suc n) = negsuc n

unfoldable pub signed : Text → Option ℤ
unfolding digits_from negate
signed [] = none
signed (c ∷ s) =
    if c == b'-'
    then elim (digits_from 0 false s) [ none ↦ none | some n ↦ some (negate n) ]
    else (let unsigned = if c == b'+' then s else c ∷ s in
        elim (digits_from 0 false unsigned) [ none ↦ none | some n ↦ some (pos n) ])

-- `int(s)`; `none` is the `ValueError`.
unfoldable pub parse_int : Text → Option ℤ
unfolding strip signed
parse_int s = signed (strip s)
