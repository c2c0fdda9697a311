-- ===== src/Prelude/Decimal.antt =====
-- `str(n)` of a natural number.
use Prim.Native.Nat.{ℕ, zero, suc, ◌+◌, ◌/◌, ◌%◌}
use mathlib.Core.List.{[], ◌∷◌}
use integration_queue.Prelude.Tests.{ltb, if◌then◌else◌}
use integration_queue.Prelude.Strings.{Text}

-- The digits of a number before `after`; the fuel is above the number of digits.
unfoldable pub digits_onto : ℕ → ℕ → Text → Text
digits_onto zero n after = after
digits_onto (suc fuel) n after =
    let more = digits_onto fuel (n / 10) ((b'0' + n % 10) ∷ after) in
    if ltb n 10 then (b'0' + n) ∷ after else more

unfoldable pub decimal : ℕ → Text
unfolding digits_onto
decimal n = digits_onto (suc n) n []
