-- ===== src/Common/Text/Decimal.antt =====
-- `%d` and `%02d` of Go's `fmt`, for numbers that are not negative.
use Prim.Native.Nat.{ℕ, zero, suc, ◌+◌, ◌/◌, ◌%◌}
use mathlib.Core.List.{List, [], ◌∷◌}
use event_driven_order_fulfi.Common.Tests.{ltb, if◌then◌else◌}

-- The digits of `n` in front of `rest`. A number has fewer digits than its value and one.
unfoldable pub digits : ℕ → ℕ → List ℕ → List ℕ
digits zero n rest = rest
digits (suc fuel) n rest =
    let longer = digits fuel (n / 10) ((48 + n % 10) ∷ rest) in
    if ltb n 10 then (48 + n) ∷ rest else longer

unfoldable pub decimal : ℕ → List ℕ
unfolding digits
decimal n = digits (suc n) n []

-- At least two digits.
unfoldable pub two_digits : ℕ → List ℕ
unfolding decimal
two_digits n = if ltb n 10 then 48 ∷ decimal n else decimal n
