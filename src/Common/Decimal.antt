-- ===== src/Common/Decimal.antt =====
-- `String(n)` of a natural number: its decimal digits.
use appchat_be.Common.Tests.{ltb, if◌then◌else◌}
use appchat_be.Common.Strings.{Text}
use Prim.Native.Nat.{ℕ, zero, suc, ◌+◌, ◌/◌, ◌%◌}
use mathlib.Core.List.{[], ◌∷◌}

-- Fuel `n` is enough: a number has no more digits than its value, but for 0.
digits : ℕ → ℕ → Text → Text
digits zero n acc = (n + b'0') ∷ acc
digits (suc fuel) n acc =
    let rest = digits fuel (n / 10) ((n % 10 + b'0') ∷ acc) in
    if ltb n 10 then (n + b'0') ∷ acc else rest

unfoldable pub decimal : ℕ → Text
unfolding digits
decimal n = digits n n []
