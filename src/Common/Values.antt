-- ===== src/Common/Values.antt =====
-- JavaScript values as the validators meet them, and the bounds of the safe integers.
use appchat_be.Common.Int.{ℤ, pos, negsuc}
use appchat_be.Common.Tests.{leb, if◌then◌else◌}
use mathlib.Core.Bool.{◌&&◌}
use mathlib.Core.Option.{Option, none, some}
use Prim.Native.Nat.{ℕ}

-- `Number.MAX_SAFE_INTEGER`
abbrev pub max_safe : ℕ
max_safe = 9007199254740991

-- A value that should be an amount: a whole number, or anything else (a fraction, `NaN`, a string,
-- a missing field), which every check refuses alike.
pub data Value : Type 0 where
  whole : ℤ → Value
  other : Value

-- `typeof v === 'number' && Number.isSafeInteger(v) && v >= minimum`, for a minimum of 0 or more:
-- the number, if the test passes.
abbrev pub safe_integer : Value → ℕ → Option ℕ
safe_integer other minimum = none
safe_integer (whole (negsuc n)) minimum = none
safe_integer (whole (pos n)) minimum = if leb minimum n && leb n max_safe then some n else none
