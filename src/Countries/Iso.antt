-- ===== src/Countries/Iso.antt =====
-- The country codes of src/countries/country-policy.ts.
use appchat_be.Common.{ℕ, Bool, List, [], ◌∷◌, ◌++◌, map, any, Text, eq_text}

abbrev pub starting : ℕ → List ℕ → List Text
starting c ds = map (λ d. c ∷ d ∷ []) ds

unfoldable pub iso_codes : List Text
iso_codes =
    starting b'A' (
      b'D' ∷ b'E' ∷ b'F' ∷ b'G' ∷ b'I' ∷ b'L' ∷ b'M' ∷ b'O' ∷ b'Q' ∷ b'R' ∷ b'S' ∷ b'T' ∷ b'U'
      ∷ b'W' ∷ b'X' ∷ b'Z' ∷ [])
    ++ starting b'B' (
        b'A' ∷ b'B' ∷ b'D' ∷ b'E' ∷ b'F' ∷ b'G' ∷ b'H' ∷ b'I' ∷ b'J' ∷ b'L' ∷ b'M' ∷ b'N' ∷ b'O'
        ∷ b'Q' ∷ b'R' ∷ b'S' ∷ b'T' ∷ b'V' ∷ b'W' ∷ b'Y' ∷ b'Z' ∷ [])
    ++ starting b'C' (
        b'A' ∷ b'C' ∷ b'D' ∷ b'F' ∷ b'G' ∷ b'H' ∷ b'I' ∷ b'K' ∷ b'L' ∷ b'M' ∷ b'N' ∷ b'O' ∷ b'R'
        ∷ b'U' ∷ b'V' ∷ b'W' ∷ b'X' ∷ b'Y' ∷ b'Z' ∷ [])
    ++ starting b'D' (b'E' ∷ b'J' ∷ b'K' ∷ b'M' ∷ b'O' ∷ b'Z' ∷ [])
    ++ starting b'E' (b'C' ∷ b'E' ∷ b'G' ∷ b'H' ∷ b'R' ∷ b'S' ∷ b'T' ∷ [])
    ++ starting b'F' (b'I' ∷ b'J' ∷ b'K' ∷ b'M' ∷ b'O' ∷ b'R' ∷ [])
    ++ starting b'G' (
        b'A' ∷ b'B' ∷ b'D' ∷ b'E' ∷ b'F' ∷ b'G' ∷ b'H' ∷ b'I' ∷ b'L' ∷ b'M' ∷ b'N' ∷ b'P' ∷ b'Q'
        ∷ b'R' ∷ b'S' ∷ b'T' ∷ b'U' ∷ b'W' ∷ b'Y' ∷ [])
    ++ starting b'H' (b'K' ∷ b'M' ∷ b'N' ∷ b'R' ∷ b'T' ∷ b'U' ∷ [])
    ++ starting b'I' (b'D' ∷ b'E' ∷ b'L' ∷ b'M' ∷ b'N' ∷ b'O' ∷ b'Q' ∷ b'R' ∷ b'S' ∷ b'T' ∷ [])
    ++ starting b'J' (b'E' ∷ b'M' ∷ b'O' ∷ b'P' ∷ [])
    ++ starting b'K'
        (b'E' ∷ b'G' ∷ b'H' ∷ b'I' ∷ b'M' ∷ b'N' ∷ b'P' ∷ b'R' ∷ b'W' ∷ b'Y' ∷ b'Z' ∷ [])
    ++ starting b'L'
        (b'A' ∷ b'B' ∷ b'C' ∷ b'I' ∷ b'K' ∷ b'R' ∷ b'S' ∷ b'T' ∷ b'U' ∷ b'V' ∷ b'Y' ∷ [])
    ++ starting b'M' (
        b'A' ∷ b'C' ∷ b'D' ∷ b'E' ∷ b'F' ∷ b'G' ∷ b'H' ∷ b'K' ∷ b'L' ∷ b'M' ∷ b'N' ∷ b'O' ∷ b'P'
        ∷ b'Q' ∷ b'R' ∷ b'S' ∷ b'T' ∷ b'U' ∷ b'V' ∷ b'W' ∷ b'X' ∷ b'Y' ∷ b'Z' ∷ [])
    ++ starting b'N'
        (b'A' ∷ b'C' ∷ b'E' ∷ b'F' ∷ b'G' ∷ b'I' ∷ b'L' ∷ b'O' ∷ b'P' ∷ b'R' ∷ b'U' ∷ b'Z' ∷ [])
    ++ starting b'O' (b'M' ∷ [])
    ++ starting b'P' (
        b'A' ∷ b'E' ∷ b'F' ∷ b'G' ∷ b'H' ∷ b'K' ∷ b'L' ∷ b'M' ∷ b'N' ∷ b'R' ∷ b'S' ∷ b'T' ∷ b'W'
        ∷ b'Y' ∷ [])
    ++ starting b'Q' (b'A' ∷ [])
    ++ starting b'R' (b'E' ∷ b'O' ∷ b'S' ∷ b'U' ∷ b'W' ∷ [])
    ++ starting b'S' (
        b'A' ∷ b'B' ∷ b'C' ∷ b'D' ∷ b'E' ∷ b'G' ∷ b'H' ∷ b'I' ∷ b'J' ∷ b'K' ∷ b'L' ∷ b'M' ∷ b'N'
        ∷ b'O' ∷ b'R' ∷ b'S' ∷ b'T' ∷ b'V' ∷ b'X' ∷ b'Y' ∷ b'Z' ∷ [])
    ++ starting b'T' (
        b'C' ∷ b'D' ∷ b'F' ∷ b'G' ∷ b'H' ∷ b'J' ∷ b'K' ∷ b'L' ∷ b'M' ∷ b'N' ∷ b'O' ∷ b'R' ∷ b'T'
        ∷ b'V' ∷ b'W' ∷ b'Z' ∷ [])
    ++ starting b'U' (b'A' ∷ b'G' ∷ b'M' ∷ b'S' ∷ b'Y' ∷ b'Z' ∷ [])
    ++ starting b'V' (b'A' ∷ b'C' ∷ b'E' ∷ b'G' ∷ b'I' ∷ b'N' ∷ b'U' ∷ [])
    ++ starting b'W' (b'F' ∷ b'S' ∷ [])
    ++ starting b'Y' (b'E' ∷ b'T' ∷ [])
    ++ starting b'Z' (b'A' ∷ b'M' ∷ b'W' ∷ [])

abbrev pub is_iso : Text → Bool
is_iso code = any (eq_text code) iso_codes
