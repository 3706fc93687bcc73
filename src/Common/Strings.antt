-- ===== src/Common/Strings.antt =====
-- Text as the list of its UTF-16 code units, with `String.prototype.trim` and, for ASCII text,
-- `toUpperCase` and `toLowerCase`.
use appchat_be.Common.Tests.{leb, ◌==◌, if◌then◌else◌}
use appchat_be.Common.Lists.{contains, all}
use mathlib.Core.Path.{◌≡◌, refl}
use native.Mathlib.Omega.{arith}
use Prim.Native.Nat.{ℕ, ◌+◌, ◌-◌}
use mathlib.Core.Bool.{Bool, ◌&&◌, ◌||◌, not}
use mathlib.Core.List.{List, [], ◌∷◌, reverse, map}

abbrev pub Text : Type 0
Text = List ℕ

-- White space and line terminators of ECMAScript.
abbrev pub is_space : ℕ → Bool
is_space c =
    (leb 9 c && leb c 13)
    || (leb 0x2000 c && leb c 0x200a)
    || contains c (32 ∷ 160 ∷ 0x1680 ∷ 0x2028 ∷ 0x2029 ∷ 0x202f ∷ 0x205f ∷ 0x3000 ∷ 0xfeff ∷ [])

abbrev pub trim_start : Text → Text
trim_start [] = []
trim_start (c ∷ s) = let rest = trim_start s in if is_space c then rest else c ∷ s

unfoldable pub trim : Text → Text
trim s = reverse (trim_start (reverse (trim_start s)))

abbrev pub is_empty : Text → Bool
is_empty s = elim s [ [] ↦ Bool.true | c ∷ r ↦ Bool.false ]

abbrev pub upper : ℕ → ℕ
upper c = if leb b'a' c && leb c b'z' then c - 32 else c

abbrev pub lower : ℕ → ℕ
lower c = if leb b'A' c && leb c b'Z' then c + 32 else c

unfoldable pub to_upper : Text → Text
to_upper = map upper

unfoldable pub to_lower : Text → Text
to_lower = map lower

-- `===` on texts.
abbrev pub eq_text : Text → Text → Bool
eq_text [] [] = Bool.true
eq_text [] (d ∷ t) = Bool.false
eq_text (c ∷ s) [] = Bool.false
eq_text (c ∷ s) (d ∷ t) = c == d && eq_text s t

-- No text stands twice.
abbrev pub all_apart : List Text → Bool
all_apart [] = Bool.true
all_apart (c ∷ cs) = all (λ d. not (eq_text d c)) cs && all_apart cs

pub eq_text-eq : (s t : Text) → eq_text s t ≡ Bool.true → s ≡ t
eq_text-eq [] [] h = refl
eq_text-eq [] (d ∷ t) h = cc
eq_text-eq (c ∷ s) [] h = cc
eq_text-eq (c ∷ s) (d ∷ t) h = ground (arith, eq_text-eq s t)

pub eq_text_refl : (s : Text) → eq_text s s ≡ Bool.true
eq_text_refl [] = refl
eq_text_refl (c ∷ s) = ground (arith, eq_text_refl s)

pub eq_text_sym : (s t : Text) → eq_text s t ≡ eq_text t s
eq_text_sym [] [] = refl
eq_text_sym [] (d ∷ t) = refl
eq_text_sym (c ∷ s) [] = refl
eq_text_sym (c ∷ s) (d ∷ t) = ground (arith, eq_text_sym s t)
