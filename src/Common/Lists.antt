-- ===== src/Common/Lists.antt =====
-- Lists measured by native numbers, and searched by Boolean tests.
use Prim.Native.Nat.{ℕ, suc, ◌+◌, ◌≤◌}
use mathlib.Core.Path.{◌≡◌, refl, sym, subst}
use mathlib.Core.Logic.{◌⊎◌, inl, inr}
use mathlib.Core.Bool.{Bool, true, false, ◌||◌}
use mathlib.Core.List.{List, [], ◌∷◌, ◌++◌}
use mathlib.Core.Option.{Option, none, some}
use native.Mathlib.Omega.{arith}
use appchat_be.Common.Tests.{if◌then◌else◌, ◌==◌, Bool-cases}

module _ {ℓ} {A : Type ℓ} where
  abbrev pub length : List A → ℕ
  length [] = 0
  length (x ∷ xs) = suc (length xs)

  pub length-append : (xs ys : List A) → length (xs ++ ys) ≡ length xs + length ys
  length-append [] ys = omega arith
  length-append (x ∷ xs) ys = omega (arith, length-append xs ys)

  -- `Array.find`.
  abbrev pub find : (A → Bool) → List A → Option A
  find p [] = none
  find p (x ∷ xs) = let rest = find p xs in if p x then some x else rest

  -- `Array.some` and `Array.every`.
  abbrev pub any : (A → Bool) → List A → Bool
  any p [] = false
  any p (x ∷ xs) = let rest = any p xs in if p x then true else rest

  abbrev pub all : (A → Bool) → List A → Bool
  all p [] = true
  all p (x ∷ xs) = let rest = all p xs in if p x then rest else false

  -- `Array.filter`.
  abbrev pub filter : (A → Bool) → List A → List A
  filter p [] = []
  filter p (x ∷ xs) = let rest = filter p xs in if p x then x ∷ rest else rest

  -- How many entries pass.
  abbrev pub count : (A → Bool) → List A → ℕ
  count p [] = 0
  count p (x ∷ xs) = let rest = count p xs in if p x then suc rest else rest

  pub count-append : (p : A → Bool) (xs ys : List A) → count p (xs ++ ys) ≡ count p xs + count p ys
  count-append p [] ys = omega arith
  count-append p (x ∷ xs) ys = ground (arith, count-append p xs ys)

  -- `findOneAndUpdate`: the first entry that passes is replaced, the others stay.
  abbrev pub update_first : (A → Bool) → (A → A) → List A → List A
  update_first p f [] = []
  update_first p f (x ∷ xs) = let rest = update_first p f xs in if p x then f x ∷ xs else x ∷ rest

  -- `updateMany`: every entry that passes is replaced.
  abbrev pub update_all : (A → Bool) → (A → A) → List A → List A
  update_all p f [] = []
  update_all p f (x ∷ xs) = let rest = update_all p f xs in (if p x then f x else x) ∷ rest

  abbrev pub All {κ} : (A → Type κ) → List A → Type κ
  All P [] = Unit
  All P (x ∷ xs) = P x × All P xs

-- `Array.includes` on identifiers.
abbrev pub contains : ℕ → List ℕ → Bool
contains a = any (λ b. a == b)

-- `x` stands in the list.
abbrev pub OneOf : {A : Type 0} → A → List A → Type 0
OneOf x [] = ⊥
OneOf x (y ∷ ys) = (x ≡ y) ⊎ OneOf x ys

-- `list[0]`
abbrev pub first {ℓ} : {A : Type ℓ} → List A → Option A
first [] = none
first (x ∷ xs) = some x

pub All-OneOf {κ} :
    {A : Type 0} (P : A → Type κ) (x : A) (xs : List A) → All P xs → OneOf x xs → P x
All-OneOf P x [] h m = absurd m
All-OneOf P x (y ∷ ys) h (inl e) = subst P (sym e) h.0
All-OneOf P x (y ∷ ys) h (inr m) = All-OneOf P x ys h.1 m

module _ {ℓ} {A : Type ℓ} (p : A → Bool) where
  pub any-append : (xs ys : List A) → any p (xs ++ ys) ≡ any p xs || any p ys
  any-append [] ys = refl
  any-append (x ∷ xs) ys = ground (arith, any-append xs ys)

  -- A search finds something exactly if some entry passes.
  pub any-find : (xs : List A) (x : A) → find p xs ≡ some x → any p xs ≡ true
  any-find [] x h = cc
  any-find (y ∷ ys) x h = ground (arith, any-find ys x)

  pub find-append_new :
      (xs : List A) (x : A) → any p xs ≡ false → p x ≡ true → find p (xs ++ x ∷ []) ≡ some x
  find-append_new [] x h e = ground arith
  find-append_new (y ∷ ys) x h e = ground (arith, find-append_new ys x)

  pub find-eq_none : (xs : List A) → any p xs ≡ false → find p xs ≡ none
  find-eq_none [] h = refl
  find-eq_none (x ∷ xs) h = ground (arith, find-eq_none xs)

abbrev pub bit : Bool → ℕ
bit true = 1
bit false = 0

module _ {ℓ} {A : Type ℓ} (p q : A → Bool) (f : A → A) where
  -- Replacing the first entry that passes `p` moves the count of `q` by that entry alone.
  pub count-update_first :
      (a b : Bool) (xs : List A)
      → ((x : A) → p x ≡ true → q x ≡ a)
      → ((x : A) → p x ≡ true → q (f x) ≡ b)
      → any p xs ≡ true
      → count q (update_first p f xs) + bit a ≡ count q xs + bit b
  count-update_first a b [] old new h = cc
  count-update_first a b (x ∷ xs) old new h = elim (Bool-cases (p x)) [
    | inl hit ↦ ground (arith, old x hit, new x hit)
    | inr miss ↦ ground (arith, count-update_first a b xs old new)
  ]

  pub count-update_first_le :
      (xs : List A)
      → ((x : A) → p x ≡ true → q (f x) ≡ true → q x ≡ true)
      → count q (update_first p f xs) ≤ count q xs
  count-update_first_le [] h = omega arith
  count-update_first_le (x ∷ xs) h = elim (Bool-cases (p x)) [
    | inl hit ↦ ground (arith, h x hit)
    | inr miss ↦ ground (arith, count-update_first_le xs h)
  ]

  pub any-update_first :
      (xs : List A)
      → ((x : A) → p x ≡ true → q x ≡ true → q (f x) ≡ true)
      → any q xs ≡ true
      → any q (update_first p f xs) ≡ true
  any-update_first [] h e = cc
  any-update_first (x ∷ xs) h e = elim (Bool-cases (p x)) [
    | inl hit ↦ ground (arith, h x hit)
    | inr miss ↦ ground (arith, any-update_first xs h)
  ]

module _ {ℓ} {A : Type ℓ} (q : A → Bool) where
  pub count-zero : (xs : List A) → any q xs ≡ false → count q xs ≡ 0
  count-zero [] h = refl
  count-zero (x ∷ xs) h = ground (arith, count-zero xs)

  pub count-positive : (xs : List A) → any q xs ≡ true → 1 ≤ count q xs
  count-positive [] h = cc
  count-positive (x ∷ xs) h = ground (arith, count-positive xs)

pub all-update_first {ℓ} :
    {A : Type ℓ} (p q : A → Bool) (f : A → A) (xs : List A)
    → ((x : A) → p x ≡ true → q x ≡ true → q (f x) ≡ true)
    → all q xs ≡ true
    → all q (update_first p f xs) ≡ true
all-update_first p q f [] keep h = h
all-update_first p q f (x ∷ xs) keep h = elim (Bool-cases (p x)) [
  | inl hit ↦ ground (arith, keep x hit)
  | inr miss ↦ ground (arith, all-update_first p q f xs keep)
]

pub all_mono {ℓ} :
    {A : Type ℓ} (p q : A → Bool) (xs : List A)
    → ((x : A) → p x ≡ true → q x ≡ true)
    → all p xs ≡ true
    → all q xs ≡ true
all_mono p q [] keep h = h
all_mono p q (x ∷ xs) keep h = elim (Bool-cases (p x)) [
  | inl hit ↦ ground (arith, keep x hit, all_mono p q xs keep)
  | inr miss ↦ absurd (ground arith)
]

pub all-append {ℓ} :
    {A : Type ℓ} (p : A → Bool) (xs ys : List A)
    → all p xs ≡ true
    → all p ys ≡ true
    → all p (xs ++ ys) ≡ true
all-append p [] ys h k = k
all-append p (x ∷ xs) ys h k = ground (arith, all-append p xs ys)

pub all-find {ℓ} :
    {A : Type ℓ} (p q : A → Bool) (xs : List A) (x : A)
    → find p xs ≡ some x
    → all q xs ≡ true
    → q x ≡ true
all-find p q [] x e h = cc
all-find p q (y ∷ ys) x e h = elim (Bool-cases (p y)) [
  | inl hit ↦ let same : y ≡ x = ground arith in rw (sym same) (ground arith)
  | inr miss ↦ all-find p q ys x (ground arith) (ground arith)
]

pub find-passes {ℓ} :
    {A : Type ℓ} (p : A → Bool) (xs : List A) (x : A) → find p xs ≡ some x → p x ≡ true
find-passes p [] x e = cc
find-passes p (y ∷ ys) x e = elim (Bool-cases (p y)) [
  | inl hit ↦ let same : y ≡ x = ground arith in subst (λ z. p z ≡ true) same hit
  | inr miss ↦ find-passes p ys x (ground arith)
]

-- Replacing the entry that a search finds.
module _ {ℓ} {A : Type ℓ} (p : A → Bool) (f : A → A) where
  pub all-update_found :
      (q : A → Bool) (xs : List A)
      → ((x : A) → find p xs ≡ some x → q (f x) ≡ true)
      → all q xs ≡ true
      → all q (update_first p f xs) ≡ true
  all-update_found q [] new h = h
  all-update_found q (x ∷ xs) new h = elim (Bool-cases (p x)) [
    | inl hit ↦ ground (arith, new x)
    | inr miss ↦
        let rest = all-update_found q xs (λ y e. new y (ground arith)) (ground arith) in
        ground arith
  ]

  pub find-update_found :
      (xs : List A) (x : A)
      → find p xs ≡ some x
      → p (f x) ≡ true
      → find p (update_first p f xs) ≡ some (f x)
  find-update_found [] x e h = cc
  find-update_found (y ∷ ys) x e h = elim (Bool-cases (p y)) [
    | inl hit ↦
        let same : y ≡ x = ground arith in
        let now : p (f y) ≡ true = subst (λ z. p (f z) ≡ true) (sym same) h in ground arith
    | inr miss ↦ ground (arith, find-update_found ys x)
  ]
