-- ===== src/Common/Sorting.antt =====
-- `Array.sort` with a comparator: a stable sort, as an insertion sort from the right.
use appchat_be.Common.Tests.{leb, if◌then◌else◌}
use Prim.Native.Nat.{ℕ, ◌≤◌}
use appchat_be.Common.Lists.{All, first}
use mathlib.Core.Path.{◌≡◌, refl}
use mathlib.Core.Bool.{Bool}
use mathlib.Core.Option.{Option, none, some}
use mathlib.Core.List.{List, [], ◌∷◌}
use native.Mathlib.Omega.{arith}

-- `before x y` is `compare(x, y) <= 0`.
module _ {ℓ} {A : Type ℓ} (before : A → A → Bool) where
  abbrev pub insert_sorted : A → List A → List A
  insert_sorted x [] = x ∷ []
  insert_sorted x (y ∷ ys) =
      let rest = insert_sorted x ys in if before x y then x ∷ y ∷ ys else y ∷ rest

  abbrev pub winner : A → Option A → A
  winner x none = x
  winner x (some y) = if before x y then x else y

  pub first-insert_sorted :
      (x : A) (ys : List A) → first (insert_sorted x ys) ≡ some (winner x (first ys))
  first-insert_sorted x [] = refl
  first-insert_sorted x (y ∷ ys) = ground arith

  abbrev pub sort : List A → List A
  sort [] = []
  sort (x ∷ xs) = insert_sorted x (sort xs)

module _ {ℓ κ} {A : Type ℓ} (before : A → A → Bool) (P : A → Type κ) where
  pub insert_sorted-All : (x : A) (ys : List A) → P x → All P ys → All P (insert_sorted before x ys)
  insert_sorted-All x [] px ps = (px, ps)
  insert_sorted-All x (y ∷ ys) px (py, ps) = ground (arith, insert_sorted-All x ys px ps)

  -- Sorting keeps what holds of every entry.
  pub sort-All : (xs : List A) → All P xs → All P (sort before xs)
  sort-All [] ps = ps
  sort-All (x ∷ xs) (px, ps) = insert_sorted-All x (sort before xs) px (sort-All xs ps)

module _ {ℓ} {A : Type ℓ} (key : A → ℕ) where
  -- The keys rise along the list.
  abbrev pub Ascending : List A → Type 0
  Ascending [] = Unit
  Ascending (x ∷ xs) = All (λ y. key x ≤ key y) xs × Ascending xs

  Below-mono : (m n : ℕ) (xs : List A) → m ≤ n → All (λ y. n ≤ key y) xs → All (λ y. m ≤ key y) xs
  Below-mono m n [] h a = tt
  Below-mono m n (x ∷ xs) h a = (omega arith, Below-mono m n xs h a.1)

  insert_sorted-Ascending :
      (x : A) (ys : List A)
      → Ascending ys
      → Ascending (insert_sorted (λ a b. leb (key a) (key b)) x ys)
  insert_sorted-Ascending x [] a = (tt, tt)
  insert_sorted-Ascending x (y ∷ ys) a = ground (
    arith,
    insert_sorted-Ascending x ys a.1,
    Below-mono (key x) (key y) ys,
    insert_sorted-All (λ a b. leb (key a) (key b)) (λ z. key y ≤ key z) x ys,
  )

  pub sort-Ascending : (xs : List A) → Ascending (sort (λ a b. leb (key a) (key b)) xs)
  sort-Ascending [] = tt
  sort-Ascending (x ∷ xs) =
      insert_sorted-Ascending x (sort (λ a b. leb (key a) (key b)) xs) (sort-Ascending xs)
