-- ===== src/Common/Updates.antt =====
-- Updates of every entry that passes, and lists put together.
use Prim.Native.Nat.{ℕ}
use mathlib.Core.Path.{◌≡◌, refl, ap, ◌∙◌}
use mathlib.Core.Logic.{inl, inr}
use mathlib.Core.Bool.{Bool}
use mathlib.Core.List.{List, [], ◌∷◌, ◌++◌}
use appchat_be.Common.Tests.{if◌then◌else◌}
use appchat_be.Common.Lists.{update_all, OneOf}

module _ {A : Type 0} (f : A → A) where
  -- Two updates are one where each entry comes out the same.
  pub update_all-twice :
      (p q r : A → Bool) (xs : List A)
      → ((x : A)
          → (let y = if p x then f x else x in if q y then f y else y) ≡ (if r x then f x else x))
      → update_all q f (update_all p f xs) ≡ update_all r f xs
  update_all-twice p q r [] h = refl
  update_all-twice p q r (x ∷ xs) h =
      ap (λ y. y ∷ update_all q f (update_all p f xs)) (h x)
      ∙ ap (λ ys. (if r x then f x else x) ∷ ys) (update_all-twice p q r xs h)

  pub update_all-agrees :
      (p q : A → Bool) (xs : List A)
      → ((x : A) → OneOf x xs → p x ≡ q x)
      → update_all p f xs ≡ update_all q f xs
  update_all-agrees p q [] h = refl
  update_all-agrees p q (x ∷ xs) h =
      ap (λ b. (if b then f x else x) ∷ update_all p f xs) (h x (inl refl))
      ∙ ap (λ ys. (if q x then f x else x) ∷ ys) (update_all-agrees p q xs (λ y m. h y (inr m)))

pub append_assoc : (a b c : List ℕ) → (a ++ b) ++ c ≡ a ++ (b ++ c)
append_assoc [] b c = refl
append_assoc (x ∷ a) b c = ap (λ ys. x ∷ ys) (append_assoc a b c)

pub append_nil : (a : List ℕ) → a ++ [] ≡ a
append_nil [] = refl
append_nil (x ∷ a) = ap (λ ys. x ∷ ys) (append_nil a)
