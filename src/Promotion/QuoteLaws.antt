-- ===== src/Promotion/QuoteLaws.antt =====
-- On `calculateQuote` of deposit-promotions.service.ts.
use appchat_be.Common.{
  ℕ, ◌+◌, ◌*◌, ◌≤◌, ◌<◌, ◌≡◌, refl, sym, subst, false, Option, none, some, List, [], ◌∷◌, arith,
  leb, first-insert_sorted, winner, OneOf, All, ok, Value, max_safe, inl, inr, Bool-cases,
}
use appchat_be.Promotion.Quote.{
  Tier, Program, Quote, higher_first, applicable_tier, calculate_quote,
}

-- What the choice of a tier means, said without sorting.
abbrev pub IsBest : ℕ → List Tier → Option Tier → Type 0
IsBest amount tiers none = All (λ t. amount < t.min_amount) tiers
IsBest amount tiers (some t) =
    OneOf t tiers
    × (t.min_amount ≤ amount)
    × All (λ u. u.min_amount ≤ amount → u.min_amount ≤ t.min_amount) tiers

-- Of two minimums the second reaches as high for every tier.
Reached-mono :
    (amount : ℕ) {m n : ℕ} (tiers : List Tier)
    → m ≤ n
    → All (λ u. u.min_amount ≤ amount → u.min_amount ≤ m) tiers
    → All (λ u. u.min_amount ≤ amount → u.min_amount ≤ n) tiers
Reached-mono amount [] h a = tt
Reached-mono amount (t ∷ ts) h a = (omega arith, Reached-mono amount ts h a.1)

Unreached-below :
    (amount n : ℕ) (tiers : List Tier)
    → All (λ u. amount < u.min_amount) tiers
    → All (λ u. u.min_amount ≤ amount → u.min_amount ≤ n) tiers
Unreached-below amount n [] a = tt
Unreached-below amount n (t ∷ ts) a = (omega arith, Unreached-below amount n ts a.1)

IsBest-winner :
    (amount : ℕ) (t : Tier) (ts : List Tier) (o : Option Tier)
    → t.min_amount ≤ amount
    → IsBest amount ts o
    → IsBest amount (t ∷ ts) (some (winner higher_first t o))
IsBest-winner amount t ts none reach best =
    (inl refl, reach, (omega arith, Unreached-below amount t.min_amount ts best))
IsBest-winner amount t ts (some u) reach best = elim (Bool-cases (leb u.min_amount t.min_amount)) [
  | inl le ↦
      let wins : winner higher_first t (some u) ≡ t = rw le in
      subst (λ w. IsBest amount (t ∷ ts) (some w)) (sym wins)
        (inl refl, reach, (omega arith, Reached-mono amount ts (ground arith) best.2))
  | inr gt ↦
      let loses : winner higher_first t (some u) ≡ u = rw gt in
      subst (λ w. IsBest amount (t ∷ ts) (some w)) (sym loses)
        (inr best.0, best.1, (ground arith, best.2))
]

IsBest-skip :
    (amount : ℕ) (t : Tier) (ts : List Tier) (o : Option Tier)
    → leb t.min_amount amount ≡ false
    → IsBest amount ts o
    → IsBest amount (t ∷ ts) o
IsBest-skip amount t ts none miss best = (ground arith, best)
IsBest-skip amount t ts (some u) miss best = (inr best.0, best.1, (ground arith, best.2))

-- The tier that applies is the one with the highest minimum that the amount reaches; no tier
-- applies only when the amount reaches no minimum.
pub applicable_tier-IsBest :
    (amount : ℕ) (tiers : List Tier) → IsBest amount tiers (applicable_tier amount tiers)
unfolding applicable_tier
applicable_tier-IsBest amount [] = tt
applicable_tier-IsBest amount (t ∷ ts) = elim (Bool-cases (leb t.min_amount amount)) [
  | inl reach ↦
      rw (reach, first-insert_sorted higher_first t _)
        (IsBest-winner amount t ts _ (ground arith) (applicable_tier-IsBest amount ts))
  | inr miss ↦ rw miss (IsBest-skip amount t ts _ miss (applicable_tier-IsBest amount ts))
]

-- Without a program there is no bonus.
abbrev pub max_bonus_of : Option Program → ℕ
max_bonus_of none = 0
max_bonus_of (some p) = p.max_bonus

-- The bounds of a quote, and its total.
pub record IsSound (program : Option Program) (q : Quote) : Type 0 where
  pub least : 10000 ≤ q.amount
  pub total : q.total_amount ≡ q.amount + q.bonus_amount
  pub safe : q.total_amount ≤ max_safe
  pub share : q.bonus_amount * 10000 ≤ q.amount * q.rate
  pub capped : q.bonus_amount ≤ max_bonus_of program

-- A quote that is given is for 10,000 VND or more; its bonus is at most the rate's share of the
-- amount and at most the program's maximum, 0 without a program; and its total is amount and bonus
-- together, a safe integer.
pub calculate_quote-IsSound :
    (value : Value) (program : Option Program) {q : Quote}
    → calculate_quote value program ≡ ok q
    → IsSound program q
unfolding calculate_quote
calculate_quote-IsSound value none h = ground arith
calculate_quote-IsSound value (some p) h = ground arith
