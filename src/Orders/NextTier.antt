-- ===== src/Orders/NextTier.antt =====
-- The scale of tiers of `quoteBandwidth` in orders.service.ts: its active line, and the hint at the next tier.
use appchat_be.Common.{
  Option-cases, ℕ, ◌≤◌, ◌<◌, ◌≡◌, refl, sym, ap, ◌∙◌, subst, inl, inr, Bool, true, Option, none,
  some, List, [], ◌∷◌, arith, leb, any, count, first, OneOf, All, All-OneOf, Bool-cases,
}
use mathlib.Core.Option.{some-injective}
use appchat_be.Common.Int.{ℤ, pos, ◌+ℤ◌, ◌-ℤ◌, ◌*ℤ◌, int_laws}
use appchat_be.Orders.Pricing.{Tier, TierChoice}
use appchat_be.Orders.PricingLaws.{IsTierFor}
use appchat_be.Orders.Offer.{
  Line, NextTier, is_min, lines, after_match, tier_after, hint_at, next_of,
}

-- No two tiers start at the same size, and they ascend.
abbrev pub Strict : List Tier → Type 0
Strict [] = Unit
Strict (t ∷ ts) = All (λ u. t.min_gb < u.min_gb) ts × Strict ts

abbrev pub is_active : Line → Bool
is_active l = l.active

none_active :
    (m : ℕ) (ts : List Tier) → All (λ u. m < u.min_gb) ts → count is_active (lines m ts) ≡ 0
unfolding lines
none_active m [] h = refl
none_active m (t ∷ ts) h = ground (arith, none_active m ts h.1)

-- The active line is the tier's, and there is one.
pub one_active :
    (tier : Tier) (ts : List Tier)
    → Strict ts
    → OneOf tier ts
    → count is_active (lines tier.min_gb ts) ≡ 1
unfolding lines
one_active tier [] s m = absurd m
one_active tier (t ∷ ts) s (inl e) =
    let same : tier.min_gb ≡ t.min_gb = ap (λ u. u.min_gb) e in
    let above : All (λ u. tier.min_gb < u.min_gb) ts =
      subst (λ m. All (λ u. m < u.min_gb) ts) (sym same) s.0 in
    ground (arith, none_active tier.min_gb ts above)
one_active tier (t ∷ ts) s (inr m) =
    let above : t.min_gb < tier.min_gb = All-OneOf (λ u. t.min_gb < u.min_gb) tier ts s.0 m in
    ground (arith, one_active tier ts s.1 m)

any_min : (tier : Tier) (ts : List Tier) → OneOf tier ts → any (is_min tier.min_gb) ts ≡ true
any_min tier [] m = absurd m
any_min tier (t ∷ ts) (inl e) =
    let same : tier.min_gb ≡ t.min_gb = ap (λ u. u.min_gb) e in ground arith
any_min tier (t ∷ ts) (inr m) = ground (arith, any_min tier ts m)

All-map : (P Q : Tier → Type 0) (ts : List Tier) → ((t : Tier) → P t → Q t) → All P ts → All Q ts
All-map P Q [] f h = tt
All-map P Q (t ∷ ts) f h = (f t h.0, All-map P Q ts f h.1)

-- Of strictly ascending tiers above `m`, the first has the least minimum.
first_least :
    (m : ℕ) (ts : List Tier) {n : Tier}
    → Strict ts
    → All (λ u. m < u.min_gb) ts
    → first ts ≡ some n
    → OneOf n ts × (m < n.min_gb) × All (λ u. n.min_gb ≤ u.min_gb) ts
first_least m [] strict h e = absurd (ground arith)
first_least m (t ∷ ts) {n} strict h e =
    let same : t ≡ n = ground arith in
    (
      inl (sym same),
      subst (λ u. m < u.min_gb) same h.0,
      subst (λ k. All (λ u. k.min_gb ≤ u.min_gb) (t ∷ ts)) same
          (
            omega arith,
            All-map (λ u. t.min_gb < u.min_gb) (λ u. t.min_gb ≤ u.min_gb) ts
                (λ u above. omega (arith, above)) strict.0,
          ),
    )

-- What follows the tier has, beyond its minimum, the least minimum.
after_match_least :
    (tier : Tier) (ts : List Tier) {n : Tier}
    → Strict ts
    → OneOf tier ts
    → after_match tier.min_gb ts ≡ some n
    → OneOf n ts
      × (tier.min_gb < n.min_gb)
      × All (λ u. tier.min_gb < u.min_gb → n.min_gb ≤ u.min_gb) ts
after_match_least tier [] strict m e = absurd m
after_match_least tier (t ∷ ts) {n} strict (inl same) e =
    let at : tier.min_gb ≡ t.min_gb = ap (λ u. u.min_gb) same in
    let f =
      first_least tier.min_gb ts {n = n} strict.1
        (subst (λ k. All (λ u. k < u.min_gb) ts) (sym at) strict.0) (ground (arith, at)) in
    (
      inr f.0,
      f.1,
      (
        λ above. absurd (omega (arith, at, above)),
        All-map (λ u. n.min_gb ≤ u.min_gb) (λ u. tier.min_gb < u.min_gb → n.min_gb ≤ u.min_gb) ts
            (λ u le above. le) f.2,
      ),
    )
after_match_least tier (t ∷ ts) {n} strict (inr m) e =
    let below : t.min_gb < tier.min_gb = All-OneOf (λ u. t.min_gb < u.min_gb) tier ts strict.0 m in
    let f = after_match_least tier ts {n = n} strict.1 m (ground (arith, below)) in
    (inr f.0, f.1, (λ above. absurd (omega (arith, below, above)), f.2))

-- The tier from which a hint is taken: of the tiers, the one with the least minimum beyond the size.
abbrev pub IsNext : ℕ → List Tier → Tier → Type 0
IsNext gb tiers t =
    OneOf t tiers × (gb < t.min_gb) × All (λ u. gb < u.min_gb → t.min_gb ≤ u.min_gb) tiers

-- The tier after the one that a size reaches is the next one for the size.
pub tier_after-IsNext :
    (gb : ℕ) (tiers : List Tier) (tier : Tier) {n : Tier}
    → IsTierFor gb tiers tier
    → Strict tiers
    → tier_after tier.min_gb tiers ≡ some n
    → IsNext gb tiers n
unfolding tier_after
tier_after-IsNext gb tiers tier {n} best strict e =
    let there = any_min tier tiers best.0 in
    let a = after_match_least tier tiers {n = n} strict best.0 (ground arith) in
    let bound = All-OneOf (λ u. u.min_gb ≤ gb → u.min_gb ≤ tier.min_gb) n tiers best.2 a.0 in
    let beyond : gb < n.min_gb = elim (Bool-cases (leb n.min_gb gb)) [
      | inl reached ↦ absurd (omega (arith, bound (ground arith), a.1))
      | inr more ↦ ground arith
    ] in
    (
      a.0,
      beyond,
      All-map (λ u. tier.min_gb < u.min_gb → n.min_gb ≤ u.min_gb)
          (λ u. gb < u.min_gb → n.min_gb ≤ u.min_gb) tiers
          (λ u least above. least (omega (arith, best.1, above))) a.2,
    )

none_first : (m : ℕ) (ts : List Tier) → first ts ≡ none → All (λ u. u.min_gb ≤ m) ts
none_first m [] e = tt
none_first m (t ∷ ts) e = absurd (ground arith)

-- Where nothing follows the tier, it is the last.
after_match-none :
    (tier : Tier) (ts : List Tier)
    → Strict ts
    → OneOf tier ts
    → after_match tier.min_gb ts ≡ none
    → All (λ u. u.min_gb ≤ tier.min_gb) ts
after_match-none tier [] strict m e = tt
after_match-none tier (t ∷ ts) strict (inl same) e =
    let at : tier.min_gb ≡ t.min_gb = ap (λ u. u.min_gb) same in
    (omega (arith, at), none_first tier.min_gb ts (ground (arith, at)))
after_match-none tier (t ∷ ts) strict (inr m) e =
    let below : t.min_gb < tier.min_gb = All-OneOf (λ u. t.min_gb < u.min_gb) tier ts strict.0 m in
    (omega (arith, below), after_match-none tier ts strict.1 m (ground (arith, below)))

-- What the hint at the next tier says, beside the tiers, the size, the price of one GB, the greatest size and
-- the base total.
pub record IsHint (tiers : List Tier) (gb price max_gb : ℕ) (base : ℤ) (n : NextTier) : Type 0 where
  pub tier : Tier
  pub next : IsNext gb tiers tier
  pub starts : n.min_gb ≡ tier.min_gb
  pub price_there : n.price_per_gb ≡ tier.price_per_gb
  pub needed : pos gb +ℤ n.gb_needed ≡ pos n.min_gb
  pub for_sale : n.min_gb ≤ max_gb
  pub total_there : n.total_at_min ≡ pos tier.price_per_gb *ℤ tier.min_gb
  pub cheaper : n.total_at_min +ℤ n.cheaper_by ≡ base
  pub saved : n.saving_at_min ≡ (pos price -ℤ pos tier.price_per_gb) *ℤ tier.min_gb

shift_back : (a b : ℤ) → b +ℤ (a -ℤ b) ≡ a
shift_back a b = omega int_laws

hinted :
    (c : TierChoice) (base : ℤ) (n : Tier)
    → leb n.min_gb c.max_gb ≡ true
    → some (hint_at c base n) ≡ next_of c base (some n)
hinted c base n within = rw within refl

pub next_of-IsHint :
    (c : TierChoice) (base : ℤ) (after : Option Tier) {n : NextTier}
    → ((t : Tier) → after ≡ some t → IsNext c.gb c.tiers t)
    → next_of c base after ≡ some n
    → IsHint c.tiers c.gb c.tier.price_per_gb c.max_gb base n
next_of-IsHint c base none above e = absurd (ground arith)
next_of-IsHint c base (some t) above e = elim (Bool-cases (leb t.min_gb c.max_gb)) [
  | inr out ↦ absurd (ground arith)
  | inl within ↦
      subst (IsHint c.tiers c.gb c.tier.price_per_gb c.max_gb base)
        (some-injective _ _ (hinted c base t within ∙ e))
        (record {
          tier = t;
          next = above t refl;
          starts = refl;
          price_there = refl;
          needed = shift_back (pos t.min_gb) (pos c.gb);
          for_sale = ground arith;
          total_there = refl;
          cheaper = shift_back base _;
          saved = refl;
        })
]

-- Without a hint, no tier that is still to be reached is for sale.
abbrev pub Hinted : List Tier → ℕ → ℕ → ℕ → ℤ → Option NextTier → Type 0
Hinted tiers gb price max_gb base none = All (λ u. gb < u.min_gb → max_gb < u.min_gb) tiers
Hinted tiers gb price max_gb base (some n) = IsHint tiers gb price max_gb base n

pub Hinted-cases :
    (tiers : List Tier) (gb price max_gb : ℕ) (base : ℤ) (o : Option NextTier)
    → ((n : NextTier) → o ≡ some n → IsHint tiers gb price max_gb base n)
    → (o ≡ none → All (λ u. gb < u.min_gb → max_gb < u.min_gb) tiers)
    → Hinted tiers gb price max_gb base o
Hinted-cases tiers gb price max_gb base none h k = k refl
Hinted-cases tiers gb price max_gb base (some n) h k = h n refl

pub no_hint :
    (c : TierChoice) (base : ℤ)
    → IsTierFor c.gb c.tiers c.tier
    → Strict c.tiers
    → next_of c base (tier_after c.tier.min_gb c.tiers) ≡ none
    → All (λ u. c.gb < u.min_gb → c.max_gb < u.min_gb) c.tiers
unfolding tier_after
no_hint c base best strict e = elim (Option-cases (tier_after c.tier.min_gb c.tiers)) [
  | inl last ↦
      let there = any_min c.tier c.tiers best.0 in
      All-map (λ u. u.min_gb ≤ c.tier.min_gb) (λ u. c.gb < u.min_gb → c.max_gb < u.min_gb) c.tiers
        (λ u low above. absurd (omega (arith, low, above, best.1)))
        (after_match-none c.tier c.tiers strict best.0 (ground (arith, last)))
  | inr (t, after) ↦
      let next = tier_after-IsNext c.gb c.tiers c.tier {n = t} best strict after in
      let beyond : c.max_gb < t.min_gb = ground (arith, e, after) in
      All-map (λ u. c.gb < u.min_gb → t.min_gb ≤ u.min_gb)
        (λ u. c.gb < u.min_gb → c.max_gb < u.min_gb) c.tiers
        (λ u least above. omega (arith, beyond, least above)) next.2
]
