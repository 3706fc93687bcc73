-- ===== src/Orders/PricingLaws.antt =====
-- On `resolveBandwidthTier` and `resolvePricing` of orders.service.ts.
use appchat_be.Common.{
  ℕ, zero, suc, ◌+◌, ◌*◌, ◌/◌, ◌==◌, ◌≤◌, ◌<◌, ◌≡◌, refl, sym, inl, inr, Option, none, some, List,
  [], ◌∷◌, arith, leb, sort, Ascending, sort-Ascending, OneOf, All, ok, Bool-cases, Option-cases,
  throw_if-eq-ok, >>=-eq-ok, ltb, ◌||◌, ok-injective, subst, ap, or_throw, or_else, Text, decimal,
}
use appchat_be.Common.Int.{
  ℤ, pos, negsuc, ◌-ℤ◌, ◌*ℤ◌, ◌≤ℤ◌, min_ℤ, *ℤ_one, *ℤ_zero, *ℤ_mono, min_ℤ-le_left, sub_nonneg,
}
use appchat_be.Orders.Pricing.{
  Service, Request, Tier, TierChoice, Price, lower_first, last_reached, kept_tiers,
  resolve_bandwidth_tier, choose_tier, floor_gb, positive_or, resolve_pricing, price_by_gb,
  price_package, price_duration, user_discount, times, per_gb, lookup_text, unknown_package,
  unknown_duration, positive_gb, in_range, nonempty_key,
}

-- The tier for so many GB: one of the tiers, reached, and no reached tier has a higher minimum.
abbrev pub IsTierFor : ℕ → List Tier → Tier → Type 0
IsTierFor gb tiers t =
    OneOf t tiers × (t.min_gb ≤ gb) × All (λ u. u.min_gb ≤ gb → u.min_gb ≤ t.min_gb) tiers

abbrev IsLastReached : ℕ → Tier → List Tier → Tier → Type 0
IsLastReached gb t ts r = IsTierFor gb (t ∷ ts) r × (t.min_gb ≤ r.min_gb)

IsLastReached-take :
    (gb : ℕ) (t u : Tier) (us : List Tier) (r : Tier)
    → t.min_gb ≤ u.min_gb
    → IsLastReached gb u us r
    → IsLastReached gb t (u ∷ us) r
IsLastReached-take gb t u us r le h = ((inr h.0.0, h.0.1, (omega arith, h.0.2)), omega arith)

skip_second : (t u r : Tier) (us : List Tier) → OneOf r (t ∷ us) → OneOf r (t ∷ u ∷ us)
skip_second t u r us (inl e) = inl e
skip_second t u r us (inr m) = inr (inr m)

IsLastReached-skip :
    (gb : ℕ) (t u : Tier) (us : List Tier) (r : Tier)
    → gb < u.min_gb
    → IsLastReached gb t us r
    → IsLastReached gb t (u ∷ us) r
IsLastReached-skip gb t u us r lt h =
    ((skip_second t u r us h.0.0, h.0.1, (omega arith, (omega arith, h.0.2.1))), h.1)

last_reached-IsLastReached :
    (gb : ℕ) (t : Tier) (ts : List Tier)
    → t.min_gb ≤ gb
    → Ascending (λ u. u.min_gb) (t ∷ ts)
    → IsLastReached gb t ts (last_reached gb t ts)
unfolding last_reached
last_reached-IsLastReached gb t [] h a = ((inl refl, h, (omega arith, tt)), omega arith)
last_reached-IsLastReached gb t (u ∷ us) h a = elim (Bool-cases (leb u.min_gb gb)) [
  | inl reached ↦
      let e : last_reached gb t (u ∷ us) ≡ last_reached gb u us = rw reached in
      subst (IsLastReached gb t (u ∷ us)) (sym e) (
        IsLastReached-take gb t u us _ a.0.0
          (last_reached-IsLastReached gb u us (ground arith) a.1))
  | inr missed ↦
      let e : last_reached gb t (u ∷ us) ≡ last_reached gb t us = rw missed in
      subst (IsLastReached gb t (u ∷ us)) (sym e) (
        IsLastReached-skip gb t u us _ (ground arith)
          (last_reached-IsLastReached gb t us h (a.0.1, a.1.1)))
]

-- The tiers that the source walks: `tiers[0]` is both where the walk starts and its first entry.
IsTierFor-first :
    (gb : ℕ) (t : Tier) (ts : List Tier)
    → t.min_gb ≤ gb
    → Ascending (λ u. u.min_gb) (t ∷ ts)
    → IsTierFor gb (t ∷ ts) (last_reached gb t (t ∷ ts))
IsTierFor-first gb t ts h a =
    let e : last_reached gb t (t ∷ ts) ≡ last_reached gb t ts =
      unfold last_reached in
      (elim (Bool-cases (leb t.min_gb gb)) [ inl r ↦ rw r | inr m ↦ rw m ]) in
    subst (IsTierFor gb (t ∷ ts)) (sym e) (last_reached-IsLastReached gb t ts h a).0

-- The most that a service sells: its own maximum where that is positive, or else 1000 GB.
abbrev pub Ceiling : ℤ → ℕ → Type 0
Ceiling (negsuc n) most = most ≡ 1000
Ceiling (pos zero) most = most ≡ 1000
Ceiling (pos (suc n)) most = most ≡ suc n

-- The whole GB of a size that is asked for in thousandths.
abbrev pub Whole : Option ℤ → ℕ → Type 0
Whole none gb = ⊥
Whole (some (negsuc n)) gb = ⊥
Whole (some (pos n)) gb = (gb * 1000 ≤ n) × (n < gb * 1000 + 1000)

-- What a choice of a tier promises to a service and a size that is asked for.
pub record IsChoice (s : Service) (raw : Option ℤ) (c : TierChoice) : Type 0 where
  pub sorted : c.tiers ≡ sort lower_first (kept_tiers s.bandwidth_tiers)
  pub whole : Whole raw c.gb
  pub some_gb : 0 < c.gb
  pub ceiling : Ceiling s.bandwidth_max_gb c.max_gb
  pub lowest : All (λ t. c.min_gb ≤ t.min_gb) c.tiers
  pub least : c.min_gb ≤ c.gb
  pub most : c.gb ≤ c.max_gb
  pub tier_for : IsTierFor c.gb c.tiers c.tier

positive_or-Ceiling : (n : ℤ) → Ceiling n (positive_or 1000 n)
positive_or-Ceiling (negsuc n) = refl
positive_or-Ceiling (pos zero) = refl
positive_or-Ceiling (pos (suc n)) = ground arith

pub floor_gb-Whole : (raw : Option ℤ) {gb : ℕ} → floor_gb raw ≡ ok gb → Whole raw gb × (0 < gb)
floor_gb-Whole none h = cc
floor_gb-Whole (some (pos n)) {gb} h = elim (Bool-cases (n / 1000 == 0)) [
  | inl nothing ↦ absurd (ground arith)
  | inr something ↦
      let same : n / 1000 ≡ gb = ground arith in
      ((omega (arith, same), omega (arith, same)), ground arith)
]
floor_gb-Whole (some (negsuc n)) h = cc

choose_tier-IsChoice :
    (s : Service) (max_gb : ℕ) (tiers : List Tier) (raw : Option ℤ) {c : TierChoice}
    → Ceiling s.bandwidth_max_gb max_gb
    → tiers ≡ sort lower_first (kept_tiers s.bandwidth_tiers)
    → Ascending (λ u. u.min_gb) tiers
    → choose_tier max_gb tiers raw ≡ ok c
    → IsChoice s raw c
choose_tier-IsChoice s max_gb [] raw ceiling sorted a h = absurd (ground arith)
choose_tier-IsChoice s max_gb (t ∷ ts) raw {c} ceiling sorted a h =
    let (gb, e, k) = >>=-eq-ok (floor_gb raw) _ h in
    let (range, k') = throw_if-eq-ok (ltb gb t.min_gb || ltb max_gb gb) _ _ k in
    let whole = floor_gb-Whole raw e in
    subst (IsChoice s raw) (ok-injective k') (record {
      sorted = sorted;
      whole = whole.0;
      some_gb = whole.1;
      ceiling = ceiling;
      lowest = (omega arith, a.0);
      least = ground arith;
      most = ground arith;
      tier_for = IsTierFor-first gb t ts (ground arith) a;
    })

-- When a size is accepted, it is the whole GB of the size asked for and at least one; it lies between the
-- lowest minimum of the kept tiers and the service's maximum, which is 1000 where the service has
-- none; and the tier that sets the price is, among the kept tiers, the one with the highest minimum
-- that the size reaches.
pub resolve_bandwidth_tier-IsChoice :
    (s : Service) (raw : Option ℤ) {c : TierChoice}
    → resolve_bandwidth_tier s raw ≡ ok c
    → IsChoice s raw c
unfolding resolve_bandwidth_tier
resolve_bandwidth_tier-IsChoice s raw h =
    choose_tier-IsChoice s (positive_or 1000 s.bandwidth_max_gb) _ raw
      (positive_or-Ceiling s.bandwidth_max_gb) refl
      (sort-Ascending (λ t. t.min_gb) (kept_tiers s.bandwidth_tiers)) h

-- The figures of a price agree with one another, and the total is never negative.
pub record AddsUp (p : Price) : Type 0 where
  pub some_units : 1 ≤ p.quantity
  pub unit : p.price_per_unit ≡ p.base_price -ℤ p.discount_per_unit
  pub total : p.total_price ≡ p.price_per_unit *ℤ p.quantity
  pub discount : p.discount_amount ≡ p.discount_per_unit *ℤ p.quantity
  pub cost : p.total_cost ≡ times p.quantity p.cost_per_unit
  pub capped : p.discount_per_unit ≤ℤ p.base_price
  pub nonneg : pos 0 ≤ℤ p.total_price

times_one : (c : Option ℤ) → c ≡ times 1 c
times_one none = refl
times_one (some a) = ap some (sym (*ℤ_one a))

total_nonneg : (a b : ℤ) (k : ℕ) → b ≤ℤ a → pos 0 ≤ℤ (a -ℤ b) *ℤ k
total_nonneg a b k h =
    subst (λ z. z ≤ℤ (a -ℤ b) *ℤ k) (*ℤ_zero k) (*ℤ_mono (pos 0) (a -ℤ b) k (sub_nonneg a b h))

price_by_gb-AddsUp :
    (s : Service) (user_id : ℕ) (raw : Option ℤ) {p : Price}
    → price_by_gb s user_id raw ≡ ok p
    → AddsUp p
unfolding price_by_gb
price_by_gb-AddsUp s user_id raw h =
    let (c, e, k) = >>=-eq-ok (resolve_bandwidth_tier s raw) _ h in
    let price = pos c.tier.price_per_gb in
    let d = min_ℤ price (user_discount s user_id per_gb) in
    let le : d *ℤ c.gb ≤ℤ price *ℤ c.gb = *ℤ_mono d price c.gb (min_ℤ-le_left price _) in
    subst AddsUp (ok-injective k) (record {
      some_units = omega arith;
      unit = refl;
      total = sym (*ℤ_one _);
      discount = sym (*ℤ_one _);
      cost = times_one _;
      capped = le;
      nonneg = sub_nonneg _ _ le;
    })

price_package-AddsUp :
    (s : Service) (user_id : ℕ) (key : Text) {p : Price}
    → price_package s user_id key ≡ ok p
    → AddsUp p
unfolding price_package
price_package-AddsUp s user_id key h =
    let (plan, e, k) = >>=-eq-ok (or_throw (lookup_text key s.pricing) unknown_package) _ h in
    let (gb, e', k') = >>=-eq-ok (positive_gb plan.gb) _ k in
    let le = min_ℤ-le_left plan.price (user_discount s user_id key) in
    subst AddsUp (ok-injective k') (record {
      some_units = omega arith;
      unit = refl;
      total = sym (*ℤ_one _);
      discount = sym (*ℤ_one _);
      cost = times_one _;
      capped = le;
      nonneg = sub_nonneg _ _ le;
    })

in_range-bounds :
    (low high : ℕ) (n : ℤ) {q : ℕ} → in_range low high n ≡ ok q → (low ≤ q) × (q ≤ high)
in_range-bounds low high (pos n) h = ground arith
in_range-bounds low high (negsuc n) h = absurd (ground arith)

positive_or_pos : (n : ℕ) (a : ℤ) → 1 ≤ n → 1 ≤ positive_or n a
positive_or_pos n (pos m) h = ground arith
positive_or_pos n (negsuc m) h = h

price_duration-AddsUp :
    (s : Service) (user_id days : ℕ) (wanted : Option ℤ) {p : Price}
    → price_duration s user_id days wanted ≡ ok p
    → AddsUp p
unfolding price_duration
price_duration-AddsUp s user_id days wanted h =
    let (plan, e, k) =
      >>=-eq-ok (or_throw (lookup_text (decimal days) s.pricing) unknown_duration) _ h in
    let (q, range, k') =
      >>=-eq-ok
        (in_range (positive_or 1 s.min_quantity) (positive_or 100 s.max_quantity)
          (or_else wanted (pos 1)))
        _ k in
    let le = min_ℤ-le_left plan.price (user_discount s user_id (decimal days)) in
    subst AddsUp (ok-injective k') (record {
      some_units = omega (
        arith,
        positive_or_pos 1 s.min_quantity (omega arith),
        (in_range-bounds _ _ (or_else wanted (pos 1)) range).0,
      );
      unit = refl;
      total = refl;
      discount = refl;
      cost = refl;
      capped = le;
      nonneg = total_nonneg _ _ q le;
    })

-- Whatever way of buying the service and the request select, a price that is given adds up: the unit
-- price is the base price less the discount of a unit, the totals are the unit figures times the
-- quantity, the discount is at most the base price, and the total is not negative, whatever
-- discount the service holds for the user.
pub resolve_pricing-AddsUp :
    (s : Service) (dto : Request) (user_id : ℕ) {p : Price}
    → resolve_pricing s dto user_id ≡ ok p
    → AddsUp p
unfolding resolve_pricing
resolve_pricing-AddsUp s dto user_id h = elim (Bool-cases s.is_bandwidth) [
  | inr by_days ↦ price_duration-AddsUp s user_id dto.duration_days dto.quantity (ground arith)
  | inl by_size ↦ elim (Option-cases dto.gb) [
    | inr (raw, e) ↦ price_by_gb-AddsUp s user_id raw (ground arith)
    | inl no_gb ↦
        let (key, e, k) =
          >>=-eq-ok (nonempty_key dto.package_key) (price_package s user_id) (ground arith) in
        price_package-AddsUp s user_id key k
  ]
]

-- A price by days is for a quantity between the service's limits, which are 1 and 100 where the
-- service sets none.
pub price_duration-quantity :
    (s : Service) (user_id days : ℕ) (wanted : Option ℤ) {p : Price}
    → price_duration s user_id days wanted ≡ ok p
    → (positive_or 1 s.min_quantity ≤ p.quantity) × (p.quantity ≤ positive_or 100 s.max_quantity)
unfolding price_duration
price_duration-quantity s user_id days wanted {p} h =
    let (plan, e, k) =
      >>=-eq-ok (or_throw (lookup_text (decimal days) s.pricing) unknown_duration) _ h in
    let (q, range, k') =
      >>=-eq-ok
        (in_range (positive_or 1 s.min_quantity) (positive_or 100 s.max_quantity)
          (or_else wanted (pos 1)))
        _ k in
    subst
      (λ (r : Price).
        (positive_or 1 s.min_quantity ≤ r.quantity) × (r.quantity ≤ positive_or 100 s.max_quantity))
      (ok-injective k') (in_range-bounds _ _ (or_else wanted (pos 1)) range)
