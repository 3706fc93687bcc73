-- ===== src/Orders/OfferLaws.antt =====
-- On `quoteBandwidth` of orders.service.ts.
use appchat_be.Common.{
  ◌/◌, ltb, ◌||◌, ℕ, ◌*◌, ◌≤◌, ◌<◌, ◌≡◌, refl, sym, ap, ◌∙◌, subst, true, not, Option, some, List,
  [], ◌∷◌, arith, count, sort, ok, >>=-eq-ok, throw_if-eq-ok, ok-injective,
}
use appchat_be.Common.Int.{ℤ, pos, ◌-ℤ◌, ◌*ℤ◌, ◌≤ℤ◌}
use appchat_be.Orders.Pricing.{
  Tier, TierChoice, Service, Price, price_by_gb, choose_tier, floor_gb, positive_or, kept_tiers,
  lower_first, resolve_bandwidth_tier, resolve_pricing, bad_service, not_bandwidth,
}
use appchat_be.Orders.PricingLaws.{
  IsChoice, floor_gb-Whole, resolve_bandwidth_tier-IsChoice, resolve_pricing-AddsUp,
}
use appchat_be.Orders.Offer.{Offer, Listed, request_for, quote_bandwidth}
use appchat_be.Orders.NextTier.{
  Strict, is_active, one_active, tier_after-IsNext, next_of-IsHint, Hinted, Hinted-cases, no_hint,
}

in_total :
    (s : Service) (user_id : ℕ) (raw : Option ℤ) {p : Price}
    → price_by_gb s user_id raw ≡ ok p
    → p.total_price ≡ p.base_price -ℤ p.discount_amount
unfolding price_by_gb
in_total s user_id raw h =
    let (c, e, k) = >>=-eq-ok (resolve_bandwidth_tier s raw) _ h in
    subst (λ p. p.total_price ≡ p.base_price -ℤ p.discount_amount) (ok-injective k) refl

sized :
    (s : Service) (user_id gb : ℕ) {p : Price}
    → s.is_bandwidth ≡ true
    → resolve_pricing s (request_for gb) user_id ≡ ok p
    → price_by_gb s user_id (some (pos (gb * 1000))) ≡ ok p
unfolding resolve_pricing
sized s user_id gb by_gb h = ground arith

floor_gb-whole : (gb : ℕ) → 0 < gb → floor_gb (some (pos (gb * 1000))) ≡ ok gb
floor_gb-whole gb h = let same : gb * 1000 / 1000 ≡ gb = omega arith in ground (arith, same)

-- Asking for the whole GB of a size finds the same tier.
whole_size :
    (most : ℕ) (tiers : List Tier) (raw : Option ℤ) {c : TierChoice}
    → choose_tier most tiers raw ≡ ok c
    → choose_tier most tiers (some (pos (c.gb * 1000))) ≡ ok c
whole_size most [] raw h = absurd (ground arith)
whole_size most (t ∷ ts) raw {c} h =
    let (gb, e, k) = >>=-eq-ok (floor_gb raw) _ h in
    let (range, k') = throw_if-eq-ok (ltb gb t.min_gb || ltb most gb) _ _ k in
    let same : gb ≡ c.gb = ap (λ d. d.gb) (ok-injective k') in
    subst (λ n. choose_tier most (t ∷ ts) (some (pos (n * 1000))) ≡ ok c) same
      (rw (floor_gb-whole gb (floor_gb-Whole raw e).1) k)

base_of :
    (s : Service) (user_id : ℕ) (raw : Option ℤ) (c : TierChoice) (p : Price)
    → resolve_bandwidth_tier s raw ≡ ok c
    → price_by_gb s user_id (some (pos (c.gb * 1000))) ≡ ok p
    → p.base_price ≡ pos c.tier.price_per_gb *ℤ c.gb
unfolding price_by_gb resolve_bandwidth_tier
base_of s user_id raw c p found h =
    let (d, e, k) = >>=-eq-ok (resolve_bandwidth_tier s (some (pos (c.gb * 1000)))) _ h in
    let same : d ≡ c = ok-injective (
      sym e
      ∙ whole_size (positive_or 1000 s.bandwidth_max_gb)
          (sort lower_first (kept_tiers s.bandwidth_tiers)) raw found) in
    subst (λ q. q.base_price ≡ pos c.tier.price_per_gb *ℤ c.gb) (ok-injective k)
      (ap (λ t. pos t.tier.price_per_gb *ℤ t.gb) same)

-- What `quote_bandwidth` promises to a service and a size that is asked for; `choice` is the tier that the size
-- reaches.
pub record IsOffer (s : Service) (raw : Option ℤ) (o : Offer) : Type 0 where
  pub choice : TierChoice
  pub chosen : IsChoice s raw choice
  pub size : o.gb ≡ choice.gb
  pub price : o.price_per_gb ≡ choice.tier.price_per_gb
  pub base : o.base_total ≡ pos o.price_per_gb *ℤ o.gb
  pub adds_up : o.total ≡ o.base_total -ℤ o.discount_amount
  pub not_negative : pos 0 ≤ℤ o.total
  pub in_range : (o.min_gb ≤ o.gb) × (o.gb ≤ o.max_gb)
  pub one_line : count is_active o.tiers ≡ 1
  pub hint : Hinted choice.tiers o.gb o.price_per_gb o.max_gb o.base_total o.next_tier

-- A quote is for the whole GB of the size that is asked for, priced at the tier that the size reaches; it
-- adds up and is not negative, its size is in the service's range, and exactly one line of the scale
-- is active. The hint, if there is one, is at the next tier: the one of those still to be reached
-- that has the least minimum, which may be bought; it has that tier's minimum and price, says how
-- many GB are missing, what that minimum costs there, how much less that is than the quote's base
-- total, and how much that minimum saves against the price of now. Without a hint no tier still to be
-- reached is for sale. It holds where no two tiers start
-- at the same size.
pub quote_bandwidth-IsOffer :
    (l : Listed) (raw : Option ℤ) (user_id : ℕ) {o : Offer}
    → Strict (sort lower_first (kept_tiers l.service.bandwidth_tiers))
    → quote_bandwidth (some l) raw user_id ≡ ok o
    → IsOffer l.service raw o
unfolding quote_bandwidth
quote_bandwidth-IsOffer l raw user_id {o} strict h =
    let (on_sale, h₁) = throw_if-eq-ok (not l.on_sale) bad_service _ h in
    let (by_gb, h₂) = throw_if-eq-ok (not l.service.is_bandwidth) not_bandwidth _ h₁ in
    let (c, found, h₃) = >>=-eq-ok (resolve_bandwidth_tier l.service raw) _ h₂ in
    let (p, priced, h₄) = >>=-eq-ok (resolve_pricing l.service (request_for c.gb) user_id) _ h₃ in
    let choice = resolve_bandwidth_tier-IsChoice l.service raw found in
    let sums = resolve_pricing-AddsUp l.service (request_for c.gb) user_id priced in
    let distinct : Strict c.tiers = subst Strict (sym choice.sorted) strict in
    let by_size = sized l.service user_id c.gb (ground arith) priced in
    subst (IsOffer l.service raw) (ok-injective h₄) (record {
      choice = c;
      chosen = choice;
      size = refl;
      price = refl;
      base = base_of l.service user_id raw c p found by_size;
      adds_up = in_total l.service user_id (some (pos (c.gb * 1000))) by_size;
      not_negative = sums.nonneg;
      in_range = (choice.least, choice.most);
      one_line = one_active c.tier c.tiers distinct choice.tier_for.0;
      hint =
          Hinted-cases c.tiers c.gb c.tier.price_per_gb c.max_gb p.base_price _
            (λ n e.
              next_of-IsHint c p.base_price _
                (λ t e'. tier_after-IsNext c.gb c.tiers c.tier choice.tier_for distinct e') e)
            (no_hint c p.base_price choice.tier_for distinct);
    })
