-- ===== src/Orders/Offer.antt =====
-- `quoteBandwidth` of orders.service.ts: the price of a size with the whole scale of tiers and a
-- hint at the next one. It makes no order and takes no money.
use appchat_be.Common.{
  ℕ, ◌-◌, ◌*◌, Bool, not, Option, none, some, List, [], ◌∷◌, leb, ◌==◌, if◌then◌else◌, any, first,
  Result, ok, ◌>>=◌, ◌>>◌, throw_if, or_throw,
}
use mathlib.Core.Option
use appchat_be.Common.Int.{ℤ, pos, ◌-ℤ◌, ◌*ℤ◌}
use appchat_be.Orders.Pricing.{
  Error, bad_service, not_bandwidth, Tier, TierChoice, Service, Request, resolve_bandwidth_tier,
  resolve_pricing,
}

-- A line of the scale; the last tier has no ceiling.
pub record Line : Type 0 where
  pub min_gb : ℕ
  pub max_gb : Option ℕ
  pub price_per_gb : ℕ
  pub days : ℤ
  pub active : Bool

pub record NextTier : Type 0 where
  pub min_gb : ℕ
  pub price_per_gb : ℕ
  pub gb_needed : ℤ
  pub total_at_min : ℤ
  pub cheaper_by : ℤ
  pub saving_at_min : ℤ

pub record Offer : Type 0 where
  pub gb : ℕ
  pub min_gb : ℕ
  pub max_gb : ℕ
  pub price_per_gb : ℕ
  pub days : ℤ
  pub base_total : ℤ
  pub discount_amount : ℤ
  pub total : ℤ
  pub tiers : List Line
  pub next_tier : Option NextTier

-- A service as it is read: whether it is on sale, and its pricing.
pub record Listed : Type 0 where
  pub on_sale : Bool
  pub service : Service

abbrev pub is_min : ℕ → Tier → Bool
is_min m t = t.min_gb == m

-- `tiers.map(...)` with the neighbour to the right.
unfoldable pub lines : ℕ → List Tier → List Line
lines m [] = []
lines m (t ∷ ts) =
    record {
      min_gb = t.min_gb;
      max_gb = Option.map (λ n. n.min_gb - 1) (first ts);
      price_per_gb = t.price_per_gb;
      days = t.days;
      active = is_min m t;
    }
    ∷ lines m ts

abbrev pub after_match : ℕ → List Tier → Option Tier
after_match m [] = none
after_match m (t ∷ ts) = let rest = after_match m ts in if is_min m t then first ts else rest

-- `tiers[tiers.findIndex((t) => t.min_gb === tier.min_gb) + 1]`
unfoldable pub tier_after : ℕ → List Tier → Option Tier
tier_after m tiers = if any (is_min m) tiers then after_match m tiers else first tiers

abbrev pub hint_at : TierChoice → ℤ → Tier → NextTier
hint_at c base n = record {
  min_gb = n.min_gb;
  price_per_gb = n.price_per_gb;
  gb_needed = pos n.min_gb -ℤ pos c.gb;
  total_at_min = pos n.price_per_gb *ℤ n.min_gb;
  cheaper_by = base -ℤ pos n.price_per_gb *ℤ n.min_gb;
  saving_at_min = (pos c.tier.price_per_gb -ℤ pos n.price_per_gb) *ℤ n.min_gb;
}

-- The next tier, if the service sells so much.
abbrev pub next_of : TierChoice → ℤ → Option Tier → Option NextTier
next_of c base none = none
next_of c base (some n) = if leb n.min_gb c.max_gb then some (hint_at c base n) else none

-- The size that was found is priced as a request for exactly it.
abbrev pub request_for : ℕ → Request
request_for gb = record {
  gb = some (some (pos (gb * 1000)));
  package_key = none;
  duration_days = 0;
  quantity = none;
}

unfoldable pub quote_bandwidth : Option Listed → Option ℤ → ℕ → Result Error Offer
quote_bandwidth listed raw user_id = do
  l ← or_throw listed bad_service
  throw_if (not l.on_sale) bad_service
  throw_if (not l.service.is_bandwidth) not_bandwidth
  c ← resolve_bandwidth_tier l.service raw
  p ← resolve_pricing l.service (request_for c.gb) user_id
  ok (record {
    gb = c.gb;
    min_gb = c.min_gb;
    max_gb = c.max_gb;
    price_per_gb = c.tier.price_per_gb;
    days = p.duration_days;
    base_total = p.base_price;
    discount_amount = p.discount_amount;
    total = p.total_price;
    tiers = lines c.tier.min_gb c.tiers;
    next_tier = next_of c p.base_price (tier_after c.tier.min_gb c.tiers);
  })
