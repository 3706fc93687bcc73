-- ===== src/Orders/Pricing.antt =====
-- `resolveBandwidthTier` and `resolvePricing` of orders.service.ts. Money is in whole VND and may be
-- negative where the source does not exclude it; sizes of tiers are in whole GB. A number that the
-- source reads by `Number(x) || 0` is an integer here, 0 where it is missing or `NaN`.
use appchat_be.Common.{
  ℕ, ◌/◌, Bool, true, false, ◌&&◌, ◌||◌, Option, none, some, List, [], ◌∷◌, ltb, leb, ◌==◌,
  if◌then◌else◌, sort, or_else, Text, eq_text, decimal, Result, ok, err, ◌>>=◌, ◌>>◌, throw_if,
  or_throw,
}
use appchat_be.Common.Int.{ℤ, pos, negsuc, ◌-ℤ◌, ◌*ℤ◌, min_ℤ}

pub data Error : Type 0 where
  no_tiers bad_gb gb_out_of_range : Error
  no_package unknown_package package_without_gb : Error
  unknown_duration quantity_out_of_range : Error
  bad_service not_bandwidth : Error

-- A tier as the service document has it.
pub record RawTier : Type 0 where
  pub min_gb : ℤ
  pub price_per_gb : ℤ
  pub cost_per_gb : Option ℤ
  pub days : ℤ

-- A tier that is kept: its minimum and its price are positive.
pub record Tier : Type 0 where
  pub min_gb : ℕ
  pub price_per_gb : ℕ
  pub cost_per_gb : Option ℤ
  pub days : ℤ

abbrev pub keep_tier : RawTier → List Tier → List Tier
keep_tier r rest = elim r.min_gb [
  | negsuc m ↦ rest
  | pos m ↦ elim r.price_per_gb [
    | negsuc p ↦ rest
    | pos p ↦
        if ltb 0 m && ltb 0 p
        then record { min_gb = m; price_per_gb = p; cost_per_gb = r.cost_per_gb; days = r.days }
          ∷ rest
        else rest
  ]
]

-- `.map(...).filter((t) => t.min_gb > 0 && t.price_per_gb > 0)`
abbrev pub kept_tiers : List RawTier → List Tier
kept_tiers [] = []
kept_tiers (r ∷ rs) = keep_tier r (kept_tiers rs)

-- `(a, b) => a.min_gb - b.min_gb`
abbrev pub lower_first : Tier → Tier → Bool
lower_first a b = leb a.min_gb b.min_gb

-- `for (const t of tiers) if (gb >= t.min_gb) tier = t`
unfoldable pub last_reached : ℕ → Tier → List Tier → Tier
last_reached gb tier [] = tier
last_reached gb tier (t ∷ ts) = last_reached gb (if leb t.min_gb gb then t else tier) ts

-- `Math.floor(Number(rawGb))`, the number in thousandths of a GB; `none` is `NaN` or infinite.
abbrev pub floor_gb : Option ℤ → Result Error ℕ
floor_gb none = err bad_gb
floor_gb (some (negsuc n)) = err bad_gb
floor_gb (some (pos n)) = if n / 1000 == 0 then err bad_gb else ok (n / 1000)

pub record Plan : Type 0 where
  pub price : ℤ
  pub cost : Option ℤ
  pub gb : ℤ
  pub days : ℤ

pub record Service : Type 0 where
  pub is_bandwidth : Bool
  pub bandwidth_tiers : List RawTier
  pub bandwidth_max_gb : ℤ
  pub pricing : List (Text × Plan)
  pub user_discounts : List (ℕ × List (Text × ℤ))
  pub min_quantity : ℤ
  pub max_quantity : ℤ

-- `n && n > 0 ? n : fallback`
abbrev pub positive_or : ℕ → ℤ → ℕ
positive_or fallback (negsuc n) = fallback
positive_or fallback (pos n) = if n == 0 then fallback else n

pub record TierChoice : Type 0 where
  pub gb : ℕ
  pub min_gb : ℕ
  pub max_gb : ℕ
  pub tier : Tier
  pub tiers : List Tier

abbrev pub choose_tier : ℕ → List Tier → Option ℤ → Result Error TierChoice
choose_tier max_gb [] raw = err no_tiers
choose_tier max_gb (t ∷ ts) raw = do
  gb ← floor_gb raw
  throw_if (ltb gb t.min_gb || ltb max_gb gb) gb_out_of_range
  ok (record {
    gb = gb;
    min_gb = t.min_gb;
    max_gb = max_gb;
    tier = last_reached gb t (t ∷ ts);
    tiers = t ∷ ts;
  })

unfoldable pub resolve_bandwidth_tier : Service → Option ℤ → Result Error TierChoice
resolve_bandwidth_tier s raw =
    choose_tier (positive_or 1000 s.bandwidth_max_gb)
      (sort lower_first (kept_tiers s.bandwidth_tiers)) raw

abbrev pub lookup_text : {A : Type 0} → Text → List (Text × A) → Option A
lookup_text k [] = none
lookup_text k ((j, a) ∷ m) = let rest = lookup_text k m in if eq_text j k then some a else rest

abbrev pub lookup_id : {A : Type 0} → ℕ → List (ℕ × A) → Option A
lookup_id k [] = none
lookup_id k ((j, a) ∷ m) = let rest = lookup_id k m in if j == k then some a else rest

-- `Number(service.user_discounts?.[userId]?.[key] ?? 0) || 0`
unfoldable pub user_discount : Service → ℕ → Text → ℤ
user_discount s user_id key = elim (lookup_id user_id s.user_discounts) [
  | none ↦ pos 0
  | some m ↦ or_else (lookup_text key m) (pos 0)
]

-- The request: exactly one of the three ways to buy is read, by the service's mode.
pub record Request : Type 0 where
  pub gb : Option (Option ℤ)
  pub package_key : Option Text
  pub duration_days : ℕ
  pub quantity : Option ℤ

pub record Price : Type 0 where
  pub is_bandwidth : Bool
  pub quantity : ℕ
  pub duration_days : ℤ
  pub bandwidth_gb : Option ℕ
  pub base_price : ℤ
  pub price_per_unit : ℤ
  pub cost_per_unit : Option ℤ
  pub discount_per_unit : ℤ
  pub discount_amount : ℤ
  pub total_price : ℤ
  pub total_cost : Option ℤ
  pub pricing_key : Text

abbrev pub times : ℕ → Option ℤ → Option ℤ
times k none = none
times k (some a) = some (a *ℤ k)

-- `per_gb` and `gb:`
abbrev pub per_gb : Text
per_gb = b'p' ∷ b'e' ∷ b'r' ∷ b'_' ∷ b'g' ∷ b'b' ∷ []

abbrev pub gb_key : ℕ → Text
gb_key gb = b'g' ∷ b'b' ∷ b':' ∷ decimal gb

-- So many GB by the tiers: the discount is for each GB.
unfoldable pub price_by_gb : Service → ℕ → Option ℤ → Result Error Price
price_by_gb s user_id raw = do
  choice ← resolve_bandwidth_tier s raw
  let gb = choice.gb
  let base = pos choice.tier.price_per_gb *ℤ gb
  let discount = min_ℤ (pos choice.tier.price_per_gb) (user_discount s user_id per_gb) *ℤ gb
  ok (record {
    is_bandwidth = true;
    quantity = 1;
    duration_days = choice.tier.days;
    bandwidth_gb = some gb;
    base_price = base;
    price_per_unit = base -ℤ discount;
    cost_per_unit = times gb choice.tier.cost_per_gb;
    discount_per_unit = discount;
    discount_amount = discount;
    total_price = base -ℤ discount;
    total_cost = times gb choice.tier.cost_per_gb;
    pricing_key = gb_key gb;
  })

abbrev pub positive_gb : ℤ → Result Error ℕ
positive_gb (negsuc n) = err package_without_gb
positive_gb (pos n) = if n == 0 then err package_without_gb else ok n

-- A package of so many GB, sold whole.
unfoldable pub price_package : Service → ℕ → Text → Result Error Price
price_package s user_id key = do
  plan ← or_throw (lookup_text key s.pricing) unknown_package
  gb ← positive_gb plan.gb
  let discount = min_ℤ plan.price (user_discount s user_id key)
  ok (record {
    is_bandwidth = true;
    quantity = 1;
    duration_days = plan.days;
    bandwidth_gb = some gb;
    base_price = plan.price;
    price_per_unit = plan.price -ℤ discount;
    cost_per_unit = plan.cost;
    discount_per_unit = discount;
    discount_amount = discount;
    total_price = plan.price -ℤ discount;
    total_cost = plan.cost;
    pricing_key = key;
  })

abbrev pub in_range : ℕ → ℕ → ℤ → Result Error ℕ
in_range low high (negsuc n) = err quantity_out_of_range
in_range low high (pos n) = if ltb n low || ltb high n then err quantity_out_of_range else ok n

-- So many units for so many days.
unfoldable pub price_duration : Service → ℕ → ℕ → Option ℤ → Result Error Price
price_duration s user_id days wanted = do
  let key = decimal days
  plan ← or_throw (lookup_text key s.pricing) unknown_duration
  quantity ←
      in_range (positive_or 1 s.min_quantity) (positive_or 100 s.max_quantity)
        (or_else wanted (pos 1))
  let discount = min_ℤ plan.price (user_discount s user_id key)
  ok (record {
    is_bandwidth = false;
    quantity = quantity;
    duration_days = pos days;
    bandwidth_gb = none;
    base_price = plan.price;
    price_per_unit = plan.price -ℤ discount;
    cost_per_unit = plan.cost;
    discount_per_unit = discount;
    discount_amount = discount *ℤ quantity;
    total_price = (plan.price -ℤ discount) *ℤ quantity;
    total_cost = times quantity plan.cost;
    pricing_key = key;
  })

-- `!key`: a missing key, or an empty one.
abbrev pub nonempty_key : Option Text → Result Error Text
nonempty_key none = err no_package
nonempty_key (some []) = err no_package
nonempty_key (some (c ∷ s)) = ok (c ∷ s)

unfoldable pub resolve_pricing : Service → Request → ℕ → Result Error Price
resolve_pricing s dto user_id =
    if s.is_bandwidth
    then (elim dto.gb [
      | some raw ↦ price_by_gb s user_id raw
      | none ↦ nonempty_key dto.package_key >>= price_package s user_id
    ])
    else price_duration s user_id dto.duration_days dto.quantity
