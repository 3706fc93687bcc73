-- ===== src/Orders/TopupPrice.antt =====
-- What the checks of `topUpBandwidth` in orders.service.ts find out about an order that they let pass: its price,
-- and how the order grows.
use appchat_be.Common.{
  ◌+◌, or_else, if◌then◌else◌, ◌||◌, ◌==◌, or_throw, throw_if-eq-ok, >>=-eq-ok, ok-injective, ℕ,
  ◌≡◌, refl, sym, ap, ◌∙◌, subst, inl, inr, true, not, Bool-cases, Option, none, some, Result, ok,
  err, arith,
}
use appchat_be.Common.Int.{ℤ, pos, ◌+ℤ◌, ◌-ℤ◌, ◌*ℤ◌, ◌<ℤ◌, leb_ℤ, int_laws}
use appchat_be.Orders.Status.{
  OrderStatus, pending, paid, processing, completed, expired, cancelled, partial_refunded, failed,
  pending_refund, partial, refunded, active, depleted, same_status,
}
use appchat_be.Orders.Pricing.{
  Error, Price, Service, TierChoice, price_by_gb, resolve_bandwidth_tier,
}
use appchat_be.Orders.PricingLaws.{IsChoice, resolve_bandwidth_tier-IsChoice}
use appchat_be.Orders.Topup.{
  other_owner, by_days, not_running, over, partner_off, no_partner_data, no_service,
  unknown_provider, cannot_extend, ended, SizedOrder, Extender, price_of, priced, check_topup,
  topped_up, more_cost, profit_of,
}

-- A price for the order's service and the size that is asked for: the size is that of the tier's choice, and
-- the price, with the discount, is the tier's for so many GB.
pub record IsPriced (user_id : ℕ) (raw : Option ℤ) (o : SizedOrder) (price : Price) : Type 0 where
  pub service : Service
  pub there : o.service ≡ some service
  pub priced : price_by_gb service user_id raw ≡ ok price
  pub choice : TierChoice
  pub chosen : IsChoice service raw choice
  pub size : price.bandwidth_gb ≡ some choice.gb
  pub figures :
      price.total_price +ℤ price.discount_amount ≡ pos choice.tier.price_per_gb *ℤ choice.gb
  pub positive : pos 0 <ℤ price.total_price

-- The order has so many GB more and runs, its figures follow the price, and nothing else changes.
pub record Grows (gb : ℕ) (price : Price) (o o' : SizedOrder) : Type 0 where
  pub larger : o'.bandwidth_gb ≡ some (or_else o.bandwidth_gb 0 + gb)
  pub running : o'.status ≡ active
  pub total : o'.total_price ≡ o.total_price +ℤ price.total_price
  pub cost :
      (a : ℤ)
      → price.cost_per_unit ≡ some a
      → o'.total_cost ≡ some (or_else o.total_cost (pos 0) +ℤ a)
  pub no_cost : price.cost_per_unit ≡ none → o'.total_cost ≡ o.total_cost
  pub profit : (a : ℤ) → o'.total_cost ≡ some a → o'.profit ≡ o'.total_price -ℤ a
  pub rest :
      (o'.user_id ≡ o.user_id)
      × (o'.end_date ≡ o.end_date)
      × (o'.service ≡ o.service)
      × (o'.partner ≡ o.partner)

pub take_back : (m price : ℤ) → m -ℤ price +ℤ price ≡ m
take_back m price = omega int_laws

-- What `check_topup` finds out about an order that it lets pass.
pub record Passes (user_id : ℕ) (raw : Option ℤ) (o : SizedOrder) (price : Price) : Type 0 where
  pub owned : o.user_id ≡ user_id
  pub runs : same_status o.status active || same_status o.status depleted ≡ true
  pub good : IsPriced user_id raw o price

-- An order that runs or is used up is active after the top-up.
revived :
    (status : OrderStatus)
    → same_status status active || same_status status depleted ≡ true
    → (if same_status status depleted then active else status) ≡ active
revived active h = refl
revived depleted h = refl
revived pending h = cc
revived paid h = cc
revived processing h = cc
revived completed h = cc
revived expired h = cc
revived cancelled h = cc
revived partial_refunded h = cc
revived failed h = cc
revived pending_refund h = cc
revived partial h = cc
revived refunded h = cc

more_cost-some :
    (old : Option ℤ) (cost : Option ℤ) (a : ℤ)
    → cost ≡ some a
    → more_cost old cost ≡ some (or_else old (pos 0) +ℤ a)
more_cost-some old cost a e = rw e refl

pub topped_up-Grows :
    {user_id : ℕ} {raw : Option ℤ} {o : SizedOrder} {price : Price} (h : Passes user_id raw o price)
    → Grows h.good.choice.gb price o (topped_up price o)
topped_up-Grows {user_id} {raw} {o} {price} h = record {
  larger = ap (λ g. some (or_else o.bandwidth_gb 0 + or_else g 0)) h.good.size;
  running = revived o.status h.runs;
  total = refl;
  cost = λ a e. more_cost-some o.total_cost price.cost_per_unit a e;
  no_cost = λ e. ap (more_cost o.total_cost) e;
  profit = λ a e. ap (profit_of o.profit (o.total_price +ℤ price.total_price)) e;
  rest = (refl, refl, refl, refl);
}

priced-positive :
    (r : Result Error Price) (price : Price)
    → priced r ≡ ok price
    → (r ≡ ok price) × (pos 0 <ℤ price.total_price)
priced-positive (err e) price h = absurd (ground arith)
priced-positive (ok p) price h = elim (Bool-cases (leb_ℤ p.total_price (pos 0))) [
  | inl free ↦ absurd (ground (arith, free, h))
  | inr some_price ↦
      let given : priced (ok p) ≡ ok p = rw some_price refl in
      let same : p ≡ price = ok-injective (sym given ∙ h) in
      (ap ok same, subst (λ x. pos 0 <ℤ x.total_price) same (ground (arith, some_price)))
]

by_size :
    (s : Service) (user_id : ℕ) (raw : Option ℤ) {price : Price}
    → price_of s user_id raw ≡ ok price
    → price_by_gb s user_id raw ≡ ok price
by_size s user_id raw h = ground arith

priced-IsPriced :
    (user_id : ℕ) (raw : Option ℤ) (o : SizedOrder) (service : Service) (price : Price)
    → o.service ≡ some service
    → priced (price_of service user_id raw) ≡ ok price
    → IsPriced user_id raw o price
unfolding price_by_gb
priced-IsPriced user_id raw o service price there h =
    let (found, positive) = priced-positive (price_of service user_id raw) price h in
    let by_gb : price_by_gb service user_id raw ≡ ok price = by_size service user_id raw found in
    let (c, e, k) = >>=-eq-ok (resolve_bandwidth_tier service raw) _ by_gb in
    record {
      service = service;
      there = there;
      priced = by_gb;
      choice = c;
      chosen = resolve_bandwidth_tier-IsChoice service raw e;
      size = subst (λ q. q.bandwidth_gb ≡ some c.gb) (ok-injective k) refl;
      figures =
          subst (λ q. q.total_price +ℤ q.discount_amount ≡ pos c.tier.price_per_gb *ℤ c.gb)
            (ok-injective k) (take_back _ _);
      positive = positive;
    }

pub check_topup-Passes :
    (user_id now : ℕ) (raw : Option ℤ) (p : Extender) (o : SizedOrder) (price : Price)
    → check_topup user_id now raw p o ≡ ok price
    → Passes user_id raw o price
unfolding check_topup
check_topup-Passes user_id now raw p o price h =
    let a = throw_if-eq-ok (not (o.user_id == user_id)) other_owner _ h in
    let b = throw_if-eq-ok (not o.is_bandwidth) by_days _ a.1 in
    let c =
      throw_if-eq-ok (not (same_status o.status active || same_status o.status depleted))
        not_running _ b.1 in
    let d = throw_if-eq-ok (ended now o) over _ c.1 in
    let e = throw_if-eq-ok (not o.partner.status) partner_off _ d.1 in
    let f = throw_if-eq-ok (not o.partner.complete) no_partner_data _ e.1 in
    let g = >>=-eq-ok (or_throw o.service no_service) _ f.1 in
    let q = >>=-eq-ok (priced (price_of g.0 user_id raw)) _ g.2 in
    let r = throw_if-eq-ok (not p.registered) unknown_provider _ q.2 in
    let t = throw_if-eq-ok (not p.can_extend) cannot_extend _ r.1 in
    record {
      owned = ground (arith, a.0);
      runs = ground (arith, c.0);
      good =
          priced-IsPriced user_id raw o g.0 price (there_is o.service g.1)
            (q.1 ∙ ap ok (ok-injective t.1));
    }
  where
    there_is : (v : Option Service) {x : Service} → or_throw v no_service ≡ ok x → v ≡ some x
    there_is none h = absurd (ground arith)
    there_is (some y) h = ap some (ok-injective h)
