-- ===== src/Orders/Tests.antt =====
-- A service by size, a package and an order with a refund, for src/orders.
use appchat_be.Common.{
  ◌≡◌, refl, sym, decimal, true, false, none, some, List, [], ◌∷◌, arith, ok, sort,
}
use appchat_be.Common.Int.{pos, add_zero, ◌+ℤ◌, ◌-ℤ◌, ◌*ℤ◌, ◌<ℤ◌}
use appchat_be.Orders.Topup.{
  SizedOrder, Reply, TopupStore, Extender, check_topup, extend, top_up_bandwidth,
}
use appchat_be.Orders.TopupRepeats.{top_up_bandwidth_idem}
use appchat_be.Renewal.Order.{gpnip}
use appchat_be.Orders.Pricing.{
  Tier, TierChoice, Service, Request, Price, resolve_bandwidth_tier, resolve_pricing, price_by_gb,
  price_duration, user_discount, last_reached, kept_tiers, lower_first,
}
use appchat_be.Orders.PricingLaws.{
  IsChoice, AddsUp, resolve_bandwidth_tier-IsChoice, resolve_pricing-AddsUp,
}
use appchat_be.Orders.Offer.{Offer, Listed, quote_bandwidth, tier_after, lines}
use appchat_be.Orders.NextTier.{Strict}
use appchat_be.Orders.OfferLaws.{IsOffer, quote_bandwidth-IsOffer}
use appchat_be.Orders.Status.{pending_refund, settled, depleted}
use appchat_be.Orders.Refund.{Order, Store, admin_refund, approve_refund, done}
use appchat_be.Orders.Approval.{refund-approve_overpays}
use appchat_be.Orders.RefundLaws.{Books, Command, refund, retry_it, perform_all, perform_all-Books}

abbrev by_size : Service
by_size = record {
  is_bandwidth = true;
  bandwidth_tiers =
      record { min_gb = pos 10; price_per_gb = pos 400; cost_per_gb = none; days = pos 30 }
      ∷ record { min_gb = pos 1; price_per_gb = pos 500; cost_per_gb = none; days = pos 30 }
      ∷ [];
  bandwidth_max_gb = pos 50;
  pricing = [];
  user_discounts = [];
  min_quantity = pos 0;
  max_quantity = pos 0;
}

abbrev low_tier : Tier
low_tier = record { min_gb = 1; price_per_gb = 500; cost_per_gb = none; days = pos 30 }

abbrev high_tier : Tier
high_tier = record { min_gb = 10; price_per_gb = 400; cost_per_gb = none; days = pos 30 }

abbrev nine_gb : TierChoice
nine_gb = record {
  gb = 9;
  min_gb = 1;
  max_gb = 50;
  tier = low_tier;
  tiers = low_tier ∷ high_tier ∷ [];
}

-- 9.5 GB.
chosen : resolve_bandwidth_tier by_size (some (pos 9500)) ≡ ok nine_gb
unfolding resolve_bandwidth_tier last_reached
chosen = refl

resolve_bandwidth_tier-IsChoice_example : IsChoice by_size (some (pos 9500)) nine_gb
resolve_bandwidth_tier-IsChoice_example =
    resolve_bandwidth_tier-IsChoice by_size (some (pos 9500)) {c = nine_gb} chosen

abbrev nine_gb_price : Price
nine_gb_price = record {
  is_bandwidth = true;
  quantity = 1;
  duration_days = pos 30;
  bandwidth_gb = some 9;
  base_price = pos 4500;
  price_per_unit = pos 4500;
  cost_per_unit = none;
  discount_per_unit = pos 0;
  discount_amount = pos 0;
  total_price = pos 4500;
  total_cost = none;
  pricing_key = b'g' ∷ b'b' ∷ b':' ∷ b'9' ∷ [];
}

abbrev nine_gb_request : Request
nine_gb_request = record {
  gb = some (some (pos 9500));
  package_key = none;
  duration_days = 0;
  quantity = none;
}

priced : resolve_pricing by_size nine_gb_request 7 ≡ ok nine_gb_price
unfolding resolve_pricing price_by_gb resolve_bandwidth_tier last_reached user_discount ◌*ℤ◌ ◌-ℤ◌
    decimal
priced = refl

resolve_pricing-AddsUp_example : AddsUp nine_gb_price
resolve_pricing-AddsUp_example =
    resolve_pricing-AddsUp by_size nine_gb_request 7 {p = nine_gb_price} priced

abbrev nine_gb_offer : Offer
nine_gb_offer = record {
  gb = 9;
  min_gb = 1;
  max_gb = 50;
  price_per_gb = 500;
  days = pos 30;
  base_total = pos 4500;
  discount_amount = pos 0;
  total = pos 4500;
  tiers =
      record { min_gb = 1; max_gb = some 9; price_per_gb = 500; days = pos 30; active = true }
      ∷ record { min_gb = 10; max_gb = none; price_per_gb = 400; days = pos 30; active = false }
      ∷ [];
  next_tier = some (record {
    min_gb = 10;
    price_per_gb = 400;
    gb_needed = pos 1;
    total_at_min = pos 4000;
    cheaper_by = pos 500;
    saving_at_min = pos 1000;
  });
}

abbrev listed : Listed
listed = record { on_sale = true; service = by_size }

-- Ten GB are cheaper than nine.
offered : quote_bandwidth (some listed) (some (pos 9500)) 7 ≡ ok nine_gb_offer
unfolding quote_bandwidth tier_after lines resolve_pricing price_by_gb resolve_bandwidth_tier
    last_reached user_discount ◌*ℤ◌ ◌-ℤ◌ decimal
offered = refl

distinct : Strict (sort lower_first (kept_tiers by_size.bandwidth_tiers))
distinct = ((omega arith, tt), (tt, tt))

quote_bandwidth-IsOffer_example : IsOffer by_size (some (pos 9500)) nine_gb_offer
quote_bandwidth-IsOffer_example =
    quote_bandwidth-IsOffer listed (some (pos 9500)) 7 {o = nine_gb_offer} distinct offered

abbrev by_days : Service
by_days = record by_size {
  is_bandwidth = false;
  pricing = (b'7' ∷ [], record { price = pos 100; cost = none; gb = pos 0; days = pos 7 }) ∷ [];
}

abbrev week_price : Price
week_price = record {
  is_bandwidth = false;
  quantity = 3;
  duration_days = pos 7;
  bandwidth_gb = none;
  base_price = pos 100;
  price_per_unit = pos 100;
  cost_per_unit = none;
  discount_per_unit = pos 0;
  discount_amount = pos 0;
  total_price = pos 300;
  total_cost = none;
  pricing_key = b'7' ∷ [];
}

three_weeks : price_duration by_days 7 7 (some (pos 3)) ≡ ok week_price
unfolding price_duration user_discount ◌*ℤ◌ ◌-ℤ◌ decimal
three_weeks = refl

abbrev waiting_order : Order
waiting_order = record {
  id = 5;
  status = pending_refund;
  payment_status = settled;
  is_voucher = false;
  by_balance = true;
  total_price = pos 300;
  refunded_amount = pos 0;
  quantity = pos 3;
  actual_quantity = none;
  price_per_unit = pos 100;
  admin_note = [];
  error_message = [];
  provider_order_id = [];
  purchase_started = false;
}

abbrev waiting : Store
waiting = record {
  order = some waiting_order;
  money = some (pos 50);
  history = [];
  proxies = [];
  queue = [];
}

waiting-Books : Books (pos 50) waiting
waiting-Books = (sym (add_zero (pos 50)), omega arith, omega arith)

abbrev commands : List Command
commands = refund (some (pos 100)) [] false ∷ retry_it ∷ refund none [] true ∷ []

perform_all-Books_example : Books (pos 50) (perform_all commands waiting)
perform_all-Books_example = perform_all-Books (pos 50) commands waiting waiting-Books

goes_through : (admin_refund (some (pos 100)) [] false waiting).0 ≡ done
unfolding admin_refund ◌-ℤ◌ ◌+ℤ◌
goes_through = refl

refund-approve_overpays_example :
    ((approve_refund (admin_refund (some (pos 100)) [] false waiting).1).1.money
      ≡ some (pos 50 +ℤ pos 100 +ℤ pos 300))
    × (pos 300 <ℤ pos 100 +ℤ pos 300)
refund-approve_overpays_example =
    refund-approve_overpays (pos 100) (pos 50) [] waiting_order waiting refl refl refl refl refl
      refl (omega arith) (omega arith)

-- Twenty more GB for a depleted order.
abbrev sized : SizedOrder
sized = record {
  user_id = 7;
  is_bandwidth = true;
  status = depleted;
  end_date = none;
  partner = record { status = true; complete = true; code = gpnip };
  service = some by_size;
  bandwidth_gb = some 5;
  total_cost = none;
  total_price = pos 300;
  profit = pos 0;
}

abbrev extender : Extender
extender = record {
  registered = true;
  can_extend = true;
  succeeds = true;
  meanwhile = pos 0;
  ends_at = 5;
}

abbrev wallet : TopupStore
wallet = record {
  order = some sized;
  money = some (pos 1000000);
  history = [];
  cached = none;
  locked = none;
}

nine_more :
    (top_up_bandwidth true true 7 0 (some (pos 9500)) extender wallet).1.money ≡ some (pos 995500)
unfolding top_up_bandwidth check_topup extend price_by_gb resolve_bandwidth_tier last_reached
    user_discount ◌*ℤ◌ ◌-ℤ◌ ◌+ℤ◌ decimal
nine_more = refl

abbrev nine_gb_reply : Reply
nine_gb_reply = record {
  gb_added = 9;
  bandwidth_gb = 14;
  total_price = pos 4500;
  balance_after = pos 995500;
  end_date = none;
}

abbrev topped_wallet : TopupStore
topped_wallet = (top_up_bandwidth true true 7 0 (some (pos 9500)) extender wallet).1

replied :
    top_up_bandwidth true true 7 0 (some (pos 9500)) extender wallet
    ≡ (ok nine_gb_reply, topped_wallet)
unfolding top_up_bandwidth check_topup extend price_by_gb resolve_bandwidth_tier last_reached
    user_discount ◌*ℤ◌ ◌-ℤ◌ ◌+ℤ◌ decimal
replied = refl

top_up_bandwidth_idem_example :
    top_up_bandwidth true true 7 60 (some (pos 20000)) extender topped_wallet
    ≡ (ok nine_gb_reply, topped_wallet)
top_up_bandwidth_idem_example =
    top_up_bandwidth_idem true 7 0 60 (some (pos 9500)) (some (pos 20000)) extender extender wallet
      topped_wallet nine_gb_reply refl (omega arith) replied
