-- ===== src/Renewal/Tests.antt =====
-- Renewals at concrete orders, for src/orders/orders.service.ts.
use appchat_be.Common.{
  ℕ, ◌≡◌, refl, ◌⊎◌, true, false, none, some, List, [], ◌∷◌, ◌==◌, if◌then◌else◌, Text, Result, ok,
  err,
}
use appchat_be.Common.Int.{ℤ, pos, ◌+ℤ◌, ◌-ℤ◌, ◌*ℤ◌, ◌≤ℤ◌, ◌<ℤ◌}
use appchat_be.Orders.Status.{active}
use appchat_be.Renewal.Order.{
  renewed, failed, provider_failed, Error, proxyvn, Order, throws, renews, Provider, Store, Report,
  renewal_price, check_renewal, proxyseller_checks, renew_order_proxies, check_order_renewable,
  failure_of, renew_by_user,
}
use appchat_be.Renewal.Charges.{Settles, renew_by_user-Settles}
use appchat_be.Renewal.Bulk.{Proxy, World, Tally, sorted_orders, prune, renew_each, bulk_renew}
use appchat_be.Renewal.Totals.{drift, bulk_renew-Charges}

abbrev order : ℕ → Order
order id = record {
  id = id;
  user_id = 1;
  status = active;
  partner = record { status = true; complete = true; code = proxyvn };
  is_bandwidth = false;
  allow_renew = true;
  provider_order_id = b'7' ∷ [];
  proxyseller_type = [];
  id_service = [];
  end_date = some 1000;
  price_per_unit = pos 100;
  quantity = 2;
  actual_quantity = none;
  duration_days = 30;
  renew_count = 0;
}

abbrev works : Provider
works = record {
  can_renew = true;
  accepts = true;
  answer = renews none none none;
  meanwhile = pos 50;
}

abbrev fails : Provider
fails = record { can_renew = true; accepts = true; answer = throws; meanwhile = pos 50 }

abbrev wallet : Store
wallet = record { money = some (pos 5000); history = [] }

abbrev ids : List Text
ids = (b'a' ∷ []) ∷ (b'b' ∷ []) ∷ []

renewed_money : (renew_by_user true 1 3 0 ids works (order 4) wallet).2.money ≡ some (pos 4450)
unfolding renew_by_user check_order_renewable renew_order_proxies check_renewal proxyseller_checks
    ◌+ℤ◌ ◌-ℤ◌ ◌*ℤ◌
renewed_money = refl

given_back_money : (renew_by_user true 1 3 0 ids fails (order 4) wallet).2.money ≡ some (pos 5050)
unfolding renew_by_user check_order_renewable renew_order_proxies check_renewal proxyseller_checks
    ◌+ℤ◌ ◌-ℤ◌ ◌*ℤ◌
given_back_money = refl

abbrev proxy : ℕ → ℕ → Text → Proxy
proxy id order_id name = record {
  id = id;
  order_id = some order_id;
  provider_proxy_id = name;
  deleted = false;
}

abbrev selected : List Proxy
selected = proxy 1 4 (b'a' ∷ []) ∷ proxy 3 5 (b'c' ∷ []) ∷ []

abbrev world : World
world = record {
  wallet = wallet;
  orders = order 4 ∷ order 5 ∷ [];
  proxies = proxy 1 4 (b'a' ∷ []) ∷ proxy 2 4 (b'b' ∷ []) ∷ proxy 3 5 (b'c' ∷ []) ∷ [];
}

abbrev providers : ℕ → Provider
providers id = if id == 4 then works else fails

abbrev bulk : Result Error Tally × World
bulk = bulk_renew true false 1 3 0 2 selected providers world

-- Order 4 is renewed with one of its two proxies, the other is dropped; order 5 gets its money back.
abbrev tally : Tally
tally = record {
  results =
      record {
        order_id = 4;
        status = renewed;
        selected = 1;
        success = 1;
        fail = 0;
        price = pos 300;
        refunded = false;
        error = none;
        balance_after = pos 4700;
      }
      ∷ record {
        order_id = 5;
        status = failed;
        selected = 1;
        success = 0;
        fail = 1;
        price = pos 300;
        refunded = true;
        error = some provider_failed;
        balance_after = pos 4800;
      }
      ∷ [];
  charged = pos 300;
  refunded = pos 300;
  balance = pos 4800;
}

abbrev world_after : World
world_after = record {
  wallet = record {
    money = some (pos 4800);
    history = record { amount = pos 300; before = pos 5000; after = pos 4700; order_id = 4 } ∷ [];
  };
  orders =
      record (order 4) {
        end_date = some 259201000;
        duration_days = 33;
        renew_count = 1;
        quantity = 1;
      }
      ∷ order 5
      ∷ [];
  proxies =
      proxy 1 4 (b'a' ∷ [])
      ∷ record (proxy 2 4 (b'b' ∷ [])) { deleted = true }
      ∷ proxy 3 5 (b'c' ∷ [])
      ∷ [];
}

bulk_result : bulk ≡ (ok tally, world_after)
unfolding bulk_renew renew_each prune check_order_renewable renew_order_proxies check_renewal
    proxyseller_checks ◌+ℤ◌ ◌-ℤ◌ ◌*ℤ◌
bulk_result = refl

bulk_renew-Charges_example :
    (m' : ℤ) × (world_after.wallet.money ≡ some m')
    × (m' +ℤ tally.charged
        ≡ pos 5000 +ℤ drift 3 providers (sorted_orders 1 3 0 selected world).1 world.wallet)
bulk_renew-Charges_example =
    bulk_renew-Charges true false 1 3 0 2 selected providers world (pos 5000) {t = tally}
      {w' = world_after} refl bulk_result

renew_by_user-Settles_example :
    let r = renew_by_user true 1 3 0 ids works (order 4) wallet in
    ((e : Error) × (r ≡ (err e, order 4, wallet)))
    ⊎ ((f : Report) × (m : ℤ) × (r.0 ≡ failure_of f)
        × (wallet.money ≡ some m)
        × (renewal_price (order 4) 2 3 ≤ℤ m)
        × (pos 0 <ℤ renewal_price (order 4) 2 3)
        × Settles (order 4) 3 (renewal_price (order 4) 2 3) m works wallet f r.1 r.2)
renew_by_user-Settles_example = renew_by_user-Settles true 1 3 0 ids works (order 4) wallet
