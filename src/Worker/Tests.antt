-- ===== src/Worker/Tests.antt =====
-- Runs of `processOrder` at concrete orders, for src/orders/orders.worker.service.ts.
use appchat_be.Common.{
  update_all, contains, ◌++◌, Option, ◌⊎◌, ℕ, ◌==◌, if◌then◌else◌, ◌≤◌, ◌≡◌, refl, true, false,
  none, some, List, [], ◌∷◌, bit, Text, to_lower,
}
use appchat_be.Orders.Status.{pending, processing, pending_refund, active}
use appchat_be.Renewal.Order.{Partner, proxyvn, gpnip, homeproxy}
use appchat_be.Worker.State.{Goods, opened, nobody, Order, World, throws, sells, Env}
use appchat_be.Worker.Products.{viettel, static_product, product}
use appchat_be.Worker.Delivery.{deliver, insert_proxies, materialize, receive, recover_affiliate}
use appchat_be.Worker.Steps.{
  done, claim_lock, read_order, claim_dispatch, max_attempts, prepare, choose, call_provider,
  count_failure, refund_later, finish, step, run, process_order,
}
use appchat_be.Worker.Interleaved.{
  System, Event, delivered, lock_expired, stepped, crashed, step_at, drop_at, perform, perform_all,
}
use appchat_be.Worker.Expiry.{
  Lasting, Leased, Estate, is_expiring, expire, switch_off_proxy, expire_batch, expire_batches,
  expiring_ids, check_expired_orders,
}
use appchat_be.Worker.ExpiryLaws.{check_expired_orders-AllAtOnce}
use appchat_be.Worker.Polling.{poll_loop, poll_until_active}
use appchat_be.Worker.PollingLaws.{
  Polled, nobody_else, poll_until_active-Polled, poll_loop-activates_short,
}
use appchat_be.Worker.Recovery.{recover_late}
use appchat_be.Worker.RecoveryLaws.{Healed, recover_late-Heals}
use appchat_be.Worker.Fulfilment.{materialize_all}
use appchat_be.Worker.Ending.{process_order-Ends}
use appchat_be.Worker.Settled.{Closed}
use appchat_be.Worker.Settling.{process_order-Settles}
use appchat_be.Worker.VoucherSafety.{voucher_order-BoughtOnce}
use appchat_be.Worker.GpnipSafety.{keeps_locks, gpnip_order-BoughtOnce}

abbrev plain : Order
plain = record {
  status = pending;
  quantity = 2;
  actual_quantity = none;
  error = none;
  provider_order_id = [];
  mapped_product = none;
  rotating = false;
  duration_days = 30;
  isp = viettel;
  purchase_started = false;
  voucher = false;
  resolution = opened;
  dispatch_claimed = false;
  dispatch_source = nobody;
  buy_finished = false;
  result = none;
  frozen = none;
  refund_planned = false;
  affiliate_pending = false;
}

abbrev world : Partner → Order → World
world p o = record {
  order = o;
  partner = some (record { status = true; complete = true; code = p });
  services_on = true;
  fail_count = 4;
  lock = false;
  proxies = 0;
  bought = 0;
  queued = 0;
  activated = 0;
  expired = 0;
}

abbrev two : Env
two = record {
  registered = true;
  id_service = b'1' ∷ [];
  answer = sells (record { order_id = b'9' ∷ []; proxies = 2 });
  persists = true;
  inserts = true;
  saved = 2;
  settles = true;
  affiliate = true;
  expires = true;
}

abbrev down : Env
down = record two { answer = throws }

-- The first attempt fails, the second is answered.
abbrev second_time : ℕ → Env
second_time n = if n == 6 then down else two

comes_active : (process_order second_time (world homeproxy plain)).0.order.status ≡ active
unfolding process_order run step claim_lock read_order claim_dispatch choose product static_product
    to_lower prepare max_attempts call_provider deliver insert_proxies finish
comes_active = refl

bought_again : (process_order second_time (world homeproxy plain)).0.bought ≡ 2
unfolding process_order run step claim_lock read_order claim_dispatch choose product static_product
    to_lower prepare max_attempts call_provider deliver insert_proxies finish
bought_again = refl

-- The fifth failure in a row switches the partner off.
switched_off :
    (process_order (λ n. down) (world homeproxy plain)).0.partner
    ≡ some (record { status = false; complete = true; code = homeproxy })
unfolding process_order run step claim_lock read_order claim_dispatch choose product static_product
    to_lower prepare max_attempts call_provider count_failure refund_later finish
switched_off = refl

abbrev with_voucher : Order
with_voucher = record plain { voucher = true }

-- Two runs of one order, side by side, with the lock lost in between; one stops before the end.
abbrev two_runs : List Event
two_runs =
    delivered
    ∷ stepped 0 two
    ∷ stepped 0 two
    ∷ lock_expired
    ∷ delivered
    ∷ stepped 0 two
    ∷ stepped 0 two
    ∷ stepped 0 two
    ∷ stepped 1 two
    ∷ stepped 0 two
    ∷ stepped 0 two
    ∷ stepped 0 two
    ∷ stepped 1 two
    ∷ crashed 1
    ∷ delivered
    ∷ stepped 0 two
    ∷ []

abbrev start : World → System
start w = record { world = w; runs = [] }

bought_once : (perform_all two_runs (start (world proxyvn with_voucher))).world.bought ≡ 1
unfolding perform_all perform step_at drop_at step claim_lock read_order claim_dispatch choose
    product prepare max_attempts call_provider deliver materialize receive recover_affiliate finish
bought_once = refl

voucher_order-BoughtOnce_example :
    (perform_all two_runs (start (world proxyvn with_voucher))).world.bought
    ≤ bit (perform_all two_runs (start (world proxyvn with_voucher))).world.order.dispatch_claimed
voucher_order-BoughtOnce_example =
    voucher_order-BoughtOnce two_runs (start (world proxyvn with_voucher)) refl refl refl

-- Three deliveries of one order, the first of whose runs stops after its call; its lock then expires.
abbrev three_deliveries : List Event
three_deliveries =
    delivered
    ∷ delivered
    ∷ stepped 0 down
    ∷ stepped 1 down
    ∷ stepped 0 down
    ∷ stepped 0 down
    ∷ stepped 0 down
    ∷ stepped 0 down
    ∷ crashed 0
    ∷ lock_expired
    ∷ delivered
    ∷ stepped 0 two
    ∷ stepped 0 two
    ∷ stepped 0 two
    ∷ stepped 0 two
    ∷ []

lock_kept : keeps_locks three_deliveries (start (world gpnip plain)) ≡ true
unfolding keeps_locks perform step_at drop_at step claim_lock product prepare max_attempts
    call_provider deliver finish
lock_kept = refl

gpnip_order-BoughtOnce_example :
    (perform_all three_deliveries (start (world gpnip plain))).world.bought
    ≤ bit (perform_all three_deliveries (start (world gpnip plain))).world.order.purchase_started
gpnip_order-BoughtOnce_example =
    gpnip_order-BoughtOnce three_deliveries (start (world gpnip plain)) lock_kept refl refl refl

process_order-Ends_example :
    ((process_order second_time (world homeproxy plain)).1 ≡ done)
    × (false ≡ true → (process_order second_time (world homeproxy plain)).0 ≡ world homeproxy plain)
    × (false ≡ false → (process_order second_time (world homeproxy plain)).0.lock ≡ false)
process_order-Ends_example = process_order-Ends second_time (world homeproxy plain)

process_order-Settles_example :
    Closed (world homeproxy plain) (process_order second_time (world homeproxy plain)).0
process_order-Settles_example =
    process_order-Settles second_time (world homeproxy plain) refl refl refl

abbrev upper_viettel : Text
upper_viettel = b'V' ∷ b'I' ∷ b'E' ∷ b'T' ∷ b'T' ∷ b'E' ∷ b'L' ∷ []

-- The polling gets two of three proxies in, and then takes the order for complete.
abbrev under_way : Order
under_way = record plain { status = processing; quantity = 3 }

abbrev three : Env
three = record two { answer = sells (record { order_id = b'9' ∷ []; proxies = 3 }) }

poll_until_active-Polled_example :
    Polled
      (world homeproxy under_way)
      (poll_until_active true true (λ n. three) nobody_else (world homeproxy under_way))
poll_until_active-Polled_example =
    poll_until_active-Polled true (λ n. three) (world homeproxy under_way) refl refl

poll_loop-activates_short_example :
    poll_loop 20 (λ n. three) nobody_else under_way (world homeproxy under_way)
    ≡ record (world homeproxy under_way) {
      proxies = 2;
      order = record under_way { status = active };
    }
poll_loop-activates_short_example =
    poll_loop-activates_short 18 (λ n. three) under_way (world homeproxy under_way)
      (record { order_id = b'9' ∷ []; proxies = 3 }) (record { order_id = b'9' ∷ []; proxies = 3 })
      refl refl refl refl refl refl refl

abbrev late : World
late = world homeproxy (record plain { status = pending_refund; provider_order_id = b'9' ∷ [] })

abbrev recovered : World
recovered = recover_late true two late

recover_late-Heals_example :
    (recovered ≡ late) ⊎ ((pending_refund ≡ pending_refund) × Healed recovered)
recover_late-Heals_example = recover_late-Heals true two late

-- A result whose commission fails, the same again, and another one.
abbrev results : List (Env × Goods)
results =
    (two, record { order_id = b'9' ∷ []; proxies = 2 })
    ∷ (two, record { order_id = b'8' ∷ []; proxies = 1 })
    ∷ []

abbrev hook_fails : Env
hook_fails = record two { affiliate = false }

abbrev after_results : World
after_results =
    materialize_all ((hook_fails, record { order_id = b'9' ∷ []; proxies = 2 }) ∷ results)
      (world proxyvn with_voucher)

hooked_once : after_results.activated ≡ 1
unfolding materialize_all materialize receive recover_affiliate
hooked_once = refl

abbrev first_result : Goods
first_result = record { order_id = b'9' ∷ []; proxies = 2 }

-- One order past its end, one without an end, and the proxies of both.
abbrev lasting : ℕ → Option ℕ → Lasting
lasting id end_date = record {
  id = id;
  status = active;
  end_date = end_date;
  voucher = false;
  resolution = opened;
  actual_quantity = none;
  affiliate_pending = false;
}

abbrev leased : ℕ → Leased
leased order_id = record { order_id = order_id; is_active = true; is_available = false }

abbrev estate : Estate
estate = record {
  orders = lasting 1 (some 50) ∷ lasting 2 none ∷ [];
  proxies = leased 2 ∷ leased 1 ∷ [];
  handed_over = [];
}

handed_over : (check_expired_orders 60 estate).handed_over ≡ 1 ∷ []
unfolding check_expired_orders expire_batches expire_batch
handed_over = refl

check_expired_orders-AllAtOnce_example :
    ((check_expired_orders 60 estate).orders ≡ update_all (is_expiring 60) expire estate.orders)
    × ((check_expired_orders 60 estate).proxies
        ≡ update_all
            (λ p. contains p.order_id (expiring_ids 60 estate.orders))
            switch_off_proxy
            estate.proxies)
    × ((check_expired_orders 60 estate).handed_over ≡ [] ++ expiring_ids 60 estate.orders)
check_expired_orders-AllAtOnce_example = check_expired_orders-AllAtOnce 60 estate
