-- ===== src/Worker/Delivery.antt =====
-- What a run does with the goods it bought, in `processOrder` of orders.worker.service.ts, and
-- `materialize` and `recoverAffiliate` of vouchers.service.ts.
use appchat_be.Common.{
  ℕ, suc, Bool, true, false, ◌&&◌, ◌||◌, not, Option, none, some, ltb, leb, if◌then◌else◌, Text,
}
use appchat_be.Orders.Status.{
  pending, processing, active, partial, expired, pending_refund, OrderStatus, same_status,
}
use appchat_be.Worker.State.{
  Failure, insert_failed, dropped, incomplete, no_intent, no_affiliate, Resolution, opened,
  fulfilled, confirmed_failed, Order, World, Goods, Env,
}

-- A run that goes on ends well or with a failure.
pub data Outcome : Type 0 where
  passes : Outcome
  fails : Failure → Outcome

abbrev pub is_opened : Resolution → Bool
is_opened opened = true
is_opened fulfilled = false
is_opened confirmed_failed = false

abbrev pub is_fulfilled : Resolution → Bool
is_fulfilled opened = false
is_fulfilled fulfilled = true
is_fulfilled confirmed_failed = false

-- The status is one of PENDING, PROCESSING and PENDING_REFUND.
abbrev pub is_waiting : OrderStatus → Bool
is_waiting s = same_status s pending || same_status s processing || same_status s pending_refund

abbrev pub reaches : Option ℕ → ℕ → Bool
reaches none n = false
reaches (some m) n = leb n m

-- The commission that is due is made once the flag is set, confirmed if the order has expired, and the
-- flag cleared after both.
unfoldable pub recover_affiliate : Env → World → World × Outcome
recover_affiliate e w =
    if not w.order.affiliate_pending
      || not (is_fulfilled w.order.resolution)
      || not (reaches w.order.actual_quantity w.order.quantity)
    then (w, passes)
    else if not e.affiliate
    then (w, fails no_affiliate)
    else if same_status w.order.status expired && not e.expires
    then (record w { activated = suc w.activated }, fails no_affiliate)
    else (
      record w {
        order = record w.order { affiliate_pending = false };
        activated = suc w.activated;
        expired = if same_status w.order.status expired then suc w.expired else w.expired;
      },
      passes,
    )

abbrev pub settle_then_affiliate : Env → World → World × Outcome
settle_then_affiliate e w = if e.settles then recover_affiliate e w else (w, fails no_intent)

-- PARTIAL where fewer came than were ordered, or else ACTIVE.
abbrev pub status_for : ℕ → ℕ → OrderStatus
status_for received ordered = if ltb received ordered then partial else active

-- The first result that has proxies is kept, if the order is still open.
abbrev pub freeze : Goods → Order → Order
freeze g o =
    if is_opened o.resolution then record o { resolution = fulfilled; frozen = some g } else o

-- The order takes the proxies that the database has for it.
unfoldable pub receive : Env → Text → World → World × Outcome
receive e order_id w =
    if w.order.refund_planned
    then (w, passes)
    else settle_then_affiliate e (record w {
      order = record w.order {
        status = status_for e.saved w.order.quantity;
        actual_quantity = some e.saved;
        provider_order_id = order_id;
        error = none;
        affiliate_pending = not (ltb e.saved w.order.quantity);
      };
    })

abbrev pub materialize_frozen : Env → World → Option Goods → World × Outcome
materialize_frozen e w none = (w, passes)
materialize_frozen e w (some f) =
    if not (is_fulfilled w.order.resolution)
    then (w, passes)
    else if not (is_waiting w.order.status)
    then settle_then_affiliate e w
    else if ltb e.saved f.proxies
    then (record w { proxies = e.saved }, fails incomplete)
    else receive e f.order_id (record w { proxies = e.saved })

unfoldable pub materialize : Env → Goods → World → World × Outcome
materialize e g w =
    let o = freeze g w.order in
    if ltb 0 g.proxies then materialize_frozen e (record w { order = o }) o.frozen else (w, passes)

-- The proxies that came at once are put in, and counted again.
unfoldable pub insert_proxies : Env → Goods → World → World × Outcome
insert_proxies e g w =
    if not e.inserts
    then (record w { proxies = e.saved }, fails insert_failed)
    else if ltb e.saved g.proxies
    then (record w { proxies = e.saved }, fails dropped)
    else if ltb e.saved w.order.quantity
    then (
      record w {
        proxies = e.saved;
        order = record w.order {
          status = partial;
          actual_quantity = some e.saved;
          provider_order_id = g.order_id;
        };
      },
      passes,
    )
    else (
      record w {
        proxies = e.saved;
        order = record w.order { status = active; provider_order_id = g.order_id };
        activated = suc w.activated;
      },
      passes,
    )

-- The order waits in the processing queue for its proxies.
unfoldable pub wait_for_proxies : Bool → Goods → World → World × Outcome
wait_for_proxies voucher g w =
    if voucher && not (same_status w.order.status pending && is_opened w.order.resolution)
    then (record w { queued = suc w.queued }, passes)
    else (
      record w {
        order = record w.order { status = processing; provider_order_id = g.order_id };
        queued = suc w.queued;
      },
      passes,
    )

-- What the goods do, in a run that found the order `o`; the partner's failures are forgotten first.
unfoldable pub deliver : Env → Order → Goods → World → World × Outcome
deliver e o g w =
    let w' = record w { fail_count = 0 } in
    if o.voucher && ltb 0 g.proxies
    then materialize e g w'
    else if ltb 0 g.proxies
    then insert_proxies e g w'
    else wait_for_proxies o.voucher g w'
