-- ===== src/Worker/Recovery.antt =====
-- `tryRecover` of orders-recovery.scheduler.ts, on an order that waits to be given back.
use appchat_be.Common.{ℕ, suc, Bool, not, Option, none, some, ltb, if◌then◌else◌, is_empty}
use appchat_be.Orders.Status.{pending_refund, same_status}
use appchat_be.Renewal.Order.{PartnerData}
use appchat_be.Worker.State.{Order, World, Answer, throws, empty, sells, Env}
use appchat_be.Worker.Delivery.{status_for}

-- ACTIVE with no number, or PARTIAL with the number of the proxies.
abbrev pub healed : ℕ → Order → Order
healed n o = record o {
  status = status_for n o.quantity;
  actual_quantity = if ltb n o.quantity then some n else none;
  error = none;
}

-- The proxies that the provider has by now are put in; where none was saved nothing changes.
unfoldable pub put_late : Env → World → World
put_late e w = if not (ltb 0 e.saved) then w else record w {
  proxies = e.saved;
  order = healed e.saved w.order;
  activated = if ltb e.saved w.order.quantity then w.activated else suc w.activated;
}

abbrev pub fetch_late : Env → World → Answer → World
fetch_late e w throws = w
fetch_late e w empty = w
fetch_late e w (sells g) = if ltb 0 g.proxies then put_late e w else w

abbrev pub recover_for : Bool → Env → World → Option PartnerData → World
recover_for fetches e w none = w
recover_for fetches e w (some p) =
    if not p.complete
    then w
    else if ltb 0 w.proxies
    then record w { order = healed w.proxies w.order }
    else if not e.registered
    then w
    else if fetches
    then fetch_late e w e.answer
    else w

unfoldable pub try_recover : Bool → Env → World → World
try_recover fetches e w = recover_for fetches e w w.partner

-- The scan takes the orders to be given back that the provider knows.
unfoldable pub recover_late : Bool → Env → World → World
recover_late fetches e w =
    if same_status w.order.status pending_refund
    then if is_empty w.order.provider_order_id then w else try_recover fetches e w
    else w
