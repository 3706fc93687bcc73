-- ===== src/Worker/Polling.antt =====
-- `pollUntilActive` of orders-processing.worker.service.ts: the worker that asks a provider for the proxies
-- of an order until they come.
use appchat_be.Common.{
  ℕ, zero, suc, Bool, true, false, ◌&&◌, ◌||◌, not, Option, none, some, List, [], ◌∷◌, ltb,
  if◌then◌else◌,
}
use appchat_be.Orders.Status.{processing, pending_refund, active, partial, same_status}
use appchat_be.Renewal.Order.{PartnerData}
use appchat_be.Worker.State.{
  Failure, no_partner, no_fetching, polled_out, Order, World, Goods, Answer, throws, empty, sells,
  Env,
}
use appchat_be.Worker.Delivery.{Outcome, passes, fails, is_opened, materialize}
use appchat_be.Worker.Interleaved.{Edit, edit}

-- The provider's order is the one on record.
abbrev pub goods_of : Order → ℕ → Goods
goods_of o n = record { order_id = o.provider_order_id; proxies = n }

-- What an attempt comes to: the polling goes on, or is over.
abbrev pub goes_on : World × Outcome → World × Bool
goes_on (w, passes) = (w, false)
goes_on (w, fails f) = (w, true)

-- The order has no voucher, or is still open and under way.
abbrev pub can_give_up : Order → Bool
can_give_up o =
    not o.voucher
    || is_opened o.resolution
      && (same_status o.status processing || same_status o.status pending_refund)

unfoldable pub give_up : Failure → World → World
give_up f w =
    if can_give_up w.order
    then record w { order = record w.order { status = pending_refund; error = some f } }
    else w

-- The proxies are put in, and counted again.
unfoldable pub put_in : Env → Order → ℕ → World → World × Bool
put_in e o n w =
    if not e.inserts
    then (record w { proxies = e.saved }, true)
    else if ltb e.saved n
    then (record w { proxies = e.saved }, true)
    else if ltb e.saved o.quantity
    then (
      record w {
        proxies = e.saved;
        order = record w.order { status = partial; actual_quantity = some e.saved };
      },
      false,
    )
    else (
      record w {
        proxies = e.saved;
        order = record w.order { status = active };
        activated = suc w.activated;
      },
      false,
    )

abbrev pub fetched : Env → Order → ℕ → World → World × Bool
fetched e o n w =
    if not (ltb 0 n)
    then (w, true)
    else if o.voucher
    then goes_on (materialize e (goods_of o n) w)
    else if ltb 0 w.proxies
    then (record w { order = record w.order { status = active } }, false)
    else put_in e o n w

abbrev pub poll_answer : Env → Order → World → Answer → World × Bool
poll_answer e o w throws = (w, true)
poll_answer e o w empty = (w, true)
poll_answer e o w (sells g) = fetched e o g.proxies w

-- One attempt.
unfoldable pub poll_once : Env → Order → World → World × Bool
poll_once e o w = poll_answer e o w e.answer

-- What other code writes while the worker sleeps.
abbrev pub edit_all : List Edit → World → World
edit_all [] w = w
edit_all (d ∷ ds) w = edit_all ds (edit d w)

unfoldable pub poll_loop : ℕ → (ℕ → Env) → (ℕ → List Edit) → Order → World → World
poll_loop zero env between o w = give_up polled_out w
poll_loop (suc n) env between o w =
    let r = poll_once (env n) o (edit_all (between n) w) in
    let rest = poll_loop n env between o r.0 in if r.1 then rest else r.0

abbrev pub max_poll_attempts : ℕ
max_poll_attempts = 20

abbrev pub is_polled : Order → Bool
is_polled o =
    same_status o.status processing
    || o.voucher && is_opened o.resolution && same_status o.status pending_refund

abbrev pub poll_for : Bool → Bool → (ℕ → Env) → (ℕ → List Edit) → World → Option PartnerData → World
poll_for registered fetches env between w none = give_up no_partner w
poll_for registered fetches env between w (some p) =
    if not p.complete
    then give_up no_partner w
    else if not registered
    then w
    else if not fetches
    then give_up no_fetching w
    else poll_loop max_poll_attempts env between w.order w

-- `registered` says that the factory knows the partner's code, or else it throws, and `fetches` that the
-- provider has `fetchOrderProxies`.
unfoldable pub poll_until_active : Bool → Bool → (ℕ → Env) → (ℕ → List Edit) → World → World
poll_until_active registered fetches env between w =
    if is_polled w.order then poll_for registered fetches env between w w.partner else w
