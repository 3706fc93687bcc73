-- ===== src/Worker/Steps.antt =====
-- `processOrder` of orders.worker.service.ts, cut at the places where it reads or writes what other runs
-- see: a run is at a stage, and a step takes it to the next.
use appchat_be.Common.{
  ℕ, zero, suc, ◌-◌, Bool, true, false, ◌&&◌, ◌||◌, not, Option, none, some, leb, if◌then◌else◌,
  Result, ok, err, Text, is_empty,
}
use appchat_be.Orders.Status.{pending, processing, pending_refund, same_status}
use appchat_be.Renewal.Order.{Partner, PartnerData, is_gpnip}
use appchat_be.Worker.State.{
  Source, nobody, worker, reconciliation, Failure, no_partner, unknown_provider, already_attempted,
  all_failed, Order, World, Goods, Answer, throws, empty, sells, Env,
}
use appchat_be.Worker.Products.{product}
use appchat_be.Worker.Delivery.{Outcome, passes, fails, is_opened, deliver}

-- Where a run is. Its order is the one that it read; the Boolean is `ownsVoucherDispatch`, and `left`
-- says how many attempts it may still make.
pub data Stage : Type 0 where
  waiting reading done : Stage
  claiming : Order → Stage
  choosing : Order → Bool → Stage
  calling : Order → Bool → Partner → ℕ → Stage
  counting : Bool → Stage
  delivering : Order → Bool → Goods → Stage
  failing : Bool → Failure → Stage
  finishing : Bool → Stage

-- `redis.set(lockKey, '1', 'EX', ORDER_LOCK_TTL_SECONDS, 'NX')`
unfoldable pub claim_lock : World → World × Stage
claim_lock w = if w.lock then (w, done) else (record w { lock = true }, reading)

unfoldable pub read_order : World → World × Stage
read_order w =
    if same_status w.order.status pending then (w, claiming w.order) else (w, finishing false)

-- The permanent fence of an order that was bought with a voucher.
unfoldable pub claim_dispatch : Order → World → World × Stage
claim_dispatch o w =
    if not o.voucher
    then (w, choosing o false)
    else if same_status w.order.status pending
        && is_opened w.order.resolution
        && not w.order.dispatch_claimed
    then (
      record w { order = record w.order { dispatch_claimed = true; dispatch_source = worker } },
      choosing o true,
    )
    else (w, finishing false)

abbrev pub retry_buy : Partner → Bool
retry_buy p = not (is_gpnip p)

abbrev pub max_retries : ℕ
max_retries = 3

unfoldable pub max_attempts : Partner → Order → ℕ
max_attempts p o = if not (retry_buy p) || o.voucher then 1 else max_retries

-- The fence of a GPNIP order, which is written before the first attempt.
unfoldable pub prepare : Order → Bool → Partner → World → World × Stage
prepare o owns p w =
    if not (is_gpnip p)
    then (w, calling o owns p (max_attempts p o))
    else if not (is_empty o.provider_order_id)
    then (
      record w { order = record w.order { status = processing }; queued = suc w.queued },
      finishing owns,
    )
    else if o.purchase_started
    then (w, failing owns already_attempted)
    else (
      record w { order = record w.order { purchase_started = true } },
      calling o owns p (max_attempts p o),
    )

abbrev pub prepare_product : Order → Bool → Partner → World → Result Failure Text → World × Stage
prepare_product o owns p w (err f) = (w, failing owns f)
prepare_product o owns p w (ok t) = prepare o owns p w

abbrev pub choose_for : Env → Order → Bool → World → Option PartnerData → World × Stage
choose_for e o owns w none = (w, failing owns no_partner)
choose_for e o owns w (some p) =
    if not p.complete || not p.status
    then (w, failing owns no_partner)
    else if not e.registered
    then (w, failing owns unknown_provider)
    else prepare_product o owns p.code w (product p.code e.id_service o)

-- The partner, the product and the attempts.
unfoldable pub choose : Env → Order → Bool → World → World × Stage
choose e o owns w = choose_for e o owns w w.partner

-- An attempt that failed: the next one, or none is left.
abbrev pub after_failure : Order → Bool → Partner → ℕ → Stage
after_failure o owns p left = if leb left 1 then counting owns else calling o owns p (left - 1)

abbrev pub keep_result : Order → Goods → Order → Order
keep_result found g o =
    if found.voucher
    then record o { result = some g.proxies; provider_order_id = g.order_id }
    else record o { provider_order_id = g.order_id }

abbrev pub after_answer : Env → Order → Bool → Partner → ℕ → World → Answer → World × Stage
after_answer e o owns p left w throws = (w, after_failure o owns p left)
after_answer e o owns p left w empty =
    if o.voucher || is_gpnip p then (w, after_failure o owns p left) else (w, counting owns)
after_answer e o owns p left w (sells g) =
    if not (o.voucher || is_gpnip p)
    then (w, delivering o owns g)
    else if not e.persists
    then (w, after_failure o owns p left)
    else (record w { order = keep_result o g w.order }, delivering o owns g)

-- One attempt of `provider.buy`, and the record of what it gave.
unfoldable pub call_provider : Env → Order → Bool → Partner → ℕ → World → World × Stage
call_provider e o owns p left w =
    after_answer e o owns p left (record w { bought = suc w.bought }) e.answer

abbrev pub fail_threshold : ℕ
fail_threshold = 5

abbrev pub switch_off : Option PartnerData → Option PartnerData
switch_off none = none
switch_off (some p) = some (record p { status = false })

-- The partner's failures are counted, and at the threshold it and its services are switched off.
unfoldable pub count_failure : Bool → World → World × Stage
count_failure owns w =
    if leb fail_threshold (suc w.fail_count)
    then (
      record w { partner = switch_off w.partner; services_on = false; fail_count = 0 },
      failing owns all_failed,
    )
    else (record w { fail_count = suc w.fail_count }, failing owns all_failed)

abbrev pub after_delivery : Bool → World × Outcome → World × Stage
after_delivery owns (w, passes) = (w, finishing owns)
after_delivery owns (w, fails f) = (w, failing owns f)

-- The `catch`.
unfoldable pub refund_later : Bool → Failure → World → World × Stage
refund_later owns f w =
    if same_status w.order.status pending || same_status w.order.status processing
    then (
      record w { order = record w.order { status = pending_refund; error = some f } },
      finishing owns,
    )
    else (w, finishing owns)

abbrev pub is_worker : Source → Bool
is_worker nobody = false
is_worker worker = true
is_worker reconciliation = false

-- The `finally`.
unfoldable pub finish : Bool → World → World × Stage
finish owns w =
    if owns && is_worker w.order.dispatch_source
    then (record w { order = record w.order { buy_finished = true }; lock = false }, done)
    else (record w { lock = false }, done)

unfoldable pub step : Env → World → Stage → World × Stage
step e w waiting = claim_lock w
step e w reading = read_order w
step e w (claiming o) = claim_dispatch o w
step e w (choosing o owns) = choose e o owns w
step e w (calling o owns p left) = call_provider e o owns p left w
step e w (counting owns) = count_failure owns w
step e w (delivering o owns g) = after_delivery owns (deliver e o g w)
step e w (failing owns f) = refund_later owns f w
step e w (finishing owns) = finish owns w
step e w done = (w, done)

-- The run on its own, for as many steps as `fuel`; each step meets its own surroundings.
unfoldable pub run : ℕ → (ℕ → Env) → World → Stage → World × Stage
run zero env w s = (w, s)
run (suc fuel) env w s = let r = step (env fuel) w s in run fuel env r.0 r.1

abbrev pub run_steps : ℕ
run_steps = 11

unfoldable pub process_order : (ℕ → Env) → World → World × Stage
process_order env w = run run_steps env w waiting
