-- ===== src/Worker/Interleaved.antt =====
-- Runs of `processOrder` of orders.worker.service.ts for one order, side by side: `startWorker` takes the
-- order's id from the queue any number of times (orders.scheduler.ts pushes it again), the runs'
-- steps follow in any order, a run may stop for good with its process, the lock may expire under a
-- run, and other code edits the order and the partner meanwhile.
use appchat_be.Common.{
  ◌&&◌, ◌||◌, not, if◌then◌else◌, ℕ, zero, suc, Bool, true, false, Option, none, some, List, [],
  ◌∷◌, Text,
}
use appchat_be.Orders.Status.{OrderStatus, processing, pending_refund, same_status}
use appchat_be.Renewal.Order.{PartnerData}
use appchat_be.Worker.State.{Order, Source, nobody, worker, reconciliation, Resolution, World, Env}
use appchat_be.Worker.Delivery.{is_opened}
use appchat_be.Worker.Steps.{Stage, waiting, step}

pub record System : Type 0 where
  pub world : World
  pub runs : List Stage

-- What other code writes: `reconciling` is the claim of `syncProviderOrder` of orders.service.ts.
pub data Edit : Type 0 where
  setting_status : OrderStatus → Edit
  resolving : Resolution → Edit
  reconciling : Text → Edit
  switching : Bool → Edit

abbrev pub switch_partner : Bool → Option PartnerData → Option PartnerData
switch_partner on none = none
switch_partner on (some p) = some (record p { status = on })

abbrev pub is_reconciliation : Source → Bool
is_reconciliation nobody = false
is_reconciliation worker = false
is_reconciliation reconciliation = true

-- The filter of the claim: no worker's call is in flight, and the order is still open.
unfoldable pub can_reconcile : Order → Bool
can_reconcile o =
    is_opened o.resolution
    && not o.refund_planned
    && (not o.dispatch_claimed
        || is_reconciliation o.dispatch_source
        || same_status o.status processing
        || same_status o.status pending_refund && o.buy_finished)

unfoldable pub reconcile : Text → Order → Order
reconcile id o =
    if can_reconcile o
    then record o {
      dispatch_claimed = true;
      dispatch_source = reconciliation;
      provider_order_id = id;
      status = processing;
    }
    else o

unfoldable pub edit : Edit → World → World
edit (setting_status s) w = record w { order = record w.order { status = s } }
edit (resolving r) w = record w { order = record w.order { resolution = r } }
edit (reconciling id) w = if w.order.voucher then record w { order = reconcile id w.order } else w
edit (switching on) w = record w { partner = switch_partner on w.partner }

pub data Event : Type 0 where
  delivered lock_expired : Event
  stepped : ℕ → Env → Event
  crashed : ℕ → Event
  edited : Edit → Event

-- The step of the run at a place in the list.
unfoldable pub step_at : ℕ → Env → World → List Stage → World × List Stage
step_at i e w [] = (w, [])
step_at zero e w (s ∷ ss) = let r = step e w s in (r.0, r.1 ∷ ss)
step_at (suc i) e w (s ∷ ss) = let r = step_at i e w ss in (r.0, s ∷ r.1)

unfoldable pub drop_at : ℕ → List Stage → List Stage
drop_at i [] = []
drop_at zero (s ∷ ss) = ss
drop_at (suc i) (s ∷ ss) = s ∷ drop_at i ss

unfoldable pub perform : Event → System → System
perform delivered x = record x { runs = waiting ∷ x.runs }
perform lock_expired x = record x { world = record x.world { lock = false } }
perform (stepped i e) x = let r = step_at i e x.world x.runs in record { world = r.0; runs = r.1 }
perform (crashed i) x = record x { runs = drop_at i x.runs }
perform (edited d) x = record x { world = edit d x.world }

unfoldable pub perform_all : List Event → System → System
perform_all [] x = x
perform_all (d ∷ ds) x = perform_all ds (perform d x)
