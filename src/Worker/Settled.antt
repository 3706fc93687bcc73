-- ===== src/Worker/Settled.antt =====
-- Where `processOrder` of orders.worker.service.ts leaves an order without a voucher: what holds at its end
-- and at each stage before.
use appchat_be.Common.{suc, ◌+◌, ◌≤◌, ◌<◌, ◌≡◌, false, some}
use appchat_be.Orders.Status.{pending, active, partial, processing, pending_refund}
use appchat_be.Worker.State.{Failure, World}
use appchat_be.Worker.Steps.{
  Stage, waiting, reading, claiming, choosing, calling, counting, delivering, failing, finishing,
  done,
}

-- The order is active with all its proxies and its commission is due; or fewer came and it says how many; or
-- it waits in the queue for its proxies; or its money is to be given back and it says why.
pub data Settled (v w : World) : Type 0 where
  came :
      w.order.status ≡ active
      → w.order.quantity ≤ w.proxies
      → w.activated ≡ suc v.activated
      → w.queued ≡ v.queued
      → Settled v w
  came_short :
      w.order.status ≡ partial
      → w.proxies < w.order.quantity
      → w.order.actual_quantity ≡ some w.proxies
      → w.activated ≡ v.activated
      → w.queued ≡ v.queued
      → Settled v w
  waits :
      w.order.status ≡ processing
      → w.queued ≡ suc v.queued
      → w.activated ≡ v.activated
      → Settled v w
  given_up :
      (f : Failure)
      → w.order.status ≡ pending_refund
      → w.order.error ≡ some f
      → w.activated ≡ v.activated
      → w.queued ≡ v.queued
      → Settled v w

-- The run has not settled the order yet.
pub record Underway (v w : World) : Type 0 where
  pub status : w.order.status ≡ pending
  pub voucher : w.order.voucher ≡ false
  pub quantity : w.order.quantity ≡ v.order.quantity
  pub activated : w.activated ≡ v.activated
  pub queued : w.queued ≡ v.queued

pub record Closed (v w : World) : Type 0 where
  pub settled : Settled v w
  pub quantity : w.order.quantity ≡ v.order.quantity
  pub bought : w.bought ≤ v.bought + 3

-- What holds of a run at each stage once it has the lock, `v` being the state at its beginning.
abbrev pub Running : World → World × Stage → Type 0
Running v (w, waiting) = ⊥
Running v (w, reading) = Underway v w × (w.bought ≡ v.bought)
Running v (w, claiming o) = Underway v w × (w.bought ≡ v.bought) × (o.voucher ≡ false)
Running v (w, choosing o owns) = Underway v w × (w.bought ≡ v.bought) × (o.voucher ≡ false)
Running v (w, calling o owns p left) =
    Underway v w × (w.bought + left ≤ v.bought + 3) × (1 ≤ left) × (o.voucher ≡ false)
Running v (w, counting owns) = Underway v w × (w.bought ≤ v.bought + 3)
Running v (w, delivering o owns g) = Underway v w × (w.bought ≤ v.bought + 3) × (o.voucher ≡ false)
Running v (w, failing owns f) = Underway v w × (w.bought ≤ v.bought + 3)
Running v (w, finishing owns) = Closed v w
Running v (w, done) = Closed v w
