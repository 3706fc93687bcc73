-- ===== src/Worker/Handover.antt =====
-- Where `processOrder` of orders.worker.service.ts leaves an order without a voucher: the goods that
-- came.
use appchat_be.Common.{ℕ, suc, ◌+◌, ◌≤◌, refl, ap, inl, inr, Bool, not, Bool-cases, arith, ltb}
use appchat_be.Worker.State.{Order, World, Goods, Env}
use appchat_be.Worker.Delivery.{insert_proxies, wait_for_proxies, deliver}
use appchat_be.Worker.Steps.{delivering, after_delivery}
use appchat_be.Worker.Settled.{came, came_short, waits, Underway, Running}

module _ (v : World) where
  stay : (n : ℕ) (w : World) → Underway v w → Underway v (record w { proxies = n })
  stay n w u = record {
    status = u.status;
    voucher = u.voucher;
    quantity = u.quantity;
    activated = u.activated;
    queued = u.queued;
  }

  forget : (w : World) → Underway v w → Underway v (record w { fail_count = 0 })
  forget w u = record {
    status = u.status;
    voucher = u.voucher;
    quantity = u.quantity;
    activated = u.activated;
    queued = u.queued;
  }

  insert_proxies-Running :
      (e : Env) (owns : Bool) (g : Goods) (w : World)
      → Underway v w
      → w.bought ≤ v.bought + 3
      → Running v (after_delivery owns (insert_proxies e g w))
  unfolding insert_proxies
  insert_proxies-Running e owns g w u b = elim (Bool-cases (not e.inserts)) [
    | inl refused ↦ rw refused (stay e.saved w u, b)
    | inr put ↦ elim (Bool-cases (ltb e.saved g.proxies)) [
      | inl lost ↦ rw put (rw lost (stay e.saved w u, b))
      | inr kept ↦ elim (Bool-cases (ltb e.saved w.order.quantity)) [
        | inl short ↦ rw put (
            rw kept (
              rw short record {
                settled = came_short refl (ground (arith, short)) refl u.activated u.queued;
                quantity = u.quantity;
                bought = b;
              }))
        | inr full ↦ rw put (
            rw kept (
              rw full record {
                settled = came refl (ground (arith, full)) (ap suc u.activated) u.queued;
                quantity = u.quantity;
                bought = b;
              }))
      ]
    ]
  ]

  pub deliver-Running :
      (e : Env) (o : Order) (owns : Bool) (g : Goods) (w : World)
      → Running v (w, delivering o owns g)
      → Running v (after_delivery owns (deliver e o g w))
  unfolding deliver wait_for_proxies
  deliver-Running e o owns g w (u, b, plain) = elim (Bool-cases (ltb 0 g.proxies)) [
    | inl some_came ↦ rw plain (
        rw some_came (insert_proxies-Running e owns g (record w { fail_count = 0 }) (forget w u) b))
    | inr none_came ↦ rw plain (
        rw none_came record {
          settled = waits refl (ap suc u.queued) u.activated;
          quantity = u.quantity;
          bought = b;
        })
  ]
