-- ===== src/Worker/Attempts.antt =====
-- Where `processOrder` of orders.worker.service.ts leaves an order without a voucher: the choice of the
-- product and the attempts to buy.
use appchat_be.Common.{
  ℕ, suc, ◌+◌, ◌≤◌, ◌≡◌, refl, ap, inl, inr, Bool, true, false, not, ◌||◌, Bool-cases, Result-cases,
  Option, none, some, arith, leb, is_empty,
}
use appchat_be.Renewal.Order.{Partner, PartnerData, is_gpnip}
use appchat_be.Worker.State.{Order, World, Goods, Env, Answer, throws, empty, sells}
use appchat_be.Worker.Products.{product}
use appchat_be.Worker.Steps.{
  choosing, calling, after_failure, keep_result, after_answer, max_attempts, prepare, choose_for,
}
use appchat_be.Worker.Settled.{waits, Underway, Running}

max_attempts-bounds : (p : Partner) (o : Order) → (1 ≤ max_attempts p o) × (max_attempts p o ≤ 3)
unfolding max_attempts
max_attempts-bounds p o = (ground arith, ground arith)

module _ (v : World) where
  calls_first :
      (o : Order) (owns : Bool) (p : Partner) (w : World)
      → Underway v w
      → w.bought ≡ v.bought
      → o.voucher ≡ false
      → Running v (w, calling o owns p (max_attempts p o))
  calls_first o owns p w u b plain =
      let tries = max_attempts-bounds p o in (u, omega (arith, b, tries.1), tries.0, plain)

  prepare-Running :
      (o : Order) (owns : Bool) (p : Partner) (w : World)
      → Running v (w, choosing o owns)
      → Running v (prepare o owns p w)
  unfolding prepare
  prepare-Running o owns p w (u, b, plain) = elim (Bool-cases (is_gpnip p)) [
    | inr other ↦ rw other (calls_first o owns p w u b plain)
    | inl gpnip ↦ elim (Bool-cases (is_empty o.provider_order_id)) [
      | inr known ↦
          rw (gpnip, known)
            record {
              settled = waits refl (ap suc u.queued) u.activated;
              quantity = u.quantity;
              bought = omega (arith, b);
            }
      | inl fresh ↦ elim (Bool-cases o.purchase_started) [
        | inl again ↦ rw (gpnip, fresh, again) (u, omega (arith, b))
        | inr first ↦
            rw (gpnip, fresh, first)
              (calls_first (record o { purchase_started = false }) owns p
                (record w { order = record w.order { purchase_started = true } })
                (record {
                  status = u.status;
                  voucher = u.voucher;
                  quantity = u.quantity;
                  activated = u.activated;
                  queued = u.queued;
                })
                b plain)
      ]
    ]
  ]

  pub choose_for-Running :
      (e : Env) (o : Order) (owns : Bool) (w : World) (p : Option PartnerData)
      → Running v (w, choosing o owns)
      → Running v (choose_for e o owns w p)
  choose_for-Running e o owns w none h = (h.0, omega (arith, h.1))
  choose_for-Running e o owns w (some p) h = elim (Bool-cases (not p.complete || not p.status)) [
    | inl off ↦ rw off (h.0, omega (arith, h.1))
    | inr on ↦ elim (Bool-cases (not e.registered)) [
      | inl unknown ↦ rw on (rw unknown (h.0, omega (arith, h.1)))
      | inr known ↦ rw on (
          rw known (elim (Result-cases (product p.code e.id_service o)) [
            | inl (t, q) ↦ rw q (prepare-Running o owns p.code w h)
            | inr (f, q) ↦ rw q (h.0, omega (arith, h.1))
          ]))
    ]
  ]

  answered :
      (o : Order) (owns : Bool) (p : Partner) (left : ℕ) (w : World)
      → Underway v w
      → w.bought + left ≤ v.bought + 4
      → 1 ≤ left
      → o.voucher ≡ false
      → Running v (w, after_failure o owns p left)
  answered o owns p left w u b tries plain = elim (Bool-cases (leb left 1)) [
    | inl last ↦ rw last (u, omega (arith, b, tries))
    | inr more ↦ rw more (u, omega (arith, b), ground (arith, more), plain)
  ]

  kept_underway :
      (o : Order) (g : Goods) (w : World)
      → Underway v w
      → Underway v (record w { order = keep_result o g w.order })
  kept_underway o g w u = record {
    status = ground (arith, u.status);
    voucher = ground (arith, u.voucher);
    quantity = ground (arith, u.quantity);
    activated = u.activated;
    queued = u.queued;
  }

  pub after_answer-Running :
      (e : Env) (o : Order) (owns : Bool) (p : Partner) (left : ℕ) (w : World) (a : Answer)
      → Underway v w
      → w.bought + left ≤ v.bought + 4
      → 1 ≤ left
      → o.voucher ≡ false
      → Running v (after_answer e o owns p left w a)
  after_answer-Running e o owns p left w throws u b tries plain =
      answered o owns p left w u b tries plain
  after_answer-Running e o owns p left w empty u b tries plain =
      elim (Bool-cases (o.voucher || is_gpnip p)) [
        | inl kept ↦ rw kept (answered o owns p left w u b tries plain)
        | inr lost ↦ rw lost (u, omega (arith, b, tries))
      ]
  after_answer-Running e o owns p left w (sells g) u b tries plain =
      elim (Bool-cases (o.voucher || is_gpnip p)) [
        | inr free ↦ rw free (u, omega (arith, b, tries), plain)
        | inl kept ↦ elim (Bool-cases e.persists) [
          | inr lost ↦ rw kept (rw lost (answered o owns p left w u b tries plain))
          | inl written ↦
              rw kept (rw written (kept_underway o g w u, omega (arith, b, tries), plain))
        ]
      ]
