-- ===== src/Worker/Settling.antt =====
-- Where `processOrder` of orders.worker.service.ts leaves an order without a voucher: the whole run.
use appchat_be.Common.{
  ℕ, zero, suc, ◌≡◌, refl, sym, subst, inl, inr, Bool, true, false, ◌&&◌, Bool-cases, arith, leb,
}
use appchat_be.Orders.Status.{pending, same_status}
use appchat_be.Worker.State.{Failure, World, Env}
use appchat_be.Worker.Steps.{
  is_worker, Stage, waiting, reading, claiming, choosing, calling, counting, delivering, failing,
  finishing, done, read_order, claim_dispatch, choose, call_provider, count_failure, refund_later,
  finish, step, run, process_order,
}
use appchat_be.Worker.Ending.{claim_lock-free, process_order-after_lock, process_order-done}
use appchat_be.Worker.Settled.{
  Settled, came, came_short, waits, given_up, Underway, Closed, Running,
}
use appchat_be.Worker.Attempts.{choose_for-Running, after_answer-Running}
use appchat_be.Worker.Handover.{deliver-Running}

module _ (v : World) where
  called : (w : World) → Underway v w → Underway v (record w { bought = suc w.bought })
  called w u = record {
    status = u.status;
    voucher = u.voucher;
    quantity = u.quantity;
    activated = u.activated;
    queued = u.queued;
  }

  read_order-Running : (w : World) → Running v (w, reading) → Running v (read_order w)
  unfolding read_order
  read_order-Running w (u, b) =
      let e : same_status w.order.status pending ≡ true = rw (u.status) refl in
      rw e (u, b, u.voucher)

  count_failure-Running :
      (owns : Bool) (w : World) → Running v (w, counting owns) → Running v (count_failure owns w)
  unfolding count_failure
  count_failure-Running owns w (u, b) = elim (Bool-cases (leb 5 (suc w.fail_count))) [
    | inl off ↦ rw off (
      record {
        status = u.status;
        voucher = u.voucher;
        quantity = u.quantity;
        activated = u.activated;
        queued = u.queued;
      },
      b,
    )
    | inr on ↦ rw on (
      record {
        status = u.status;
        voucher = u.voucher;
        quantity = u.quantity;
        activated = u.activated;
        queued = u.queued;
      },
      b,
    )
  ]

  refund_later-Running :
      (owns : Bool) (f : Failure) (w : World)
      → Running v (w, failing owns f)
      → Running v (refund_later owns f w)
  unfolding refund_later
  refund_later-Running owns f w (u, b) = rw (u.status) record {
    settled = given_up f refl refl u.activated u.queued;
    quantity = u.quantity;
    bought = b;
  }

  Settled-finish :
      (lock finished : Bool) (w : World)
      → Settled v w
      → Settled v (record w { order = record w.order { buy_finished = finished }; lock = lock })
  Settled-finish lock finished w (came s p a q) = came s p a q
  Settled-finish lock finished w (came_short s p n a q) = came_short s p n a q
  Settled-finish lock finished w (waits s q a) = waits s q a
  Settled-finish lock finished w (given_up f s e a q) = given_up f s e a q

  finish-Running : (owns : Bool) (w : World) → Closed v w → Running v (finish owns w)
  unfolding finish
  finish-Running owns w h = elim (Bool-cases (owns && is_worker w.order.dispatch_source)) [
    | inl owned ↦ rw owned record {
      settled = Settled-finish false true w h.settled;
      quantity = h.quantity;
      bought = h.bought;
    }
    | inr other ↦ rw other record {
      settled = Settled-finish false w.order.buy_finished w h.settled;
      quantity = h.quantity;
      bought = h.bought;
    }
  ]

  step-Running : (e : Env) (w : World) (s : Stage) → Running v (w, s) → Running v (step e w s)
  unfolding step choose claim_dispatch call_provider
  step-Running e w waiting h = absurd h
  step-Running e w reading h = read_order-Running w h
  step-Running e w (claiming o) (u, b, plain) = rw plain (u, b, refl)
  step-Running e w (choosing o owns) h = choose_for-Running v e o owns w w.partner h
  step-Running e w (calling o owns p left) (u, b, tries, plain) =
      after_answer-Running v e o owns p left (record w { bought = suc w.bought }) e.answer
        (called w u) (omega (arith, b)) tries plain
  step-Running e w (counting owns) h = count_failure-Running owns w h
  step-Running e w (delivering o owns g) h = deliver-Running v e o owns g w h
  step-Running e w (failing owns f) h = refund_later-Running owns f w h
  step-Running e w (finishing owns) h = finish-Running owns w h
  step-Running e w done h = h

  run-Running :
      (n : ℕ) (env : ℕ → Env) (w : World) (s : Stage) → Running v (w, s) → Running v (run n env w s)
  unfolding run
  run-Running zero env w s h = h
  run-Running (suc n) env w s h =
      let r = step (env n) w s in run-Running n env r.0 r.1 (step-Running (env n) w s h)

  ended-Closed : (r : World × Stage) → r.1 ≡ done → Running v r → Closed v r.0
  ended-Closed (w, s) e h = subst (λ t. Running v (w, t)) e h

-- For a pending order without a voucher whose lock is free, whatever the provider, the database and the other
-- services answer: a run that nothing else disturbs ends with the order active with at least as
-- many proxies as were ordered and one call of the affiliate's hook, or partial with the number of
-- the proxies, of which there are fewer, or in the processing queue once, or to be given back with
-- the reason; the ordered quantity is as it was, and the provider was called three times at most.
pub process_order-Settles :
    (env : ℕ → Env) (w : World)
    → w.lock ≡ false
    → w.order.status ≡ pending
    → w.order.voucher ≡ false
    → Closed w (process_order env w).0
process_order-Settles env w free p plain =
    let v : World = record w { lock = true } in
    ended-Closed w (process_order env w) (process_order-done env w) (
      subst (Running w) (sym (process_order-after_lock env w v reading (claim_lock-free w free))) (
        run-Running w 10 env v reading (
          record { status = p; voucher = plain; quantity = refl; activated = refl; queued = refl },
          refl,
        )))
