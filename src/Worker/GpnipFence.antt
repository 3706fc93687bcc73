-- ===== src/Worker/GpnipFence.antt =====
-- The GPNIP orders' fence in `processOrder` of orders.worker.service.ts.
use appchat_be.Common.{
  ℕ, ◌+◌, ◌≤◌, ◌≡◌, refl, ap, sym, ◌∙◌, subst, inl, inr, Bool, true, ◌&&◌, ◌||◌, not, Bool-cases,
  Result-cases, Option, none, some, bit, leb, arith,
}
use appchat_be.Renewal.Order.{Partner, PartnerData, is_gpnip}
use appchat_be.Worker.State.{Failure, Order, World, Goods, Env}
use appchat_be.Worker.Products.{product}
use appchat_be.Worker.Steps.{
  Stage, waiting, reading, claiming, choosing, calling, counting, delivering, failing, finishing,
  done, claim_lock, read_order, claim_dispatch, max_attempts, prepare, choose_for, choose,
  call_provider, count_failure, after_delivery, refund_later, finish, step,
}
use appchat_be.Worker.Delivery.{Outcome, passes, fails, deliver}
use appchat_be.Worker.Fences.{fences, fences-deliver, sold_by_gpnip}

-- The run holds the order's lock.
abbrev pub holds : Stage → ℕ
holds waiting = 0
holds done = 0
holds reading = 1
holds (claiming o) = 1
holds (choosing o owns) = 1
holds (calling o owns p left) = 1
holds (counting owns) = 1
holds (delivering o owns g) = 1
holds (failing owns f) = 1
holds (finishing owns) = 1

-- The run found that no purchase was started, and may start one.
abbrev pub hopes : Stage → ℕ
hopes waiting = 0
hopes done = 0
hopes reading = 0
hopes (claiming o) = bit (not o.purchase_started)
hopes (choosing o owns) = bit (not o.purchase_started)
hopes (calling o owns p left) = 0
hopes (counting owns) = 0
hopes (delivering o owns g) = 0
hopes (failing owns f) = 0
hopes (finishing owns) = 0

-- How often the run may still call the provider.
abbrev pub calls : Stage → ℕ
calls waiting = 0
calls done = 0
calls reading = 0
calls (claiming o) = 0
calls (choosing o owns) = 0
calls (calling o owns p left) = left
calls (counting owns) = 0
calls (delivering o owns g) = 0
calls (failing owns f) = 0
calls (finishing owns) = 0

abbrev pub is_gpnip_stage : Stage → Bool
is_gpnip_stage waiting = true
is_gpnip_stage done = true
is_gpnip_stage reading = true
is_gpnip_stage (claiming o) = true
is_gpnip_stage (choosing o owns) = true
is_gpnip_stage (calling o owns p left) = is_gpnip p && (leb 1 left && leb left 1)
is_gpnip_stage (counting owns) = true
is_gpnip_stage (delivering o owns g) = true
is_gpnip_stage (failing owns f) = true
is_gpnip_stage (finishing owns) = true

-- With `others` the sums over the other runs: one run at most holds the lock, a call was made or is to come
-- only if the purchase was started, and hopes and calls come to one at most.
pub record IsAlone (holding hoping calling : ℕ) (r : World × Stage) : Type 0 where
  pub gpnip : sold_by_gpnip r.0.partner ≡ true
  pub stage : is_gpnip_stage r.1 ≡ true
  pub locked : holds r.1 + holding ≤ bit r.0.lock
  pub within : hoping + calling ≤ holding
  pub started : r.0.bought + calls r.1 + calling ≤ bit r.0.order.purchase_started
  pub bounded : r.0.bought + calls r.1 + calling + hopes r.1 + hoping ≤ 1

-- Where the fences do not change and the stage calls and hopes for nothing more.
at_rest :
    (a b c : ℕ) (w w' : World) (s s' : Stage)
    → IsAlone a b c (w, s)
    → is_gpnip_stage s' ≡ true
    → calls s' + hopes s' ≡ 0
    → holds s' ≤ holds s
    → fences w' ≡ fences w
    → IsAlone a b c (w', s')
at_rest a b c w w' s s' h stage z le e = record {
  gpnip = ap (λ x. x.gpnip) e ∙ h.gpnip;
  stage = stage;
  locked = subst (λ x. holds s' + a ≤ bit x.lock) (sym e) (omega (arith, h.locked, le));
  within = h.within;
  started =
      subst (λ x. x.bought + calls s' + c ≤ bit x.started) (sym e) (omega (arith, h.started, z));
  bounded =
      subst (λ x. x.bought + calls s' + c + hopes s' + b ≤ 1) (sym e) (omega (arith, h.bounded, z));
}

module _ (a b c : ℕ) (w : World) where
  claim_lock-IsAlone : IsAlone a b c (w, waiting) → IsAlone a b c (claim_lock w)
  unfolding claim_lock
  claim_lock-IsAlone h = record {
    gpnip = ground (arith, h.gpnip);
    stage = ground arith;
    locked = ground (arith, h.locked);
    within = h.within;
    started = ground (arith, h.started);
    bounded = ground (arith, h.bounded);
  }

  read_order-IsAlone : IsAlone a b c (w, reading) → IsAlone a b c (read_order w)
  unfolding read_order
  read_order-IsAlone h = record {
    gpnip = ground (arith, h.gpnip);
    stage = ground arith;
    locked = ground (arith, h.locked);
    within = h.within;
    started = ground (arith, h.started);
    bounded = ground (arith, h.started, h.bounded, h.locked, h.within);
  }

  claim_dispatch-IsAlone :
      (o : Order) → IsAlone a b c (w, claiming o) → IsAlone a b c (claim_dispatch o w)
  unfolding claim_dispatch
  claim_dispatch-IsAlone o h = record {
    gpnip = ground (arith, h.gpnip);
    stage = ground arith;
    locked = ground (arith, h.locked);
    within = h.within;
    started = ground (arith, h.started);
    bounded = ground (arith, h.bounded);
  }

  prepare-IsAlone :
      (o : Order) (owns : Bool) (p : Partner)
      → is_gpnip p ≡ true
      → IsAlone a b c (w, choosing o owns)
      → IsAlone a b c (prepare o owns p w)
  unfolding prepare max_attempts
  prepare-IsAlone o owns p g h = record {
    gpnip = ground (arith, h.gpnip);
    stage = ground (arith, g);
    locked = ground (arith, h.locked);
    within = h.within;
    started = ground (arith, h.started, h.bounded, g);
    bounded = ground (arith, h.bounded, g);
  }

  stops_here :
      (o : Order) (owns : Bool) (s : Stage)
      → IsAlone a b c (w, choosing o owns)
      → is_gpnip_stage s ≡ true
      → calls s + hopes s ≡ 0
      → holds s ≤ 1
      → IsAlone a b c (w, s)
  stops_here o owns s h stage z le = at_rest a b c w w (choosing o owns) s h stage z le refl

  choose_for-IsAlone :
      (e : Env) (o : Order) (owns : Bool) (p : Option PartnerData)
      → sold_by_gpnip p ≡ true
      → IsAlone a b c (w, choosing o owns)
      → IsAlone a b c (choose_for e o owns w p)
  choose_for-IsAlone e o owns none g h = stops_here o owns _ h refl refl (omega arith)
  choose_for-IsAlone e o owns (some p) g h = elim (Bool-cases (not p.complete || not p.status)) [
    | inl off ↦ rw off (stops_here o owns _ h refl refl (omega arith))
    | inr on ↦ elim (Bool-cases (not e.registered)) [
      | inl unknown ↦ rw on (rw unknown (stops_here o owns _ h refl refl (omega arith)))
      | inr known ↦ rw on (
          rw known (elim (Result-cases (product p.code e.id_service o)) [
            | inl (t, q) ↦ rw q (prepare-IsAlone o owns p.code g h)
            | inr (f, q) ↦ rw q (stops_here o owns _ h refl refl (omega arith))
          ]))
    ]
  ]

  call_provider-IsAlone :
      (e : Env) (o : Order) (owns : Bool) (p : Partner) (left : ℕ)
      → IsAlone a b c (w, calling o owns p left)
      → IsAlone a b c (call_provider e o owns p left w)
  unfolding call_provider
  call_provider-IsAlone e o owns p left h = record {
    gpnip = ground (arith, h.gpnip);
    stage = ground (arith, h.stage);
    locked = ground (arith, h.locked, h.stage);
    within = h.within;
    started = ground (arith, h.started, h.stage);
    bounded = ground (arith, h.bounded, h.stage);
  }

  deliver-IsAlone :
      (o : Order) (owns : Bool) (g : Goods) (r : World × Outcome)
      → IsAlone a b c (w, delivering o owns g)
      → fences r.0 ≡ fences w
      → IsAlone a b c (after_delivery owns r)
  deliver-IsAlone o owns g (w', passes) h q =
      at_rest a b c w w' (delivering o owns g) _ h refl refl (omega arith) q
  deliver-IsAlone o owns g (w', fails f) h q =
      at_rest a b c w w' (delivering o owns g) _ h refl refl (omega arith) q

  count_failure-IsAlone :
      (owns : Bool) → IsAlone a b c (w, counting owns) → IsAlone a b c (count_failure owns w)
  unfolding count_failure
  count_failure-IsAlone owns h = record {
    gpnip = ground (arith, h.gpnip);
    stage = ground arith;
    locked = ground (arith, h.locked);
    within = h.within;
    started = ground (arith, h.started);
    bounded = ground (arith, h.bounded);
  }

  refund_later-IsAlone :
      (owns : Bool) (f : Failure)
      → IsAlone a b c (w, failing owns f)
      → IsAlone a b c (refund_later owns f w)
  unfolding refund_later
  refund_later-IsAlone owns f h = record {
    gpnip = ground (arith, h.gpnip);
    stage = ground arith;
    locked = ground (arith, h.locked);
    within = h.within;
    started = ground (arith, h.started);
    bounded = ground (arith, h.bounded);
  }

  -- The lock is let go by its only holder.
  finish-IsAlone : (owns : Bool) → IsAlone a b c (w, finishing owns) → IsAlone a b c (finish owns w)
  unfolding finish
  finish-IsAlone owns h = record {
    gpnip = ground (arith, h.gpnip);
    stage = ground arith;
    locked = ground (arith, h.locked);
    within = h.within;
    started = ground (arith, h.started);
    bounded = ground (arith, h.bounded);
  }

  pub step-IsAlone : (e : Env) (s : Stage) → IsAlone a b c (w, s) → IsAlone a b c (step e w s)
  unfolding step choose
  step-IsAlone e waiting h = claim_lock-IsAlone h
  step-IsAlone e reading h = read_order-IsAlone h
  step-IsAlone e (claiming o) h = claim_dispatch-IsAlone o h
  step-IsAlone e (choosing o owns) h = choose_for-IsAlone e o owns w.partner h.gpnip h
  step-IsAlone e (calling o owns p left) h = call_provider-IsAlone e o owns p left h
  step-IsAlone e (counting owns) h = count_failure-IsAlone owns h
  step-IsAlone e (delivering o owns g) h =
      deliver-IsAlone o owns g (deliver e o g w) h (fences-deliver e o g w)
  step-IsAlone e (failing owns f) h = refund_later-IsAlone owns f h
  step-IsAlone e (finishing owns) h = finish-IsAlone owns h
  step-IsAlone e done h = h
