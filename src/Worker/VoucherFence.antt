-- ===== src/Worker/VoucherFence.antt =====
-- The voucher orders' fence in `processOrder` of orders.worker.service.ts.
use appchat_be.Common.{
  ℕ, ◌+◌, ◌≤◌, ◌≡◌, refl, ap, sym, ◌∙◌, subst, inl, inr, Bool, true, ◌&&◌, ◌||◌, Bool-cases,
  Result-cases, Option, none, some, bit, leb, arith, not,
}
use appchat_be.Renewal.Order.{Partner, PartnerData}
use appchat_be.Worker.State.{Order, World, Goods, Env}
use appchat_be.Worker.Products.{product}
use appchat_be.Worker.Steps.{
  Stage, waiting, reading, claiming, choosing, calling, counting, delivering, failing, finishing,
  done, claim_lock, read_order, claim_dispatch, max_attempts, prepare, choose_for, choose,
  call_provider, count_failure, after_delivery, refund_later, finish, step,
}
use appchat_be.Worker.Delivery.{Outcome, passes, fails, deliver}
use appchat_be.Worker.Fences.{Fences, fences, fences-deliver}

-- How often a run of a voucher order may still call the provider without another claim.
abbrev pub rights : Stage → ℕ
rights waiting = 0
rights reading = 0
rights done = 0
rights (claiming o) = 0
rights (choosing o owns) = 1
rights (calling o owns p left) = left
rights (counting owns) = 0
rights (delivering o owns g) = 0
rights (failing owns f) = 0
rights (finishing owns) = 0

-- The run read an order with a voucher, and has one attempt at most.
abbrev pub is_voucher_stage : Stage → Bool
is_voucher_stage waiting = true
is_voucher_stage reading = true
is_voucher_stage done = true
is_voucher_stage (claiming o) = o.voucher
is_voucher_stage (choosing o owns) = o.voucher
is_voucher_stage (calling o owns p left) = o.voucher && (leb 1 left && leb left 1)
is_voucher_stage (counting owns) = true
is_voucher_stage (delivering o owns g) = true
is_voucher_stage (failing owns f) = true
is_voucher_stage (finishing owns) = true

pub record IsFenced (others : ℕ) (r : World × Stage) : Type 0 where
  pub has_voucher : r.0.order.voucher ≡ true
  pub stage : is_voucher_stage r.1 ≡ true
  pub bounded : r.0.bought + rights r.1 + others ≤ bit r.0.order.dispatch_claimed

claim_dispatch-IsFenced :
    (n : ℕ) (o : Order) (w : World) → IsFenced n (w, claiming o) → IsFenced n (claim_dispatch o w)
unfolding claim_dispatch
claim_dispatch-IsFenced n o w h = record {
  has_voucher = ground (arith, h.has_voucher, h.stage);
  stage = ground (arith, h.has_voucher, h.stage);
  bounded = ground (arith, h.bounded, h.stage);
}

-- A stage that calls nothing more needs no more than the count.
at_rest :
    (n : ℕ) (w : World) (s : Stage) (f : Fences)
    → is_voucher_stage s ≡ true
    → rights s ≡ 0
    → fences w ≡ f
    → f.voucher ≡ true
    → f.bought + n ≤ bit f.claimed
    → IsFenced n (w, s)
at_rest n w s f stage none_left e v b = record {
  has_voucher = ap (λ x. x.voucher) e ∙ v;
  stage = stage;
  bounded =
      subst (λ x. x.bought + rights s + n ≤ bit x.claimed) (sym e) (ground (arith, none_left, b));
}

prepare-IsFenced :
    (n : ℕ) (o : Order) (owns : Bool) (p : Partner) (w : World)
    → IsFenced n (w, choosing o owns)
    → IsFenced n (prepare o owns p w)
unfolding prepare max_attempts
prepare-IsFenced n o owns p w h = record {
  has_voucher = ground (arith, h.has_voucher, h.stage);
  stage = ground (arith, h.has_voucher, h.stage);
  bounded = ground (arith, h.bounded, h.stage);
}

rest_after :
    (n : ℕ) (w : World) (o : Order) (owns : Bool) (s : Stage)
    → IsFenced n (w, choosing o owns)
    → is_voucher_stage s ≡ true
    → rights s ≡ 0
    → IsFenced n (w, s)
rest_after n w o owns s h stage e =
    at_rest n w s (fences w) stage e refl h.has_voucher (omega (arith, h.bounded))

choose_for-IsFenced :
    (n : ℕ) (e : Env) (o : Order) (owns : Bool) (w : World) (p : Option PartnerData)
    → IsFenced n (w, choosing o owns)
    → IsFenced n (choose_for e o owns w p)
choose_for-IsFenced n e o owns w none h = rest_after n w o owns _ h refl refl
choose_for-IsFenced n e o owns w (some p) h = elim (Bool-cases (not p.complete || not p.status)) [
  | inl off ↦ rw off (rest_after n w o owns _ h refl refl)
  | inr on ↦ elim (Bool-cases (not e.registered)) [
    | inl unknown ↦ rw on (rw unknown (rest_after n w o owns _ h refl refl))
    | inr known ↦ rw on (
        rw known (elim (Result-cases (product p.code e.id_service o)) [
          | inl (t, q) ↦ rw q (prepare-IsFenced n o owns p.code w h)
          | inr (f, q) ↦ rw q (rest_after n w o owns _ h refl refl)
        ]))
  ]
]

call_provider-IsFenced :
    (n : ℕ) (e : Env) (o : Order) (owns : Bool) (p : Partner) (left : ℕ) (w : World)
    → IsFenced n (w, calling o owns p left)
    → IsFenced n (call_provider e o owns p left w)
unfolding call_provider
call_provider-IsFenced n e o owns p left w h = record {
  has_voucher = ground (arith, h.has_voucher, h.stage);
  stage = ground (arith, h.has_voucher, h.stage);
  bounded = ground (arith, h.bounded, h.stage);
}

deliver-IsFenced :
    (n : ℕ) (e : Env) (o : Order) (owns : Bool) (g : Goods) (w : World) (r : World × Outcome)
    → IsFenced n (w, delivering o owns g)
    → fences r.0 ≡ fences w
    → IsFenced n (after_delivery owns r)
deliver-IsFenced n e o owns g w (w', passes) h q =
    at_rest n w' _ (fences w) refl refl q h.has_voucher (omega (arith, h.bounded))
deliver-IsFenced n e o owns g w (w', fails f) h q =
    at_rest n w' _ (fences w) refl refl q h.has_voucher (omega (arith, h.bounded))

pub step-IsFenced :
    (n : ℕ) (e : Env) (w : World) (s : Stage) → IsFenced n (w, s) → IsFenced n (step e w s)
unfolding step claim_lock read_order choose count_failure refund_later finish
step-IsFenced n e w waiting h = record {
  has_voucher = ground (arith, h.has_voucher);
  stage = ground arith;
  bounded = ground (arith, h.bounded);
}
step-IsFenced n e w reading h = record {
  has_voucher = ground (arith, h.has_voucher);
  stage = ground (arith, h.has_voucher);
  bounded = ground (arith, h.bounded);
}
step-IsFenced n e w (claiming o) h = claim_dispatch-IsFenced n o w h
step-IsFenced n e w (choosing o owns) h = choose_for-IsFenced n e o owns w w.partner h
step-IsFenced n e w (calling o owns p left) h = call_provider-IsFenced n e o owns p left w h
step-IsFenced n e w (counting owns) h = record {
  has_voucher = ground (arith, h.has_voucher);
  stage = ground arith;
  bounded = ground (arith, h.bounded);
}
step-IsFenced n e w (delivering o owns g) h =
    deliver-IsFenced n e o owns g w (deliver e o g w) h (fences-deliver e o g w)
step-IsFenced n e w (failing owns f) h = record {
  has_voucher = ground (arith, h.has_voucher);
  stage = ground arith;
  bounded = ground (arith, h.bounded);
}
step-IsFenced n e w (finishing owns) h = record {
  has_voucher = ground (arith, h.has_voucher);
  stage = ground arith;
  bounded = ground (arith, h.bounded);
}
step-IsFenced n e w done h = h
