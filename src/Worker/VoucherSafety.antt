-- ===== src/Worker/VoucherSafety.antt =====
-- Runs of `processOrder` of orders.worker.service.ts side by side, for an order bought with a voucher.
use appchat_be.Common.{ℕ, zero, suc, ◌+◌, ◌≤◌, ◌≡◌, refl, true, List, [], ◌∷◌, all, bit, arith}
use appchat_be.Worker.State.{World, Env}
use appchat_be.Worker.Steps.{Stage, step}
use appchat_be.Worker.Interleaved.{
  System, Edit, setting_status, resolving, reconciling, switching, edit, reconcile, Event,
  delivered, lock_expired, stepped, crashed, edited, step_at, drop_at, perform, perform_all,
}
use appchat_be.Worker.VoucherFence.{rights, is_voucher_stage, IsFenced, step-IsFenced}

abbrev pub total_rights : List Stage → ℕ
total_rights [] = 0
total_rights (s ∷ ss) = rights s + total_rights ss

pub record AllFenced (others : ℕ) (r : World × List Stage) : Type 0 where
  pub has_voucher : r.0.order.voucher ≡ true
  pub stages : all is_voucher_stage r.1 ≡ true
  pub bounded : r.0.bought + total_rights r.1 + others ≤ bit r.0.order.dispatch_claimed

step_at-AllFenced :
    (n i : ℕ) (e : Env) (w : World) (ss : List Stage)
    → AllFenced n (w, ss)
    → AllFenced n (step_at i e w ss)
unfolding step_at
step_at-AllFenced n i e w [] h = h
step_at-AllFenced n zero e w (s ∷ ss) h =
    let after : IsFenced (total_rights ss + n) (step e w s) =
      step-IsFenced (total_rights ss + n) e w s (record {
        has_voucher = h.has_voucher;
        stage = ground (arith, h.stages);
        bounded = omega (arith, h.bounded);
      }) in
    record {
      has_voucher = after.has_voucher;
      stages = ground (arith, after.stage, h.stages);
      bounded = omega (arith, after.bounded);
    }
step_at-AllFenced n (suc i) e w (s ∷ ss) h =
    let after : AllFenced (rights s + n) (step_at i e w ss) =
      step_at-AllFenced (rights s + n) i e w ss (record {
        has_voucher = h.has_voucher;
        stages = ground (arith, h.stages);
        bounded = omega (arith, h.bounded);
      }) in
    record {
      has_voucher = after.has_voucher;
      stages = ground (arith, after.stages, h.stages);
      bounded = omega (arith, after.bounded);
    }

drop_at-AllFenced :
    (n i : ℕ) (w : World) (ss : List Stage) → AllFenced n (w, ss) → AllFenced n (w, drop_at i ss)
unfolding drop_at
drop_at-AllFenced n i w [] h = h
drop_at-AllFenced n zero w (s ∷ ss) h = record {
  has_voucher = h.has_voucher;
  stages = ground (arith, h.stages);
  bounded = omega (arith, h.bounded);
}
drop_at-AllFenced n (suc i) w (s ∷ ss) h =
    let after : AllFenced (rights s + n) (w, drop_at i ss) =
      drop_at-AllFenced (rights s + n) i w ss (record {
        has_voucher = h.has_voucher;
        stages = ground (arith, h.stages);
        bounded = omega (arith, h.bounded);
      }) in
    record {
      has_voucher = after.has_voucher;
      stages = ground (arith, after.stages, h.stages);
      bounded = omega (arith, after.bounded);
    }

edit-AllFenced :
    (d : Edit) (w : World) (ss : List Stage) → AllFenced 0 (w, ss) → AllFenced 0 (edit d w, ss)
unfolding edit reconcile
edit-AllFenced (setting_status s) w ss h = record {
  has_voucher = h.has_voucher;
  stages = h.stages;
  bounded = h.bounded;
}
edit-AllFenced (resolving r) w ss h = record {
  has_voucher = h.has_voucher;
  stages = h.stages;
  bounded = h.bounded;
}
edit-AllFenced (reconciling t) w ss h = record {
  has_voucher = ground (arith, h.has_voucher);
  stages = h.stages;
  bounded = ground (arith, h.bounded);
}
edit-AllFenced (switching on) w ss h = record {
  has_voucher = h.has_voucher;
  stages = h.stages;
  bounded = h.bounded;
}

perform-AllFenced :
    (d : Event) (x : System)
    → AllFenced 0 (x.world, x.runs)
    → AllFenced 0 ((perform d x).world, (perform d x).runs)
unfolding perform
perform-AllFenced delivered x h = record {
  has_voucher = h.has_voucher;
  stages = h.stages;
  bounded = omega (arith, h.bounded);
}
perform-AllFenced lock_expired x h = record {
  has_voucher = h.has_voucher;
  stages = h.stages;
  bounded = h.bounded;
}
perform-AllFenced (stepped i e) x h = step_at-AllFenced 0 i e x.world x.runs h
perform-AllFenced (crashed i) x h = drop_at-AllFenced 0 i x.world x.runs h
perform-AllFenced (edited d) x h = edit-AllFenced d x.world x.runs h

pub perform_all-AllFenced :
    (ds : List Event) (x : System)
    → AllFenced 0 (x.world, x.runs)
    → AllFenced 0 ((perform_all ds x).world, (perform_all ds x).runs)
unfolding perform_all
perform_all-AllFenced [] x h = h
perform_all-AllFenced (d ∷ ds) x h =
    perform_all-AllFenced ds (perform d x) (perform-AllFenced d x h)

-- For an order with a voucher for which no call was made and no run is under way: after any events, however
-- many runs there are and however their steps fall, with locks that expire, runs that stop for
-- good, and edits by other code, the provider was called once at most, and only if the order's
-- dispatch was claimed.
pub voucher_order-BoughtOnce :
    (ds : List Event) (x : System)
    → x.world.order.voucher ≡ true
    → x.world.bought ≡ 0
    → x.runs ≡ []
    → (perform_all ds x).world.bought ≤ bit (perform_all ds x).world.order.dispatch_claimed
voucher_order-BoughtOnce ds x v b r =
    let h =
      perform_all-AllFenced ds x
        (record { has_voucher = v; stages = rw r refl; bounded = rw (b, r) (omega arith) }) in
    omega (arith, h.bounded)
