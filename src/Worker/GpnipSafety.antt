-- ===== src/Worker/GpnipSafety.antt =====
-- Runs of `processOrder` of orders.worker.service.ts side by side, for an order that GPNIP sells.
use appchat_be.Common.{
  ◌==◌, ◌&&◌, ℕ, zero, suc, ◌+◌, ◌≤◌, ◌≡◌, refl, Bool, true, List, [], ◌∷◌, all, bit, arith, Option,
  none, some,
}
use appchat_be.Renewal.Order.{PartnerData}
use appchat_be.Worker.State.{World, Env}
use appchat_be.Worker.Steps.{
  Stage, waiting, reading, claiming, choosing, calling, counting, delivering, failing, finishing,
  done,
}
use appchat_be.Worker.Interleaved.{
  System, Edit, setting_status, resolving, reconciling, switching, switch_partner, edit, reconcile,
  Event, delivered, lock_expired, stepped, crashed, edited, step_at, drop_at, perform, perform_all,
}
use appchat_be.Worker.Fences.{sold_by_gpnip}
use appchat_be.Worker.GpnipFence.{holds, hopes, calls, is_gpnip_stage, IsAlone, step-IsAlone}

-- A sum over the runs.
abbrev pub total : (Stage → ℕ) → List Stage → ℕ
total f [] = 0
total f (s ∷ ss) = f s + total f ss

within_stage : (s : Stage) → is_gpnip_stage s ≡ true → hopes s + calls s ≤ holds s
within_stage waiting g = omega arith
within_stage reading g = omega arith
within_stage done g = omega arith
within_stage (claiming o) g = ground arith
within_stage (choosing o owns) g = ground arith
within_stage (calling o owns p left) g = ground arith
within_stage (counting owns) g = omega arith
within_stage (delivering o owns d) g = omega arith
within_stage (failing owns f) g = omega arith
within_stage (finishing owns) g = omega arith

within_runs :
    (ss : List Stage)
    → all is_gpnip_stage ss ≡ true
    → total hopes ss + total calls ss ≤ total holds ss
within_runs [] g = omega arith
within_runs (s ∷ ss) g =
    let first = within_stage s (ground arith) in
    let rest = within_runs ss (ground arith) in omega (arith, first, rest)

pub record AllAlone (a b c : ℕ) (r : World × List Stage) : Type 0 where
  pub gpnip : sold_by_gpnip r.0.partner ≡ true
  pub stages : all is_gpnip_stage r.1 ≡ true
  pub locked : total holds r.1 + a ≤ bit r.0.lock
  pub within : b + c ≤ a
  pub started : r.0.bought + total calls r.1 + c ≤ bit r.0.order.purchase_started
  pub bounded : r.0.bought + total calls r.1 + c + total hopes r.1 + b ≤ 1

-- The first run alone, with the others' sums moved to the carried ones.
IsAlone-head :
    (a b c : ℕ) (w : World) (s : Stage) (ss : List Stage)
    → AllAlone a b c (w, s ∷ ss)
    → IsAlone (total holds ss + a) (total hopes ss + b) (total calls ss + c) (w, s)
IsAlone-head a b c w s ss h =
    let rest = within_runs ss (ground (arith, h.stages)) in
    record {
      gpnip = h.gpnip;
      stage = ground (arith, h.stages);
      locked = omega (arith, h.locked);
      within = omega (arith, h.within, rest);
      started = omega (arith, h.started);
      bounded = omega (arith, h.bounded);
    }

AllAlone-tail :
    (a b c : ℕ) (w : World) (s : Stage) (ss : List Stage)
    → AllAlone a b c (w, s ∷ ss)
    → AllAlone (holds s + a) (hopes s + b) (calls s + c) (w, ss)
AllAlone-tail a b c w s ss h =
    let first = within_stage s (ground (arith, h.stages)) in
    record {
      gpnip = h.gpnip;
      stages = ground (arith, h.stages);
      locked = omega (arith, h.locked);
      within = omega (arith, h.within, first);
      started = omega (arith, h.started);
      bounded = omega (arith, h.bounded);
    }

step_at-AllAlone :
    (a b c i : ℕ) (e : Env) (w : World) (ss : List Stage)
    → AllAlone a b c (w, ss)
    → AllAlone a b c (step_at i e w ss)
unfolding step_at
step_at-AllAlone a b c i e w [] h = h
step_at-AllAlone a b c zero e w (s ∷ ss) h =
    let after =
      step-IsAlone (total holds ss + a) (total hopes ss + b) (total calls ss + c) w e s
        (IsAlone-head a b c w s ss h) in
    record {
      gpnip = after.gpnip;
      stages = ground (arith, after.stage, h.stages);
      locked = omega (arith, after.locked);
      within = h.within;
      started = omega (arith, after.started);
      bounded = omega (arith, after.bounded);
    }
step_at-AllAlone a b c (suc i) e w (s ∷ ss) h =
    let after =
      step_at-AllAlone (holds s + a) (hopes s + b) (calls s + c) i e w ss
        (AllAlone-tail a b c w s ss h) in
    record {
      gpnip = after.gpnip;
      stages = ground (arith, after.stages, h.stages);
      locked = omega (arith, after.locked);
      within = h.within;
      started = omega (arith, after.started);
      bounded = omega (arith, after.bounded);
    }

drop_at-AllAlone :
    (a b c i : ℕ) (w : World) (ss : List Stage)
    → AllAlone a b c (w, ss)
    → AllAlone a b c (w, drop_at i ss)
unfolding drop_at
drop_at-AllAlone a b c i w [] h = h
drop_at-AllAlone a b c zero w (s ∷ ss) h = record {
  gpnip = h.gpnip;
  stages = ground (arith, h.stages);
  locked = omega (arith, h.locked);
  within = h.within;
  started = omega (arith, h.started);
  bounded = omega (arith, h.bounded);
}
drop_at-AllAlone a b c (suc i) w (s ∷ ss) h =
    let after =
      drop_at-AllAlone (holds s + a) (hopes s + b) (calls s + c) i w ss
        (AllAlone-tail a b c w s ss h) in
    record {
      gpnip = after.gpnip;
      stages = ground (arith, after.stages, h.stages);
      locked = omega (arith, after.locked);
      within = h.within;
      started = omega (arith, after.started);
      bounded = omega (arith, after.bounded);
    }

sold_by_gpnip-switch_partner :
    (on : Bool) (p : Option PartnerData) → sold_by_gpnip (switch_partner on p) ≡ sold_by_gpnip p
sold_by_gpnip-switch_partner on none = refl
sold_by_gpnip-switch_partner on (some p) = refl

edit-AllAlone :
    (d : Edit) (w : World) (ss : List Stage)
    → AllAlone 0 0 0 (w, ss)
    → AllAlone 0 0 0 (edit d w, ss)
unfolding edit reconcile
edit-AllAlone (setting_status s) w ss h = record {
  gpnip = h.gpnip;
  stages = h.stages;
  locked = h.locked;
  within = h.within;
  started = h.started;
  bounded = h.bounded;
}
edit-AllAlone (resolving r) w ss h = record {
  gpnip = h.gpnip;
  stages = h.stages;
  locked = h.locked;
  within = h.within;
  started = h.started;
  bounded = h.bounded;
}
edit-AllAlone (reconciling t) w ss h = record {
  gpnip = ground (arith, h.gpnip);
  stages = h.stages;
  locked = ground (arith, h.locked);
  within = h.within;
  started = ground (arith, h.started);
  bounded = ground (arith, h.bounded);
}
edit-AllAlone (switching on) w ss h = record {
  gpnip = rw (sold_by_gpnip-switch_partner on w.partner) h.gpnip;
  stages = h.stages;
  locked = h.locked;
  within = h.within;
  started = h.started;
  bounded = h.bounded;
}

-- The lock's lifetime does not end under a run that holds it; a run that stopped holds it no more.
abbrev pub keeps_lock : Event → System → Bool
keeps_lock delivered x = true
keeps_lock lock_expired x = total holds x.runs == 0
keeps_lock (stepped i e) x = true
keeps_lock (crashed i) x = true
keeps_lock (edited d) x = true

-- So it is at each event, in the state that it meets.
unfoldable pub keeps_locks : List Event → System → Bool
keeps_locks [] x = true
keeps_locks (d ∷ ds) x = keeps_lock d x && keeps_locks ds (perform d x)

perform-AllAlone :
    (d : Event) (x : System)
    → keeps_lock d x ≡ true
    → AllAlone 0 0 0 (x.world, x.runs)
    → AllAlone 0 0 0 ((perform d x).world, (perform d x).runs)
unfolding perform
perform-AllAlone delivered x k h = record {
  gpnip = h.gpnip;
  stages = h.stages;
  locked = omega (arith, h.locked);
  within = h.within;
  started = omega (arith, h.started);
  bounded = omega (arith, h.bounded);
}
perform-AllAlone lock_expired x k h = record {
  gpnip = h.gpnip;
  stages = h.stages;
  locked = ground arith;
  within = h.within;
  started = h.started;
  bounded = h.bounded;
}
perform-AllAlone (stepped i e) x k h = step_at-AllAlone 0 0 0 i e x.world x.runs h
perform-AllAlone (crashed i) x k h = drop_at-AllAlone 0 0 0 i x.world x.runs h
perform-AllAlone (edited d) x k h = edit-AllAlone d x.world x.runs h

perform_all-AllAlone :
    (ds : List Event) (x : System)
    → keeps_locks ds x ≡ true
    → AllAlone 0 0 0 (x.world, x.runs)
    → AllAlone 0 0 0 ((perform_all ds x).world, (perform_all ds x).runs)
unfolding perform_all keeps_locks
perform_all-AllAlone [] x k h = h
perform_all-AllAlone (d ∷ ds) x k h =
    perform_all-AllAlone ds (perform d x) (ground arith) (perform-AllAlone d x (ground arith) h)

-- For an order that GPNIP sells, for which no call was made and no run is under way: after any events in
-- which the order's lock does not expire under a run that holds it, while that of a run which
-- stopped may, however many runs there are and however their steps fall, with runs that stop for
-- good and edits by other code, GPNIP was called once at most, and only after the order's document
-- said that the purchase was started.
pub gpnip_order-BoughtOnce :
    (ds : List Event) (x : System)
    → keeps_locks ds x ≡ true
    → sold_by_gpnip x.world.partner ≡ true
    → x.world.bought ≡ 0
    → x.runs ≡ []
    → (perform_all ds x).world.bought ≤ bit (perform_all ds x).world.order.purchase_started
gpnip_order-BoughtOnce ds x k g b r =
    let h = perform_all-AllAlone ds x k (record {
      gpnip = g;
      stages = rw r refl;
      locked = rw r (omega arith);
      within = omega arith;
      started = rw (b, r) (omega arith);
      bounded = rw (b, r) (omega arith);
    }) in
    omega (arith, h.started)
