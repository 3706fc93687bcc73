-- ===== src/Worker/Ending.antt =====
-- `processOrder` of orders.worker.service.ts comes to its end and lets the lock go.
use appchat_be.Common.{
  ℕ, zero, suc, ◌+◌, ◌-◌, ◌≤◌, ◌≡◌, refl, ap, sym, ◌∙◌, subst, if◌then◌else◌, inl, inr, Bool, true,
  false, not, Result-cases, Option, none, some, arith,
}
use appchat_be.Renewal.Order.{Partner, PartnerData}
use appchat_be.Worker.State.{Order, World, Env}
use appchat_be.Worker.Products.{product}
use appchat_be.Worker.Delivery.{Outcome, passes, fails, deliver}
use appchat_be.Worker.Steps.{
  Stage, waiting, reading, claiming, choosing, calling, counting, delivering, failing, finishing,
  done, claim_lock, read_order, claim_dispatch, max_attempts, prepare, choose_for, choose,
  call_provider, after_delivery, count_failure, refund_later, finish, step, run, process_order,
  run_steps,
}

-- How many steps a run makes at most.
abbrev pub rank : Stage → ℕ
rank waiting = 11
rank reading = 10
rank (claiming o) = 9
rank (choosing o owns) = 8
rank (calling o owns p left) = left + 4
rank (counting owns) = 3
rank (delivering o owns g) = 3
rank (failing owns f) = 2
rank (finishing owns) = 1
rank done = 0

rank-prepare : (o : Order) (owns : Bool) (p : Partner) (w : World) → rank (prepare o owns p w).1 ≤ 7
unfolding prepare max_attempts
rank-prepare o owns p w = ground arith

rank-choose_for :
    (e : Env) (o : Order) (owns : Bool) (w : World) (p : Option PartnerData)
    → rank (choose_for e o owns w p).1 ≤ 7
rank-choose_for e o owns w none = omega arith
rank-choose_for e o owns w (some p) = elim (Result-cases (product p.code e.id_service o)) [
  | inl (t, q) ↦ ground (arith, q, rank-prepare o owns p.code w)
  | inr (f, q) ↦ ground (arith, q)
]

rank-after_delivery : (owns : Bool) (r : World × Outcome) → rank (after_delivery owns r).1 ≤ 2
rank-after_delivery owns (w, passes) = omega arith
rank-after_delivery owns (w, fails f) = omega arith

rank-step : (e : Env) (w : World) (s : Stage) → rank (step e w s).1 ≤ rank s - 1
unfolding step claim_lock read_order claim_dispatch choose call_provider count_failure refund_later
    finish
rank-step e w waiting = ground arith
rank-step e w reading = ground arith
rank-step e w (claiming o) = ground arith
rank-step e w (choosing o owns) = omega (arith, rank-choose_for e o owns w w.partner)
rank-step e w (calling o owns p left) = ground arith
rank-step e w (counting owns) = ground arith
rank-step e w (delivering o owns g) = omega (arith, rank-after_delivery owns (deliver e o g w))
rank-step e w (failing owns f) = ground arith
rank-step e w (finishing owns) = ground arith
rank-step e w done = omega arith

pub rank-run : (n : ℕ) (env : ℕ → Env) (w : World) (s : Stage) → rank (run n env w s).1 ≤ rank s - n
unfolding run
rank-run zero env w s = omega arith
rank-run (suc n) env w s =
    let r = step (env n) w s in omega (arith, rank-run n env r.0 r.1, rank-step (env n) w s)

done-rank : (s : Stage) → rank s ≡ 0 → s ≡ done
done-rank waiting h = absurd (omega (arith, h))
done-rank reading h = absurd (omega (arith, h))
done-rank (claiming o) h = absurd (omega (arith, h))
done-rank (choosing o owns) h = absurd (omega (arith, h))
done-rank (calling o owns p left) h = absurd (omega (arith, h))
done-rank (counting owns) h = absurd (omega (arith, h))
done-rank (delivering o owns g) h = absurd (omega (arith, h))
done-rank (failing owns f) h = absurd (omega (arith, h))
done-rank (finishing owns) h = absurd (omega (arith, h))
done-rank done h = refl

pub process_order-done : (env : ℕ → Env) (w : World) → (process_order env w).1 ≡ done
unfolding process_order
process_order-done env w =
    done-rank (run run_steps env w waiting).1 (omega (arith, rank-run run_steps env w waiting))

-- A run under way did not stop with the lock still set.
abbrev pub lets_go : World × Stage → Bool
lets_go (w, waiting) = false
lets_go (w, reading) = true
lets_go (w, claiming o) = true
lets_go (w, choosing o owns) = true
lets_go (w, calling o owns p left) = true
lets_go (w, counting owns) = true
lets_go (w, delivering o owns g) = true
lets_go (w, failing owns f) = true
lets_go (w, finishing owns) = true
lets_go (w, done) = not w.lock

lets_go-prepare :
    (o : Order) (owns : Bool) (p : Partner) (w : World) → lets_go (prepare o owns p w) ≡ true
unfolding prepare
lets_go-prepare o owns p w = ground arith

lets_go-choose_for :
    (e : Env) (o : Order) (owns : Bool) (w : World) (p : Option PartnerData)
    → lets_go (choose_for e o owns w p) ≡ true
lets_go-choose_for e o owns w none = refl
lets_go-choose_for e o owns w (some p) = elim (Result-cases (product p.code e.id_service o)) [
  | inl (t, q) ↦ ground (arith, q, lets_go-prepare o owns p.code w)
  | inr (f, q) ↦ ground (arith, q)
]

lets_go-after_delivery :
    (owns : Bool) (r : World × Outcome) → lets_go (after_delivery owns r) ≡ true
lets_go-after_delivery owns (w, passes) = refl
lets_go-after_delivery owns (w, fails f) = refl

lets_go-step :
    (e : Env) (w : World) (s : Stage) → lets_go (w, s) ≡ true → lets_go (step e w s) ≡ true
unfolding step read_order claim_dispatch choose call_provider count_failure refund_later finish
lets_go-step e w waiting h = absurd (ground arith)
lets_go-step e w reading h = ground arith
lets_go-step e w (claiming o) h = ground arith
lets_go-step e w (choosing o owns) h = lets_go-choose_for e o owns w w.partner
lets_go-step e w (calling o owns p left) h = ground arith
lets_go-step e w (counting owns) h = ground arith
lets_go-step e w (delivering o owns g) h = lets_go-after_delivery owns (deliver e o g w)
lets_go-step e w (failing owns f) h = ground arith
lets_go-step e w (finishing owns) h = ground arith
lets_go-step e w done h = h

lets_go-run :
    (n : ℕ) (env : ℕ → Env) (w : World) (s : Stage)
    → lets_go (w, s) ≡ true
    → lets_go (run n env w s) ≡ true
unfolding run
lets_go-run zero env w s h = h
lets_go-run (suc n) env w s h =
    let r = step (env n) w s in lets_go-run n env r.0 r.1 (lets_go-step (env n) w s h)

run-done : (n : ℕ) (env : ℕ → Env) (w : World) → run n env w done ≡ (w, done)
unfolding run step
run-done zero env w = refl
run-done (suc n) env w = run-done n env w

lock_after : (r : World × Stage) → r.1 ≡ done → lets_go r ≡ true → r.0.lock ≡ false
lock_after (w, s) e h = ground (arith, subst (λ t. lets_go (w, t) ≡ true) e h)

claim_lock-taken : (w : World) → w.lock ≡ true → claim_lock w ≡ (w, done)
unfolding claim_lock
claim_lock-taken w h = ap (λ b. if b then (w, done) else (record w { lock = true }, reading)) h

pub claim_lock-free :
    (w : World) → w.lock ≡ false → claim_lock w ≡ (record w { lock = true }, reading)
unfolding claim_lock
claim_lock-free w h = ap (λ b. if b then (w, done) else (record w { lock = true }, reading)) h

pub process_order-after_lock :
    (env : ℕ → Env) (w v : World) (s : Stage)
    → claim_lock w ≡ (v, s)
    → process_order env w ≡ run 10 env v s
unfolding process_order run step
process_order-after_lock env w v s h = ap (λ r. run 10 env r.0 r.1) h

-- Whatever the provider, the database and the other services answer: a run of `processOrder` comes to its
-- end in a fixed number of steps, the attempts and the failures included. Where the lock was taken
-- it changes nothing at all, and where the lock was free it has let the lock go.
pub process_order-Ends :
    (env : ℕ → Env) (w : World)
    → ((process_order env w).1 ≡ done)
      × (w.lock ≡ true → (process_order env w).0 ≡ w)
      × (w.lock ≡ false → (process_order env w).0.lock ≡ false)
process_order-Ends env w = (
  process_order-done env w,
  λ taken.
      ap (λ r. r.0)
        (process_order-after_lock env w w done (claim_lock-taken w taken) ∙ run-done 10 env w),
  λ free. lock_after (process_order env w) (process_order-done env w) (
      subst (λ r. lets_go r ≡ true)
        (sym (
          process_order-after_lock env w (record w { lock = true }) reading
            (claim_lock-free w free)))
        (lets_go-run 10 env (record w { lock = true }) reading refl)),
)
