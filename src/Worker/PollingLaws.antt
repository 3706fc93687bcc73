-- ===== src/Worker/PollingLaws.antt =====
-- Where `pollUntilActive` of orders-processing.worker.service.ts leaves an order.
use appchat_be.Common.{
  ℕ, zero, suc, ◌≤◌, ◌<◌, ◌≡◌, refl, ap, ◌∙◌, inl, inr, Bool, true, false, not, Bool-cases, Option,
  none, some, List, [], ltb, if◌then◌else◌, arith,
}
use appchat_be.Orders.Status.{active, partial, processing, pending_refund, same_status}
use appchat_be.Renewal.Order.{PartnerData}
use appchat_be.Worker.State.{
  Failure, no_partner, no_fetching, polled_out, Order, World, Goods, Answer, throws, empty, sells,
  Env,
}
use appchat_be.Worker.Interleaved.{Edit}
use appchat_be.Worker.Polling.{
  give_up, put_in, fetched, poll_answer, poll_once, poll_loop, poll_for, poll_until_active,
  max_poll_attempts,
}

-- The order is active with all its proxies and its commission is due; or fewer came and it says how many; or
-- it is active with some proxies that were there before, and no commission; or it is to be given
-- back and it says why.
pub data Polled (v w : World) : Type 0 where
  came :
      w.order.status ≡ active
      → w.order.quantity ≤ w.proxies
      → w.activated ≡ suc v.activated
      → Polled v w
  came_short :
      w.order.status ≡ partial
      → w.proxies < w.order.quantity
      → w.order.actual_quantity ≡ some w.proxies
      → w.activated ≡ v.activated
      → Polled v w
  assumed : w.order.status ≡ active → 1 ≤ w.proxies → w.activated ≡ v.activated → Polled v w
  given_up :
      (f : Failure)
      → w.order.status ≡ pending_refund
      → w.order.error ≡ some f
      → w.activated ≡ v.activated
      → Polled v w

-- Between the attempts: nothing but the proxies has changed.
pub record Asking (v w : World) : Type 0 where
  pub voucher : w.order.voucher ≡ false
  pub quantity : w.order.quantity ≡ v.order.quantity
  pub activated : w.activated ≡ v.activated

abbrev pub Asked : World → World × Bool → Type 0
Asked v (w, true) = Asking v w
Asked v (w, false) = Polled v w

give_up-Polled : (f : Failure) (v w : World) → Asking v w → Polled v (give_up f w)
unfolding give_up
give_up-Polled f v w a = rw (a.voucher) (given_up f refl refl a.activated)

module _ (e : Env) (o : Order) (n : ℕ) (v w : World) where
  kept : Asking v w → Asking v (record w { proxies = e.saved })
  kept a = record { voucher = a.voucher; quantity = a.quantity; activated = a.activated }

  put_in-Asked : o.quantity ≡ v.order.quantity → Asking v w → Asked v (put_in e o n w)
  unfolding put_in
  put_in-Asked q a = elim (Bool-cases (not e.inserts)) [
    | inl refused ↦ rw refused (kept a)
    | inr put ↦ elim (Bool-cases (ltb e.saved n)) [
      | inl lost ↦ rw put (rw lost (kept a))
      | inr all_in ↦ elim (Bool-cases (ltb e.saved o.quantity)) [
        | inl short ↦ rw put (
            rw all_in
              (rw short (came_short refl (ground (arith, short, q, a.quantity)) refl a.activated)))
        | inr full ↦ rw put (
            rw all_in
              (rw full (came refl (ground (arith, full, q, a.quantity)) (ap suc a.activated))))
      ]
    ]
  ]

  fetched-Asked :
      o.quantity ≡ v.order.quantity → o.voucher ≡ false → Asking v w → Asked v (fetched e o n w)
  unfolding put_in
  fetched-Asked q plain a = elim (Bool-cases (ltb 0 n)) [
    | inr nothing ↦ rw nothing a
    | inl something ↦ elim (Bool-cases (ltb 0 w.proxies)) [
      | inl there ↦
          rw (something, plain) (rw there (assumed refl (ground (arith, there)) a.activated))
      | inr fresh ↦ rw (something, plain) (rw fresh (put_in-Asked q a))
    ]
  ]

poll_answer-Asked :
    (e : Env) (o : Order) (v w : World) (a : Answer)
    → o.quantity ≡ v.order.quantity
    → o.voucher ≡ false
    → Asking v w
    → Asked v (poll_answer e o w a)
poll_answer-Asked e o v w throws q plain h = h
poll_answer-Asked e o v w empty q plain h = h
poll_answer-Asked e o v w (sells g) q plain h = fetched-Asked e o g.proxies v w q plain h

-- The loop with nobody else about.
abbrev pub nobody_else : ℕ → List Edit
nobody_else n = []

after_attempt :
    (v w : World) (r : World × Bool)
    → Asked v r
    → (Asking v r.0 → Polled v w)
    → Polled v (if r.1 then w else r.0)
after_attempt v w (w', true) a k = k a
after_attempt v w (w', false) a k = a

poll_loop-Polled :
    (n : ℕ) (env : ℕ → Env) (o : Order) (v w : World)
    → o.quantity ≡ v.order.quantity
    → o.voucher ≡ false
    → Asking v w
    → Polled v (poll_loop n env nobody_else o w)
unfolding poll_loop poll_once
poll_loop-Polled zero env o v w q plain a = give_up-Polled polled_out v w a
poll_loop-Polled (suc n) env o v w q plain a =
    let r = poll_once (env n) o w in
    after_attempt v (poll_loop n env nobody_else o r.0) r
      (poll_answer-Asked (env n) o v w (env n).answer q plain a)
      (λ b. poll_loop-Polled n env o v r.0 q plain b)

poll_for-Polled :
    (fetches : Bool) (env : ℕ → Env) (w : World) (p : Option PartnerData)
    → w.order.voucher ≡ false
    → Polled w (poll_for true fetches env nobody_else w p)
poll_for-Polled fetches env w none plain =
    give_up-Polled no_partner w w (record { voucher = plain; quantity = refl; activated = refl })
poll_for-Polled fetches env w (some p) plain =
    let a : Asking w w = record { voucher = plain; quantity = refl; activated = refl } in
    elim (Bool-cases (not p.complete)) [
      | inl missing ↦ rw missing (give_up-Polled no_partner w w a)
      | inr there ↦ elim (Bool-cases fetches) [
        | inr cannot ↦ rw (there, cannot) (give_up-Polled no_fetching w w a)
        | inl can ↦
            rw (there, can) (poll_loop-Polled max_poll_attempts env w.order w w refl plain a)
      ]
    ]

-- For an order under way without a voucher, whose partner's code is known, with nobody else about and whatever
-- the provider and the database answer: polling ends within its attempts with the order active with
-- at least as many proxies as were ordered and one call of the affiliate's hook, or partial with the
-- number of the proxies, of which there are fewer, or active with proxies that an earlier attempt had
-- left and no call of the hook, or to be given back with the reason. So it is never left under way.
pub poll_until_active-Polled :
    (fetches : Bool) (env : ℕ → Env) (w : World)
    → w.order.status ≡ processing
    → w.order.voucher ≡ false
    → Polled w (poll_until_active true fetches env nobody_else w)
unfolding poll_until_active
poll_until_active-Polled fetches env w p plain =
    let here : same_status w.order.status processing ≡ true = rw p refl in
    rw here (poll_for-Polled fetches env w w.partner plain)

lost_some :
    (e : Env) (o : Order) (w : World) (g : Goods)
    → o.voucher ≡ false
    → w.proxies ≡ 0
    → e.answer ≡ sells g
    → ltb e.saved g.proxies ≡ true
    → ltb 0 g.proxies ≡ true
    → poll_once e o w ≡ (record w { proxies = e.saved }, true)
unfolding poll_once put_in
lost_some e o w g plain empty_yet a less some_sold =
    ap (poll_answer e o w) a ∙ ground (arith, plain, empty_yet, less, some_sold)

found_some :
    (e : Env) (o : Order) (w : World) (g : Goods)
    → o.voucher ≡ false
    → ltb 0 w.proxies ≡ true
    → e.answer ≡ sells g
    → ltb 0 g.proxies ≡ true
    → poll_once e o w ≡ (record w { order = record w.order { status = active } }, false)
unfolding poll_once
found_some e o w g plain there a some_sold =
    ap (poll_answer e o w) a ∙ ground (arith, plain, there, some_sold)

poll_loop-after :
    (n : ℕ) (env : ℕ → Env) (o : Order) (w : World) (r : World × Bool)
    → poll_once (env n) o w ≡ r
    → poll_loop (suc n) env nobody_else o w
      ≡ (if r.1 then poll_loop n env nobody_else o r.0 else r.0)
unfolding poll_loop
poll_loop-after n env o w r e = ap (λ x. if x.1 then poll_loop n env nobody_else o x.0 else x.0) e

-- For an order without a voucher and without proxies: where an attempt of the polling gets goods of which the
-- database saves some and not all, and the next attempt gets goods again, the order ends active with
-- only the proxies that were saved, whatever quantity was ordered: no number of proxies is noted and
-- the affiliate's hook is not called.
pub poll_loop-activates_short :
    (n : ℕ) (env : ℕ → Env) (o : Order) (w : World) (g h : Goods)
    → o.voucher ≡ false
    → w.proxies ≡ 0
    → (env (suc n)).answer ≡ sells g
    → (env n).answer ≡ sells h
    → ltb (env (suc n)).saved g.proxies ≡ true
    → ltb 0 (env (suc n)).saved ≡ true
    → ltb 0 h.proxies ≡ true
    → poll_loop (suc (suc n)) env nobody_else o w
      ≡ record w { proxies = (env (suc n)).saved; order = record w.order { status = active } }
poll_loop-activates_short n env o w g h plain empty_yet a b less some_saved some_sold =
    let left : World = record w { proxies = (env (suc n)).saved } in
    poll_loop-after (suc n) env o w (left, true)
      (lost_some (env (suc n)) o w g plain empty_yet a less (ground (arith, less)))
    ∙ poll_loop-after n env o left _ (found_some (env n) o left h plain some_saved b some_sold)
