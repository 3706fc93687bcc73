-- ===== src/Worker/RecoveryLaws.antt =====
-- Where `tryRecover` of orders-recovery.scheduler.ts leaves an order.
use appchat_be.Common.{
  is_empty, ◌≤◌, ◌≡◌, refl, ◌⊎◌, inl, inr, Bool, true, not, Bool-cases, Option, none, some, ltb,
  if◌then◌else◌, arith,
}
use appchat_be.Orders.Status.{OrderStatus, active, partial, pending_refund, same_status}
use appchat_be.Renewal.Order.{PartnerData}
use appchat_be.Worker.State.{World, Answer, throws, empty, sells, Env}
use appchat_be.Worker.Recovery.{put_late, fetch_late, recover_for, try_recover, recover_late}

pub record Healed (w : World) : Type 0 where
  pub some_came : 1 ≤ w.proxies
  pub status : w.order.status ≡ (if ltb w.proxies w.order.quantity then partial else active)
  pub number :
      w.order.actual_quantity ≡ (if ltb w.proxies w.order.quantity then some w.proxies else none)
  pub error : w.order.error ≡ none

put_late-Heals : (e : Env) (w : World) → (put_late e w ≡ w) ⊎ Healed (put_late e w)
unfolding put_late
put_late-Heals e w = elim (Bool-cases (not (ltb 0 e.saved))) [
  | inl nothing ↦ inl (rw nothing refl)
  | inr something ↦ inr (
      rw something (record {
        some_came = ground (arith, something);
        status = refl;
        number = refl;
        error = refl;
      }))
]

fetch_late-Heals :
    (e : Env) (w : World) (a : Answer) → (fetch_late e w a ≡ w) ⊎ Healed (fetch_late e w a)
fetch_late-Heals e w throws = inl refl
fetch_late-Heals e w empty = inl refl
fetch_late-Heals e w (sells g) = elim (Bool-cases (ltb 0 g.proxies)) [
  | inl something ↦ rw something (put_late-Heals e w)
  | inr nothing ↦ inl (rw nothing refl)
]

recover_for-Heals :
    (fetches : Bool) (e : Env) (w : World) (p : Option PartnerData)
    → (recover_for fetches e w p ≡ w) ⊎ Healed (recover_for fetches e w p)
recover_for-Heals fetches e w none = inl refl
recover_for-Heals fetches e w (some p) = elim (Bool-cases (not p.complete)) [
  | inl missing ↦ inl (rw missing refl)
  | inr there ↦ elim (Bool-cases (ltb 0 w.proxies)) [
    | inl some_here ↦ inr (
        rw there (
          rw some_here (record {
            some_came = ground (arith, some_here);
            status = refl;
            number = refl;
            error = refl;
          })))
    | inr no_proxies ↦ elim (Bool-cases (not e.registered)) [
      | inl unknown ↦ inl (rw there (rw no_proxies (rw unknown refl)))
      | inr known ↦ elim (Bool-cases fetches) [
        | inl can ↦ rw there (rw no_proxies (rw known (rw can (fetch_late-Heals e w e.answer))))
        | inr cannot ↦ inl (rw there (rw no_proxies (rw known (rw cannot refl))))
      ]
    ]
  ]
]

same_status-pending_refund :
    (s : OrderStatus) → same_status s pending_refund ≡ true → s ≡ pending_refund
same_status-pending_refund s h = ground arith

-- A recovery of a late order either changes nothing, or was for an order to be given back and leaves it active
-- exactly if there are at least as many proxies as were ordered, and partial with their number if
-- there are fewer, and there is one at least.
pub recover_late-Heals :
    (fetches : Bool) (e : Env) (w : World)
    → (recover_late fetches e w ≡ w)
      ⊎ ((w.order.status ≡ pending_refund) × Healed (recover_late fetches e w))
unfolding recover_late try_recover
recover_late-Heals fetches e w = elim (Bool-cases (same_status w.order.status pending_refund)) [
  | inr settled ↦ inl (rw settled refl)
  | inl waits ↦ elim (Bool-cases (is_empty w.order.provider_order_id)) [
    | inl unknown ↦ inl (rw waits (rw unknown refl))
    | inr known ↦ rw waits (
        rw known (elim (recover_for-Heals fetches e w w.partner) [
          | inl same ↦ inl same
          | inr heals ↦ inr (same_status-pending_refund w.order.status waits, heals)
        ]))
  ]
]
