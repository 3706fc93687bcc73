-- ===== src/Worker/Fences.antt =====
-- What the steps of `processOrder` of orders.worker.service.ts leave of the fences: the deliveries touch
-- neither the claims, the lock nor the count of the provider's calls.
use appchat_be.Common.{
  ℕ, ◌≡◌, refl, ◌∙◌, Bool, true, inl, inr, Bool-cases, Option, none, some, ◌&&◌, ltb, arith, Text,
}
use appchat_be.Renewal.Order.{PartnerData, is_gpnip}
use appchat_be.Worker.State.{Order, World, Goods, Env}
use appchat_be.Worker.Delivery.{
  recover_affiliate, receive, materialize_frozen, materialize, freeze, insert_proxies,
  wait_for_proxies, deliver,
}

abbrev pub sold_by_gpnip : Option PartnerData → Bool
sold_by_gpnip none = true
sold_by_gpnip (some p) = is_gpnip p.code

pub record Fences : Type 0 where
  pub bought : ℕ
  pub lock : Bool
  pub voucher : Bool
  pub claimed : Bool
  pub started : Bool
  pub gpnip : Bool

abbrev pub fences : World → Fences
fences w = record {
  bought = w.bought;
  lock = w.lock;
  voucher = w.order.voucher;
  claimed = w.order.dispatch_claimed;
  started = w.order.purchase_started;
  gpnip = sold_by_gpnip w.partner;
}

fences-recover_affiliate : (e : Env) (w : World) → fences (recover_affiliate e w).0 ≡ fences w
unfolding recover_affiliate
fences-recover_affiliate e w = ground arith

fences-receive : (e : Env) (t : Text) (w : World) → fences (receive e t w).0 ≡ fences w
unfolding receive recover_affiliate
fences-receive e t w = ground arith

fences-materialize_frozen :
    (e : Env) (w : World) (o : Option Goods) → fences (materialize_frozen e w o).0 ≡ fences w
fences-materialize_frozen e w none = refl
fences-materialize_frozen e w (some f) = ground (
  arith,
  fences-receive e f.order_id (record w { proxies = e.saved }),
  fences-recover_affiliate e w,
)

fences-freeze : (g : Goods) (w : World) → fences (record w { order = freeze g w.order }) ≡ fences w
fences-freeze g w = ground arith

fences-materialize : (e : Env) (g : Goods) (w : World) → fences (materialize e g w).0 ≡ fences w
unfolding materialize
fences-materialize e g w = elim (Bool-cases (ltb 0 g.proxies)) [
  | inr nothing ↦ rw nothing refl
  | inl something ↦ rw something (
      fences-materialize_frozen e (record w { order = freeze g w.order }) (freeze g w.order).frozen
      ∙ fences-freeze g w)
]

fences-insert_proxies :
    (e : Env) (g : Goods) (w : World) → fences (insert_proxies e g w).0 ≡ fences w
unfolding insert_proxies
fences-insert_proxies e g w = ground arith

fences-wait_for_proxies :
    (v : Bool) (g : Goods) (w : World) → fences (wait_for_proxies v g w).0 ≡ fences w
unfolding wait_for_proxies
fences-wait_for_proxies v g w = ground arith

pub fences-deliver :
    (e : Env) (o : Order) (g : Goods) (w : World) → fences (deliver e o g w).0 ≡ fences w
unfolding deliver
fences-deliver e o g w =
    let w' : World = record w { fail_count = 0 } in
    elim (Bool-cases (o.voucher && ltb 0 g.proxies)) [
      | inl bought ↦ rw bought (fences-materialize e g w')
      | inr plain ↦ elim (Bool-cases (ltb 0 g.proxies)) [
        | inl some_came ↦ rw plain (rw some_came (fences-insert_proxies e g w'))
        | inr none_came ↦ rw plain (rw none_came (fences-wait_for_proxies o.voucher g w'))
      ]
    ]
