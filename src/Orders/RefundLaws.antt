-- ===== src/Orders/RefundLaws.antt =====
-- The refunds of an order in orders.service.ts against its user's wallet.
use appchat_be.Common.{
  ◌≡◌, sym, subst, ap, ◌∙◌, ◌≢◌, ◌⊎◌, inl, inr, Bool, not, ◌||◌, false, Option, none, some, List,
  [], ◌∷◌, arith, Bool-cases, Option-cases, Text,
}
use appchat_be.Common.Int.{ℤ, pos, ◌+ℤ◌, ◌-ℤ◌, ◌*ℤ◌, ◌≤ℤ◌, ◌<ℤ◌, int_laws, +ℤ_assoc, ltb_ℤ, leb_ℤ}
use appchat_be.Orders.Status.{OrderStatus, active, completed, same_status, partial, PaymentStatus}
use appchat_be.Orders.Refund.{
  Order, Store, Outcome, done, refused, to_vouchers, admin_refund, refund_missing_quantity,
  retry_order, update_status, update_payment_status, wanted, refund_order, missing_order,
  mark_partial, missing_units, logged, reimburse, noted, repaid,
}

-- The wallet's books for an order: the user has the money from before any refund and what was paid
-- back since, and no more was paid back than the order cost.
abbrev pub Balanced : ℤ → Option Order → Option ℤ → Type 0
Balanced base none m = Unit {0}
Balanced base (some o) none = Unit {0}
Balanced base (some o) (some m) =
    (m ≡ base +ℤ o.refunded_amount)
    × (pos 0 ≤ℤ o.refunded_amount)
    × (o.refunded_amount ≤ℤ o.total_price)

abbrev pub Books : ℤ → Store → Type 0
Books base s = Balanced base s.order s.money

-- What a refund that goes through has checked, and what it leaves.
pub record Refunded (amount : Option ℤ) (note : Text) (cancel : Bool) (o : Order) (s : Store)
    (r : Outcome × Store) : Type 0 where
  pub money : ℤ
  pub has_money : s.money ≡ some money
  pub some_amount : pos 0 <ℤ wanted amount o
  pub in_limit : wanted amount o ≤ℤ o.total_price -ℤ o.refunded_amount
  pub result :
      r ≡ (done, reimburse (wanted amount o) (noted note (repaid cancel (wanted amount o) o)) s)

-- A refund is refused, or handed over, with nothing changed, or goes through.
refund_order-cases :
    (amount : Option ℤ) (note : Text) (cancel : Bool) (o : Order) (s : Store)
    → (((refund_order amount note cancel o s).1 ≡ s)
        × ((refund_order amount note cancel o s).0 ≢ done))
      ⊎ Refunded amount note cancel o s (refund_order amount note cancel o s)
refund_order-cases amount note cancel o s = elim (Bool-cases o.is_voucher) [
  | inl voucher ↦ inl (ground arith, ground arith)
  | inr own ↦ elim (Bool-cases (same_status o.status active || same_status o.status completed)) [
    | inl blocked ↦ inl (ground arith, ground arith)
    | inr open_order ↦ elim (Bool-cases (leb_ℤ (wanted amount o) (pos 0))) [
      | inl bad ↦ inl (ground arith, ground arith)
      | inr good ↦
          elim (Bool-cases (ltb_ℤ (o.total_price -ℤ o.refunded_amount) (wanted amount o))) [
            | inl over ↦ inl (ground arith, ground arith)
            | inr within ↦ elim (Option-cases s.money) [
              | inl nobody ↦ inl (ground arith, ground arith)
              | inr (m, e) ↦ inr (record {
                money = m;
                has_money = e;
                some_amount = ground arith;
                in_limit = ground arith;
                result = ground arith;
              })
            ]
          ]
    ]
  ]
]

-- A refund that goes through pays a positive amount that, with what was paid back before, is within
-- the order's price: the user's money and the order's refunded amount rise by it, the history gets
-- the line from the old money to the new, and the price stays.
pub admin_refund_done :
    (amount : Option ℤ) (note : Text) (cancel : Bool) (o : Order) (s : Store)
    → s.order ≡ some o
    → (admin_refund amount note cancel s).0 ≡ done
    → (m : ℤ) × (s.money ≡ some m)
      × (pos 0 <ℤ wanted amount o)
      × (o.refunded_amount +ℤ wanted amount o ≤ℤ o.total_price)
      × ((admin_refund amount note cancel s).1 ≡ record s {
        order = some (noted note (repaid cancel (wanted amount o) o));
        money = some (m +ℤ wanted amount o);
        history = logged (wanted amount o) m s.history;
      })
unfolding admin_refund
admin_refund_done amount note cancel o s e h = elim (refund_order-cases amount note cancel o s) [
  | inl same ↦ absurd (same.1 (ground arith))
  | inr r ↦ (
    r.money,
    r.has_money,
    r.some_amount,
    omega (int_laws, r.in_limit),
    ground (arith, r.result, r.has_money),
  )
]

-- The books of an order and its user, when one pays the other back.
Balanced-repaid :
    (base m a : ℤ) (note : Text) (cancel : Bool) (o : Order)
    → Balanced base (some o) (some m)
    → pos 0 <ℤ a
    → a ≤ℤ o.total_price -ℤ o.refunded_amount
    → Balanced base (some (noted note (repaid cancel a o))) (some (m +ℤ a))
Balanced-repaid base m a [] cancel o h p q =
    (ap (λ z. z +ℤ a) h.0 ∙ +ℤ_assoc base o.refunded_amount a, omega int_laws, omega int_laws)
Balanced-repaid base m a (c ∷ note) cancel o h p q =
    (ap (λ z. z +ℤ a) h.0 ∙ +ℤ_assoc base o.refunded_amount a, omega int_laws, omega int_laws)

refund_order-Books :
    (base : ℤ) (amount : Option ℤ) (note : Text) (cancel : Bool) (o : Order) (s : Store)
    → s.order ≡ some o
    → Books base s
    → Books base (refund_order amount note cancel o s).1
refund_order-Books base amount note cancel o s e h =
    elim (refund_order-cases amount note cancel o s) [
      | inl same ↦ subst (Books base) (sym same.0) h
      | inr r ↦
          let before : Balanced base (some o) (some r.money) = ground (arith, r.has_money) in
          subst (λ q. Books base q.1) (sym r.result)
            (rw r.has_money (
              Balanced-repaid base r.money (wanted amount o) note cancel o before r.some_amount
                r.in_limit))
    ]

admin_refund-Books :
    (base : ℤ) (amount : Option ℤ) (note : Text) (cancel : Bool) (s : Store)
    → Books base s
    → Books base (admin_refund amount note cancel s).1
unfolding admin_refund
admin_refund-Books base amount note cancel s h = elim (Option-cases s.order) [
  | inl nothing ↦ rw (nothing, admin_refund) h
  | inr (o, e) ↦ rw (e, admin_refund) (refund_order-Books base amount note cancel o s e h)
]

mark_partial-Books :
    (base : ℤ) (r : Outcome × Store) → Books base r.1 → Books base (mark_partial r).1
mark_partial-Books base (done, s) h = ground arith
mark_partial-Books base (refused x, s) h = h
mark_partial-Books base (to_vouchers a m, s) h = h

missing_order-Books :
    (base : ℤ) (note : Text) (o : Order) (s : Store)
    → Books base s
    → Books base (missing_order note o s).1
missing_order-Books base note o s h =
    elim (Bool-cases (o.is_voucher || not (same_status o.status partial))) [
      | inl closed ↦ kept (ground arith)
      | inr open_order ↦ elim (Option-cases o.actual_quantity) [
        | inl unknown ↦ kept (ground arith)
        | inr (actual, e) ↦ elim (Option-cases (missing_units o.quantity actual)) [
          | inl complete ↦ kept (ground arith)
          | inr (units, e') ↦ elim (Bool-cases (leb_ℤ (o.price_per_unit *ℤ units) (pos 0))) [
            | inl bad ↦ kept (ground arith)
            | inr good ↦
                let amount = o.price_per_unit *ℤ units in
                let through : missing_order note o s
                    ≡ mark_partial (admin_refund (some amount) note false s) =
                  ground arith in
                subst (λ q. Books base q.1) (sym through)
                  (mark_partial-Books base (admin_refund (some amount) note false s)
                    (admin_refund-Books base (some amount) note false s h))
          ]
        ]
      ]
    ]
  where
    kept : (missing_order note o s).1 ≡ s → Books base (missing_order note o s).1
    kept e = subst (Books base) (sym e) h

-- What an administrator may do to an order, but for approving a refund.
pub data Command : Type 0 where
  refund : Option ℤ → Text → Bool → Command
  refund_missing : Text → Command
  retry_it : Command
  set_status : OrderStatus → Command
  set_payment_status : PaymentStatus → Command

abbrev pub perform : Command → Store → Outcome × Store
perform (refund amount note cancel) s = admin_refund amount note cancel s
perform (refund_missing note) s = refund_missing_quantity note s
perform retry_it s = retry_order s
perform (set_status status) s = update_status status s
perform (set_payment_status status) s = update_payment_status status s

abbrev pub perform_all : List Command → Store → Store
perform_all [] s = s
perform_all (c ∷ cs) s = perform_all cs (perform c s).1

retry_order-Books : (base : ℤ) (s : Store) → Books base s → Books base (retry_order s).1
unfolding retry_order
retry_order-Books base s h = elim (Option-cases s.order) [
  | inl nothing ↦ rw (nothing, retry_order) h
  | inr (o, e) ↦ ground arith
]

update_status-Books :
    (base : ℤ) (status : OrderStatus) (s : Store)
    → Books base s
    → Books base (update_status status s).1
unfolding update_status
update_status-Books base status s h = elim (Option-cases s.order) [
  | inl nothing ↦ rw (nothing, update_status) h
  | inr (o, e) ↦ ground arith
]

update_payment_status-Books :
    (base : ℤ) (status : PaymentStatus) (s : Store)
    → Books base s
    → Books base (update_payment_status status s).1
unfolding update_payment_status
update_payment_status-Books base status s h = elim (Option-cases s.order) [
  | inl nothing ↦ rw (nothing, update_payment_status) h
  | inr (o, e) ↦ ground arith
]

refund_missing-Books :
    (base : ℤ) (note : Text) (s : Store)
    → Books base s
    → Books base (refund_missing_quantity note s).1
unfolding refund_missing_quantity
refund_missing-Books base note s h = elim (Option-cases s.order) [
  | inl nothing ↦ rw (nothing, refund_missing_quantity) h
  | inr (o, e) ↦ rw (e, refund_missing_quantity) (missing_order-Books base note o s h)
]

perform-Books : (base : ℤ) (c : Command) (s : Store) → Books base s → Books base (perform c s).1
perform-Books base (refund amount note cancel) s h = admin_refund-Books base amount note cancel s h
perform-Books base (refund_missing note) s h = refund_missing-Books base note s h
perform-Books base retry_it s h = retry_order-Books base s h
perform-Books base (set_status status) s h = update_status-Books base status s h
perform-Books base (set_payment_status status) s h = update_payment_status-Books base status s h

-- Whatever an administrator does to an order, in any order and any number of times, but for
-- approving a refund, the user's money stays what it was before any refund plus the order's refunded
-- amount, and that amount is between 0 and the order's price: it was so before.
pub perform_all-Books :
    (base : ℤ) (cs : List Command) (s : Store) → Books base s → Books base (perform_all cs s)
perform_all-Books base [] s h = h
perform_all-Books base (c ∷ cs) s h =
    perform_all-Books base cs (perform c s).1 (perform-Books base c s h)
