-- ===== src/Orders/Approval.antt =====
-- `approveRefund` of orders.service.ts, alone and after `adminRefund`.
use appchat_be.Common.{
  ◌≡◌, sym, subst, ap, ◌∙◌, inl, inr, not, ◌||◌, true, false, some, arith, Bool-cases, Option-cases,
  Text,
}
use appchat_be.Common.Int.{ℤ, pos, ◌+ℤ◌, ◌≤ℤ◌, ◌<ℤ◌, +ℤ_parts, sub_zero, add_zero, leb_ℤ}
use appchat_be.Orders.Status.{same_status, pending_refund}
use appchat_be.Orders.Refund.{Order, Store, done, approve_refund, admin_refund, reimburse, approved}
use appchat_be.Orders.RefundLaws.{Balanced, Books}

-- Approving a refund of an order of which nothing was paid back before keeps the user's money equal
-- to the money before any refund plus the refunded amount, which is within the price.
pub approve_refund-Books :
    (base : ℤ) (o : Order) (s : Store)
    → s.order ≡ some o
    → o.refunded_amount ≡ pos 0
    → Books base s
    → Books base (approve_refund s).1
unfolding approve_refund
approve_refund-Books base o s e unpaid h =
    elim (Bool-cases
      (o.is_voucher || not (same_status o.status pending_refund) || not o.by_balance)) [
        | inl closed ↦ kept (ground arith)
        | inr waits ↦ elim (Bool-cases (leb_ℤ o.total_price (pos 0))) [
          | inl free ↦ kept (ground arith)
          | inr costs ↦
              let through : approve_refund s ≡ (done, reimburse o.total_price (approved o) s) =
                ground arith in
              subst (λ q. Books base q.1) (sym through)
                (elim (Option-cases s.money) [
                  | inl nobody ↦ rw nobody tt
                  | inr (m, has) ↦
                      let books : Balanced base (some o) (some m) = ground arith in
                      rw has (
                        ap (λ z. z +ℤ o.total_price)
                            (books.0 ∙ ap (◌+ℤ◌ base) unpaid ∙ add_zero base),
                        ground arith,
                        ground arith,
                      )
                ])
        ]
      ]
  where
    kept : (approve_refund s).1 ≡ s → Books base (approve_refund s).1
    kept same = subst (Books base) (sym same) h

-- An order, paid from the balance and without a voucher, that waits for its refund and of which a part was paid back without
-- cancelling it is then approved for its full price. The user gets the part and the price.
pub refund-approve_overpays :
    (a m : ℤ) (note : Text) (o : Order) (s : Store)
    → s.order ≡ some o
    → s.money ≡ some m
    → o.status ≡ pending_refund
    → o.is_voucher ≡ false
    → o.by_balance ≡ true
    → o.refunded_amount ≡ pos 0
    → pos 0 <ℤ a
    → a ≤ℤ o.total_price
    → let s' = (approve_refund (admin_refund (some a) note false s).1).1 in
      (s'.money ≡ some (m +ℤ a +ℤ o.total_price)) × (o.total_price <ℤ a +ℤ o.total_price)
unfolding approve_refund admin_refund
refund-approve_overpays a m note o s e money waits own balance unpaid p q =
    ground (arith, sub_zero o.total_price, +ℤ_parts a o.total_price)
