-- ===== src/Orders/Refund.antt =====
-- `approveRefund`, `adminRefund`, `refundMissingQuantity`, `retryOrder`, `updateStatus` and
-- `updatePaymentStatus` of orders.service.ts, each as one step on the documents it touches: the
-- order, the money of its user, the wallet's history and the queue of pending orders. Money is in
-- whole VND; a missing number, which the source reads as 0, is 0 here.
use appchat_be.Common.{
  ℕ, zero, suc, Bool, true, false, ◌||◌, not, Option, none, some, List, [], ◌∷◌, if◌then◌else◌,
  or_else, Text, is_empty,
}
use appchat_be.Common.Int.{ℤ, pos, negsuc, ◌+ℤ◌, ◌-ℤ◌, ◌*ℤ◌, ltb_ℤ, leb_ℤ}
use appchat_be.Orders.Status.{
  OrderStatus, pending, active, completed, cancelled, partial_refunded, failed, pending_refund,
  partial, PaymentStatus, reimbursed, same_status,
}

pub data Error : Type 0 where
  order_not_found not_pending_refund not_paid_by_balance bad_amount over_limit : Error
  blocked_status no_user not_partial no_actual_quantity nothing_missing : Error
  voucher_fenced not_retryable purchase_started : Error

pub record Order : Type 0 where
  pub id : ℕ
  pub status : OrderStatus
  pub payment_status : PaymentStatus
  pub is_voucher : Bool
  pub by_balance : Bool
  pub total_price : ℤ
  pub refunded_amount : ℤ
  pub quantity : ℤ
  pub actual_quantity : Option ℤ
  pub price_per_unit : ℤ
  pub admin_note : Text
  pub error_message : Text
  pub provider_order_id : Text
  pub purchase_started : Bool

-- A line of the wallet's history, of type REFUND and direction `in`.
pub record Log : Type 0 where
  pub amount : ℤ
  pub before : ℤ
  pub after : ℤ

pub record Store : Type 0 where
  pub order : Option Order
  pub money : Option ℤ
  pub history : List Log
  pub proxies : List ℕ
  pub queue : List ℕ

-- A call ends, is refused, or hands the order over to `VouchersService.refund` with an amount and
-- whether it is for missing units.
pub data Outcome : Type 0 where
  done : Outcome
  refused : Error → Outcome
  to_vouchers : Option ℤ → Bool → Outcome

abbrev pub logged : ℤ → ℤ → List Log → List Log
logged amount money history =
    record { amount = amount; before = money; after = money +ℤ amount } ∷ history

-- `$inc` of the money, the order as saved, and the history's line if the user exists.
abbrev pub reimburse : ℤ → Order → Store → Store
reimburse amount order s = elim s.money [
  | none ↦ record s { order = some order }
  | some m ↦ record s {
    order = some order;
    money = some (m +ℤ amount);
    history = logged amount m s.history;
  }
]

abbrev pub approved : Order → Order
approved o = record o {
  refunded_amount = o.total_price;
  status = failed;
  payment_status = reimbursed;
}

abbrev pub approve_order : Order → Store → Outcome × Store
approve_order o s =
    if o.is_voucher
    then (to_vouchers none false, s)
    else if not (same_status o.status pending_refund)
    then (refused not_pending_refund, s)
    else if not o.by_balance
    then (refused not_paid_by_balance, s)
    else if leb_ℤ o.total_price (pos 0)
    then (refused bad_amount, s)
    else (done, reimburse o.total_price (approved o) s)

unfoldable pub approve_refund : Store → Outcome × Store
approve_refund s = elim s.order [ none ↦ (refused order_not_found, s) | some o ↦ approve_order o s ]

abbrev pub noted : Text → Order → Order
noted note o = if is_empty note then o else record o { admin_note = note }

abbrev pub repaid : Bool → ℤ → Order → Order
repaid cancel amount o = record o {
  refunded_amount = o.refunded_amount +ℤ amount;
  status = if cancel then cancelled else o.status;
  payment_status = if cancel then reimbursed else o.payment_status;
}

-- `amount != null ? amount : maxRefund`
abbrev pub wanted : Option ℤ → Order → ℤ
wanted amount o = or_else amount (o.total_price -ℤ o.refunded_amount)

abbrev pub refund_order : Option ℤ → Text → Bool → Order → Store → Outcome × Store
refund_order amount note cancel o s =
    if o.is_voucher
    then (to_vouchers amount false, s)
    else if same_status o.status active || same_status o.status completed
    then (refused blocked_status, s)
    else if leb_ℤ (wanted amount o) (pos 0)
    then (refused bad_amount, s)
    else if ltb_ℤ (o.total_price -ℤ o.refunded_amount) (wanted amount o)
    then (refused over_limit, s)
    else (elim s.money [
      | none ↦ (refused no_user, s)
      | some m ↦
          (done, reimburse (wanted amount o) (noted note (repaid cancel (wanted amount o) o)) s)
    ])

unfoldable pub admin_refund : Option ℤ → Text → Bool → Store → Outcome × Store
admin_refund amount note cancel s = elim s.order [
  | none ↦ (refused order_not_found, s)
  | some o ↦ refund_order amount note cancel o s
]

-- The order read afresh gets its status.
abbrev pub mark_partial : Outcome × Store → Outcome × Store
mark_partial (refused e, s) = (refused e, s)
mark_partial (to_vouchers a m, s) = (to_vouchers a m, s)
mark_partial (done, s) = (
  done,
  record s {
    order = elim s.order [ none ↦ none | some o ↦ some (record o { status = partial_refunded }) ];
  },
)

abbrev pub positive : ℤ → Option ℕ
positive (negsuc n) = none
positive (pos zero) = none
positive (pos (suc n)) = some (suc n)

-- `originalQty - actualQty`, refused at 0 or less.
abbrev pub missing_units : ℤ → ℤ → Option ℕ
missing_units ordered actual = positive (ordered -ℤ actual)

abbrev pub missing_order : Text → Order → Store → Outcome × Store
missing_order note o s =
    if o.is_voucher
    then (to_vouchers none true, s)
    else if not (same_status o.status partial)
    then (refused not_partial, s)
    else (elim o.actual_quantity [
      | none ↦ (refused no_actual_quantity, s)
      | some actual ↦ elim (missing_units o.quantity actual) [
        | none ↦ (refused nothing_missing, s)
        | some units ↦
            if leb_ℤ (o.price_per_unit *ℤ units) (pos 0)
            then (refused bad_amount, s)
            else mark_partial (admin_refund (some (o.price_per_unit *ℤ units)) note false s)
      ]
    ])

-- The note is the text that the source composes of the figures.
unfoldable pub refund_missing_quantity : Text → Store → Outcome × Store
refund_missing_quantity note s = elim s.order [
  | none ↦ (refused order_not_found, s)
  | some o ↦ missing_order note o s
]

abbrev pub retried : Order → Order
retried o = record o { status = pending; error_message = []; provider_order_id = [] }

abbrev pub retry : Order → Store → Outcome × Store
retry o s =
    if o.is_voucher
    then (refused voucher_fenced, s)
    else if not (same_status o.status failed || same_status o.status pending_refund)
    then (refused not_retryable, s)
    else if o.purchase_started
    then (refused purchase_started, s)
    else (done, record s { order = some (retried o); proxies = []; queue = o.id ∷ s.queue })

unfoldable pub retry_order : Store → Outcome × Store
retry_order s = elim s.order [ none ↦ (refused order_not_found, s) | some o ↦ retry o s ]

unfoldable pub update_status : OrderStatus → Store → Outcome × Store
update_status status s = elim s.order [
  | none ↦ (refused order_not_found, s)
  | some o ↦
      if o.is_voucher
      then (refused voucher_fenced, s)
      else (done, record s { order = some (record o { status = status }) })
]

unfoldable pub update_payment_status : PaymentStatus → Store → Outcome × Store
update_payment_status status s = elim s.order [
  | none ↦ (refused order_not_found, s)
  | some o ↦
      if o.is_voucher
      then (refused voucher_fenced, s)
      else (done, record s { order = some (record o { payment_status = status }) })
]
