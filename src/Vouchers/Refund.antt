-- ===== src/Vouchers/Refund.antt =====
-- `refund` and `settle` of vouchers.service.ts: an order bought with a voucher has one refund plan,
-- which is paid with one receipt of the wallet. The order is read as it is stored. The copy of the
-- plan on the intent and the history's line follow and are left out.
use appchat_be.Common.{
  ℕ, ◌+◌, ◌-◌, Bool, ◌&&◌, ◌||◌, not, Option, none, some, [], ◌∷◌, ◌++◌, ltb, leb, ◌==◌,
  if◌then◌else◌, or_else, max_safe, Value, whole, other, Result, ok, err, ◌>>=◌, ◌>>◌, throw_if,
}
use mathlib.Core.Option
use appchat_be.Common.Int.{pos, negsuc}
use appchat_be.Orders.Status.{
  OrderStatus, partial, partial_refunded, refunded, pending_refund, PaymentStatus, settled,
  reimbursed, same_status,
}
use appchat_be.Vouchers.Authority.{Voucher, use_reserved, release_reserved, release_used}
use appchat_be.Vouchers.Rules.{
  Error, over_total, not_partial, not_failed, other_plan, wallet_pending, integer, missing_refund,
}
use appchat_be.Vouchers.Purchase.{
  Token, of_order, Receipt, refunded as receipt_refunded, Wallet, Money, whole_money, part_money,
  wallet_admits, receipt_of, found_receipt,
}

pub record Plan : Type 0 where
  pub amount : ℕ
  pub missing : Bool

-- What a refund reads and writes of an order; `intent` is the token of its voucher.
pub record VoucherOrder : Type 0 where
  pub id : ℕ
  pub intent : ℕ
  pub total_price : ℕ
  pub quantity : ℕ
  pub actual_quantity : Option ℕ
  pub status : OrderStatus
  pub payment_status : PaymentStatus
  pub refunded_amount : ℕ
  pub fulfilled : Bool
  pub confirmed_failed : Bool
  pub plan : Option Plan

pub record Account : Type 0 where
  pub order : VoucherOrder
  pub wallet : Option Wallet
  pub voucher : Option Voucher

abbrev pub number : Option ℕ → Value
number none = other
number (some n) = whole (pos n)

abbrev pub got_some : VoucherOrder → Bool
got_some o = ltb 0 (or_else o.actual_quantity 0)

abbrev pub is_partial : VoucherOrder → Bool
is_partial o = same_status o.status partial || same_status o.status partial_refunded

-- The amount that is asked for, before it is compared with the order.
abbrev pub asked_amount : VoucherOrder → Option Value → Bool → Result Error ℕ
asked_amount o amount missing =
    if missing
    then missing_refund (whole (pos o.total_price)) (whole (pos o.quantity))
        (number o.actual_quantity)
    else integer (or_else amount (whole (pos o.total_price))) 0

abbrev pub wrong_state : VoucherOrder → Bool → Bool
wrong_state o missing = if missing then not (is_partial o) else not o.confirmed_failed || got_some o

unfoldable pub refund_target : VoucherOrder → Option Value → Bool → Result Error ℕ
refund_target o amount missing = integer (whole (pos o.total_price)) 0 >>= λ total.
    asked_amount o amount missing >>= λ target.
    throw_if (ltb total target) over_total
    >> (throw_if (wrong_state o missing) (if missing then not_partial else not_failed) >> ok target)

-- `updateOne({ _id, voucher_refund_plan: null }, ...)`
abbrev pub with_plan : ℕ → Bool → VoucherOrder → VoucherOrder
with_plan target missing o = record o {
  plan = some (or_else o.plan (record { amount = target; missing = missing }));
}

abbrev pub agrees : ℕ → Bool → Plan → Bool
agrees target missing p = p.amount == target && (if missing then p.missing else not p.missing)

abbrev pub refunded_by : Token → ℕ → ℕ → Wallet → Wallet
refunded_by token amount m w = record w {
  money = whole_money (pos (m + amount));
  receipts = w.receipts ++ receipt_of token receipt_refunded amount m (m + amount) ∷ [];
}

-- The refunding update: the money is a whole number and stays safe.
abbrev pub refund_money : (Wallet → Bool) → Token → ℕ → Wallet → Money → Wallet
refund_money small token amount w (part_money n) = w
refund_money small token amount w (whole_money (negsuc n)) = w
refund_money small token amount w (whole_money (pos m)) =
    if wallet_admits small token w && leb m (max_safe - amount)
    then refunded_by token amount m w
    else w

unfoldable pub refund_wallet : (Wallet → Bool) → Token → ℕ → Wallet → Wallet
refund_wallet small token amount w = refund_money small token amount w w.money

abbrev pub paid_back : ℕ → Bool → VoucherOrder → VoucherOrder
paid_back target missing o = record o {
  refunded_amount = target;
  status =
      if missing
      then partial_refunded
      else if target == o.total_price
      then refunded
      else pending_refund;
  payment_status = if target == o.total_price then reimbursed else settled;
}

-- `settle(order)` on the voucher.
unfoldable pub settle : VoucherOrder → Voucher → Voucher
settle o v =
    let used = if o.fulfilled && got_some o then use_reserved o.intent v else v in
    if o.confirmed_failed && o.refunded_amount == o.total_price && not (got_some o)
    then release_used o.intent (release_reserved o.intent used)
    else used

abbrev pub receipt_in : Token → Option Wallet → Option Receipt
receipt_in token none = none
receipt_in token (some w) = found_receipt token w

-- After the wallet was tried.
abbrev pub finish_refund :
    ℕ → Bool → VoucherOrder → Option Wallet → Account → Option Receipt → Result Error ℕ × Account
finish_refund target missing o u a none = (err wallet_pending, record a { order = o; wallet = u })
finish_refund target missing o u a (some r) = (
  ok target,
  record {
    order = paid_back target missing o;
    wallet = u;
    voucher = Option.map (settle (paid_back target missing o)) a.voucher;
  },
)

-- With the plan that the order then has.
abbrev pub pay_plan :
    (Wallet → Bool) → ℕ → Bool → VoucherOrder → Account → Option Plan → Result Error ℕ × Account
pay_plan small target missing o a none = (err other_plan, record a { order = o })
pay_plan small target missing o a (some p) =
    if agrees target missing p
    then (let u = Option.map (refund_wallet small (of_order o.id) target) a.wallet in
        finish_refund target missing o u a (receipt_in (of_order o.id) u))
    else (err other_plan, record a { order = o })

abbrev pub refund_for : (Wallet → Bool) → Bool → Account → Result Error ℕ → Result Error ℕ × Account
refund_for small missing a (err e) = (err e, a)
refund_for small missing a (ok target) =
    let o : VoucherOrder = with_plan target missing a.order in
    pay_plan small target missing o a o.plan

-- `refund(order, amount, actor, missing)`
unfoldable pub refund : (Wallet → Bool) → Option Value → Bool → Account → Result Error ℕ × Account
refund small amount missing a = refund_for small missing a (refund_target a.order amount missing)
