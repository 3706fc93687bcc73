-- ===== src/Vouchers/Dispatch.antt =====
-- The end of `recover` of vouchers.service.ts, for an intent that is there: after its three stages every call,
-- also one for an intent that is ordered already, writes the history's line and hands the order to
-- the buying worker.
use appchat_be.Common.{
  ℕ, suc, Bool, true, false, ◌&&◌, not, Option, none, some, if◌then◌else◌, find, Result, ok, err,
}
use appchat_be.Orders.Status.{OrderStatus, pending, same_status}
use appchat_be.Vouchers.Authority.{Voucher}
use appchat_be.Vouchers.Rules.{Error}
use appchat_be.Vouchers.Purchase.{
  Receipt, ReceiptType, debit, refused, refunded, of_intent, has_receipt, Wallet, World, ordered,
  is_state, recover,
}

-- What the database has of the inserted order.
pub record Waiting : Type 0 where
  pub status : OrderStatus
  pub is_open : Bool
  pub dispatch_claimed : Bool

-- The wallet's history line of the intent, whose id is made of the token; how often the order was pushed to the
-- list `orders:pending`; and when it was last, `lastQueuedAt`.
pub record Outbox : Type 0 where
  pub line : Option Receipt
  pub pushed : ℕ
  pub queued_at : Option ℕ

abbrev pub is_debit : ReceiptType → Bool
is_debit debit = true
is_debit refused = false
is_debit refunded = false

-- A receipt of the debit.
abbrev pub debits : ℕ → Receipt → Bool
debits token r = has_receipt (of_intent token) r && is_debit r.type

abbrev pub debit_in : ℕ → Option Wallet → Option Receipt
debit_in token none = none
debit_in token (some u) = find (debits token) u.receipts

-- The debit receipt of the intent in the wallet.
abbrev pub debit_receipt : World → Option Receipt
debit_receipt w = debit_in w.intent.token w.wallet

-- `ledger`: the line is only set where it is not there.
abbrev pub ledger : Option Receipt → Outbox → Outbox
ledger none b = b
ledger (some r) b = elim b.line [ none ↦ record b { line = some r } | some l ↦ b ]

abbrev pub to_dispatch : Waiting → Bool
to_dispatch o = same_status o.status pending && o.is_open && not o.dispatch_claimed

-- `dispatch`: an order that waits is pushed, if Redis takes it. `o` is the order as it is then, if it is there.
unfoldable pub dispatch : Bool → ℕ → World → Option Waiting → Outbox → Outbox
dispatch redis now w none b = b
dispatch redis now w (some o) b =
    if is_state w.intent.state ordered && to_dispatch o && redis
    then record b { pushed = suc b.pushed; queued_at = some now }
    else b

abbrev pub hand_over :
    Bool
    → ℕ
    → Option Waiting
    → Outbox
    → Result Error (Unit {0}) × World
    → Result Error (Unit {0}) × World × Outbox
hand_over redis now o b (err e, w) = (err e, w, b)
hand_over redis now o b (ok t, w) = (ok t, w, dispatch redis now w o (ledger (debit_receipt w) b))

-- All of `recover(id)`.
unfoldable pub recover_order :
    (Voucher → Bool)
    → (Wallet → Bool)
    → Bool
    → ℕ
    → Option Waiting
    → World
    → Outbox
    → Result Error (Unit {0}) × World × Outbox
recover_order small small_wallet redis now o w b =
    hand_over redis now o b (recover small small_wallet now w)
