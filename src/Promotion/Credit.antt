-- ===== src/Promotion/Credit.antt =====
-- `DepositCreditService.credit` of deposit-credit.service.ts: a bank transfer becomes money once.
-- Each stage is one document update of the source; `credit` runs them in the source's order.
use appchat_be.Common.{
  ℕ, ◌+◌, ◌-◌, Bool, true, false, ◌&&◌, ◌||◌, not, Option, none, some, List, [], ◌∷◌, ◌++◌, leb,
  ◌==◌, if◌then◌else◌, find, any, Text, Result, ok, err, Value, whole, other, max_safe, is_some,
}
use mathlib.Core.Option
use appchat_be.Common.Int.{pos, negsuc}
use appchat_be.Promotion.Quote.{
  Error, deposit_disabled, unknown_transaction, not_creditable, other_user, no_receipt, Quote,
  Intent, vnd, calculate_quote,
}
use appchat_be.Promotion.Claim.{claim}

pub data TxStatus : Type 0 where
  pending processed unmatched duplicate failed rejected crediting : TxStatus

pub record Plan : Type 0 where
  pub user_id : ℕ
  pub quote : Quote

-- The fields of a bank transaction that matter here; `is_bank_auto` is
-- `payment_method === BANK && source !== 'manual'`, an invalid date is `none`.
pub record Transaction : Type 0 where
  pub key : ℕ
  pub status : TxStatus
  pub incoming : Bool
  pub is_bank_auto : Bool
  pub transfer_amount : Value
  pub content : Text
  pub date : Option ℕ
  pub credit_plan : Option Plan
  pub balance_before : ℕ
  pub balance_after : ℕ

pub record Receipt : Type 0 where
  pub key : ℕ
  pub quote : Quote
  pub balance_before : ℕ
  pub balance_after : ℕ

pub record User : Type 0 where
  pub id : ℕ
  pub money : Value
  pub receipts : List Receipt

pub data EntryType : Type 0 where
  deposit promotion_bonus : EntryType

abbrev pub same_type : EntryType → EntryType → Bool
same_type deposit deposit = true
same_type promotion_bonus promotion_bonus = true
same_type deposit promotion_bonus = false
same_type promotion_bonus deposit = false

-- A line of the wallet's history; its credit key is the transaction's key and the type.
pub record Entry : Type 0 where
  pub key : ℕ
  pub type : EntryType
  pub amount : ℕ
  pub before : ℕ
  pub after : ℕ

-- The documents that a call of `credit` reads and writes.
pub record World : Type 0 where
  pub transaction : Option Transaction
  pub user : Option User
  pub ledger : List Entry
  pub intents : List Intent

abbrev pub is_processed : TxStatus → Bool
is_processed processed = true
is_processed pending = false
is_processed crediting = false
is_processed rejected = false
is_processed unmatched = false
is_processed duplicate = false
is_processed failed = false

abbrev pub is_rejected : TxStatus → Bool
is_rejected rejected = true
is_rejected pending = false
is_rejected crediting = false
is_rejected processed = false
is_rejected unmatched = false
is_rejected duplicate = false
is_rejected failed = false

abbrev pub has_key : ℕ → Receipt → Bool
has_key key r = r.key == key

abbrev pub receipt_for : ℕ → Quote → ℕ → ℕ → Receipt
receipt_for key q m total = record {
  key = key;
  quote = q;
  balance_before = m;
  balance_after = m + total;
}

-- `money: { $gte: 0, $lte: MAX - total }`, a whole number, and the key is new: the increment and the
-- receipt are one update.
abbrev pub added : ℕ → Quote → ℕ → User → Value → User
added key q total u other = u
added key q total u (whole (negsuc n)) = u
added key q total u (whole (pos m)) =
    if leb m (max_safe - total)
    then record u {
      money = whole (pos (m + total));
      receipts = u.receipts ++ receipt_for key q m total ∷ [];
    }
    else u

unfoldable pub add_receipt : ℕ → Quote → ℕ → User → User
add_receipt key q total u = if any (has_key key) u.receipts then u else added key q total u u.money

-- `updateOne({ credit_key }, { $setOnInsert }, { upsert: true })`
unfoldable pub upsert : Entry → List Entry → List Entry
upsert e ledger =
    if any (λ x. x.key == e.key && same_type x.type e.type) ledger then ledger else ledger ++ e ∷ []

abbrev pub deposit_entry : Receipt → Entry
deposit_entry r = record {
  key = r.key;
  type = deposit;
  amount = r.quote.amount;
  before = r.balance_before;
  after = r.balance_before + r.quote.amount;
}

abbrev pub bonus_entry : Receipt → Entry
bonus_entry r = record {
  key = r.key;
  type = promotion_bonus;
  amount = r.quote.bonus_amount;
  before = r.balance_before + r.quote.amount;
  after = r.balance_after;
}

-- The history's lines for a receipt: the deposit, and the bonus if it is not 0.
unfoldable pub write_entries : Receipt → List Entry → List Entry
write_entries r ledger =
    if r.quote.bonus_amount == 0
    then upsert (deposit_entry r) ledger
    else upsert (bonus_entry r) (upsert (deposit_entry r) ledger)

abbrev pub user_receipt : ℕ → Option User → Option Receipt
user_receipt key none = none
user_receipt key (some u) = find (has_key key) u.receipts

abbrev pub finished : Receipt → Transaction → Transaction
finished r tx = record tx {
  status = processed;
  balance_before = r.balance_before;
  balance_after = r.balance_after;
}

-- After the receipt is there: the history and the transaction's final state.
abbrev pub settle_receipt : World → Transaction → Option Receipt → Result Error Transaction × World
settle_receipt w tx none = (err no_receipt, w)
settle_receipt w tx (some r) = (
  ok (finished r tx),
  record w { transaction = some (finished r tx); ledger = write_entries r w.ledger },
)

-- From the plan on.
unfoldable pub pay : ℕ → World → Transaction → Plan → Result Error Transaction × World
pay user_id w tx plan =
    if plan.user_id == user_id
    then (elim (vnd (whole (pos plan.quote.total_amount)) 0) [
      | err e ↦ (err e, w)
      | ok total ↦
          let user = Option.map (add_receipt tx.key plan.quote total) w.user in
          settle_receipt (record w { user = user }) tx (user_receipt tx.key user)
    ])
    else (err other_user, w)

-- The quote that a plan freezes: the claimed intent's for a bank transfer that came by itself, and
-- none but the amount otherwise.
abbrev pub plan_quote : ℕ → ℕ → Transaction → List Intent → Result Error Quote × List Intent
plan_quote user_id amount tx intents =
    if tx.is_bank_auto
    then claim tx.content user_id amount tx.date tx.key intents
    else (calculate_quote (whole (pos amount)) none, intents)

abbrev pub planned : ℕ → Quote → Transaction → Transaction
planned user_id q tx = record tx {
  status = crediting;
  credit_plan = some (record { user_id = user_id; quote = q });
}

-- Without a plan: freeze one, then pay.
abbrev pub plan_and_pay :
    ℕ → World → Transaction → Result Error Quote × List Intent → Result Error Transaction × World
plan_and_pay user_id w tx (err e, intents) = (err e, record w { intents = intents })
plan_and_pay user_id w tx (ok q, intents) =
    let tx' = planned user_id q tx in
    pay user_id (record w { transaction = some tx'; intents = intents }) tx'
      (record { user_id = user_id; quote = q })

abbrev pub credit_transaction : ℕ → World → Transaction → Result Error Transaction × World
credit_transaction user_id w tx =
    if is_processed tx.status && not (is_some tx.credit_plan)
    then (ok tx, w)
    else if is_rejected tx.status || not tx.incoming
    then (err not_creditable, w)
    else (elim (vnd tx.transfer_amount 10000) [
      | err e ↦ (err e, w)
      | ok amount ↦ elim tx.credit_plan [
        | some plan ↦ pay user_id w tx plan
        | none ↦ plan_and_pay user_id w tx (plan_quote user_id amount tx w.intents)
      ]
    ])

-- `credit(id, userId)`, one call at a time.
unfoldable pub credit : Bool → ℕ → World → Result Error Transaction × World
credit enabled user_id w =
    if enabled
    then (elim w.transaction [
      | none ↦ (err unknown_transaction, w)
      | some tx ↦ credit_transaction user_id w tx
    ])
    else (err deposit_disabled, w)
