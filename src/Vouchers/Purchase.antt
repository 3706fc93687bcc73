-- ===== src/Vouchers/Purchase.antt =====
-- `recover` of vouchers.service.ts up to the inserted order: reserve the voucher, debit the wallet,
-- insert the order, each as a conditional update that may have been done by an earlier, interrupted
-- call. Dispatch has what follows.
use appchat_be.Common.{
  ℕ, ◌-◌, Bool, true, false, ◌&&◌, not, Option, none, some, List, [], ◌∷◌, ◌++◌, ltb, leb, ◌==◌,
  if◌then◌else◌, find, any, length, max_safe, Result, ok, err,
}
use mathlib.Core.Option
use appchat_be.Common.Int.{ℤ, pos, negsuc, ltb_ℤ}
use appchat_be.Vouchers.Authority.{
  Voucher, reserved, released, is_at, reserve, tombstone, release_reserved,
}
use appchat_be.Vouchers.Rules.{
  Error, intent_rejected, capacity, wallet_full, wallet_pending, low_balance,
}

pub data ReceiptType : Type 0 where
  debit refused refunded : ReceiptType

-- A receipt's token: the purchase intent, or `refund:` and the order.
pub data Token : Type 0 where
  of_intent of_order : ℕ → Token

abbrev pub same_token : Token → Token → Bool
same_token (of_intent a) (of_intent b) = a == b
same_token (of_intent a) (of_order b) = false
same_token (of_order a) (of_intent b) = false
same_token (of_order a) (of_order b) = a == b

pub record Receipt : Type 0 where
  pub token : Token
  pub type : ReceiptType
  pub amount : ℕ
  pub balance_before : ℕ
  pub balance_after : ℕ

-- A balance: a whole number, or a fraction strictly between `n` and `n + 1`.
pub data Money : Type 0 where
  whole_money part_money : ℤ → Money

abbrev pub floor : Money → ℤ
floor (whole_money n) = n
floor (part_money n) = n

-- The money document: the balance and its receipts.
pub record Wallet : Type 0 where
  pub money : Money
  pub receipts : List Receipt

pub data IntentState : Type 0 where
  created held debited ordered turned_down : IntentState

-- A purchase intent; `token` is its identifier, `total_price` that of the frozen order.
pub record Intent : Type 0 where
  pub token : ℕ
  pub user_id : ℕ
  pub revision : ℕ
  pub total_price : ℕ
  pub state : IntentState
  pub balance_before : Option ℕ
  pub balance_after : Option ℕ

-- What the stages read and write; `order_exists` says that the frozen order has been inserted.
pub record World : Type 0 where
  pub intent : Intent
  pub voucher : Option Voucher
  pub wallet : Option Wallet
  pub order_exists : Bool

-- `RECEIPT_CAP`
abbrev pub receipt_cap : ℕ
receipt_cap = 10000

abbrev pub has_receipt : Token → Receipt → Bool
has_receipt token r = same_token r.token token

abbrev pub wallet_admits : (Wallet → Bool) → Token → Wallet → Bool
wallet_admits small token w =
    not (any (has_receipt token) w.receipts) && ltb (length w.receipts) receipt_cap && small w

abbrev pub receipt_of : Token → ReceiptType → ℕ → ℕ → ℕ → Receipt
receipt_of token type amount before after = record {
  token = token;
  type = type;
  amount = amount;
  balance_before = before;
  balance_after = after;
}

abbrev pub debited_by : Token → ℕ → ℕ → Wallet → Wallet
debited_by token amount m w = record w {
  money = whole_money (pos (m - amount));
  receipts = w.receipts ++ receipt_of token debit amount m (m - amount) ∷ [];
}

-- The debiting update: the money is a whole number, reaches the amount, and is safe.
abbrev pub debit_money : (Wallet → Bool) → Token → ℕ → Wallet → Money → Wallet
debit_money small token amount w (part_money n) = w
debit_money small token amount w (whole_money (negsuc n)) = w
debit_money small token amount w (whole_money (pos m)) =
    if wallet_admits small token w && leb amount m && leb m max_safe
    then debited_by token amount m w
    else w

unfoldable pub debit_wallet : (Wallet → Bool) → Token → ℕ → Wallet → Wallet
debit_wallet small token amount w = debit_money small token amount w w.money

-- The zero receipt that fences a debit for want of money: `money: { $lt: amount }`.
unfoldable pub refuse_debit : (Wallet → Bool) → Token → ℕ → Wallet → Wallet
refuse_debit small token amount w =
    if wallet_admits small token w && ltb_ℤ (floor w.money) (pos amount)
    then record w { receipts = w.receipts ++ receipt_of token refused 0 0 0 ∷ [] }
    else w

abbrev pub in_state : IntentState → Intent → Intent
in_state s i = record i { state = s }

abbrev pub token_at : World → Bool
token_at w = elim w.voucher [
  | none ↦ false
  | some v ↦ any (is_at w.intent.token reserved) v.reservations
]

abbrev pub buried : World → Bool
buried w = elim w.voucher [
  | none ↦ false
  | some v ↦ any (is_at w.intent.token released) v.reservations
]

-- Stage 1, from `created`: reserve, else bury, then see which of the two is there.
unfoldable pub reserve_stage : (Voucher → Bool) → ℕ → World → Result Error (Unit {0}) × World
reserve_stage small now w =
    let i = w.intent in
    let try_reserve = reserve small i.token i.user_id i.revision now in
    let try_bury = tombstone small i.token i.user_id in
    let v = record w { voucher = Option.map (λ v. try_bury (try_reserve v)) w.voucher } in
    if token_at v
    then (ok tt, record v { intent = in_state held i })
    else if buried v
    then (err capacity, record v { intent = in_state turned_down i })
    else (err capacity, v)

abbrev pub found_receipt : Token → Wallet → Option Receipt
found_receipt token w = find (has_receipt token) w.receipts

-- With the receipt at hand: the debit goes on, the refusal gives the reservation back.
unfoldable pub finish_debit : World → Receipt → Result Error (Unit {0}) × World
finish_debit w r = elim r.type [
  | refused ↦ (
    err low_balance,
    record w {
      voucher = Option.map (release_reserved w.intent.token) w.voucher;
      intent = in_state turned_down w.intent;
    },
  )
  | _ ↦ (
    ok tt,
    record w {
      intent = record w.intent {
        state = debited;
        balance_before = some r.balance_before;
        balance_after = some r.balance_after;
      };
    },
  )
]

-- After the refusal was tried.
abbrev pub after_refusal : World → Option Receipt → Result Error (Unit {0}) × World
after_refusal w none = (err wallet_pending, w)
after_refusal w (some r) = finish_debit w r

-- Without a debit receipt: a full list of receipts stops the purchase, else the refusal is tried.
unfoldable pub without_debit : (Wallet → Bool) → World → Wallet → Result Error (Unit {0}) × World
without_debit small w u =
    if leb receipt_cap (length u.receipts)
    then (err wallet_full, record w { wallet = some u })
    else (let u' : Wallet = refuse_debit small (of_intent w.intent.token) w.intent.total_price u in
        after_refusal (record w { wallet = some u' }) (found_receipt (of_intent w.intent.token) u'))

-- After the debit was tried.
abbrev pub after_debit :
    (Wallet → Bool) → World → Wallet → Option Receipt → Result Error (Unit {0}) × World
after_debit small w u none = without_debit small w u
after_debit small w u (some r) = finish_debit (record w { wallet = some u }) r

-- Stage 2, from `reserved`.
abbrev pub debit_from : (Wallet → Bool) → World → Option Wallet → Result Error (Unit {0}) × World
debit_from small w none = (err wallet_full, w)
debit_from small w (some u₀) =
    let u : Wallet = debit_wallet small (of_intent w.intent.token) w.intent.total_price u₀ in
    after_debit small w u (found_receipt (of_intent w.intent.token) u)

unfoldable pub debit_stage : (Wallet → Bool) → World → Result Error (Unit {0}) × World
debit_stage small w = debit_from small w w.wallet

-- Stage 3, from `debited`: the order is inserted once, a duplicate counts as done.
unfoldable pub insert_stage : World → World
insert_stage w = record w { order_exists = true; intent = in_state ordered w.intent }

abbrev pub is_state : IntentState → IntentState → Bool
is_state created created = true
is_state held held = true
is_state debited debited = true
is_state ordered ordered = true
is_state turned_down turned_down = true
is_state a b = false

abbrev pub then_stage :
    Result Error (Unit {0}) × World
    → (World → Result Error (Unit {0}) × World)
    → Result Error (Unit {0}) × World
then_stage (ok t, w) k = k w
then_stage (err e, w) k = (err e, w)

abbrev pub when_state :
    IntentState
    → (World → Result Error (Unit {0}) × World)
    → World
    → Result Error (Unit {0}) × World
when_state s stage w = if is_state w.intent.state s then stage w else (ok tt, w)

-- From the state after each stage on, read again from the database.
abbrev pub insert_rest : World → Result Error (Unit {0}) × World
insert_rest w = when_state debited (λ x. (ok tt, insert_stage x)) w

abbrev pub debit_rest : (Wallet → Bool) → World → Result Error (Unit {0}) × World
debit_rest small w = then_stage (when_state held (debit_stage small) w) insert_rest

-- `recover(id)` for an intent that exists.
unfoldable pub recover :
    (Voucher → Bool) → (Wallet → Bool) → ℕ → World → Result Error (Unit {0}) × World
recover small small_wallet now w =
    if is_state w.intent.state turned_down
    then (err intent_rejected, w)
    else then_stage (when_state created (reserve_stage small now) w) (debit_rest small_wallet)
