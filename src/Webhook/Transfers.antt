-- ===== src/Webhook/Transfers.antt =====
-- The bank's notifications of webhook.service.ts: `handlePays2` and `handleSepay`. The checks of the
-- callers' tokens stand in the controller.
use appchat_be.Common.{
  ℕ, ◌+◌, Bool, true, false, ◌&&◌, ◌||◌, not, Option, none, some, List, [], ◌∷◌, ◌++◌, ltb, ◌==◌,
  if◌then◌else◌, find, any, or_else, is_some, Text, to_upper, eq_text, Value, whole, other, Result,
  ok, err,
}
use appchat_be.Common.Int.{pos, negsuc}
use appchat_be.Promotion.Quote.{Error, vnd}
use appchat_be.Promotion.Credit.{
  TxStatus, pending, processed, unmatched, duplicate, failed, rejected, crediting, Transaction,
  is_processed, is_rejected,
}
use appchat_be.Webhook.State.{
  Stored, Account, Bank, Failure, Transfer, has_id, find_user, credit_in, announce, deposit_error,
  bad_id, bad_date, other_transfer, disabled,
}

-- The document that a transfer is stored as.
abbrev pub new_tx : ℕ → ℕ → ℕ → Transfer → TxStatus → Option ℕ → Stored
new_tx key id amount t status user_id = record {
  transaction_id = id;
  user_id = user_id;
  tx = record {
    key = key;
    status = status;
    incoming = true;
    is_bank_auto = true;
    transfer_amount = whole (pos amount);
    content = t.content;
    date = t.date;
    credit_plan = none;
    balance_before = 0;
    balance_after = 0;
  };
  announced = false;
}

-- `{ transaction_id }, { $setOnInsert }, { upsert: true }`
abbrev pub upsert_tx : ℕ → ℕ → Transfer → TxStatus → Option ℕ → Bank → Bank
upsert_tx id amount t status user_id b = if any (has_id id) b.txs then b else record b {
  txs = b.txs ++ new_tx b.next_key id amount t status user_id ∷ [];
  next_key = b.next_key + 1;
}

pub data Outcome : Type 0 where
  skipped not_matched below_minimum known held credited : Outcome

abbrev pub min_deposit_amount : ℕ
min_deposit_amount = 10000

-- An earlier document of the transfer that is final: rejected, or processed before there were plans.
abbrev pub is_final : Option Stored → Bool
is_final none = false
is_final (some s) =
    is_rejected s.tx.status || (is_processed s.tx.status && not (is_some s.tx.credit_plan))

abbrev pub is_crediting : TxStatus → Bool
is_crediting crediting = true
is_crediting pending = false
is_crediting processed = false
is_crediting unmatched = false
is_crediting duplicate = false
is_crediting failed = false
is_crediting rejected = false

abbrev pub in_credit : Option Stored → Bool
in_credit none = false
in_credit (some s) = is_crediting s.tx.status

abbrev pub same_amount : Value → ℕ → Bool
same_amount other n = false
same_amount (whole (negsuc m)) n = false
same_amount (whole (pos m)) n = m == n

abbrev pub same_date : Option ℕ → ℕ → Bool
same_date none d = false
same_date (some e) d = e == d

abbrev pub same_transfer : ℕ → ℕ → Transfer → Stored → Bool
same_transfer amount date t s =
    same_amount s.tx.transfer_amount amount
    && eq_text s.tx.content t.content
    && same_date s.tx.date date

-- After `credit`: the announcement.
abbrev pub finish_credit : ℕ → Result Error Transaction × Bank → Result Failure Outcome × Bank
finish_credit key (err e, b) = (err (deposit_error e), b)
finish_credit key (ok tx, b) = (ok credited, announce key b)

-- The stored document is read again and is compared with the report.
abbrev pub credit_stored :
    Bool → ℕ → ℕ → Transfer → ℕ → Bank → Option Stored → Result Failure Outcome × Bank
credit_stored enabled amount date t user_id b none = (err other_transfer, b)
credit_stored enabled amount date t user_id b (some s) =
    if same_transfer amount date t s
    then finish_credit s.tx.key (credit_in enabled s.tx.key user_id b)
    else (err other_transfer, b)

-- A transfer of enough money whose user is known.
unfoldable pub accept : Bool → ℕ → ℕ → ℕ → Transfer → ℕ → Bank → Result Failure Outcome × Bank
accept enabled id amount date t user_id b =
    let existing = find (has_id id) b.txs in
    let b' = upsert_tx id amount t pending (some user_id) b in
    if is_final existing
    then (ok known, b')
    else if not enabled && not (in_credit existing)
    then (ok held, b')
    else credit_stored enabled amount date t user_id b' (find (has_id id) b'.txs)

abbrev pub for_user :
    Bool
    → ℕ
    → ℕ
    → ℕ
    → Transfer
    → Bank
    → Result Error (Option Account)
    → Result Failure Outcome × Bank
for_user enabled id amount date t b (err e) = (err (deposit_error e), b)
for_user enabled id amount date t b (ok none) =
    (ok not_matched, upsert_tx id amount t unmatched none b)
for_user enabled id amount date t b (ok (some a)) =
    if ltb amount min_deposit_amount
    then (ok below_minimum, upsert_tx id amount t rejected (some a.user.id) b)
    else accept enabled id amount date t a.user.id b

abbrev pub checked :
    Bool → Transfer → Bank → ℕ → Option ℕ → Option ℕ → Result Failure Outcome × Bank
checked enabled t b amount none date = (err bad_id, b)
checked enabled t b amount (some id) none = (err bad_date, b)
checked enabled t b amount (some id) (some date) =
    for_user enabled id amount date t b (find_user t.content b)

-- One transfer of a notification.
unfoldable pub handle_transfer : Bool → Transfer → Bank → Result Failure Outcome × Bank
unfolding find_user
handle_transfer enabled t b =
    if eq_text t.type (b'I' ∷ b'N' ∷ [])
    then (elim (vnd t.amount 0) [
      | err e ↦ (err (deposit_error e), b)
      | ok amount ↦ checked enabled t b amount t.id t.date
    ])
    else (ok skipped, b)

-- The loop over the transfers: an error of one does not stop the others.
unfoldable pub handle_transfers : Bool → List Transfer → Bank → List (Result Failure Outcome) × Bank
handle_transfers enabled [] b = ([], b)
handle_transfers enabled (t ∷ ts) b =
    let r = handle_transfer enabled t b in
    let rest = handle_transfers enabled ts r.1 in (r.0 ∷ rest.0, rest.1)

unfoldable pub handle_pays2 :
    Bool → List Transfer → Bank → Result Failure (List (Result Failure Outcome)) × Bank
handle_pays2 enabled ts b =
    if enabled
    then (ok (handle_transfers enabled ts b).0, (handle_transfers enabled ts b).1)
    else (err disabled, b)

-- The fields that SePay sends; one that is missing is `none`.
pub record SepayBody : Type 0 where
  pub id : Option (Option ℕ)
  pub type : Option Text
  pub amount : Option Value
  pub date : Option ℕ
  pub content : Option Text

abbrev pub of_sepay : SepayBody → Transfer
of_sepay body = record {
  id = or_else body.id (some 0);
  type = to_upper (or_else body.type []);
  amount = or_else body.amount (whole (pos 0));
  date = body.date;
  content = or_else body.content [];
}

abbrev pub handle_sepay :
    Bool → SepayBody → Bank → Result Failure (List (Result Failure Outcome)) × Bank
handle_sepay enabled body b = handle_pays2 enabled (of_sepay body ∷ []) b
