-- ===== src/Webhook/State.antt =====
-- The documents that webhook.service.ts keeps, `findUserFromContent`, `notifyBankCredit`, and the call
-- of `credit` on them.
use appchat_be.Common.{
  ℕ, Bool, true, ◌&&◌, not, Option, none, some, List, ◌∷◌, ◌==◌, if◌then◌else◌, find, any,
  update_first, Text, to_upper, to_lower, eq_text, Value, Result, ok, err,
}
use mathlib.Core.Option
use appchat_be.Promotion.Quote.{Error, Intent}
use appchat_be.Promotion.Claim.{has_code, code_of}
use appchat_be.Promotion.Credit.{Transaction, User, Entry, World, is_processed, credit}
use appchat_be.Webhook.Matching.{find_topup, find_email}

-- A stored transaction: the bank's number, the user it was matched to, the fields that `credit`
-- works on, whose key is the document's own identifier, and whether the success was announced.
pub record Stored : Type 0 where
  pub transaction_id : ℕ
  pub user_id : Option ℕ
  pub tx : Transaction
  pub announced : Bool

pub record Account : Type 0 where
  pub user : User
  pub email : Text
  pub topup_code : Text

-- The collections, the next document's identifier, and the announcements made, by transaction.
pub record Bank : Type 0 where
  pub txs : List Stored
  pub accounts : List Account
  pub ledger : List Entry
  pub intents : List Intent
  pub next_key : ℕ
  pub announcements : List ℕ

pub data Failure : Type 0 where
  deposit_error : Error → Failure
  bad_id bad_date other_transfer disabled no_transaction already_processed : Failure
  unknown_email no_email cannot_reject already_rejected being_credited : Failure

-- A transfer as the bank reports it. The identifier is `Number(tx.id)`, if that is a safe integer of
-- 0 or more; the date is `none` if it is invalid.
pub record Transfer : Type 0 where
  pub id : Option ℕ
  pub type : Text
  pub amount : Value
  pub date : Option ℕ
  pub content : Text

abbrev pub has_user : ℕ → Account → Bool
has_user id a = a.user.id == id

abbrev pub has_topup : Text → Account → Bool
has_topup code a = eq_text a.topup_code code

abbrev pub has_email : Text → Account → Bool
has_email email a = eq_text a.email email

abbrev pub has_key : ℕ → Stored → Bool
has_key key s = s.tx.key == key

abbrev pub has_id : ℕ → Stored → Bool
has_id id s = s.transaction_id == id

-- The fallback: an address in the text.
abbrev pub by_email : Text → List Account → Option Account
by_email content accounts = elim (find_email content) [
  | none ↦ none
  | some email ↦ find (has_email (to_lower email)) accounts
]

abbrev pub by_topup : Text → List Account → Option Account
by_topup content accounts = elim (find_topup (to_upper content)) [
  | none ↦ by_email content accounts
  | some code ↦ elim (find (has_topup code) accounts) [
    | some a ↦ some a
    | none ↦ by_email content accounts
  ]
]

-- `findUserFromContent`: the intent's user, the owner of a top-up code, or of an e-mail address.
unfoldable pub find_user : Text → Bank → Result Error (Option Account)
unfolding code_of find_topup find_email
find_user content b = elim (code_of content) [
  | err e ↦ err e
  | ok none ↦ ok (by_topup content b.accounts)
  | ok (some code) ↦ elim (find (has_code code) b.intents) [
    | none ↦ ok none
    | some intent ↦ ok (find (has_user intent.user_id) b.accounts)
  ]
]

-- The documents that `credit` works on, and their return to the collections. `credit` sets the user
-- with the plan.
abbrev pub focus : ℕ → ℕ → Bank → World
focus key user_id b = record {
  transaction = Option.map (λ s. s.tx) (find (has_key key) b.txs);
  user = Option.map (λ a. a.user) (find (has_user user_id) b.accounts);
  ledger = b.ledger;
  intents = b.intents;
}

abbrev pub assigned_user : Option ℕ → Transaction → Option ℕ
assigned_user old tx = elim tx.credit_plan [ none ↦ old | some plan ↦ some plan.user_id ]

abbrev pub with_tx : Transaction → Stored → Stored
with_tx tx s = record s { tx = tx; user_id = assigned_user s.user_id tx }

abbrev pub put_tx : ℕ → Option Transaction → List Stored → List Stored
put_tx key none txs = txs
put_tx key (some tx) txs = update_first (has_key key) (with_tx tx) txs

abbrev pub put_user : ℕ → Option User → List Account → List Account
put_user id none accounts = accounts
put_user id (some u) accounts = update_first (has_user id) (λ a. record a { user = u }) accounts

abbrev pub put_back : ℕ → ℕ → World → Bank → Bank
put_back key user_id w b = record b {
  txs = put_tx key w.transaction b.txs;
  accounts = put_user user_id w.user b.accounts;
  ledger = w.ledger;
  intents = w.intents;
}

unfoldable pub credit_in : Bool → ℕ → ℕ → Bank → Result Error Transaction × Bank
credit_in enabled key user_id b =
    let r = credit enabled user_id (focus key user_id b) in (r.0, put_back key user_id r.1 b)

-- `notifyBankCredit`: the first to claim the announcement makes it.
abbrev pub can_announce : ℕ → Stored → Bool
can_announce key s = has_key key s && is_processed s.tx.status && not s.announced

unfoldable pub announce : ℕ → Bank → Bank
announce key b =
    if any (can_announce key) b.txs
    then record b {
      txs = update_first (can_announce key) (λ s. record s { announced = true }) b.txs;
      announcements = key ∷ b.announcements;
    }
    else b
