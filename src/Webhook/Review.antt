-- ===== src/Webhook/Review.antt =====
-- `approveTransaction` and `rejectTransaction` of webhook.service.ts, and any sequence of calls.
use appchat_be.Common.{
  ℕ, Bool, ◌&&◌, ◌||◌, not, Option, none, some, List, [], ◌∷◌, if◌then◌else◌, find, any,
  update_first, is_some, Text, Result, ok, err,
}
use appchat_be.Promotion.Credit.{rejected, is_processed, is_rejected}
use appchat_be.Webhook.State.{
  Stored, Account, Bank, Failure, Transfer, has_user, has_email, has_key, credit_in, disabled,
  no_transaction, already_processed, unknown_email, no_email, cannot_reject, already_rejected,
  being_credited,
}
use appchat_be.Webhook.Transfers.{
  Outcome, is_crediting, finish_credit, handle_pays2, SepayBody, handle_sepay, skipped,
}

-- The user that an administrator approves a transaction for: the one it was matched to, or the one
-- of the address given.
abbrev pub approved_user : Option Account → Option Text → List Account → Result Failure Account
approved_user (some a) email accounts = ok a
approved_user none none accounts = err no_email
approved_user none (some email) accounts = elim (find (has_email email) accounts) [
  | none ↦ err unknown_email
  | some a ↦ ok a
]

abbrev pub matched_user : Option ℕ → List Account → Option Account
matched_user none accounts = none
matched_user (some id) accounts = find (has_user id) accounts

abbrev pub approve_for : Bool → ℕ → Bank → Result Failure Account → Result Failure Outcome × Bank
approve_for enabled key b (err e) = (err e, b)
approve_for enabled key b (ok a) = finish_credit key (credit_in enabled key a.user.id b)

abbrev pub approve_stored :
    Bool → ℕ → Option Text → Bank → Option Stored → Result Failure Outcome × Bank
approve_stored enabled key email b none = (err no_transaction, b)
approve_stored enabled key email b (some s) =
    if is_processed s.tx.status && not (is_some s.tx.credit_plan)
    then (err already_processed, b)
    else approve_for enabled key b
        (approved_user (matched_user s.user_id b.accounts) email b.accounts)

-- `approveTransaction`
unfoldable pub approve : Bool → ℕ → Option Text → Bank → Result Failure Outcome × Bank
approve enabled key email b =
    if enabled
    then approve_stored enabled key email b (find (has_key key) b.txs)
    else (err disabled, b)

abbrev pub can_reject : ℕ → Stored → Bool
can_reject key s =
    has_key key s
    && not (is_processed s.tx.status)
    && not (is_crediting s.tx.status)
    && not (is_some s.tx.credit_plan)

abbrev pub as_rejected : Stored → Stored
as_rejected s = record s { tx = record s.tx { status = rejected } }

abbrev pub reject_stored : ℕ → Bank → Option Stored → Result Failure Outcome × Bank
reject_stored key b none = (err no_transaction, b)
reject_stored key b (some s) =
    if is_processed s.tx.status || is_crediting s.tx.status
    then (err cannot_reject, b)
    else if is_rejected s.tx.status
    then (err already_rejected, b)
    else if any (can_reject key) b.txs
    then (ok skipped, record b { txs = update_first (can_reject key) as_rejected b.txs })
    else (err being_credited, b)

-- `rejectTransaction`
unfoldable pub reject : ℕ → Bank → Result Failure Outcome × Bank
reject key b = reject_stored key b (find (has_key key) b.txs)

pub data Call : Type 0 where
  notify : Bool → List Transfer → Call
  notify_sepay : Bool → SepayBody → Call
  approving : Bool → ℕ → Option Text → Call
  rejecting : ℕ → Call

unfoldable pub perform : Call → Bank → Bank
perform (notify enabled ts) b = (handle_pays2 enabled ts b).1
perform (notify_sepay enabled body) b = (handle_sepay enabled body b).1
perform (approving enabled key email) b = (approve enabled key email b).1
perform (rejecting key) b = (reject key b).1

abbrev pub perform_all : List Call → Bank → Bank
perform_all [] b = b
perform_all (c ∷ cs) b = perform_all cs (perform c b)
