-- ===== src/Promotion/CreditLaws.antt =====
-- On `credit` of deposit-credit.service.ts: the wallet, its receipts and its history.
use appchat_be.Common.{
  ℕ, ◌+◌, ◌-◌, ◌≤◌, ◌≡◌, refl, inl, inr, true, false, ◌&&◌, ◌||◌, some, List, [], ◌∷◌, ◌++◌, arith,
  leb, if◌then◌else◌, any, find-append_new, find-eq_none, Result, ok, err, whole, max_safe,
  Bool-cases, Option-cases, Result-cases, is_some, not,
}
use appchat_be.Common.Int.{pos}
use appchat_be.Promotion.Quote.{Quote, Error, Intent, vnd}
use appchat_be.Promotion.Credit.{
  Plan, Transaction, User, World, has_key, add_receipt, pay, plan_quote, planned, plan_and_pay,
  receipt_for, credit_transaction, is_processed, is_rejected, credit, processed,
}
use appchat_be.Promotion.Payments.{pay-Paid, pay_again}

credit_of_paid :
    (user_id : ℕ) (w : World) (tx : Transaction) (plan : Plan) {amount : ℕ}
    → w.transaction ≡ some tx
    → tx.credit_plan ≡ some plan
    → tx.status ≡ processed
    → tx.incoming ≡ true
    → vnd tx.transfer_amount 10000 ≡ ok amount
    → pay user_id w tx plan ≡ (ok tx, w)
    → credit true user_id w ≡ (ok tx, w)
unfolding credit
credit_of_paid user_id w tx plan stored planned_by status incoming amount paid = ground arith

-- After a payment of a transaction that may be credited, the whole call may be made again.
credit_again_paid :
    (user_id : ℕ) (w : World) (tx : Transaction) (plan : Plan) {amount : ℕ} {tx' : Transaction}
    {w' : World}
    → tx.credit_plan ≡ some plan
    → tx.incoming ≡ true
    → vnd tx.transfer_amount 10000 ≡ ok amount
    → pay user_id w tx plan ≡ (ok tx', w')
    → credit true user_id w' ≡ (ok tx', w')
credit_again_paid user_id w tx plan {amount} {tx'} {w'} planned_by incoming good h =
    let p = pay-Paid user_id w tx plan h in
    credit_of_paid user_id w' tx' plan {amount = amount} (ground (arith, p.transaction, p.stored))
      (ground (arith, p.transaction)) (ground (arith, p.transaction))
      (ground (arith, p.transaction)) (rw p.transaction good) (pay_again user_id w tx plan h)

plan_and_pay_again :
    (user_id : ℕ) (w : World) (tx : Transaction) (r : Result Error Quote × List Intent) {amount : ℕ}
    {tx' : Transaction} {w' : World}
    → tx.incoming ≡ true
    → vnd tx.transfer_amount 10000 ≡ ok amount
    → plan_and_pay user_id w tx r ≡ (ok tx', w')
    → credit true user_id w' ≡ (ok tx', w')
plan_and_pay_again user_id w tx (err e, intents) incoming good h = absurd (ground arith)
plan_and_pay_again user_id w tx (ok q, intents) incoming good h =
    credit_again_paid user_id _ (planned user_id q tx) (record { user_id = user_id; quote = q })
      refl incoming good h

credit_historical :
    (user_id : ℕ) (w : World) (tx : Transaction)
    → w.transaction ≡ some tx
    → (is_processed tx.status && not (is_some tx.credit_plan)) ≡ true
    → credit true user_id w ≡ (ok tx, w)
unfolding credit
credit_historical user_id w tx stored h = ground arith

credit_transaction_again :
    (user_id : ℕ) (w : World) (tx : Transaction) {tx' : Transaction} {w' : World}
    → w.transaction ≡ some tx
    → credit_transaction user_id w tx ≡ (ok tx', w')
    → credit true user_id w' ≡ (ok tx', w')
credit_transaction_again user_id w tx {tx'} {w'} stored h =
    elim (Bool-cases (is_processed tx.status && not (is_some tx.credit_plan))) [
      | inl historical ↦
          let same : (tx' ≡ tx) × (w' ≡ w) = (ground arith, ground arith) in
          rw (same.0, same.1) (credit_historical user_id w tx stored historical)
      | inr current ↦ elim (Bool-cases (is_rejected tx.status || not tx.incoming)) [
        | inl refused ↦ absurd (ground arith)
        | inr open_tx ↦ elim (Result-cases (vnd tx.transfer_amount 10000)) [
          | inr (x, bad) ↦ absurd (ground arith)
          | inl (amount, good) ↦ elim (Option-cases tx.credit_plan) [
            | inr (plan, e) ↦
                credit_again_paid user_id w tx plan e (ground arith) good (ground arith)
            | inl new ↦
                plan_and_pay_again user_id w tx (plan_quote user_id amount tx w.intents)
                  (ground arith) good (ground arith)
          ]
        ]
      ]
    ]

-- With deposits enabled, a call that succeeded, made again for the same user, gives the same transaction and changes
-- nothing: not the money, not the receipts, not the history, not the intents.
pub credit_idem :
    (user_id : ℕ) (w : World) {tx : Transaction} {w' : World}
    → credit true user_id w ≡ (ok tx, w')
    → credit true user_id w' ≡ (ok tx, w')
unfolding credit
credit_idem user_id w h = elim (Option-cases w.transaction) [
  | inl missing ↦ absurd (ground arith)
  | inr (tx, stored) ↦ credit_transaction_again user_id w tx stored (ground arith)
]

abbrev pub holder_after : ℕ → Quote → ℕ → ℕ → User → User
holder_after key q m total u = record u {
  money = whole (pos (m + total));
  receipts = u.receipts ++ receipt_for key q m total ∷ [];
}

add_receipt_fresh :
    (key : ℕ) (q : Quote) (m total : ℕ) (u : User)
    → u.money ≡ whole (pos m)
    → any (has_key key) u.receipts ≡ false
    → add_receipt key q total u
      ≡ (if leb m (max_safe - total) then holder_after key q m total u else u)
unfolding add_receipt
add_receipt_fresh key q m total u money fresh = rw (fresh, money)

vnd_value : (n : ℕ) {total : ℕ} → vnd (whole (pos n)) 0 ≡ ok total → (total ≡ n) × (n ≤ max_safe)
unfolding vnd
vnd_value n h = ground arith

-- For a user whose money is a whole number of 0 or more and who has no receipt of the transaction, a
-- payment that succeeds adds exactly the total of the plan's quote to the user's money,
-- keeps every receipt that was there, reports the money before and after, and stays within the
-- safe integers.
pub pay_exact :
    (user_id m : ℕ) (w : World) (u : User) (tx : Transaction) (plan : Plan) {tx' : Transaction}
    {w' : World}
    → w.user ≡ some u
    → u.money ≡ whole (pos m)
    → any (has_key tx.key) u.receipts ≡ false
    → pay user_id w tx plan ≡ (ok tx', w')
    → (w'.user ≡ some (holder_after tx.key plan.quote m plan.quote.total_amount u))
      × (tx'.balance_before ≡ m)
      × (tx'.balance_after ≡ m + plan.quote.total_amount)
      × (m + plan.quote.total_amount ≤ max_safe)
unfolding pay
pay_exact user_id m w u tx plan {tx'} {w'} holder money fresh h =
    elim (Result-cases (vnd (whole (pos plan.quote.total_amount)) 0)) [
      | inr (x, bad) ↦ absurd (ground arith)
      | inl (total, good) ↦ ground (
        arith,
        vnd_value plan.quote.total_amount good,
        add_receipt_fresh tx.key plan.quote m total u money fresh,
        find-eq_none (has_key tx.key) u.receipts fresh,
        find-append_new (has_key tx.key) u.receipts (receipt_for tx.key plan.quote m total) fresh,
      )
    ]
