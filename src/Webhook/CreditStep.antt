-- ===== src/Webhook/CreditStep.antt =====
-- What one call of `credit` of deposit-credit.service.ts does to the transaction and the user, whichever
-- way it ends.
use appchat_be.Common.{
  ℕ, ◌≡◌, refl, sym, ap, ◌∙◌, subst, ◌⊎◌, inl, inr, Bool, true, false, ◌&&◌, ◌||◌, not, Option,
  none, some, List, arith, ◌==◌, is_some, Result, ok, err, whole, Bool-cases, Option-cases,
  Result-cases,
}
use mathlib.Core.Option
use appchat_be.Common.Int.{pos}
use appchat_be.Promotion.Quote.{Quote, Intent, Error, vnd}
use appchat_be.Promotion.Credit.{
  Plan, Transaction, Receipt, World, add_receipt, finished, pay, plan_quote, planned, plan_and_pay,
  settle_receipt, user_receipt, credit_transaction, is_processed, is_rejected, credit,
}

-- The plan is for this user.
abbrev pub owns : ℕ → Option Plan → Bool
owns id none = false
owns id (some p) = p.user_id == id

-- A rejected transaction has no plan.
abbrev pub is_clean : Transaction → Bool
is_clean tx = not (is_rejected tx.status) || not (is_some tx.credit_plan)

-- The transaction keeps its key and a plan once it has one; the user is left alone, or gets a receipt
-- under the transaction's key, and then the plan is for the user.
pub record Stepped (id : ℕ) (w : World) (tx : Transaction) (w' : World) : Type 0 where
  pub after : Transaction
  pub stored : w'.transaction ≡ some after
  pub key : after.key ≡ tx.key
  pub plan : (p : Plan) → tx.credit_plan ≡ some p → after.credit_plan ≡ some p
  pub clean : is_clean after ≡ true
  pub user :
      (w'.user ≡ w.user)
      ⊎ ((q : Quote) × (total : ℕ) × (w'.user ≡ Option.map (add_receipt tx.key q total) w.user)
          × (owns id after.credit_plan ≡ true))

unmoved :
    (id : ℕ) (w : World) (tx : Transaction) (w' : World)
    → w.transaction ≡ some tx
    → is_clean tx ≡ true
    → w' ≡ w
    → Stepped id w tx w'
unmoved id w tx w' known clean e = record {
  after = tx;
  stored = ap (λ v. v.transaction) e ∙ known;
  key = refl;
  plan = λ p h. h;
  clean = clean;
  user = inl (ap (λ v. v.user) e);
}

-- The payment of a plan, by a transaction that has it and is not rejected.
settle_receipt-Stepped :
    (id : ℕ) (v : World) (tx : Transaction) (o : Option Receipt)
    → v.transaction ≡ some tx
    → is_clean tx ≡ true
    → let w' = (settle_receipt v tx o).1 in
      (after : Transaction) × (w'.transaction ≡ some after)
      × (after.key ≡ tx.key)
      × (after.credit_plan ≡ tx.credit_plan)
      × (is_clean after ≡ true)
      × (w'.user ≡ v.user)
settle_receipt-Stepped id v tx none known clean = (tx, known, refl, refl, clean, refl)
settle_receipt-Stepped id v tx (some r) known clean = (finished r tx, refl, refl, refl, refl, refl)

pay-Stepped :
    (id : ℕ) (w : World) (tx : Transaction) (plan : Plan)
    → w.transaction ≡ some tx
    → tx.credit_plan ≡ some plan
    → is_clean tx ≡ true
    → Stepped id w tx (pay id w tx plan).1
unfolding pay
pay-Stepped id w tx plan known planned_by clean = elim (Bool-cases (plan.user_id == id)) [
  | inr stranger ↦ rw stranger (unmoved id w tx w known clean refl)
  | inl own ↦ elim (Result-cases (vnd (whole (pos plan.quote.total_amount)) 0)) [
    | inr (x, bad) ↦ rw own (rw (bad, pay) (unmoved id w tx w known clean refl))
    | inl (total, good) ↦
        let u = Option.map (add_receipt tx.key plan.quote total) w.user in
        let v : World = record w { user = u } in
        let (after, stored, key, kept, still, users) =
          settle_receipt-Stepped id v tx (user_receipt tx.key u) known clean in
        rw own (
          rw (good, pay)
            (record {
              after = after;
              stored = stored;
              key = key;
              plan = λ p h. kept ∙ h;
              clean = still;
              user = inr (plan.quote, total, users, rw kept (rw planned_by own));
            }))
  ]
]

plan_and_pay-Stepped :
    (id : ℕ) (w : World) (tx : Transaction) (r : Result Error Quote × List Intent)
    → w.transaction ≡ some tx
    → tx.credit_plan ≡ none
    → is_clean tx ≡ true
    → Stepped id w tx (plan_and_pay id w tx r).1
plan_and_pay-Stepped id w tx (err e, intents) known new clean = record {
  after = tx;
  stored = known;
  key = refl;
  plan = λ p h. h;
  clean = clean;
  user = inl refl;
}
plan_and_pay-Stepped id w tx (ok q, intents) known new clean =
    let tx' = planned id q tx in
    let s =
      pay-Stepped id (record w { transaction = some tx'; intents = intents }) tx'
        (record { user_id = id; quote = q }) refl refl refl in
    record {
      after = s.after;
      stored = s.stored;
      key = s.key;
      plan = λ p h. absurd (ground arith);
      clean = s.clean;
      user = s.user;
    }

credit_transaction-Stepped :
    (id : ℕ) (w : World) (tx : Transaction)
    → w.transaction ≡ some tx
    → is_clean tx ≡ true
    → Stepped id w tx (credit_transaction id w tx).1
credit_transaction-Stepped id w tx known clean =
    elim (Bool-cases (is_processed tx.status && not (is_some tx.credit_plan))) [
      | inl historical ↦ rw historical (unmoved id w tx w known clean refl)
      | inr current ↦ elim (Bool-cases (is_rejected tx.status || not tx.incoming)) [
        | inl refused ↦ rw current (rw refused (unmoved id w tx w known clean refl))
        | inr open_tx ↦ elim (Result-cases (vnd tx.transfer_amount 10000)) [
          | inr (x, bad) ↦
              rw current
                (rw open_tx (rw (bad, credit_transaction) (unmoved id w tx w known clean refl)))
          | inl (amount, good) ↦ elim (Option-cases tx.credit_plan) [
            | inr (plan, e) ↦
                let same : (credit_transaction id w tx).1 ≡ (pay id w tx plan).1 = ground arith in
                subst (Stepped id w tx) (sym same) (pay-Stepped id w tx plan known e clean)
            | inl new ↦
                let r = plan_quote id amount tx w.intents in
                let same : (credit_transaction id w tx).1 ≡ (plan_and_pay id w tx r).1 =
                  ground arith in
                subst (Stepped id w tx) (sym same) (plan_and_pay-Stepped id w tx r known new clean)
          ]
        ]
      ]
    ]

pub credit-Stepped :
    (enabled : Bool) (id : ℕ) (w : World) (tx : Transaction)
    → w.transaction ≡ some tx
    → is_clean tx ≡ true
    → Stepped id w tx (credit enabled id w).1
unfolding credit
credit-Stepped false id w tx known clean = unmoved id w tx w known clean refl
credit-Stepped true id w tx known clean =
    let same : (credit true id w).1 ≡ (credit_transaction id w tx).1 = ground arith in
    subst (Stepped id w tx) (sym same) (credit_transaction-Stepped id w tx known clean)

-- Without the transaction nothing changes.
pub credit-missing :
    (enabled : Bool) (id : ℕ) (w : World) → w.transaction ≡ none → (credit enabled id w).1 ≡ w
unfolding credit
credit-missing false id w missing = refl
credit-missing true id w missing = ground arith
