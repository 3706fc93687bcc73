-- ===== src/Promotion/Payments.antt =====
-- On the payment by a receipt in `credit` of deposit-credit.service.ts.
use appchat_be.Common.{
  ℕ, ◌≡◌, refl, ap, ◌∙◌, inl, inr, true, ◌&&◌, Option, none, some, List, [], ◌∷◌, arith, ◌==◌, any,
  find, any-append, any-find, ok, whole, Bool-cases, Option-cases, Result-cases,
}
use mathlib.Core.Option
use appchat_be.Common.Int.{pos}
use appchat_be.Promotion.Quote.{Quote, vnd}
use appchat_be.Promotion.Credit.{
  Plan, Transaction, Receipt, User, Entry, World, has_key, same_type, add_receipt, upsert,
  deposit_entry, bonus_entry, write_entries, finished, pay, settle_receipt, user_receipt,
}

abbrev Present : Entry → List Entry → Type 0
Present e ledger = any (λ x. x.key == e.key && same_type x.type e.type) ledger ≡ true

Present-self : (e : Entry) → Present e (e ∷ [])
Present-self e = ground arith

upsert-Present : (e : Entry) (ledger : List Entry) → Present e (upsert e ledger)
unfolding upsert
upsert-Present e ledger = ground (
  arith,
  any-append (λ x. x.key == e.key && same_type x.type e.type) ledger (e ∷ []),
  Present-self e,
)

upsert-Present_other :
    (d e : Entry) (ledger : List Entry) → Present d ledger → Present d (upsert e ledger)
unfolding upsert
upsert-Present_other d e ledger h =
    ground (arith, any-append (λ x. x.key == d.key && same_type x.type d.type) ledger (e ∷ []))

upsert-eq : (e : Entry) (ledger : List Entry) → Present e ledger → upsert e ledger ≡ ledger
unfolding upsert
upsert-eq e ledger h = rw h

-- Writing the history's lines again changes nothing.
write_entries_idem :
    (r : Receipt) (ledger : List Entry)
    → write_entries r (write_entries r ledger) ≡ write_entries r ledger
unfolding write_entries
write_entries_idem r ledger = elim (Bool-cases (r.quote.bonus_amount == 0)) [
  | inl plain ↦ rw plain (upsert-eq d _ (upsert-Present d ledger))
  | inr bonus ↦ rw bonus (
      ap (upsert b) (upsert-eq d _ (upsert-Present_other d b _ (upsert-Present d ledger)))
      ∙ upsert-eq b _ (upsert-Present b _))
]
  where
    d : Entry
    d = deposit_entry r

    b : Entry
    b = bonus_entry r

-- After `add_receipt`, a receipt that is found is there for good: a second one is not added, nor is
-- money.
add_receipt-eq :
    (key : ℕ) (q : Quote) (total : ℕ) (u : User) {r : Receipt}
    → find (has_key key) u.receipts ≡ some r
    → add_receipt key q total u ≡ u
unfolding add_receipt
add_receipt-eq key q total u {r} h = rw (any-find (has_key key) u.receipts r h)

-- The state after a payment that succeeded: the transaction is finished by the receipt that the
-- user then holds, and the history has the receipt's lines.
pub record Paid (w : World) (tx : Transaction) (tx' : Transaction) (w' : World) : Type 0 where
  pub receipt : Receipt
  pub holder : User
  pub user : w'.user ≡ some holder
  pub found : find (has_key tx.key) holder.receipts ≡ some receipt
  pub transaction : tx' ≡ finished receipt tx
  pub stored : w'.transaction ≡ some (finished receipt tx)
  pub ledger : w'.ledger ≡ write_entries receipt w.ledger

settle_receipt-Paid :
    (w v : World) (tx : Transaction) (holder : Option User) {tx' : Transaction} {w' : World}
    → v ≡ record w { user = holder }
    → settle_receipt v tx (user_receipt tx.key holder) ≡ (ok tx', w')
    → Paid w tx tx' w'
settle_receipt-Paid w v tx none e h = absurd (ground arith)
settle_receipt-Paid w v tx (some u) e h = elim (Option-cases (find (has_key tx.key) u.receipts)) [
  | inl missing ↦ absurd (ground arith)
  | inr (r, found) ↦ record {
    receipt = r;
    holder = u;
    user = ground arith;
    found = found;
    transaction = ground arith;
    stored = ground arith;
    ledger = ground arith;
  }
]

pub pay-Paid :
    (user_id : ℕ) (w : World) (tx : Transaction) (plan : Plan) {tx' : Transaction} {w' : World}
    → pay user_id w tx plan ≡ (ok tx', w')
    → Paid w tx tx' w'
unfolding pay
pay-Paid user_id w tx plan h = elim (Bool-cases (plan.user_id == user_id)) [
  | inr stranger ↦ absurd (ground arith)
  | inl own ↦ elim (Result-cases (vnd (whole (pos plan.quote.total_amount)) 0)) [
    | inr (x, bad) ↦ absurd (ground arith)
    | inl (total, good) ↦
        settle_receipt-Paid w _ tx (Option.map (add_receipt tx.key plan.quote total) w.user) refl
          (ground arith)
  ]
]

settle_receipt_again :
    (w : World) (tx : Transaction) {tx' : Transaction} {w' : World} (p : Paid w tx tx' w')
    → (v : World) → v ≡ record w' { user = some p.holder }
    → settle_receipt v tx' (user_receipt tx'.key (some p.holder)) ≡ (ok tx', w')
settle_receipt_again w tx p v e = ground (
  arith,
  p.user,
  p.found,
  p.transaction,
  p.stored,
  p.ledger,
  write_entries_idem p.receipt w.ledger,
)

-- A payment that succeeded, made again, succeeds alike and changes nothing.
pub pay_again :
    (user_id : ℕ) (w : World) (tx : Transaction) (plan : Plan) {tx' : Transaction} {w' : World}
    → pay user_id w tx plan ≡ (ok tx', w')
    → pay user_id w' tx' plan ≡ (ok tx', w')
unfolding pay
pay_again user_id w tx plan {tx'} {w'} h =
    let p = pay-Paid user_id w tx plan h in
    elim (Bool-cases (plan.user_id == user_id)) [
      | inr stranger ↦ absurd (ground arith)
      | inl own ↦ elim (Result-cases (vnd (whole (pos plan.quote.total_amount)) 0)) [
        | inr (x, bad) ↦ absurd (ground arith)
        | inl (total, good) ↦
            let same_key : tx'.key ≡ tx.key = ap (λ t. t.key) p.transaction in
            let kept : Option.map (add_receipt tx'.key plan.quote total) w'.user ≡ some p.holder =
              ap (Option.map (add_receipt tx'.key plan.quote total)) p.user
              ∙ ap some (
                  add_receipt-eq tx'.key plan.quote total p.holder {r = p.receipt}
                    (rw same_key p.found)) in
            rw (own, pay) (rw good (rw kept (settle_receipt_again w tx p _ refl)))
      ]
    ]
