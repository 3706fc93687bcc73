-- ===== src/Vouchers/Paid.antt =====
-- The order that `recover` of src/vouchers/vouchers.service.ts inserts against the receipts of the
-- wallet.
use appchat_be.Common.{
  ℕ, ◌≡◌, refl, subst, inl, inr, Bool, true, false, ◌||◌, Option, none, some, arith, leb,
  Bool-cases, any, all, length,
}
use mathlib.Core.Option
use appchat_be.Vouchers.Authority.{Voucher, reserve, tombstone}
use appchat_be.Vouchers.Purchase.{
  refused, of_intent, Receipt, Wallet, IntentState, held, debited, ordered, turned_down, World,
  debit_wallet, refuse_debit, in_state, token_at, buried, reserve_stage, found_receipt,
  finish_debit, without_debit, after_refusal, after_debit, debit_from, debit_stage, insert_stage,
  is_state, recover, receipt_cap,
}
use appchat_be.Vouchers.PurchaseLaws.{recover-keeps}
use appchat_be.Vouchers.Receipts.{
  is_refused, ReceiptType-cases, honest, pays, receipts_in, found-pays, Extends,
  debit_wallet-Extends, refuse_debit-Extends,
}

abbrev claims_payment : World → Bool
claims_payment w =
    is_state w.intent.state debited || is_state w.intent.state ordered || w.order_exists

-- The purchase's receipts are for its price, an order that exists or is on its way is paid, and an
-- intent is in its last state only if its order exists.
pub record IsPaid (w : World) : Type 0 where
  pub honest_receipts :
      all (honest w.intent.token w.intent.total_price) (receipts_in w.wallet) ≡ true
  pub paid :
      claims_payment w ≡ true
      → any (pays w.intent.token w.intent.total_price) (receipts_in w.wallet) ≡ true
  pub inserted : is_state w.intent.state ordered ≡ true → w.order_exists ≡ true

-- Replacing the wallet by one that extends it.
IsPaid-extend :
    (w : World) (u v : Wallet)
    → w.wallet ≡ some u
    → Extends w.intent.token w.intent.total_price u v
    → IsPaid w
    → IsPaid (record w { wallet = some v })
IsPaid-extend w u v known e p = record {
  honest_receipts = e.0 (
      subst (λ o. all (honest w.intent.token w.intent.total_price) (receipts_in o) ≡ true) known
        p.honest_receipts);
  paid = λ c. e.1 (
      subst (λ o. any (pays w.intent.token w.intent.total_price) (receipts_in o) ≡ true) known
        (p.paid c));
  inserted = p.inserted;
}

finished :
    (w : World) (u : Wallet) (r : Receipt)
    → w.wallet ≡ some u
    → IsPaid w
    → is_refused r.type ≡ false
    → any (pays w.intent.token w.intent.total_price) u.receipts ≡ true
    → IsPaid (finish_debit w r).1
unfolding finish_debit
finished w u r known p money proof =
    let paid_now : any (pays w.intent.token w.intent.total_price) (receipts_in w.wallet) ≡ true =
      rw known proof in
    elim (ReceiptType-cases r.type) [
      | inl e ↦ rw e (record {
        honest_receipts = p.honest_receipts;
        paid = λ c. paid_now;
        inserted = λ c. absurd (ground arith);
      })
      | inr (inl e) ↦ absurd (ground arith)
      | inr (inr e) ↦ rw e (record {
        honest_receipts = p.honest_receipts;
        paid = λ c. paid_now;
        inserted = λ c. absurd (ground arith);
      })
    ]

finish_debit-IsPaid :
    (w : World) (u : Wallet) (r : Receipt)
    → w.wallet ≡ some u
    → found_receipt (of_intent w.intent.token) u ≡ some r
    → IsPaid w
    → IsPaid (finish_debit w r).1
unfolding finish_debit
finish_debit-IsPaid w u r known there p = elim (Bool-cases (is_refused r.type)) [
  | inl no_money ↦
      let e : r.type ≡ refused = ground arith in
      rw e (record {
        honest_receipts = p.honest_receipts;
        paid = λ c. p.paid (ground arith);
        inserted = λ c. absurd (ground arith);
      })
  | inr money ↦
      let honest_ones : all (honest w.intent.token w.intent.total_price) u.receipts ≡ true =
        subst (λ o. all (honest w.intent.token w.intent.total_price) (receipts_in o) ≡ true) known
          p.honest_receipts in
      let proof =
        found-pays w.intent.token w.intent.total_price u.receipts r honest_ones there money in
      finished w u r known p money proof
]

after_refusal-IsPaid :
    (w : World) (u : Wallet) (o : Option Receipt)
    → w.wallet ≡ some u
    → found_receipt (of_intent w.intent.token) u ≡ o
    → IsPaid w
    → IsPaid (after_refusal w o).1
after_refusal-IsPaid w u none known there p = p
after_refusal-IsPaid w u (some r) known there p = finish_debit-IsPaid w u r known there p

without_debit-IsPaid :
    (small : Wallet → Bool) (w : World) (u : Wallet)
    → IsPaid (record w { wallet = some u })
    → IsPaid (without_debit small w u).1
unfolding without_debit
without_debit-IsPaid small w u p = elim (Bool-cases (leb receipt_cap (length u.receipts))) [
  | inl full ↦ rw full p
  | inr space ↦
      let u' : Wallet = refuse_debit small (of_intent w.intent.token) w.intent.total_price u in
      rw space (
        after_refusal-IsPaid (record w { wallet = some u' }) u' _ refl refl
          (IsPaid-extend (record w { wallet = some u }) u u' refl
            (refuse_debit-Extends small w.intent.token w.intent.total_price u) p))
]

after_debit-IsPaid :
    (small : Wallet → Bool) (w : World) (u : Wallet) (o : Option Receipt)
    → found_receipt (of_intent w.intent.token) u ≡ o
    → IsPaid (record w { wallet = some u })
    → IsPaid (after_debit small w u o).1
after_debit-IsPaid small w u none there p = without_debit-IsPaid small w u p
after_debit-IsPaid small w u (some r) there p =
    finish_debit-IsPaid (record w { wallet = some u }) u r refl there p

debit_from-IsPaid :
    (small : Wallet → Bool) (w : World) (o : Option Wallet)
    → w.wallet ≡ o
    → IsPaid w
    → IsPaid (debit_from small w o).1
debit_from-IsPaid small w none e p = p
debit_from-IsPaid small w (some u) e p =
    after_debit-IsPaid small w
      (debit_wallet small (of_intent w.intent.token) w.intent.total_price u) _ refl
      (IsPaid-extend w u _ e (debit_wallet-Extends small w.intent.token w.intent.total_price u) p)

debit_stage-IsPaid : (small : Wallet → Bool) (w : World) → IsPaid w → IsPaid (debit_stage small w).1
unfolding debit_stage
debit_stage-IsPaid small w p = debit_from-IsPaid small w w.wallet refl p

-- Another voucher and a state that claims no payment.
IsPaid-unclaimed :
    (w : World) (v : Option Voucher) (s : IntentState)
    → (is_state s debited || is_state s ordered) ≡ false
    → IsPaid w
    → IsPaid (record w { voucher = v; intent = in_state s w.intent })
IsPaid-unclaimed w v s e p = record {
  honest_receipts = p.honest_receipts;
  paid = λ c. p.paid (ground arith);
  inserted = λ c. absurd (ground arith);
}

reserve_stage-IsPaid :
    (small : Voucher → Bool) (now : ℕ) (w : World) → IsPaid w → IsPaid (reserve_stage small now w).1
unfolding reserve_stage
reserve_stage-IsPaid small now w p =
    let i = w.intent in
    let v : World = record w {
      voucher =
          Option.map
            (λ v.
              tombstone small i.token i.user_id (reserve small i.token i.user_id i.revision now v))
            w.voucher;
    } in
    elim (Bool-cases (token_at v)) [
      | inl there ↦ rw there (IsPaid-unclaimed w v.voucher held refl p)
      | inr absent ↦ elim (Bool-cases (buried v)) [
        | inl dead ↦ rw absent (rw dead (IsPaid-unclaimed w v.voucher turned_down refl p))
        | inr unknown ↦ rw absent (
            rw unknown (record {
              honest_receipts = p.honest_receipts;
              paid = p.paid;
              inserted = p.inserted;
            }))
      ]
    ]

insert_stage-IsPaid :
    (w : World) → is_state w.intent.state debited ≡ true → IsPaid w → IsPaid (insert_stage w)
unfolding insert_stage
insert_stage-IsPaid w e p = record {
  honest_receipts = p.honest_receipts;
  paid = λ c. p.paid (ground arith);
  inserted = λ c. refl;
}

-- On every branch of a recovery, from every stage that an interrupted call may have left: if the
-- order exists or is on its way, the wallet has a receipt that exactly its price was taken for this
-- purchase; and the intent counts as ordered only if the order exists. Both are kept, with the
-- purchase's receipts being for its price, from a state that has them.
pub recover-IsPaid :
    (small : Voucher → Bool) (small_wallet : Wallet → Bool) (now : ℕ) (w : World)
    → IsPaid w
    → IsPaid (recover small small_wallet now w).1
recover-IsPaid small small_wallet now w p =
    recover-keeps IsPaid small small_wallet now (λ v e h. reserve_stage-IsPaid small now v h)
      (λ v e h. debit_stage-IsPaid small_wallet v h) (λ v e h. insert_stage-IsPaid v e h) w p
