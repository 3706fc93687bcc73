-- ===== src/Webhook/Safety.antt =====
-- Whom the transfers of webhook.service.ts are paid to, over any sequence of calls.
use appchat_be.Common.{
  ℕ, ◌-◌, ◌≡◌, refl, sym, ap, ◌∙◌, subst, inl, inr, Bool, true, Option, none, some, List, [], ◌∷◌,
  ◌++◌, arith, leb, ◌==◌, find, any, all, update_first, Value, whole, other, Bool-cases,
  Option-cases, all_mono, all-append, all-find, find-passes, all-update_found, find-update_found,
  max_safe, ==_iff,
}
use mathlib.Core.Option
use mathlib.Core.Option.{some-injective}
use appchat_be.Common.Int.{pos, negsuc}
use appchat_be.Promotion.Quote.{Quote}
use appchat_be.Promotion.Credit.{
  Plan, Transaction, Receipt, User, receipt_for, added, add_receipt, credit,
}
use appchat_be.Webhook.State.{
  Stored, Account, Bank, has_key, has_user, with_tx, put_tx, put_user, focus, credit_in,
}
use appchat_be.Webhook.CreditStep.{owns, is_clean, credit-Stepped, credit-missing}

-- The plan of the transaction with this key.
abbrev pub plan_of : ℕ → List Stored → Option Plan
plan_of key txs = elim (find (has_key key) txs) [ none ↦ none | some s ↦ s.tx.credit_plan ]

-- Each receipt of the user is for a transaction whose plan is for the user.
abbrev pub honest_user : List Stored → Account → Bool
honest_user txs a = all (λ r. owns a.user.id (plan_of r.key txs)) a.user.receipts

abbrev pub clean_stored : Stored → Bool
clean_stored s = is_clean s.tx

pub record IsSafe (b : Bank) : Type 0 where
  pub paid : all (honest_user b.txs) b.accounts ≡ true
  pub clean : all clean_stored b.txs ≡ true

-- Every plan stays.
abbrev pub Keeps : List Stored → List Stored → Type 0
Keeps txs txs' = (key : ℕ) (p : Plan) → plan_of key txs ≡ some p → plan_of key txs' ≡ some p

Keeps-honest :
    (txs txs' : List Stored) (a : Account)
    → Keeps txs txs'
    → honest_user txs a ≡ true
    → honest_user txs' a ≡ true
Keeps-honest txs txs' a keep h =
    all_mono (λ r. owns a.user.id (plan_of r.key txs)) (λ r. owns a.user.id (plan_of r.key txs'))
      a.user.receipts
      (λ r own. elim (Option-cases (plan_of r.key txs)) [
        | inl unplanned ↦ absurd (ground arith)
        | inr (p, e) ↦ rw (keep r.key p e) (ground arith)
      ])
      h

pub Keeps-paid :
    (txs txs' : List Stored) (accounts : List Account)
    → Keeps txs txs'
    → all (honest_user txs) accounts ≡ true
    → all (honest_user txs') accounts ≡ true
Keeps-paid txs txs' accounts keep h =
    all_mono (honest_user txs) (honest_user txs') accounts
      (λ a own. Keeps-honest txs txs' a keep own) h

pub append-Keeps : (txs : List Stored) (s : Stored) → Keeps txs (txs ++ s ∷ [])
append-Keeps [] s key p e = cc
append-Keeps (t ∷ txs) s key p e = ground (arith, append-Keeps txs s key p)

-- An update that leaves the transactions' keys and plans alone.
pub update-plan_of :
    (q : Stored → Bool) (f : Stored → Stored) (txs : List Stored)
    → ((s : Stored) → (f s).tx.key ≡ s.tx.key)
    → ((s : Stored) → (f s).tx.credit_plan ≡ s.tx.credit_plan)
    → (key : ℕ) → plan_of key (update_first q f txs) ≡ plan_of key txs
update-plan_of q f [] same_key same_plan key = refl
update-plan_of q f (t ∷ txs) same_key same_plan key = elim (Bool-cases (q t)) [
  | inl hit ↦ ground (arith, same_key t, same_plan t)
  | inr miss ↦ ground (arith, update-plan_of q f txs same_key same_plan key)
]

-- Storing a transaction under its key.
put_tx-Keeps :
    (key : ℕ) (tx : Transaction) (txs : List Stored)
    → tx.key ≡ key
    → ((s : Stored) (p : Plan)
        → find (has_key key) txs ≡ some s
        → s.tx.credit_plan ≡ some p
        → tx.credit_plan ≡ some p)
    → Keeps txs (put_tx key (some tx) txs)
put_tx-Keeps key tx [] same keep k p e = e
put_tx-Keeps key tx (t ∷ txs) same keep k p e = elim (Bool-cases (has_key key t)) [
  | inl hit ↦ elim (Bool-cases (has_key k t)) [
    | inl asked ↦ ground (arith, keep t p)
    | inr elsewhere ↦ ground arith
  ]
  | inr miss ↦ ground (arith, put_tx-Keeps key tx txs same (λ s q f. keep s q (ground arith)) k p)
]

-- A receipt for a transaction whose plan is for the user.
added-honest :
    (key total : ℕ) (q : Quote) (txs : List Stored) (a : Account) (money : Value)
    → owns a.user.id (plan_of key txs) ≡ true
    → honest_user txs a ≡ true
    → honest_user txs (record a { user = added key q total a.user money }) ≡ true
added-honest key total q txs a other own h = h
added-honest key total q txs a (whole (negsuc n)) own h = h
added-honest key total q txs a (whole (pos m)) own h =
    elim (Bool-cases (leb m (max_safe - total))) [
      | inr full ↦ rw full h
      | inl space ↦ rw space (
          all-append (λ r. owns a.user.id (plan_of r.key txs)) a.user.receipts
            (receipt_for key q m total ∷ []) h (ground arith))
    ]

add_receipt-honest :
    (key total : ℕ) (q : Quote) (txs : List Stored) (a : Account)
    → owns a.user.id (plan_of key txs) ≡ true
    → honest_user txs a ≡ true
    → honest_user txs (record a { user = add_receipt key q total a.user }) ≡ true
unfolding add_receipt
add_receipt-honest key total q txs a own h =
    elim (Bool-cases (any (λ (r : Receipt). r.key == key) a.user.receipts)) [
      | inl there ↦ rw there h
      | inr fresh ↦ rw fresh (added-honest key total q txs a a.user.money own h)
    ]

-- The users after `credit`.
put_user-paid :
    (txs : List Stored) (id : ℕ) (o : Option User) (accounts : List Account)
    → ((a : Account) (u : User)
        → find (has_user id) accounts ≡ some a
        → o ≡ some u
        → honest_user txs (record a { user = u }) ≡ true)
    → all (honest_user txs) accounts ≡ true
    → all (honest_user txs) (put_user id o accounts) ≡ true
put_user-paid txs id none accounts new h = h
put_user-paid txs id (some u) accounts new h =
    all-update_found (has_user id) (λ a. record a { user = u }) (honest_user txs) accounts
      (λ a e. new a u e refl) h

put_tx-clean :
    (key : ℕ) (tx : Transaction) (txs : List Stored)
    → is_clean tx ≡ true
    → all clean_stored txs ≡ true
    → all clean_stored (put_tx key (some tx) txs) ≡ true
put_tx-clean key tx txs clean h =
    all-update_found (has_key key) (with_tx tx) clean_stored txs (λ s e. clean) h

plan_of-put_tx :
    (key : ℕ) (tx : Transaction) (txs : List Stored) (s : Stored)
    → find (has_key key) txs ≡ some s
    → tx.key ≡ key
    → plan_of key (put_tx key (some tx) txs) ≡ tx.credit_plan
plan_of-put_tx key tx txs s e same =
    rw (find-update_found (has_key key) (with_tx tx) txs s e ((==_iff tx.key key).1 same), plan_of)
      refl

-- One call of `credit` on a stored transaction.
module _ (enabled : Bool) (key id : ℕ) (b : Bank) (safe : IsSafe b) where
  credit_missing-IsSafe : find (has_key key) b.txs ≡ none → IsSafe (credit_in enabled key id b).1
  unfolding credit_in
  credit_missing-IsSafe missing =
      let same = credit-missing enabled id (focus key id b) (rw missing refl) in
      rw same (record {
        paid = rw missing (
            put_user-paid b.txs id _ b.accounts
              (λ a u e f.
                ground (arith, all-find (has_user id) (honest_user b.txs) b.accounts a e safe.paid))
              safe.paid);
        clean = rw missing safe.clean;
      })

  credit_found-IsSafe :
      (s : Stored) → find (has_key key) b.txs ≡ some s → IsSafe (credit_in enabled key id b).1
  unfolding credit_in
  credit_found-IsSafe s found =
      let w = focus key id b in
      let known : w.transaction ≡ some s.tx = rw found refl in
      let w' = (credit enabled id w).1 in
      let step =
        credit-Stepped enabled id w s.tx known
          (all-find (has_key key) clean_stored b.txs s found safe.clean) in
      let same : step.after.key ≡ key =
        step.key ∙ (==_iff s.tx.key key).0 (find-passes (has_key key) b.txs s found) in
      let txs = put_tx key (some step.after) b.txs in
      let keeps : Keeps b.txs txs = put_tx-Keeps key step.after b.txs same (λ t p e f.
        step.plan p (ap (λ x. x.tx.credit_plan) (some-injective _ _ (sym found ∙ e)) ∙ f)) in
      let paid = Keeps-paid b.txs txs b.accounts keeps safe.paid in
      let mine : (a : Account) → find (has_user id) b.accounts ≡ some a → honest_user txs a ≡ true =
        λ a e. all-find (has_user id) (honest_user txs) b.accounts a e paid in
      let there : s.tx.key ≡ key =
        (==_iff s.tx.key key).0 (find-passes (has_key key) b.txs s found) in
      let planned : plan_of s.tx.key txs ≡ step.after.credit_plan =
        ap (λ k. plan_of k txs) there ∙ plan_of-put_tx key step.after b.txs s found same in
      let now : (a : Account) → find (has_user id) b.accounts ≡ some a → w.user ≡ some a.user =
        λ a e. ap (Option.map (λ x. x.user)) e in
      rw step.stored (record {
        paid =
            put_user-paid txs id w'.user b.accounts
              (λ a u e f. elim step.user [
                | inl alone ↦
                    subst (λ v. honest_user txs (record a { user = v }) ≡ true)
                      (some-injective _ _ (sym (now a e) ∙ sym alone ∙ f)) (mine a e)
                | inr (q, total, grown, own) ↦
                    let his : a.user.id ≡ id =
                      (==_iff a.user.id id).0 (find-passes (has_user id) b.accounts a e) in
                    let moved : w'.user ≡ some (add_receipt s.tx.key q total a.user) =
                      grown ∙ ap (Option.map (add_receipt s.tx.key q total)) (now a e) in
                    subst (λ v. honest_user txs (record a { user = v }) ≡ true)
                      (some-injective _ _ (sym moved ∙ f))
                      (add_receipt-honest s.tx.key total q txs a
                        (ap (λ o. owns a.user.id o) planned
                          ∙ ap (λ i. owns i step.after.credit_plan) his
                          ∙ own)
                        (mine a e))
              ])
              paid;
        clean = put_tx-clean key step.after b.txs step.clean safe.clean;
      })

  pub credit_in-IsSafe : IsSafe (credit_in enabled key id b).1
  credit_in-IsSafe = elim (Option-cases (find (has_key key) b.txs)) [
    | inl missing ↦ credit_missing-IsSafe missing
    | inr (s, found) ↦ credit_found-IsSafe s found
  ]
