-- ===== src/Webhook/Payees.antt =====
-- Whom the calls of webhook.service.ts pay: every call keeps the safety of the stored documents.
use appchat_be.Common.{
  ℕ, ◌≡◌, refl, sym, ◌∙◌, subst, inl, inr, Bool, true, false, ◌&&◌, ◌||◌, not, Option, none, some,
  List, [], ◌∷◌, ◌++◌, arith, ltb, ◌==◌, find, any, all, update_first, is_some, Text, eq_text,
  Result, ok, err, Bool-cases, Result-cases, all-append, all-find, all-update_first, OneOf, ==_iff,
}
use appchat_be.Promotion.Quote.{Error, vnd}
use appchat_be.Promotion.Credit.{
  TxStatus, pending, unmatched, rejected, Plan, Receipt, Transaction, is_processed, is_rejected,
}
use appchat_be.Webhook.State.{
  Stored, Account, Bank, Transfer, Failure, has_key, has_id, credit_in, can_announce, announce,
  find_user,
}
use appchat_be.Webhook.Transfers.{
  new_tx, upsert_tx, is_final, in_credit, same_transfer, finish_credit, credit_stored, accept,
  for_user, checked, handle_transfer, handle_transfers, handle_pays2, min_deposit_amount,
  is_crediting, of_sepay,
}
use appchat_be.Webhook.Review.{
  approved_user, matched_user, approve_for, approve_stored, approve, can_reject, as_rejected,
  reject_stored, reject, Call, notify, notify_sepay, approving, rejecting, perform, perform_all,
}
use appchat_be.Webhook.CreditStep.{owns, is_clean}
use appchat_be.Webhook.Safety.{
  plan_of, honest_user, clean_stored, IsSafe, append-Keeps, update-plan_of, Keeps-paid,
  credit_in-IsSafe,
}

-- An update that leaves the transactions' keys and plans alone.
update-IsSafe :
    (q : Stored → Bool) (f : Stored → Stored) (b : Bank) (announcements : List ℕ)
    → ((s : Stored) → (f s).tx.key ≡ s.tx.key)
    → ((s : Stored) → (f s).tx.credit_plan ≡ s.tx.credit_plan)
    → ((s : Stored) → q s ≡ true → clean_stored s ≡ true → clean_stored (f s) ≡ true)
    → IsSafe b
    → IsSafe (record b { txs = update_first q f b.txs; announcements = announcements })
update-IsSafe q f b announcements same_key same_plan still safe = record {
  paid =
      Keeps-paid b.txs (update_first q f b.txs) b.accounts
        (λ key p e. update-plan_of q f b.txs same_key same_plan key ∙ e) safe.paid;
  clean = all-update_first q clean_stored f b.txs still safe.clean;
}

announce-IsSafe : (key : ℕ) (b : Bank) → IsSafe b → IsSafe (announce key b)
unfolding announce
announce-IsSafe key b safe = elim (Bool-cases (any (can_announce key) b.txs)) [
  | inl first ↦ rw first (
      update-IsSafe (can_announce key) (λ s. record s { announced = true }) b
        (key ∷ b.announcements) (λ s. refl) (λ s. refl) (λ s e h. h) safe)
  | inr again ↦ rw again safe
]

finish_credit-IsSafe :
    (key : ℕ) (r : Result Error Transaction) (b : Bank)
    → IsSafe b
    → IsSafe (finish_credit key (r, b)).1
finish_credit-IsSafe key (err e) b safe = safe
finish_credit-IsSafe key (ok tx) b safe = announce-IsSafe key b safe

upsert_tx-IsSafe :
    (id amount : ℕ) (t : Transfer) (status : TxStatus) (user_id : Option ℕ) (b : Bank)
    → IsSafe b
    → IsSafe (upsert_tx id amount t status user_id b)
upsert_tx-IsSafe id amount t status user_id b safe = elim (Bool-cases (any (has_id id) b.txs)) [
  | inl there ↦ rw there safe
  | inr new ↦
      let s = new_tx b.next_key id amount t status user_id in
      let clean : is_clean s.tx ≡ true = ground arith in
      rw new (record {
        paid = Keeps-paid b.txs (b.txs ++ s ∷ []) b.accounts (append-Keeps b.txs s) safe.paid;
        clean = all-append clean_stored b.txs (s ∷ []) safe.clean (ground arith);
      })
]

credit_stored-IsSafe :
    (enabled : Bool) (amount date : ℕ) (t : Transfer) (user_id : ℕ) (b : Bank) (o : Option Stored)
    → IsSafe b
    → IsSafe (credit_stored enabled amount date t user_id b o).1
credit_stored-IsSafe enabled amount date t user_id b none safe = safe
credit_stored-IsSafe enabled amount date t user_id b (some s) safe =
    elim (Bool-cases (same_transfer amount date t s)) [
      | inr different ↦ rw different safe
      | inl same ↦
          let r = credit_in enabled s.tx.key user_id b in
          rw same (
            finish_credit-IsSafe s.tx.key r.0 r.1
              (credit_in-IsSafe enabled s.tx.key user_id b safe))
    ]

accept-IsSafe :
    (enabled : Bool) (id amount date : ℕ) (t : Transfer) (user_id : ℕ) (b : Bank)
    → IsSafe b
    → IsSafe (accept enabled id amount date t user_id b).1
unfolding accept
accept-IsSafe enabled id amount date t user_id b safe =
    let b' = upsert_tx id amount t pending (some user_id) b in
    let safe' : IsSafe b' = upsert_tx-IsSafe id amount t pending (some user_id) b safe in
    let old = find (has_id id) b.txs in
    elim (Bool-cases (is_final old)) [
      | inl over ↦ rw over safe'
      | inr current ↦ elim (Bool-cases (not enabled && not (in_credit old))) [
        | inl hold ↦ rw current (rw hold safe')
        | inr go ↦ rw current (
            rw go (
              credit_stored-IsSafe enabled amount date t user_id b' (find (has_id id) b'.txs)
                safe'))
      ]
    ]

for_user-IsSafe :
    (enabled : Bool) (id amount date : ℕ) (t : Transfer) (b : Bank)
    (r : Result Error (Option Account))
    → IsSafe b
    → IsSafe (for_user enabled id amount date t b r).1
for_user-IsSafe enabled id amount date t b (err e) safe = safe
for_user-IsSafe enabled id amount date t b (ok none) safe =
    upsert_tx-IsSafe id amount t unmatched none b safe
for_user-IsSafe enabled id amount date t b (ok (some a)) safe =
    elim (Bool-cases (ltb amount min_deposit_amount)) [
      | inl small ↦ rw small (upsert_tx-IsSafe id amount t rejected (some a.user.id) b safe)
      | inr enough ↦ rw enough (accept-IsSafe enabled id amount date t a.user.id b safe)
    ]

checked-IsSafe :
    (enabled : Bool) (t : Transfer) (b : Bank) (amount : ℕ) (id date : Option ℕ)
    → IsSafe b
    → IsSafe (checked enabled t b amount id date).1
checked-IsSafe enabled t b amount none date safe = safe
checked-IsSafe enabled t b amount (some id) none safe = safe
checked-IsSafe enabled t b amount (some id) (some date) safe =
    for_user-IsSafe enabled id amount date t b (find_user t.content b) safe

handle_transfer-IsSafe :
    (enabled : Bool) (t : Transfer) (b : Bank) → IsSafe b → IsSafe (handle_transfer enabled t b).1
unfolding handle_transfer
handle_transfer-IsSafe enabled t b safe = elim (Bool-cases (eq_text t.type (b'I' ∷ b'N' ∷ []))) [
  | inr out ↦ rw out safe
  | inl incoming ↦ elim (Result-cases (vnd t.amount 0)) [
    | inr (x, bad) ↦ rw incoming (rw (bad, handle_transfer) safe)
    | inl (amount, good) ↦
        rw incoming
          (rw (good, handle_transfer) (checked-IsSafe enabled t b amount t.id t.date safe))
  ]
]

handle_transfers-IsSafe :
    (enabled : Bool) (ts : List Transfer) (b : Bank)
    → IsSafe b
    → IsSafe (handle_transfers enabled ts b).1
unfolding handle_transfers
handle_transfers-IsSafe enabled [] b safe = safe
handle_transfers-IsSafe enabled (t ∷ ts) b safe =
    handle_transfers-IsSafe enabled ts (handle_transfer enabled t b).1
      (handle_transfer-IsSafe enabled t b safe)

handle_pays2-IsSafe :
    (enabled : Bool) (ts : List Transfer) (b : Bank)
    → IsSafe b
    → IsSafe (handle_pays2 enabled ts b).1
unfolding handle_pays2
handle_pays2-IsSafe true ts b safe = handle_transfers-IsSafe true ts b safe
handle_pays2-IsSafe false ts b safe = safe

approve_for-IsSafe :
    (enabled : Bool) (key : ℕ) (b : Bank) (r : Result Failure Account)
    → IsSafe b
    → IsSafe (approve_for enabled key b r).1
approve_for-IsSafe enabled key b (err e) safe = safe
approve_for-IsSafe enabled key b (ok a) safe =
    let r = credit_in enabled key a.user.id b in
    finish_credit-IsSafe key r.0 r.1 (credit_in-IsSafe enabled key a.user.id b safe)

approve_stored-IsSafe :
    (enabled : Bool) (key : ℕ) (email : Option Text) (b : Bank) (o : Option Stored)
    → IsSafe b
    → IsSafe (approve_stored enabled key email b o).1
approve_stored-IsSafe enabled key email b none safe = safe
approve_stored-IsSafe enabled key email b (some s) safe =
    elim (Bool-cases (is_processed s.tx.status && not (is_some s.tx.credit_plan))) [
      | inl done ↦ rw done safe
      | inr open_tx ↦ rw open_tx (
          approve_for-IsSafe enabled key b
            (approved_user (matched_user s.user_id b.accounts) email b.accounts) safe)
    ]

approve-IsSafe :
    (enabled : Bool) (key : ℕ) (email : Option Text) (b : Bank)
    → IsSafe b
    → IsSafe (approve enabled key email b).1
unfolding approve
approve-IsSafe true key email b safe =
    approve_stored-IsSafe true key email b (find (has_key key) b.txs) safe
approve-IsSafe false key email b safe = safe

rejecting-clean :
    (key : ℕ) (s : Stored) → can_reject key s ≡ true → clean_stored (as_rejected s) ≡ true
rejecting-clean key s h = ground arith

reject_stored-IsSafe :
    (key : ℕ) (b : Bank) (o : Option Stored) → IsSafe b → IsSafe (reject_stored key b o).1
reject_stored-IsSafe key b none safe = safe
reject_stored-IsSafe key b (some s) safe =
    let all_safe =
      update-IsSafe (can_reject key) as_rejected b b.announcements (λ x. refl) (λ x. refl)
        (λ x e h. rejecting-clean key x e) safe in
    elim (Bool-cases (is_processed s.tx.status || is_crediting s.tx.status)) [
      | inl late ↦ rw late safe
      | inr early ↦ elim (Bool-cases (is_rejected s.tx.status)) [
        | inl again ↦ rw early (rw again safe)
        | inr live ↦ elim (Bool-cases (any (can_reject key) b.txs)) [
          | inl free ↦ rw early (rw live (rw free all_safe))
          | inr taken ↦ rw early (rw live (rw taken safe))
        ]
      ]
    ]

pub perform-IsSafe : (c : Call) (b : Bank) → IsSafe b → IsSafe (perform c b)
unfolding perform reject
perform-IsSafe (notify enabled ts) b safe = handle_pays2-IsSafe enabled ts b safe
perform-IsSafe (notify_sepay enabled body) b safe =
    handle_pays2-IsSafe enabled (of_sepay body ∷ []) b safe
perform-IsSafe (approving enabled key email) b safe = approve-IsSafe enabled key email b safe
perform-IsSafe (rejecting key) b safe = reject_stored-IsSafe key b (find (has_key key) b.txs) safe

perform_all-IsSafe : (cs : List Call) (b : Bank) → IsSafe b → IsSafe (perform_all cs b)
perform_all-IsSafe [] b safe = safe
perform_all-IsSafe (c ∷ cs) b safe = perform_all-IsSafe cs (perform c b) (perform-IsSafe c b safe)

-- The user holds a receipt of the transaction.
abbrev pub is_paid : ℕ → Account → Bool
is_paid key a = any (λ r. r.key == key) a.user.receipts

paid-owns :
    (key id : ℕ) (txs : List Stored) (rs : List Receipt)
    → all (λ r. owns id (plan_of r.key txs)) rs ≡ true
    → any (λ r. r.key == key) rs ≡ true
    → owns id (plan_of key txs) ≡ true
paid-owns key id txs [] h e = cc
paid-owns key id txs (r ∷ rs) h e = elim (Bool-cases (r.key == key)) [
  | inl here ↦
      subst (λ k. owns id (plan_of k txs) ≡ true) ((==_iff r.key key).0 here) (ground arith)
  | inr there ↦ paid-owns key id txs rs (ground arith) (ground arith)
]

honest-OneOf :
    (txs : List Stored) (a : Account) (accounts : List Account)
    → all (honest_user txs) accounts ≡ true
    → OneOf a accounts
    → honest_user txs a ≡ true
honest-OneOf txs a [] h m = absurd m
honest-OneOf txs a (c ∷ accounts) h (inl e) =
    subst (λ x. honest_user txs x ≡ true) (sym e) (ground arith)
honest-OneOf txs a (c ∷ accounts) h (inr m) = honest-OneOf txs a accounts (ground arith) m

one_owner : (p : Option Plan) (i j : ℕ) → owns i p ≡ true → owns j p ≡ true → i ≡ j
one_owner none i j h k = cc
one_owner (some p) i j h k = ground arith

pub record PaysRight (b : Bank) : Type 0 where
  pub one_payee :
      (key : ℕ) (a c : Account)
      → OneOf a b.accounts
      → OneOf c b.accounts
      → is_paid key a ≡ true
      → is_paid key c ≡ true
      → a.user.id ≡ c.user.id
  pub none_rejected :
      (key : ℕ) (a : Account) (s : Stored)
      → OneOf a b.accounts
      → find (has_key key) b.txs ≡ some s
      → is_rejected s.tx.status ≡ true
      → is_paid key a ≡ false

IsSafe-PaysRight : (b : Bank) → IsSafe b → PaysRight b
IsSafe-PaysRight b safe =
    let owned : (key : ℕ) (a : Account)
        → OneOf a b.accounts
        → is_paid key a ≡ true
        → owns a.user.id (plan_of key b.txs) ≡ true =
      λ key a m e.
        paid-owns key a.user.id b.txs a.user.receipts (honest-OneOf b.txs a b.accounts safe.paid m)
          e in
    record {
      one_payee = λ key a c m n e f.
          one_owner (plan_of key b.txs) a.user.id c.user.id (owned key a m e) (owned key c n f);
      none_rejected = λ key a s m e r. elim (Bool-cases (is_paid key a)) [
        | inr unpaid ↦ unpaid
        | inl paid ↦
            let clean : clean_stored s ≡ true =
              all-find (has_key key) clean_stored b.txs s e safe.clean in
            let unplanned : is_some s.tx.credit_plan ≡ false = ground arith in
            let own = owned key a m paid in absurd (ground arith)
      ];
    }

-- After any notifications, of either bank and with transfers of any kind, approvals and rejections, no
-- transfer has been paid to two users, and a transfer that stands as rejected has been paid to none;
-- from documents of which each receipt is for a transaction planned for its user, and of which none
-- is both rejected and planned.
pub perform_all-PaysRight : (cs : List Call) (b : Bank) → IsSafe b → PaysRight (perform_all cs b)
perform_all-PaysRight cs b safe = IsSafe-PaysRight (perform_all cs b) (perform_all-IsSafe cs b safe)
