-- ===== src/Affiliate/Requests.antt =====
-- The requests for money of src/affiliate/affiliate.service.ts, and their rejection, against the
-- books.
use appchat_be.Common.{
  ℕ, ◌+◌, ◌≤◌, ◌≡◌, refl, sym, ap, ◌∙◌, ◌≢◌, inl, inr, Bool, true, ◌&&◌, Option, none, some, List,
  [], ◌∷◌, arith, ◌==◌, if◌then◌else◌, find, any, filter, update_all, contains, All, Bool-cases,
  Option-cases, Result, ok, err, is_empty,
}
use appchat_be.Affiliate.State.{
  credited, requested, Commission, User, Bank, Error, Withdrawal, State, has_user, of_referrer,
  short_balance, has_bank,
}
use appchat_be.Affiliate.Withdrawals.{
  request_withdraw, request_withdraw_all, reject_withdraw, can_pay, ask, is_mine,
  request_commission, ask_all, request_everything, with_bank, set_commissions, has_id, refusal,
}
use appchat_be.Affiliate.Books.{
  weight, credited_sum, IsBooked, Booked, sum-update_first, find-passes, pay_in-Booked,
  pay_out-Booked, WithdrawalStatus-cases,
}

-- One commission counts no more than all together.
weight-le-sum :
    (user : ℕ) (p : Commission → Bool) (cs : List Commission) {c : Commission}
    → find p cs ≡ some c
    → weight user c ≤ credited_sum user cs
weight-le-sum user p [] h = cc
weight-le-sum user p (d ∷ cs) {c} h = elim (Bool-cases (p d)) [
  | inl hit ↦ let e : d ≡ c = ground arith in omega (arith, ap (weight user) e)
  | inr miss ↦ omega (arith, weight-le-sum user p cs {c = c} (ground arith))
]

-- In right books a user who is there can pay whatever the credited commissions come to.
can_pay-Booked :
    (user amount : ℕ) (cs : List Commission) (users : List User) {u : User}
    → All (IsBooked cs) users
    → find (has_user user) users ≡ some u
    → amount ≤ credited_sum user cs
    → any (can_pay user amount) users ≡ true
can_pay-Booked user amount cs [] h e le = cc
can_pay-Booked user amount cs (v ∷ us) {u} h e le = elim (Bool-cases (has_user user v)) [
  | inl hit ↦
      let same : credited_sum v.id cs ≡ credited_sum user cs =
        ap (λ i. credited_sum i cs) (ground arith) in
      ground (arith, h.0, same)
  | inr miss ↦ ground (arith, can_pay-Booked user amount cs us {u = u} h.1 (ground arith) le)
]

balance-find :
    (user : ℕ) (cs : List Commission) (users : List User) {u : User}
    → All (IsBooked cs) users
    → find (has_user user) users ≡ some u
    → u.balance ≡ credited_sum user cs
balance-find user cs [] h e = cc
balance-find user cs (v ∷ us) {u} h e = elim (Bool-cases (has_user user v)) [
  | inl hit ↦
      let same : v ≡ u = ground arith in
      ap (λ x. x.balance) (sym same) ∙ h.0 ∙ ap (λ i. credited_sum i cs) (ground arith)
  | inr miss ↦ balance-find user cs us {u = u} h.1 (ground arith)
]

request_commission-Booked :
    (fresh user id : ℕ) (u v : User) (c : Commission) (s : State)
    → Booked s
    → find (has_user user) s.users ≡ some v
    → find (is_mine user id credited) s.commissions ≡ some c
    → ((request_commission fresh user id u c s).0 ≡ ok c.amount)
      × Booked (request_commission fresh user id u c s).1
unfolding weight
request_commission-Booked fresh user id u v c s h known found =
    let mine = find-passes (is_mine user id credited) s.commissions found in
    let covered : any (can_pay user c.amount) s.users ≡ true =
      can_pay-Booked user c.amount s.commissions s.users h known
        (ground (arith, mine, weight-le-sum user (is_mine user id credited) s.commissions found)) in
    rw covered (
      refl,
      pay_out-Booked user c.amount s.commissions _ s.users
          (λ w. ground (
            arith,
            mine,
            sum-update_first w (is_mine user id credited) (ask u.bank) s.commissions found,
          ))
          h,
    )

refusal-ne :
    (o : Option Commission) → ◌≢◌ {A = Result Error ℕ} (err (refusal o)) (err short_balance)
refusal-ne none e = cc
refusal-ne (some c) e = ground arith

-- A request for one commission keeps every balance equal to the sum of the user's credited
-- commissions, if it was, and is never refused for want of balance.
pub request_withdraw-Booked :
    (fresh user id : ℕ) (s : State)
    → Booked s
    → Booked (request_withdraw fresh user id s).1
      × ((request_withdraw fresh user id s).0 ≢ err short_balance)
unfolding request_withdraw
request_withdraw-Booked fresh user id s h = elim (Option-cases (find (has_user user) s.users)) [
  | inl nobody ↦ rw (nobody, request_withdraw) (h, λ e. cc)
  | inr (u, known) ↦ elim (Bool-cases (has_bank u)) [
    | inr no_account ↦ rw (known, request_withdraw) (rw no_account (h, λ e. cc))
    | inl account ↦ elim (Option-cases (find (is_mine user id credited) s.commissions)) [
      | inl missing ↦
          rw (known, request_withdraw)
            (rw account (
              rw missing
                (h, refusal-ne (find (λ c. c.id == id && c.referrer == user) s.commissions))))
      | inr (c, found) ↦
          let r = request_commission-Booked fresh user id u u c s h known found in
          rw (known, request_withdraw) (rw account (rw found (r.1, rw r.0 (λ e. cc))))
    ]
  ]
]

with_bank-Booked :
    (user : ℕ) (bank : Option Bank) (cs : List Commission) (users : List User)
    → All (IsBooked cs) users
    → All (IsBooked cs) (with_bank user bank users)
with_bank-Booked user none cs users h = h
with_bank-Booked user (some b) cs users h = elim (Bool-cases (is_empty b.account)) [
  | inl empty ↦ rw empty h
  | inr given ↦ rw given (saved users h)
]
  where
    saved :
        (us : List User)
        → All (IsBooked cs) us
        → All (IsBooked cs) (update_all (has_user user) (λ u. record u { bank = b }) us)
    saved [] k = tt
    saved (u ∷ us) k = (ground arith, saved us k.1)

-- Asking for all credited commissions of a user takes them out of that user's sum, and of no other.
sum-ask_all :
    (user v : ℕ) (bank : Bank) (cs : List Commission)
    → credited_sum v (update_all (of_referrer user credited) (ask bank) cs)
        + (if user == v then credited_sum user cs else 0)
      ≡ credited_sum v cs
unfolding weight
sum-ask_all user v bank [] = ground arith
sum-ask_all user v bank (c ∷ cs) = ground (arith, sum-ask_all user v bank cs)

ask_all-Booked :
    (fresh user : ℕ) (u : User) (cs : List Commission) (s : State)
    → Booked s
    → find (has_user user) s.users ≡ some u
    → Booked (ask_all fresh user u cs s).1 × ((ask_all fresh user u cs s).0 ≢ err short_balance)
ask_all-Booked fresh user u [] s h known = (h, λ e. cc)
ask_all-Booked fresh user u (c ∷ cs) s h known =
    let full = balance-find user s.commissions s.users h known in
    let covered : any (can_pay user u.balance) s.users ≡ true =
      can_pay-Booked user u.balance s.commissions s.users h known (omega (arith, full)) in
    rw covered (
      pay_out-Booked user u.balance s.commissions _ s.users
          (λ v.
            ap
              (λ b.
                credited_sum v (update_all (of_referrer user credited) (ask u.bank) s.commissions)
                + (if user == v then b else 0))
              full
            ∙ sum-ask_all user v u.bank s.commissions)
          h,
      λ e. cc,
    )

request_everything-Booked :
    (fresh user : ℕ) (s : State) (o : Option User)
    → Booked s
    → find (has_user user) s.users ≡ o
    → Booked (request_everything fresh user o s).1
      × ((request_everything fresh user o s).0 ≢ err short_balance)
request_everything-Booked fresh user s none h known = (h, λ e. cc)
request_everything-Booked fresh user s (some u) h known = elim (Bool-cases (has_bank u)) [
  | inr no_account ↦ rw no_account (h, λ e. cc)
  | inl account ↦ elim (Bool-cases (u.balance == 0)) [
    | inl empty ↦ rw account (rw empty (h, λ e. cc))
    | inr some_money ↦ elim (Bool-cases (any (of_referrer user requested) s.commissions)) [
      | inl waiting ↦ rw account (rw some_money (rw waiting (h, λ e. cc)))
      | inr free ↦ rw account (
          rw some_money (
            rw free (
              ask_all-Booked fresh user u (filter (of_referrer user credited) s.commissions) s h
                known)))
    ]
  ]
]

-- A request for everything keeps every balance equal to the sum of the user's credited commissions,
-- if it was, also when it saves a bank account and is then
-- refused, and is never refused for want of balance.
pub request_withdraw_all-Booked :
    (fresh user : ℕ) (bank : Option Bank) (s : State)
    → Booked s
    → Booked (request_withdraw_all fresh user bank s).1
      × ((request_withdraw_all fresh user bank s).0 ≢ err short_balance)
unfolding request_withdraw_all
request_withdraw_all-Booked fresh user bank s h =
    request_everything-Booked fresh user (record s { users = with_bank user bank s.users })
      (find (has_user user) (with_bank user bank s.users))
      (with_bank-Booked user bank s.commissions s.users h) refl

-- What the commissions of a list of ids, as far as they are asked for, come to for a user.
abbrev pub claimed : ℕ → List ℕ → List Commission → ℕ
claimed v ids [] = 0
claimed v ids (c ∷ cs) =
    (if contains c.id ids && of_referrer v requested c then c.amount else 0) + claimed v ids cs

sum-give_back :
    (v : ℕ) (ids : List ℕ) (cs : List Commission)
    → credited_sum v (set_commissions ids credited cs) ≡ credited_sum v cs + claimed v ids cs
unfolding weight
sum-give_back v ids [] = refl
sum-give_back v ids (c ∷ cs) = ground (arith, sum-give_back v ids cs)

-- The withdrawal's total is what its commissions come to for its user, and they are nobody else's.
abbrev pub IsCovered : List Commission → Withdrawal → Type 0
IsCovered cs w = (v : ℕ) → claimed v w.commissions cs ≡ (if w.user == v then w.total else 0)

-- Rejecting a withdrawal whose total is what its commissions come to keeps every balance equal to the
-- sum of the user's credited commissions, if it was: the
-- commissions count again, and the balance gets the total back.
pub reject_withdraw-Booked :
    (id : ℕ) (w : Withdrawal) (s : State)
    → find (has_id id) s.withdrawals ≡ some w
    → IsCovered s.commissions w
    → Booked s
    → Booked (reject_withdraw id s).1
unfolding reject_withdraw
reject_withdraw-Booked id w s e covered h = elim (WithdrawalStatus-cases w.status) [
  | inl open_request ↦
      rw (e, reject_withdraw)
        (rw open_request (
          pay_in-Booked w.user w.total s.commissions _ s.users
            (λ v.
              sum-give_back v w.commissions s.commissions
              ∙ ap (λ n. credited_sum v s.commissions + n) (covered v))
            h))
  | inr (inl done) ↦ rw (e, reject_withdraw) (rw done h)
  | inr (inr done) ↦ rw (e, reject_withdraw) (rw done h)
]
