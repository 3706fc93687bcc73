-- ===== src/Affiliate/Withdrawals.antt =====
-- The way from the balance to a bank: `requestWithdraw`, `requestWithdrawAll`, `approveWithdraw` and
-- `rejectWithdraw`. Each call is one step: its updates follow one another with no other between.
use appchat_be.Common.{
  ℕ, ◌-◌, Bool, true, false, ◌&&◌, not, Option, none, some, List, [], ◌∷◌, leb, ◌==◌, if◌then◌else◌,
  find, any, filter, map, contains, update_first, update_all, is_empty, Result, ok, err,
}
use appchat_be.Affiliate.State.{
  CommissionStatus, pending, confirmed, credited, requested, paid, WithdrawalStatus, asked,
  transferred, rejected, same_status, Bank, Commission, Withdrawal, User, State, Error, no_bank,
  no_commission, still_pending, not_credited, already_requested, not_withdrawable, short_balance,
  empty_balance, request_open, nothing_credited, no_withdrawal, already_paid, already_rejected,
  has_user, has_bank, of_referrer,
}
use appchat_be.Affiliate.Commissions.{with_status, pay_in}

abbrev pub ask : Bank → Commission → Commission
ask bank c = record c { status = requested; bank = some bank }

-- `{ _id: user, affiliate_balance: { $gte: amount } }`
abbrev pub can_pay : ℕ → ℕ → User → Bool
can_pay user amount u = has_user user u && leb amount u.balance

abbrev pub take_balance : ℕ → User → User
take_balance amount u = record u { balance = u.balance - amount }

-- `$inc: { affiliate_balance: -amount }` under that filter; `_id` is unique.
abbrev pub pay_out : ℕ → ℕ → List User → List User
pay_out user amount = update_all (can_pay user amount) (take_balance amount)

abbrev pub new_withdrawal : ℕ → ℕ → ℕ → Bank → List ℕ → Withdrawal
new_withdrawal id user total bank ids = record {
  id = id;
  user = user;
  total = total;
  bank = bank;
  status = asked;
  commissions = ids;
}

-- Why a commission could not be asked for, from its status.
abbrev pub refusal : Option Commission → Error
refusal none = no_commission
refusal (some c) =
    if same_status c.status pending
    then still_pending
    else if same_status c.status confirmed
    then not_credited
    else if same_status c.status requested
    then already_requested
    else not_withdrawable

-- The balance pays for what was asked, or the statuses are put back.
abbrev pub settle_request : Bool → State → State → Withdrawal → Result Error ℕ × State
settle_request payable back s w =
    if payable
    then (
      ok w.total,
      record s { users = pay_out w.user w.total s.users; withdrawals = w ∷ s.withdrawals },
    )
    else (err short_balance, back)

abbrev pub is_mine : ℕ → ℕ → CommissionStatus → Commission → Bool
is_mine user id s c = c.id == id && of_referrer user s c

abbrev pub request_commission : ℕ → ℕ → ℕ → User → Commission → State → Result Error ℕ × State
request_commission fresh user id u c s =
    let asked_for = record s {
      commissions = update_first (is_mine user id credited) (ask u.bank) s.commissions;
    } in
    let back = record s {
      commissions =
          update_first (λ d. d.id == id) (with_status credited)
            (update_first (is_mine user id credited) (ask u.bank) s.commissions);
    } in
    settle_request (any (can_pay user c.amount) s.users) back asked_for
      (new_withdrawal fresh user c.amount u.bank (id ∷ []))

-- `requestWithdraw(userId, commissionId)`, with a fresh id for the withdrawal. The amount is given
-- where the source returns a message.
unfoldable pub request_withdraw : ℕ → ℕ → ℕ → State → Result Error ℕ × State
request_withdraw fresh user id s = elim (find (has_user user) s.users) [
  | none ↦ (err no_bank, s)
  | some u ↦
      if not (has_bank u)
      then (err no_bank, s)
      else (elim (find (is_mine user id credited) s.commissions) [
        | none ↦ (err (refusal (find (λ c. c.id == id && c.referrer == user) s.commissions)), s)
        | some c ↦ request_commission fresh user id u c s
      ])
]

abbrev pub with_bank : ℕ → Option Bank → List User → List User
with_bank user none users = users
with_bank user (some b) users =
    if is_empty b.account
    then users
    else update_all (has_user user) (λ u. record u { bank = b }) users

abbrev pub ids_of : List Commission → List ℕ
ids_of = map (λ c. c.id)

-- The request for the commissions found credited, at the balance read before.
abbrev pub ask_all : ℕ → ℕ → User → List Commission → State → Result Error ℕ × State
ask_all fresh user u [] s = (err nothing_credited, s)
ask_all fresh user u (c ∷ cs) s =
    let asked_for = record s {
      commissions = update_all (of_referrer user credited) (ask u.bank) s.commissions;
    } in
    let back = record s {
      commissions =
          update_all (λ d. contains d.id (ids_of (c ∷ cs)) && same_status d.status requested)
            (with_status credited)
            (update_all (of_referrer user credited) (ask u.bank) s.commissions);
    } in
    settle_request (any (can_pay user u.balance) s.users) back asked_for
      (new_withdrawal fresh user u.balance u.bank (ids_of (c ∷ cs)))

abbrev pub request_all : ℕ → ℕ → User → State → Result Error ℕ × State
request_all fresh user u s =
    if any (of_referrer user requested) s.commissions
    then (err request_open, s)
    else ask_all fresh user u (filter (of_referrer user credited) s.commissions) s

abbrev pub request_everything : ℕ → ℕ → Option User → State → Result Error ℕ × State
request_everything fresh user none s = (err no_bank, s)
request_everything fresh user (some u) s =
    if not (has_bank u)
    then (err no_bank, s)
    else if u.balance == 0
    then (err empty_balance, s)
    else request_all fresh user u s

-- `requestWithdrawAll(userId, bankInfo)`: a bank account that is given is saved first, also when the
-- request is then refused.
unfoldable pub request_withdraw_all : ℕ → ℕ → Option Bank → State → Result Error ℕ × State
request_withdraw_all fresh user bank s =
    let users = with_bank user bank s.users in
    request_everything fresh user (find (has_user user) users) (record s { users = users })

abbrev pub has_id : ℕ → Withdrawal → Bool
has_id id w = w.id == id

abbrev pub is_asked : WithdrawalStatus → Bool
is_asked asked = true
is_asked transferred = false
is_asked rejected = false

abbrev pub set_withdrawal : ℕ → WithdrawalStatus → List Withdrawal → List Withdrawal
set_withdrawal id status =
    update_first (λ w. has_id id w && is_asked w.status) (λ w. record w { status = status })

-- The commissions of a withdrawal that are still asked for get a status.
abbrev pub set_commissions : List ℕ → CommissionStatus → List Commission → List Commission
set_commissions ids status =
    update_all (λ c. contains c.id ids && same_status c.status requested) (with_status status)

-- The status that the first reading of the withdrawal shows decides; `_id` is unique.
unfoldable pub approve_withdraw : ℕ → State → Result Error ℕ × State
approve_withdraw id s = elim (find (has_id id) s.withdrawals) [
  | none ↦ (err no_withdrawal, s)
  | some w ↦ elim w.status [
    | transferred ↦ (err already_paid, s)
    | rejected ↦ (err already_rejected, s)
    | asked ↦ (
      ok w.total,
      record s {
        withdrawals = set_withdrawal id transferred s.withdrawals;
        commissions = set_commissions w.commissions paid s.commissions;
      },
    )
  ]
]

unfoldable pub reject_withdraw : ℕ → State → Result Error (Unit {0}) × State
reject_withdraw id s = elim (find (has_id id) s.withdrawals) [
  | none ↦ (err no_withdrawal, s)
  | some w ↦ elim w.status [
    | transferred ↦ (err already_paid, s)
    | rejected ↦ (err already_rejected, s)
    | asked ↦ (
      ok tt,
      record s {
        withdrawals = set_withdrawal id rejected s.withdrawals;
        commissions = set_commissions w.commissions credited s.commissions;
        users = pay_in w.user w.total s.users;
      },
    )
  ]
]
