-- ===== src/Affiliate/State.antt =====
-- The documents of the affiliate program of src/affiliate. Amounts and balances are whole VND, which the
-- source's doubles add up exactly; rates are hundredths of a percent.
use appchat_be.Common.{ℕ, Bool, ◌&&◌, Option, List, ◌==◌, Text, is_empty, not}

pub data CommissionStatus : Type 0 where
  pending confirmed credited requested paid cancelled : CommissionStatus

pub data WithdrawalStatus : Type 0 where
  asked transferred rejected : WithdrawalStatus

abbrev pub rank : CommissionStatus → ℕ
rank pending = 0
rank confirmed = 1
rank credited = 2
rank requested = 3
rank paid = 4
rank cancelled = 5

-- `===` on the statuses of commissions.
abbrev pub same_status : CommissionStatus → CommissionStatus → Bool
same_status s t = rank s == rank t

pub record Bank : Type 0 where
  pub name : Text
  pub account : Text
  pub owner : Text

pub record Commission : Type 0 where
  pub id : ℕ
  pub referrer : ℕ
  pub referred : ℕ
  pub order : ℕ
  pub order_total : ℕ
  pub rate : ℕ
  pub amount : ℕ
  pub status : CommissionStatus
  pub bank : Option Bank

pub record Withdrawal : Type 0 where
  pub id : ℕ
  pub user : ℕ
  pub total : ℕ
  pub bank : Bank
  pub status : WithdrawalStatus
  pub commissions : List ℕ

pub record User : Type 0 where
  pub id : ℕ
  pub balance : ℕ
  pub rate : Option ℕ
  pub bank : Bank
  pub referred_by : Option ℕ

pub record Config : Type 0 where
  pub is_active : Bool
  pub rate : ℕ

pub record State : Type 0 where
  pub config : Config
  pub users : List User
  pub commissions : List Commission
  pub withdrawals : List Withdrawal

pub data Error : Type 0 where
  not_creditable no_bank no_commission still_pending not_credited already_requested : Error
  not_withdrawable short_balance empty_balance request_open nothing_credited : Error
  no_withdrawal already_paid already_rejected bad_rate : Error

abbrev pub has_user : ℕ → User → Bool
has_user id u = u.id == id

abbrev pub has_bank : User → Bool
has_bank u = not (is_empty u.bank.account)

-- The filters of the queries: by id and status, by referrer and status.
abbrev pub at_status : ℕ → CommissionStatus → Commission → Bool
at_status id s c = c.id == id && same_status c.status s

abbrev pub of_referrer : ℕ → CommissionStatus → Commission → Bool
of_referrer user s c = c.referrer == user && same_status c.status s
