-- ===== src/Accounts/Money.antt =====
-- `deposit`, `deduct` and `setCommissionRate` of users.service.ts. Amounts and balances are whole
-- numbers, negative ones included; a rate is in hundredths of a percent.
use appchat_be.Common.{
  ℕ, Bool, false, ◌||◌, not, Option, none, some, List, [], ◌∷◌, ◌++◌, ◌==◌, if◌then◌else◌, find,
  update_first, Result, ok, err,
}
use appchat_be.Common.Int.{ℤ, pos, ◌+ℤ◌, ◌-ℤ◌, ltb_ℤ, leb_ℤ}

pub data Error : Type 0 where
  deposit_disabled bad_amount unknown_user short_balance bad_rate : Error

pub data Direction : Type 0 where
  money_in money_out : Direction

pub record Account : Type 0 where
  pub id : ℕ
  pub money : ℤ
  pub commission_rate : Option ℤ

-- A processed manual transaction; the wallet's log repeats its figures.
pub record Transaction : Type 0 where
  pub user_id : ℕ
  pub direction : Direction
  pub amount : ℤ
  pub balance_before : ℤ
  pub balance_after : ℤ

pub record Books : Type 0 where
  pub accounts : List Account
  pub transactions : List Transaction

-- What the calls answer.
pub record Balances : Type 0 where
  pub before : ℤ
  pub after : ℤ

abbrev pub has_id : ℕ → Account → Bool
has_id id a = a.id == id

abbrev pub add_money : ℤ → Account → Account
add_money amount a = record a { money = a.money +ℤ amount }

abbrev pub take_money : ℤ → Account → Account
take_money amount a = record a { money = a.money -ℤ amount }

abbrev pub no_amount : ℤ → Bool
no_amount amount = leb_ℤ amount (pos 0)

-- The balances are read back: the new one is stored, the old one is computed from it.
abbrev pub recorded :
    ℕ → Direction → ℤ → Balances → List Account → Books → Result Error Balances × Books
recorded id d amount b accounts s = (
  ok b,
  record {
    accounts = accounts;
    transactions =
        s.transactions
        ++ record {
          user_id = id;
          direction = d;
          amount = amount;
          balance_before = b.before;
          balance_after = b.after;
        }
          ∷ [];
  },
)

abbrev pub deposited : ℕ → ℤ → Books → Option Account → Result Error Balances × Books
deposited id amount s none = (err unknown_user, s)
deposited id amount s (some a) =
    recorded id money_in amount
      (record { before = a.money +ℤ amount -ℤ amount; after = a.money +ℤ amount })
      (update_first (has_id id) (add_money amount) s.accounts) s

unfoldable pub deposit : Bool → ℕ → ℤ → Books → Result Error Balances × Books
deposit enabled id amount s =
    if not enabled
    then (err deposit_disabled, s)
    else if no_amount amount
    then (err bad_amount, s)
    else deposited id amount s (find (has_id id) s.accounts)

abbrev pub deducted : ℕ → ℤ → Books → Option Account → Result Error Balances × Books
deducted id amount s none = (err unknown_user, s)
deducted id amount s (some a) =
    if leb_ℤ amount a.money
    then recorded id money_out amount
        (record { before = a.money -ℤ amount +ℤ amount; after = a.money -ℤ amount })
        (update_first (has_id id) (take_money amount) s.accounts) s
    else (err short_balance, s)

-- The update asks for `money: { $gte: amount }`; without it the second query tells the two errors
-- apart.
unfoldable pub deduct : ℕ → ℤ → Books → Result Error Balances × Books
deduct id amount s =
    if no_amount amount
    then (err bad_amount, s)
    else deducted id amount s (find (has_id id) s.accounts)

abbrev pub bad_commission : Option ℤ → Bool
bad_commission none = false
bad_commission (some r) = ltb_ℤ r (pos 0) || ltb_ℤ (pos 10000) r

abbrev pub with_rate : Option ℤ → Account → Account
with_rate rate a = record a { commission_rate = rate }

unfoldable pub set_commission_rate : ℕ → Option ℤ → Books → Result Error (Option ℤ) × Books
set_commission_rate id rate s =
    if bad_commission rate then (err bad_rate, s) else (elim (find (has_id id) s.accounts) [
      | none ↦ (err unknown_user, s)
      | some a ↦
          (ok rate, record s { accounts = update_first (has_id id) (with_rate rate) s.accounts })
    ])

pub data Request : Type 0 where
  depositing deducting : ℕ → ℤ → Request
  rating : ℕ → Option ℤ → Request

unfoldable pub perform : Bool → Request → Books → Books
perform enabled (depositing id amount) s = (deposit enabled id amount s).1
perform enabled (deducting id amount) s = (deduct id amount s).1
perform enabled (rating id rate) s = (set_commission_rate id rate s).1

unfoldable pub perform_all : Bool → List Request → Books → Books
perform_all enabled [] s = s
perform_all enabled (r ∷ rs) s = perform_all enabled rs (perform enabled r s)
