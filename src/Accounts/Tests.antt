-- ===== src/Accounts/Tests.antt =====
-- Two accounts and a day of requests, for src/users.
use appchat_be.Common.{refl, sym, true, none, List, [], ◌∷◌, arith}
use appchat_be.Common.Int.{pos, add_zero}
use appchat_be.Accounts.Money.{Books, Request, depositing, deducting, rating, perform_all}
use appchat_be.Accounts.Ledger.{Accounted, perform_all-Accounted}

abbrev two_accounts : Books
two_accounts = record {
  accounts =
      record { id = 1; money = pos 500; commission_rate = none }
      ∷ record { id = 2; money = pos 70; commission_rate = none }
      ∷ [];
  transactions = [];
}

abbrev requests : List Request
requests =
    depositing 2 (pos 100)
    ∷ deducting 2 (pos 90)
    ∷ deducting 2 (pos 1000)
    ∷ rating 2 none
    ∷ depositing 1 (pos 5)
    ∷ []

perform_all-Accounted_example : Accounted 2 (pos 70) (perform_all true requests two_accounts)
perform_all-Accounted_example =
    perform_all-Accounted true 2 (pos 70) requests two_accounts
      (pos 70, refl, sym (add_zero (pos 70)), omega arith)
