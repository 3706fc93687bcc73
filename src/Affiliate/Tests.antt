-- ===== src/Affiliate/Tests.antt =====
-- A referrer with a credited commission, and the way of a commission to the bank, for src/affiliate.
use appchat_be.Common.{◌≡◌, refl, true, none, some, List, [], ◌∷◌, arith}
use appchat_be.Affiliate.State.{
  State, Bank, User, Commission, Withdrawal, credited, requested, asked, paid, transferred,
}
use appchat_be.Affiliate.Commissions.{
  handle_order_active, commission_amount, handle_order_expired, credit_commission,
}
use appchat_be.Affiliate.Withdrawals.{request_withdraw, approve_withdraw}
use appchat_be.Affiliate.Books.{Booked, weight}
use appchat_be.Affiliate.Requests.{IsCovered}
use appchat_be.Affiliate.Run.{
  perform, Call, order_active, orders_expired, crediting, withdrawing, approving, perform_all,
  perform_all-Booked,
}

abbrev a_bank : Bank
a_bank = record { name = b'V' ∷ []; account = b'1' ∷ []; owner = b'A' ∷ [] }

abbrev referrer : User
referrer = record { id = 1; balance = 500; rate = some 1000; bank = a_bank; referred_by = none }

abbrev buyer : User
buyer = record { id = 2; balance = 0; rate = none; bank = a_bank; referred_by = some 1 }

abbrev a_commission : Commission
a_commission = record {
  id = 9;
  referrer = 1;
  referred = 2;
  order = 40;
  order_total = 5000;
  rate = 1000;
  amount = 500;
  status = credited;
  bank = none;
}

abbrev started : State
started = record {
  config = record { is_active = true; rate = 500 };
  users = referrer ∷ buyer ∷ [];
  commissions = a_commission ∷ [];
  withdrawals = [];
}

started-Booked : Booked started
unfolding weight
started-Booked = (refl, (refl, tt))

abbrev calls : List Call
calls =
    order_active 10 (record { id = 41; user = 2; total = 700000 })
    ∷ orders_expired (41 ∷ [])
    ∷ crediting 10
    ∷ withdrawing 77 1 9
    ∷ approving 77
    ∷ []

abbrev a_withdrawal : Withdrawal
a_withdrawal = record {
  id = 77;
  user = 1;
  total = 500;
  bank = a_bank;
  status = asked;
  commissions = 9 ∷ [];
}

-- The buyer's order of 700,000 brings 70,000, which are credited; the first 500 are paid out.
abbrev ended : State
ended = record {
  config = started.config;
  users = record referrer { balance = 70000 } ∷ buyer ∷ [];
  commissions =
      record a_commission { id = 10; order = 41; order_total = 700000; amount = 70000 }
      ∷ record a_commission { status = paid; bank = some a_bank }
      ∷ [];
  withdrawals = record a_withdrawal { status = transferred } ∷ [];
}

called : perform_all calls started ≡ some ended
unfolding perform_all perform handle_order_active commission_amount handle_order_expired
    credit_commission request_withdraw approve_withdraw
called = refl

perform_all-Booked_example : Booked ended
perform_all-Booked_example = perform_all-Booked calls started {s' = ended} started-Booked called

abbrev waiting : State
waiting = record started {
  users = record referrer { balance = 0 } ∷ buyer ∷ [];
  commissions = record a_commission { status = requested; bank = some a_bank } ∷ [];
  withdrawals = a_withdrawal ∷ [];
}

waiting-Booked : Booked waiting
unfolding weight
waiting-Booked = (refl, (refl, tt))

waiting-IsCovered : IsCovered waiting.commissions a_withdrawal
waiting-IsCovered v = ground arith
