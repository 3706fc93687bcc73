-- ===== src/Vouchers/Tests.antt =====
-- The voucher subsystem at a concrete voucher, wallet and purchase, for src/vouchers.
use appchat_be.Common.{
  trim, to_upper, ℕ, ◌≤◌, ◌<◌, ◌≡◌, refl, ◌⊎◌, Bool, true, false, none, some, List, [], ◌∷◌, whole,
  ok, arith, any,
}
use mathlib.Core.Option
use appchat_be.Common.Int.{pos, ◌+ℤ◌}
use appchat_be.Vouchers.Authority.{
  Voucher, active, reserved, used, released, Step, reserving, burying, using, releasing_used, run,
  is_at, reserve, tombstone,
}
use appchat_be.Vouchers.Rules.{
  Terms, percentage, everything, selected, normalize_code, discount, raw_discount, missing_refund,
  integer,
}
use appchat_be.Vouchers.Purchase.{
  of_order, World, Wallet, whole_money, created, recover, reserve_stage, debit_stage, debit_wallet,
  refuse_debit, finish_debit, without_debit, insert_stage,
}
use appchat_be.Orders.Status.{pending, pending_refund, settled}
use appchat_be.Vouchers.Refund.{
  VoucherOrder, Account, refund, refund_target, refund_wallet, settle, refunded_by,
}
use appchat_be.Vouchers.RefundLaws.{refund-Once, refund-Exact}
use appchat_be.Vouchers.Editing.{Body, Fields, validate_voucher, rate_of, read_ids}
use appchat_be.Vouchers.Moves.{IsCounted}
use appchat_be.Vouchers.Quotas.{run-IsCounted, released-IsFinal}
use appchat_be.Vouchers.RuleLaws.{discount-IsBounded}
use appchat_be.Vouchers.PurchaseLaws.{worth, recover-Conserves}
use appchat_be.Vouchers.Dispatch.{Outbox, Waiting, recover_order}
use appchat_be.Vouchers.Paid.{IsPaid, recover-IsPaid}

abbrev fresh_voucher : Voucher
fresh_voucher = record {
  revision = 1;
  status = active;
  starts_at = 10;
  ends_at = 100;
  total_limit = 1;
  per_user_limit = 1;
  reserved_count = pos 0;
  used_count = pos 0;
  reservations = [];
}

abbrev small_voucher : Voucher → Bool
small_voucher v = true

abbrev small_wallet : Wallet → Bool
small_wallet w = true

fresh_voucher-IsCounted : IsCounted fresh_voucher
fresh_voucher-IsCounted = record {
  reserved_is = refl;
  used_is = refl;
  total = omega arith;
  per_user = λ user. omega arith;
  once = λ token. omega arith;
}

-- The second purchase finds the quota taken; the first is then given back.
abbrev rivals : List Step
rivals = reserving 1 7 1 50 ∷ reserving 2 8 1 50 ∷ burying 2 8 ∷ using 1 ∷ releasing_used 1 ∷ []

run-IsCounted_example : IsCounted (run small_voucher rivals fresh_voucher)
run-IsCounted_example = run-IsCounted small_voucher rivals fresh_voucher fresh_voucher-IsCounted

abbrev buried_voucher : Voucher
buried_voucher = record fresh_voucher {
  reservations = record { token = 2; user_id = 8; status = released } ∷ [];
}

buried_voucher-IsCounted : IsCounted buried_voucher
buried_voucher-IsCounted = record {
  reserved_is = refl;
  used_is = refl;
  total = omega arith;
  per_user = λ user. ground arith;
  once = λ token. ground arith;
}

released-IsFinal_example :
    (any (is_at 2 released) (run small_voucher rivals buried_voucher).reservations ≡ true)
    × (any (is_at 2 reserved) (run small_voucher rivals buried_voucher).reservations ≡ false)
    × (any (is_at 2 used) (run small_voucher rivals buried_voucher).reservations ≡ false)
released-IsFinal_example =
    released-IsFinal small_voucher 2 rivals buried_voucher buried_voucher-IsCounted refl

-- Twelve and a half percent, at most 5,000.
abbrev an_eighth : Terms
an_eighth = record {
  status = active;
  starts_at = 10;
  ends_at = 100;
  discount_type = percentage;
  rate = 1250;
  max_discount = 5000;
  min_subtotal = 1000;
  scope = everything;
  service_ids = [];
}

bounded : discount (some an_eighth) (whole (pos 20001)) 3 50 ≡ ok 2500
unfolding discount integer
bounded = refl

capped : discount (some an_eighth) (whole (pos 60001)) 3 50 ≡ ok 5000
unfolding discount integer
capped = refl

discount-IsBounded_example :
    (n : ℕ) × (whole (pos 20001) ≡ whole (pos n))
    × (2500 ≤ n)
    × (2500 ≤ 5000)
    × (2500 ≤ raw_discount an_eighth n)
    × ((2500 ≡ raw_discount an_eighth n) ⊎ (2500 ≡ n) ⊎ (2500 ≡ an_eighth.max_discount))
    × (1000 ≤ n)
    × (10 ≤ 50)
    × (50 < 100)
discount-IsBounded_example =
    discount-IsBounded an_eighth (whole (pos 20001)) 3 50 {d = 2500} bounded

third_missing : missing_refund (whole (pos 1000)) (whole (pos 3)) (whole (pos 2)) ≡ ok 333
unfolding missing_refund integer
third_missing = refl

abbrev wanted_purchase : World
wanted_purchase = record {
  intent = record {
    token = 1;
    user_id = 7;
    revision = 1;
    total_price = 300;
    state = created;
    balance_before = none;
    balance_after = none;
  };
  voucher = some fresh_voucher;
  wallet = some (record { money = whole_money (pos 1000); receipts = [] });
  order_exists = false;
}

wanted_purchase-IsPaid : IsPaid wanted_purchase
wanted_purchase-IsPaid = record { honest_receipts = refl; paid = λ c. cc; inserted = λ c. cc }

recover-IsPaid_example : IsPaid (recover small_voucher small_wallet 50 wanted_purchase).1
recover-IsPaid_example =
    recover-IsPaid small_voucher small_wallet 50 wanted_purchase wanted_purchase-IsPaid

recover-Conserves_example :
    Option.map worth (recover small_voucher small_wallet 50 wanted_purchase).1.wallet
    ≡ Option.map worth wanted_purchase.wallet
recover-Conserves_example = recover-Conserves small_voucher small_wallet 50 wanted_purchase

abbrev made_purchase : World
made_purchase = (recover small_voucher small_wallet 50 wanted_purchase).1

made : recover small_voucher small_wallet 50 wanted_purchase ≡ (ok tt, made_purchase)
unfolding recover reserve_stage reserve tombstone debit_stage debit_wallet finish_debit
    without_debit refuse_debit insert_stage ◌+ℤ◌
made = refl

abbrev nothing_sent : Outbox
nothing_sent = record { line = none; pushed = 0; queued_at = none }

abbrev just_inserted : Waiting
just_inserted = record { status = pending; is_open = true; dispatch_claimed = false }

abbrev claimed_since : Waiting
claimed_since = record just_inserted { dispatch_claimed = true }

abbrev sent : Outbox
sent =
    (recover_order small_voucher small_wallet true 50 (some just_inserted) wanted_purchase
      nothing_sent).2

abbrev failed_order : VoucherOrder
failed_order = record {
  id = 4;
  intent = 1;
  total_price = 300;
  quantity = 3;
  actual_quantity = none;
  status = pending_refund;
  payment_status = settled;
  refunded_amount = 0;
  fulfilled = false;
  confirmed_failed = true;
  plan = none;
}

abbrev a_wallet : Wallet
a_wallet = record { money = whole_money (pos 700); receipts = [] }

abbrev to_refund : Account
to_refund = record { order = failed_order; wallet = some a_wallet; voucher = some fresh_voucher }

abbrev given_back : Account
given_back = (refund small_wallet (some (whole (pos 200))) false to_refund).1

given : refund small_wallet (some (whole (pos 200))) false to_refund ≡ (ok 200, given_back)
unfolding refund refund_target integer refund_wallet settle
given = refl

abbrev given_again : Account
given_again = (refund small_wallet (some (whole (pos 200))) false given_back).1

again : refund small_wallet (some (whole (pos 200))) false given_back ≡ (ok 200, given_again)
unfolding refund refund_target integer refund_wallet settle
again = refl

refund-Once_example :
    (◌≡◌ {A = ℕ} 200 200)
    × (given_again.wallet ≡ given_back.wallet)
    × (given_again.order ≡ given_back.order)
refund-Once_example =
    refund-Once small_wallet (some (whole (pos 200))) (some (whole (pos 200))) false false to_refund
      {t = 200} {t' = 200} {b = given_back} {c = given_again} given again

refund-Exact_example :
    (200 ≤ failed_order.total_price)
    × (given_back.wallet ≡ some (refunded_by (of_order 4) 200 700 a_wallet))
    × (given_back.order.refunded_amount ≡ 200)
refund-Exact_example =
    refund-Exact small_wallet (some (whole (pos 200))) false to_refund a_wallet 700 {t = 200}
      {b = given_back} refl refl refl given

abbrev a_body : Body
a_body = record {
  code = b't' ∷ b'e' ∷ b't' ∷ b'1' ∷ [];
  name = some (b'T' ∷ []);
  status = some active;
  discount_type = some percentage;
  discount_value = whole (pos 1250);
  starts_at = some 10;
  ends_at = some 100;
  scope = some selected;
  service_ids = some (some 3 ∷ some 3 ∷ []);
  max_discount = some (whole (pos 5000));
  min_subtotal = none;
  total_limit = whole (pos 10);
  per_user_limit = whole (pos 1);
}

abbrev stored_fields : Fields
stored_fields = record {
  code = b'T' ∷ b'E' ∷ b'T' ∷ b'1' ∷ [];
  name = b'T' ∷ [];
  terms = record an_eighth { min_subtotal = 0; scope = selected; service_ids = 3 ∷ [] };
  total_limit = 10;
  per_user_limit = 1;
}

valid_body : validate_voucher a_body ≡ ok stored_fields
unfolding validate_voucher normalize_code rate_of read_ids integer trim to_upper
valid_body = refl
