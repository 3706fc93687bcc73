-- ===== src/Promotion/Tests.antt =====
-- A program, a catalog and a bank transfer, for src/deposit-promotions.
use appchat_be.Common.{
  ℕ, ◌⊎◌, Text, to_upper, ◌+◌, ◌≤◌, ◌≡◌, ◌≢◌, refl, inl, inr, true, false, none, some, List, [],
  ◌∷◌, arith, ok, err, whole, max_safe, leb, All, Bool-cases, if◌then◌else◌,
}
use appchat_be.Common.Int.{pos}
use appchat_be.Promotion.Quote.{
  Error, concurrent_edit, active, Tier, Program, Quote, vnd, applicable_tier, calculate_quote,
  Intent, intent_eligible,
}
use appchat_be.Promotion.QuoteLaws.{IsSound, calculate_quote-IsSound}
use appchat_be.Promotion.Catalog.{Body, Catalog, change_remove, ensure, edit, save}
use appchat_be.Promotion.CatalogLaws.{save-OneAtATime}
use appchat_be.Promotion.Overlaps.{OneAtATime, Applies}
use appchat_be.Promotion.Claim.{code_of, references, reference, claim, claim_intent}
use appchat_be.Promotion.ClaimLaws.{Call, answer, answer_all, claim-Exclusive}
use appchat_be.Promotion.Credit.{
  Plan, Transaction, User, World, pending, processed, pay, add_receipt, write_entries, upsert,
  credit,
}
use appchat_be.Promotion.CreditLaws.{credit_idem, pay_exact, holder_after}

abbrev two_tiers : List Tier
two_tiers =
    record { min_amount = 100000; rate = 500 } ∷ record { min_amount = 500000; rate = 1000 } ∷ []

abbrev a_program : Program
a_program = record {
  id = 1;
  name = b'T' ∷ [];
  start = 10;
  end = 20;
  status = active;
  tiers = two_tiers;
  max_bonus = 40000;
}

abbrev a_quote : Quote
a_quote = record {
  promotion_id = some 1;
  promotion_name = some (b'T' ∷ []);
  rate = 1000;
  bonus_amount = 40000;
  total_amount = 640000;
  amount = 600000;
}

quoted : calculate_quote (whole (pos 600000)) (some a_program) ≡ ok a_quote
unfolding calculate_quote applicable_tier vnd
quoted = refl

calculate_quote-IsSound_example : IsSound (some a_program) a_quote
calculate_quote-IsSound_example =
    calculate_quote-IsSound (whole (pos 600000)) (some a_program) {q = a_quote} quoted

abbrev a_catalog : Catalog
a_catalog = record { revision = 3; programs = a_program ∷ [] }

-- Another editor empties the catalog during the first attempt only.
abbrev others : ℕ → List (List Program)
others n = if leb 20 n then [] ∷ [] else []

others_valid : (k : ℕ) → All OneAtATime (others k)
others_valid k = elim (Bool-cases (leb 20 k)) [
  | inl first_try ↦ rw first_try (tt, tt)
  | inr later ↦ rw later tt
]

abbrev a_body : Body
a_body = record {
  name = some (b'U' ∷ []);
  status = some active;
  start = some 15;
  end = some 30;
  max_bonus = whole (pos 1000);
  tiers = some (record { min_amount = whole (pos 10000); rate = whole (pos 100) } ∷ []);
}

a_catalog-OneAtATime : OneAtATime a_catalog.programs
a_catalog-OneAtATime = (tt, tt)

save-OneAtATime_example :
    OneAtATime (ensure (save others false 2 a_body (some a_catalog)).1).programs
save-OneAtATime_example =
    save-OneAtATime others false 2 a_body a_catalog others_valid a_catalog-OneAtATime

abbrev a_rival : Program
a_rival = record a_program { id = 2; start = 20; end = 30 }

-- The other editor adds a program first.
abbrev rivals : ℕ → List (List Program)
rivals n = if leb 20 n then (a_program ∷ a_rival ∷ []) ∷ [] else []

edited : (edit 20 rivals (change_remove 1) a_catalog).0 ≡ ok tt
unfolding edit change_remove
edited = refl

own_errors : (ps : List Program) → change_remove 1 ps ≢ err concurrent_edit
unfolding change_remove
own_errors ps e = ground arith

apart : OneAtATime (a_rival ∷ a_program ∷ [])
apart = ((λ t a b. omega (arith, a.1, b.2), tt), (tt, tt))

a_program-Applies : Applies 12 a_program
a_program-Applies = (refl, omega arith, omega arith)

abbrev a_transfer : Transaction
a_transfer = record {
  key = 9;
  status = pending;
  incoming = true;
  is_bank_auto = false;
  transfer_amount = whole (pos 50000);
  content = [];
  date = some 12;
  credit_plan = none;
  balance_before = 0;
  balance_after = 0;
}

abbrev a_user : User
a_user = record { id = 7; money = whole (pos 100); receipts = [] }

abbrev a_world : World
a_world = record { transaction = some a_transfer; user = some a_user; ledger = []; intents = [] }

abbrev plain_quote : Quote
plain_quote = record {
  promotion_id = none;
  promotion_name = none;
  rate = 0;
  bonus_amount = 0;
  total_amount = 50000;
  amount = 50000;
}

abbrev a_plan : Plan
a_plan = record { user_id = 7; quote = plain_quote }

abbrev credited_transfer : Transaction
credited_transfer = record a_transfer {
  status = processed;
  credit_plan = some a_plan;
  balance_before = 100;
  balance_after = 50100;
}

abbrev credited_world : World
credited_world = (credit true 7 a_world).1

credited : credit true 7 a_world ≡ (ok credited_transfer, credited_world)
unfolding credit pay add_receipt write_entries upsert calculate_quote applicable_tier vnd
credited = refl

credit_idem_example : credit true 7 credited_world ≡ (ok credited_transfer, credited_world)
credit_idem_example = credit_idem 7 a_world {tx = credited_transfer} {w' = credited_world} credited

abbrev paid_transfer : Transaction
paid_transfer = record a_transfer {
  status = processed;
  balance_before = 100;
  balance_after = 50100;
}

abbrev paid_world : World
paid_world = (pay 7 a_world a_transfer a_plan).1

paid : pay 7 a_world a_transfer a_plan ≡ (ok paid_transfer, paid_world)
unfolding pay add_receipt write_entries upsert vnd
paid = refl

pay_exact_example :
    (paid_world.user ≡ some (holder_after 9 plain_quote 100 50000 a_user))
    × (paid_transfer.balance_before ≡ 100)
    × (paid_transfer.balance_after ≡ 100 + 50000)
    × (100 + 50000 ≤ max_safe)
pay_exact_example =
    pay_exact 7 100 a_world a_user a_transfer a_plan {tx' = paid_transfer} {w' = paid_world} refl
      refl refl paid

abbrev a_code : Text
a_code =
    b'D' ∷ b'P' ∷ b'I' ∷ b'0' ∷ b'0' ∷ b'0' ∷ b'0' ∷ b'0' ∷ b'0' ∷ b'0' ∷ b'0' ∷ b'0' ∷ b'0' ∷ b'0'
    ∷ b'0' ∷ b'0' ∷ b'0' ∷ b'0' ∷ b'0' ∷ b'0' ∷ b'0' ∷ b'0' ∷ b'0' ∷ b'0' ∷ b'0' ∷ b'0' ∷ b'0' ∷ []

abbrev an_intent : Intent
an_intent = record {
  code = a_code;
  user_id = 7;
  quote = a_quote;
  issued_at = 10000;
  expires_at = 910000;
  consumed_by = none;
}

abbrev first_transfer : Call
first_transfer = record {
  content = a_code;
  user_id = 7;
  amount = 600000;
  date = some 20000;
  receipt = 1;
}

abbrev second_transfer : Call
second_transfer = record first_transfer { receipt = 2 }

a_code_found : code_of a_code ≡ ok (some a_code)
unfolding code_of references reference to_upper
a_code_found = refl

first_claims : (answer first_transfer (an_intent ∷ [])).0 ≡ ok a_quote
unfolding claim code_of references reference to_upper claim_intent intent_eligible
first_claims = refl

an_intent_fits : intent_eligible an_intent 7 600000 (some 20000) ≡ true
unfolding intent_eligible
an_intent_fits = refl

claim-Exclusive_example :
    ((x : Error) × ((answer second_transfer
          (answer_all (first_transfer ∷ []) (answer first_transfer (an_intent ∷ [])).1)).0
        ≡ err x))
    ⊎ ((answer second_transfer
          (answer_all (first_transfer ∷ []) (answer first_transfer (an_intent ∷ [])).1)).0
        ≡ calculate_quote (whole (pos 600000)) none)
claim-Exclusive_example =
    claim-Exclusive a_code first_transfer second_transfer (first_transfer ∷ []) an_intent
      (an_intent ∷ []) {q = a_quote} (omega arith) a_code_found refl an_intent_fits first_claims
      a_code_found refl
