-- ===== src/Webhook/Tests.antt =====
-- Notifications at concrete transfers, for src/webhook/webhook.service.ts.
use appchat_be.Common.{
  ℕ, ◌≡◌, refl, true, none, some, List, [], ◌∷◌, ◌++◌, Text, to_upper, whole, ok, arith, all_apart,
  map,
}
use appchat_be.Common.Int.{pos}
use appchat_be.Promotion.Quote.{vnd, calculate_quote}
use appchat_be.Promotion.Claim.{code_of, references, claim}
use appchat_be.Promotion.Credit.{credit, pay, add_receipt, write_entries, upsert}
use appchat_be.Webhook.Matching.{find_topup, find_email}
use appchat_be.Webhook.State.{Account, Bank, find_user, credit_in, announce}
use appchat_be.Webhook.State.{Transfer}
use appchat_be.Webhook.Transfers.{Outcome, credited, accept, handle_transfer, handle_transfers}
use appchat_be.Webhook.Review.{Call, notify, approving, rejecting, perform_all}
use appchat_be.Webhook.Safety.{IsSafe}
use appchat_be.Webhook.Payees.{PaysRight, perform_all-PaysRight}
use appchat_be.Webhook.Codes.{topup_code, unique_code}
use appchat_be.Webhook.CodeLaws.{unique_code-find_user, unique_code-Terminates}

abbrev bytes : List ℕ
bytes = 0x3f ∷ 0x9a ∷ 0x2c ∷ 0x1d ∷ []

abbrev other_bytes : List ℕ
other_bytes = 0 ∷ 1 ∷ 2 ∷ 255 ∷ []

-- NAP3F9A2C1D
abbrev code : Text
code = b'N' ∷ b'A' ∷ b'P' ∷ b'3' ∷ b'F' ∷ b'9' ∷ b'A' ∷ b'2' ∷ b'C' ∷ b'1' ∷ b'D' ∷ []

abbrev other_code : Text
other_code = b'N' ∷ b'A' ∷ b'P' ∷ b'0' ∷ b'0' ∷ b'0' ∷ b'1' ∷ b'0' ∷ b'2' ∷ b'F' ∷ b'F' ∷ []

abbrev email : Text
email = b'u' ∷ b'@' ∷ b'x' ∷ b'.' ∷ b'v' ∷ b'n' ∷ []

abbrev owner : Account
owner = record {
  user = record { id = 1; money = whole (pos 0); receipts = [] };
  email = email;
  topup_code = code;
}

abbrev other_user : Account
other_user = record {
  user = record { id = 2; money = whole (pos 0); receipts = [] };
  email = b'w' ∷ email;
  topup_code = other_code;
}

abbrev bank : Bank
bank = record {
  txs = [];
  accounts = other_user ∷ owner ∷ [];
  ledger = [];
  intents = [];
  next_key = 7;
  announcements = [];
}

-- "ck nap3f9a2c1d ok"
abbrev content : Text
content =
    b'c' ∷ b'k' ∷ 32 ∷ b'n' ∷ b'a' ∷ b'p' ∷ b'3' ∷ b'f' ∷ b'9' ∷ b'a' ∷ b'2' ∷ b'c' ∷ b'1' ∷ b'd'
    ∷ 32 ∷ b'o' ∷ b'k' ∷ []

-- The address stands in a sentence, which ends with a dot.
found_email : find_email (32 ∷ b'.' ∷ email ++ b'.' ∷ 32 ∷ []) ≡ some (b'.' ∷ email)
unfolding find_email
found_email = refl

abbrev transfer : Transfer
transfer = record {
  id = some 900;
  type = b'I' ∷ b'N' ∷ [];
  amount = whole (pos 50000);
  date = some 5;
  content = content;
}

-- The same transfer twice in one notification is credited once; money that leaves is skipped.
outcomes :
    (handle_transfers true (transfer ∷ transfer ∷ record transfer { type = b'O' ∷ [] } ∷ []) bank).0
    ≡ ok credited ∷ ok credited ∷ ok Outcome.skipped ∷ []
unfolding handle_transfers handle_transfer find_user find_topup accept credit_in credit vnd claim
    code_of references to_upper calculate_quote pay add_receipt write_entries upsert announce
outcomes = refl

money_once :
    map (λ a. a.user.money) (handle_transfers true (transfer ∷ transfer ∷ []) bank).1.accounts
    ≡ whole (pos 0) ∷ whole (pos 50000) ∷ []
unfolding handle_transfers handle_transfer find_user find_topup accept credit_in credit vnd claim
    code_of references to_upper calculate_quote pay add_receipt write_entries upsert announce
money_once = refl

bank-IsSafe : IsSafe bank
bank-IsSafe = record { paid = refl; clean = refl }

abbrev calls : List Call
calls = notify true (transfer ∷ []) ∷ rejecting 7 ∷ approving true 7 (some (b'w' ∷ email)) ∷ []

perform_all-PaysRight_example : PaysRight (perform_all calls bank)
perform_all-PaysRight_example = perform_all-PaysRight calls bank bank-IsSafe

abbrev newcomer : Account
newcomer = record owner { user = record owner.user { id = 3 } }

abbrev small_bank : Bank
small_bank = record bank { accounts = other_user ∷ [] }

drawn : unique_code (other_bytes ∷ bytes ∷ []) small_bank.accounts ≡ some code
unfolding unique_code topup_code to_upper
drawn = refl

plain : code_of content ≡ ok none
unfolding code_of references to_upper
plain = refl

upper_content : to_upper content ≡ (b'C' ∷ b'K' ∷ 32 ∷ []) ++ code ++ (32 ∷ b'O' ∷ b'K' ∷ [])
unfolding to_upper
upper_content = refl

unique_code-find_user_example :
    find_user content (record small_bank { accounts = other_user ∷ newcomer ∷ [] })
    ≡ ok (some newcomer)
unique_code-find_user_example =
    unique_code-find_user (other_bytes ∷ bytes ∷ []) small_bank newcomer content
      (b'C' ∷ b'K' ∷ 32 ∷ []) (32 ∷ b'O' ∷ b'K' ∷ [])
      ((refl, omega arith), ((refl, omega arith), tt)) drawn upper_content refl plain

two_codes : all_apart (map topup_code (other_bytes ∷ bytes ∷ [])) ≡ true
unfolding topup_code to_upper
two_codes = refl

unique_code-Terminates_example :
    (c : Text) × (unique_code (other_bytes ∷ bytes ∷ []) small_bank.accounts ≡ some c)
unique_code-Terminates_example =
    unique_code-Terminates (other_bytes ∷ bytes ∷ []) small_bank.accounts two_codes (omega arith)
