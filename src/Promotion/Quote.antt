-- ===== src/Promotion/Quote.antt =====
-- `vnd`, `calculateQuote` and `intentEligible` of deposit-promotions.service.ts. An amount is in
-- whole VND, a rate in hundredths of a percent, a time in milliseconds. Identifiers, which are only
-- compared, are numbers.
use appchat_be.Common.{
  ℕ, ◌+◌, ◌*◌, ◌/◌, Bool, true, false, ◌&&◌, Option, none, some, List, ltb, leb, ◌==◌,
  if◌then◌else◌, filter, first, sort, Result, ok, ◌>>=◌, Value, whole, safe_integer, or_throw,
}
use appchat_be.Common.Int.{pos}

pub data Error : Type 0 where
  bad_amount bad_name bad_interval bad_tiers bad_rate duplicate_tier : Error
  not_found overlap concurrent_edit : Error
  many_references unknown_intent intent_mismatch intent_used : Error
  deposit_disabled unknown_transaction not_creditable state_changed other_user no_receipt : Error

pub data Status : Type 0 where
  draft active paused : Status

abbrev pub is_active : Status → Bool
is_active active = true
is_active draft = false
is_active paused = false

pub record Tier : Type 0 where
  pub min_amount : ℕ
  pub rate : ℕ

pub record Program : Type 0 where
  pub id : ℕ
  pub name : List ℕ
  pub start : ℕ
  pub end : ℕ
  pub status : Status
  pub tiers : List Tier
  pub max_bonus : ℕ

pub record Quote : Type 0 where
  pub promotion_id : Option ℕ
  pub promotion_name : Option (List ℕ)
  pub rate : ℕ
  pub bonus_amount : ℕ
  pub total_amount : ℕ
  pub amount : ℕ

unfoldable pub vnd : Value → ℕ → Result Error ℕ
vnd value minimum = or_throw (safe_integer value minimum) bad_amount

-- `(a, b) => b.minAmount - a.minAmount`
abbrev pub higher_first : Tier → Tier → Bool
higher_first a b = leb b.min_amount a.min_amount

-- The tiers that the amount reaches, the highest first; the first of them applies.
unfoldable pub applicable_tier : ℕ → List Tier → Option Tier
applicable_tier amount tiers =
    first (sort higher_first (filter (λ t. leb t.min_amount amount) tiers))

abbrev pub tier_rate : Option Tier → ℕ
tier_rate none = 0
tier_rate (some t) = t.rate

abbrev pub smaller : ℕ → ℕ → ℕ
smaller a b = if ltb a b then a else b

abbrev pub program_rate : ℕ → Option Program → ℕ
program_rate amount none = 0
program_rate amount (some p) = tier_rate (applicable_tier amount p.tiers)

abbrev pub program_bonus : ℕ → ℕ → Option Program → ℕ
program_bonus amount rate none = 0
program_bonus amount rate (some p) = smaller (amount * rate / 10000) p.max_bonus

unfoldable pub calculate_quote : Value → Option Program → Result Error Quote
unfolding vnd
calculate_quote value program = do
  amount ← vnd value 10000
  let rate = program_rate amount program
  let bonus = program_bonus amount rate program
  total ← vnd (whole (pos (amount + bonus))) 0
  ok (record {
    promotion_id = elim program [ none ↦ none | some p ↦ some p.id ];
    promotion_name = elim program [ none ↦ none | some p ↦ some p.name ];
    rate = rate;
    bonus_amount = bonus;
    total_amount = total;
    amount = amount;
  })

pub record Intent : Type 0 where
  pub code : List ℕ
  pub user_id : ℕ
  pub quote : Quote
  pub issued_at : ℕ
  pub expires_at : ℕ
  pub consumed_by : Option ℕ

-- An invalid date is `none`.
unfoldable pub intent_eligible : Intent → ℕ → ℕ → Option ℕ → Bool
intent_eligible intent user_id amount none = false
intent_eligible intent user_id amount (some date) =
    intent.user_id == user_id
    && intent.quote.amount == amount
    && leb (intent.issued_at / 1000 * 1000) date
    && leb date intent.expires_at
