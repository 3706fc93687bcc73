-- ===== src/Vouchers/Rules.antt =====
-- The price rules of src/vouchers/voucher.rules.ts and the quote of vouchers.service.ts. A
-- percentage is its number of hundredths, times are milliseconds, identifiers are numbers.
use appchat_be.Common.{
  ℕ, ◌-◌, ◌*◌, ◌/◌, Bool, false, ◌||◌, not, Option, none, some, List, ltb, leb, if◌then◌else◌,
  contains, min, Value, safe_integer, Text, trim, to_upper, Result, ok, err, ◌>>=◌, ◌>>◌, throw_if,
  or_throw,
}
use appchat_be.Vouchers.Authority.{VoucherStatus, is_active}

pub data Error : Type 0 where
  bad_integer bad_name bad_status bad_discount_type bad_percentage bad_dates bad_scope
        not_applicable bad_quantity :
      Error
  bad_code not_partial not_failed over_total other_plan wallet_pending : Error
  intent_rejected capacity low_balance wallet_full : Error

pub data DiscountType : Type 0 where
  fixed percentage : DiscountType

pub data Scope : Type 0 where
  everything selected : Scope

-- `rate` is the discount value: an amount if fixed, and hundredths of a percent otherwise.
pub record Terms : Type 0 where
  pub status : VoucherStatus
  pub starts_at : ℕ
  pub ends_at : ℕ
  pub discount_type : DiscountType
  pub rate : ℕ
  pub max_discount : ℕ
  pub min_subtotal : ℕ
  pub scope : Scope
  pub service_ids : List ℕ

-- `normalizeCode`
unfoldable pub normalize_code : Text → Text
normalize_code code = to_upper (trim code)

-- `integer(value, name, min)`
unfoldable pub integer : Value → ℕ → Result Error ℕ
integer v minimum = or_throw (safe_integer v minimum) bad_integer

abbrev pub out_of_scope : Terms → ℕ → Bool
out_of_scope v service = elim v.scope [
  | everything ↦ false
  | selected ↦ not (contains service v.service_ids)
]

-- Why a voucher that exists does not apply.
abbrev pub inapplicable : Terms → ℕ → ℕ → ℕ → Bool
inapplicable v subtotal service now =
    not (is_active v.status)
    || ltb now v.starts_at
    || leb v.ends_at now
    || ltb subtotal v.min_subtotal
    || out_of_scope v service

-- The discount before it is capped.
abbrev pub raw_discount : Terms → ℕ → ℕ
raw_discount v subtotal = elim v.discount_type [
  | fixed ↦ v.rate
  | percentage ↦ subtotal * v.rate / 10000
]

abbrev pub capped : Terms → ℕ → ℕ
capped v subtotal =
    let cap = min subtotal v.max_discount in
    let raw = raw_discount v subtotal in if ltb raw cap then raw else cap

abbrev pub discount_of : Option Terms → ℕ → ℕ → ℕ → Result Error ℕ
discount_of none subtotal service now = err not_applicable
discount_of (some v) subtotal service now =
    throw_if (inapplicable v subtotal service now) not_applicable >> ok (capped v subtotal)

-- `discount(v, subtotal, serviceId, now)`
unfoldable pub discount : Option Terms → Value → ℕ → ℕ → Result Error ℕ
discount v subtotal service now = integer subtotal 0 >>= λ n. discount_of v n service now

-- `missingRefund(total, quantity, actual)`
unfoldable pub missing_refund : Value → Value → Value → Result Error ℕ
missing_refund total quantity actual = integer total 0 >>= λ t. integer quantity 1 >>= λ q.
    integer actual 0 >>= λ a. throw_if (ltb q a) bad_quantity >> ok (t * (q - a) / q)

-- What `quote` answers about the price.
pub record Quote : Type 0 where
  pub subtotal : ℕ
  pub voucher_discount : ℕ
  pub total_price : ℕ

-- `quote(code, serviceId, subtotal)`: without a code the full price; with one, the voucher that
-- `lookup` (the cached configuration) finds under the normalised code.
unfoldable pub quote : (Text → Option Terms) → Option Text → ℕ → Value → ℕ → Result Error Quote
quote lookup code service subtotal now = integer subtotal 0 >>= λ n. elim code [
  | none ↦ ok (record { subtotal = n; voucher_discount = 0; total_price = n })
  | some c ↦ discount (lookup (normalize_code c)) subtotal service now >>= λ d.
      ok (record { subtotal = n; voucher_discount = d; total_price = n - d })
]
