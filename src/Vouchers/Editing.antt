-- ===== src/Vouchers/Editing.antt =====
-- `validateVoucher` of src/vouchers/voucher.rules.ts.
-- The discount value is in hundredths; a field that is not a string, not one of the words, not a
-- date or not an identifier is `none`.
use appchat_be.Common.{
  filter, ℕ, ◌/◌, ◌%◌, Bool, true, false, ◌&&◌, ◌||◌, not, Option, none, some, List, [], ◌∷◌, ltb,
  leb, ◌==◌, if◌then◌else◌, all, length, or_else, Text, trim, is_empty, max_safe, Value, whole,
  other, Result, ok, err, ◌>>=◌, ◌>>◌, throw_if, or_throw,
}
use appchat_be.Common.Int.{pos, negsuc}
use appchat_be.Vouchers.Authority.{VoucherStatus}
use appchat_be.Vouchers.Rules.{
  Error, bad_integer, bad_code, bad_name, bad_status, bad_discount_type, bad_percentage, bad_dates,
  bad_scope, DiscountType, fixed, percentage, Scope, everything, selected, Terms, normalize_code,
  integer,
}

pub record Body : Type 0 where
  pub code : Text
  pub name : Option Text
  pub status : Option VoucherStatus
  pub discount_type : Option DiscountType
  pub discount_value : Value
  pub starts_at : Option ℕ
  pub ends_at : Option ℕ
  pub scope : Option Scope
  pub service_ids : Option (List (Option ℕ))
  pub max_discount : Option Value
  pub min_subtotal : Option Value
  pub total_limit : Value
  pub per_user_limit : Value

-- The fields that are stored.
pub record Fields : Type 0 where
  pub code : Text
  pub name : Text
  pub terms : Terms
  pub total_limit : ℕ
  pub per_user_limit : ℕ

-- `[A-Z0-9_-]`
abbrev pub is_code_char : ℕ → Bool
is_code_char c = (leb b'A' c && leb c b'Z') || (leb b'0' c && leb c b'9') || c == b'_' || c == b'-'

abbrev pub is_code : Text → Bool
is_code code = leb 1 (length code) && leb (length code) 64 && all is_code_char code

abbrev pub name_of : Option Text → Result Error Text
name_of none = err bad_name
name_of (some s) = if is_empty (trim s) || ltb 200 (length s) then err bad_name else ok (trim s)

-- A fixed value is a whole number from 1 on, a percentage lies above 0 and up to 100.
unfoldable pub rate_of : DiscountType → Value → Result Error ℕ
rate_of fixed other = err bad_integer
rate_of fixed (whole (negsuc n)) = err bad_integer
rate_of fixed (whole (pos h)) =
    if h % 100 == 0 then integer (whole (pos (h / 100))) 1 else err bad_integer
rate_of percentage other = err bad_percentage
rate_of percentage (whole (negsuc n)) = err bad_percentage
rate_of percentage (whole (pos h)) = if ltb 0 h && leb h 10000 then ok h else err bad_percentage

unfoldable pub read_ids : List (Option ℕ) → Result Error (List ℕ)
read_ids [] = ok []
read_ids (none ∷ ids) = err bad_scope
read_ids (some i ∷ ids) = read_ids ids >>= λ rest. ok (i ∷ rest)

-- `[...new Set(ids)]`
abbrev pub distinct : List ℕ → List ℕ
distinct [] = []
distinct (i ∷ ids) = i ∷ filter (λ j. not (j == i)) (distinct ids)

abbrev pub is_selected : Scope → Bool
is_selected selected = true
is_selected everything = false

abbrev pub no_service : Scope → List ℕ → Bool
no_service scope ids = is_selected scope && length ids == 0

unfoldable pub validate_voucher : Body → Result Error Fields
validate_voucher body =
    let code = normalize_code body.code in
    throw_if (not (is_code code)) bad_code
    >> (name_of body.name >>= λ name. or_throw body.status bad_status >>= λ status.
        or_throw body.discount_type bad_discount_type >>= λ discount_type.
        rate_of discount_type body.discount_value >>= λ rate.
        or_throw body.starts_at bad_dates >>= λ starts_at.
        or_throw body.ends_at bad_dates >>= λ ends_at.
        throw_if (leb ends_at starts_at) bad_dates
        >> (or_throw body.scope bad_scope >>= λ scope.
            or_throw body.service_ids bad_scope >>= λ given.
            throw_if (ltb 1000 (length given)) bad_scope
            >> (read_ids given >>= λ ids.
                throw_if (no_service scope (distinct ids)) bad_scope
                >> (integer (or_else body.max_discount (whole (pos max_safe))) 1 >>= λ max_discount.
                    integer (or_else body.min_subtotal (whole (pos 0))) 0 >>= λ min_subtotal.
                    integer body.total_limit 1 >>= λ total_limit.
                    integer body.per_user_limit 1 >>= λ per_user_limit. ok (record {
                      code = code;
                      name = name;
                      terms = record {
                        status = status;
                        starts_at = starts_at;
                        ends_at = ends_at;
                        discount_type = discount_type;
                        rate = rate;
                        max_discount = max_discount;
                        min_subtotal = min_subtotal;
                        scope = scope;
                        service_ids = distinct ids;
                      };
                      total_limit = total_limit;
                      per_user_limit = per_user_limit;
                    })))))
