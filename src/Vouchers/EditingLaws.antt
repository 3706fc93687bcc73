-- ===== src/Vouchers/EditingLaws.antt =====
-- On `validateVoucher` of src/vouchers/voucher.rules.ts.
use appchat_be.Common.{
  ℕ, ◌/◌, ◌%◌, ◌≤◌, ◌<◌, ◌≡◌, subst, Bool, true, false, not, inl, inr, arith, ltb, leb, ◌==◌,
  length, or_else, max_safe, Value, whole, other, ok, or_throw, Bool-cases, >>=-eq-ok,
  throw_if-eq-ok, ok-injective,
}
use appchat_be.Common.Int.{pos, negsuc}
use appchat_be.Vouchers.Rules.{
  bad_code, bad_status, bad_discount_type, bad_dates, bad_scope, DiscountType, fixed, percentage,
  integer, normalize_code,
}
use appchat_be.Vouchers.RuleLaws.{integer_value}
use appchat_be.Vouchers.Editing.{
  Body, Fields, is_code, name_of, rate_of, read_ids, distinct, no_service, validate_voucher,
}

abbrev pub IsRate : DiscountType → ℕ → Type 0
IsRate fixed r = 1 ≤ r
IsRate percentage r = (0 < r) × (r ≤ 10000)

-- What the purchases rely on of a stored voucher.
pub record IsValid (f : Fields) : Type 0 where
  pub code : is_code f.code ≡ true
  pub rate : IsRate f.terms.discount_type f.terms.rate
  pub period : f.terms.starts_at < f.terms.ends_at
  pub services : no_service f.terms.scope f.terms.service_ids ≡ false
  pub max_discount : (1 ≤ f.terms.max_discount) × (f.terms.max_discount ≤ max_safe)
  pub min_subtotal : f.terms.min_subtotal ≤ max_safe
  pub total_limit : (1 ≤ f.total_limit) × (f.total_limit ≤ max_safe)
  pub per_user_limit : (1 ≤ f.per_user_limit) × (f.per_user_limit ≤ max_safe)

rate_of-IsRate : (t : DiscountType) (v : Value) {r : ℕ} → rate_of t v ≡ ok r → IsRate t r
unfolding rate_of
rate_of-IsRate fixed other h = cc
rate_of-IsRate fixed (whole (negsuc n)) h = cc
rate_of-IsRate fixed (whole (pos n)) {r} h = elim (Bool-cases (n % 100 == 0)) [
  | inr part ↦ absurd (ground arith)
  | inl all_whole ↦
      let e : integer (whole (pos (n / 100))) 1 ≡ ok r = ground arith in
      (integer_value (whole (pos (n / 100))) 1 {n = r} e).1
]
rate_of-IsRate percentage other h = cc
rate_of-IsRate percentage (whole (negsuc n)) h = cc
rate_of-IsRate percentage (whole (pos n)) h = ground arith

accepted : (b : Bool) → not b ≡ false → b ≡ true
accepted b h = ground arith

before : (a b : ℕ) → leb b a ≡ false → a < b
before a b h = ground arith

-- A voucher that is accepted has a code of 1 to 64 of the allowed characters, a percentage of at most
-- 100 or a positive fixed amount, a period that is not empty, a service if it is for selected ones,
-- and limits and a cap of at least 1, all safe integers.
pub validate_voucher-IsValid : (body : Body) {f : Fields} → validate_voucher body ≡ ok f → IsValid f
unfolding validate_voucher
validate_voucher-IsValid body {f} h =
    let s₀ = throw_if-eq-ok (not (is_code (normalize_code body.code))) bad_code _ h in
    let s₁ = >>=-eq-ok (name_of body.name) _ s₀.1 in
    let s₂ = >>=-eq-ok (or_throw body.status bad_status) _ s₁.2 in
    let s₃ = >>=-eq-ok (or_throw body.discount_type bad_discount_type) _ s₂.2 in
    let s₄ = >>=-eq-ok (rate_of s₃.0 body.discount_value) _ s₃.2 in
    let s₅ = >>=-eq-ok (or_throw body.starts_at bad_dates) _ s₄.2 in
    let s₆ = >>=-eq-ok (or_throw body.ends_at bad_dates) _ s₅.2 in
    let s₇ = throw_if-eq-ok (leb s₆.0 s₅.0) bad_dates _ s₆.2 in
    let s₈ = >>=-eq-ok (or_throw body.scope bad_scope) _ s₇.1 in
    let s₉ = >>=-eq-ok (or_throw body.service_ids bad_scope) _ s₈.2 in
    let t₀ = throw_if-eq-ok (ltb 1000 (length s₉.0)) bad_scope _ s₉.2 in
    let t₁ = >>=-eq-ok (read_ids s₉.0) _ t₀.1 in
    let t₂ = throw_if-eq-ok (no_service s₈.0 (distinct t₁.0)) bad_scope _ t₁.2 in
    let t₃ = >>=-eq-ok (integer (or_else body.max_discount (whole (pos max_safe))) 1) _ t₂.1 in
    let t₄ = >>=-eq-ok (integer (or_else body.min_subtotal (whole (pos 0))) 0) _ t₃.2 in
    let t₅ = >>=-eq-ok (integer body.total_limit 1) _ t₄.2 in
    let t₆ = >>=-eq-ok (integer body.per_user_limit 1) _ t₅.2 in
    let cap = integer_value (or_else body.max_discount (whole (pos max_safe))) 1 {n = t₃.0} t₃.1 in
    let least = integer_value (or_else body.min_subtotal (whole (pos 0))) 0 {n = t₄.0} t₄.1 in
    let total = integer_value body.total_limit 1 {n = t₅.0} t₅.1 in
    let each = integer_value body.per_user_limit 1 {n = t₆.0} t₆.1 in
    subst IsValid (ok-injective t₆.2) (record {
      code = accepted (is_code (normalize_code body.code)) s₀.0;
      rate = rate_of-IsRate s₃.0 body.discount_value s₄.1;
      period = before s₅.0 s₆.0 s₇.0;
      services = t₂.0;
      max_discount = (cap.1, cap.2);
      min_subtotal = least.2;
      total_limit = (total.1, total.2);
      per_user_limit = (each.1, each.2);
    })
