-- ===== src/Vouchers/RuleLaws.antt =====
-- On the price rules of src/vouchers/voucher.rules.ts.
use appchat_be.Common.{
  ℕ, ◌+◌, ◌-◌, ◌*◌, ◌/◌, ◌≤◌, ◌<◌, ◌≡◌, refl, sym, subst, ◌⊎◌, inl, inr, false, some, arith, ltb,
  leb, max_safe, Value, whole, other, ok, Bool-cases, >>=-eq-ok, throw_if-eq-ok, ok-injective,
}
use appchat_be.Common.Int.{pos, negsuc}
use appchat_be.Vouchers.Rules.{
  Error, Terms, fixed, percentage, DiscountType, integer, inapplicable, raw_discount, capped,
  discount_of, discount, missing_refund,
}
use native.Mathlib.Nat.{
  mul-le-mul_left, mul-le-mul_right, div-mul-le_self, lt-mul-div-succ, div-le_of_le-mul, mul_comm,
  add-mul,
}

pub integer_value :
    (v : Value) (minimum : ℕ) {n : ℕ}
    → integer v minimum ≡ ok n
    → (v ≡ whole (pos n)) × (minimum ≤ n) × (n ≤ max_safe)
unfolding integer
integer_value other minimum h = cc
integer_value (whole (negsuc k)) minimum h = cc
integer_value (whole (pos k)) minimum {n} h = elim (Bool-cases (leb minimum k)) [
  | inr low ↦ absurd (ground arith)
  | inl high ↦ elim (Bool-cases (leb k max_safe)) [
    | inr big ↦ absurd (ground arith)
    | inl small ↦
        let e : k ≡ n = ok-injective {E = Error} (ground arith) in
        rw (sym e) (refl, ground arith, ground arith)
  ]
]

discount_of_ok :
    (v : Terms) (n service now : ℕ) {d : ℕ}
    → discount_of (some v) n service now ≡ ok d
    → (inapplicable v n service now ≡ false) × (d ≡ capped v n)
discount_of_ok v n service now h =
    let t = throw_if-eq-ok (inapplicable v n service now) _ (ok (capped v n)) h in
    (t.0, sym (ok-injective t.1))

capped_facts :
    (v : Terms) (n service now d : ℕ)
    → inapplicable v n service now ≡ false
    → d ≡ capped v n
    → (d ≤ n)
      × (d ≤ v.max_discount)
      × (d ≤ raw_discount v n)
      × ((d ≡ raw_discount v n) ⊎ (d ≡ n) ⊎ (d ≡ v.max_discount))
      × (v.min_subtotal ≤ n)
      × (v.starts_at ≤ now)
      × (now < v.ends_at)
capped_facts v n service now d ok_terms e =
    let raw = raw_discount v n in
    (
      ground arith,
      ground arith,
      ground arith,
      ground arith,
      ground arith,
      ground arith,
      ground arith,
    )

-- An applied discount is within the subtotal and within the voucher's maximum, and takes the whole
-- of its face value unless one of these two caps it; it is only given in the voucher's period and
-- from its least subtotal on.
pub discount-IsBounded :
    (v : Terms) (subtotal : Value) (service now : ℕ) {d : ℕ}
    → discount (some v) subtotal service now ≡ ok d
    → (n : ℕ) × (subtotal ≡ whole (pos n))
      × (d ≤ n)
      × (d ≤ v.max_discount)
      × (d ≤ raw_discount v n)
      × ((d ≡ raw_discount v n) ⊎ (d ≡ n) ⊎ (d ≡ v.max_discount))
      × (v.min_subtotal ≤ n)
      × (v.starts_at ≤ now)
      × (now < v.ends_at)
unfolding discount
discount-IsBounded v subtotal service now {d} h =
    let i = >>=-eq-ok (integer subtotal 0) _ h in
    let value = integer_value subtotal 0 {n = i.0} i.1 in
    let t = discount_of_ok v i.0 service now i.2 in
    let c = capped_facts v i.0 service now d t.0 t.1 in
    (i.0, value.0, c.0, c.1, c.2, c.3, c.4, c.5, c.6)

-- The share `n * rate / 10000` of a greater amount is greater, but by no more than the difference.
share_mono : (n m rate : ℕ) → n ≤ m → n * rate / 10000 ≤ m * rate / 10000
share_mono n m rate h = omega (arith, mul-le-mul_right rate h)

share_slow : (n k rate : ℕ) → rate ≤ 10000 → (n + k) * rate / 10000 ≤ n * rate / 10000 + k
share_slow n k rate h = omega (arith, mul-le-mul_left k h, add-mul n k rate)

DiscountType-cases : (t : DiscountType) → (t ≡ fixed) ⊎ (t ≡ percentage)
DiscountType-cases fixed = inl refl
DiscountType-cases percentage = inr refl

capped_mono :
    (v : Terms) (n k d e : ℕ)
    → d ≡ capped v n
    → e ≡ capped v (n + k)
    → (raw_discount v n ≤ raw_discount v (n + k)) × (raw_discount v (n + k) ≤ raw_discount v n + k)
    → (d ≤ e) × (n - d ≤ n + k - e)
capped_mono v n k d e hd he raw = (ground (arith, raw), ground (arith, raw))

raw_mono :
    (v : Terms) (n k : ℕ)
    → (v.discount_type ≡ percentage → v.rate ≤ 10000)
    → (raw_discount v n ≤ raw_discount v (n + k)) × (raw_discount v (n + k) ≤ raw_discount v n + k)
raw_mono v n k h = elim (DiscountType-cases v.discount_type) [
  | inl e ↦ rw e (omega arith, omega arith)
  | inr e ↦ rw e (share_mono n (n + k) v.rate (omega arith), share_slow n k v.rate (h e))
]

discount_applied :
    (v : Terms) (n service now : ℕ) {d : ℕ}
    → discount (some v) (whole (pos n)) service now ≡ ok d
    → d ≡ capped v n
unfolding discount
discount_applied v n service now {d} h =
    let i = >>=-eq-ok (integer (whole (pos n)) 0) _ h in
    let value = integer_value (whole (pos n)) 0 {n = i.0} i.1 in
    let same : i.0 ≡ n = ground (arith, value.0) in
    let a = discount_of_ok v i.0 service now {d = d} i.2 in subst (λ m. d ≡ capped v m) same a.1

-- Of two purchases under the same voucher, the one with the greater subtotal gets at least the
-- discount of the other, and still pays at least as much: a voucher never makes it cheaper to buy
-- more. A percentage is at most 100.
pub discount-KeepsOrder :
    (v : Terms) (n k service now : ℕ) {d e : ℕ}
    → (v.discount_type ≡ percentage → v.rate ≤ 10000)
    → discount (some v) (whole (pos n)) service now ≡ ok d
    → discount (some v) (whole (pos (n + k))) service now ≡ ok e
    → (d ≤ e) × (n - d ≤ n + k - e)
discount-KeepsOrder v n k service now {d} {e} rate h h' =
    capped_mono v n k d e (discount_applied v n service now h)
      (discount_applied v (n + k) service now h') (raw_mono v n k rate)

sub_le : (q a : ℕ) → q - a ≤ q
sub_le q a = omega arith

share_facts :
    (t q a r : ℕ)
    → a ≤ q
    → 1 ≤ q
    → r ≡ t * (q - a) / q
    → (a ≤ q) × (r * q ≤ t * (q - a)) × (t * (q - a) < (r + 1) * q) × (r ≤ t)
share_facts t q a r h pos_q e = (
  h,
  rw e (div-mul-le_self (t * (q - a)) q),
  rw (e, mul_comm (t * (q - a) / q + 1) q) (lt-mul-div-succ (t * (q - a)) pos_q),
  rw e (div-le_of_le-mul q (omega (arith, mul-le-mul_left t (sub_le q a), mul_comm t q))),
)

-- A missing part's refund is the exact share of the total that the missing part of the quantity is,
-- rounded down, and never more than the total.
pub missing_refund-IsShare :
    (total quantity actual : Value) {r : ℕ}
    → missing_refund total quantity actual ≡ ok r
    → (t : ℕ) × (q : ℕ) × (a : ℕ) × (total ≡ whole (pos t))
      × (quantity ≡ whole (pos q))
      × (actual ≡ whole (pos a))
      × (a ≤ q)
      × (r * q ≤ t * (q - a))
      × (t * (q - a) < (r + 1) * q)
      × (r ≤ t)
unfolding missing_refund
missing_refund-IsShare total quantity actual {r} h =
    let i = >>=-eq-ok (integer total 0) _ h in
    let j = >>=-eq-ok (integer quantity 1) _ i.2 in
    let k = >>=-eq-ok (integer actual 0) _ j.2 in
    let t = i.0 in
    let q = j.0 in
    let a = k.0 in
    let whole_total = integer_value total 0 {n = t} i.1 in
    let whole_quantity = integer_value quantity 1 {n = q} j.1 in
    let whole_actual = integer_value actual 0 {n = a} k.1 in
    let guarded = throw_if-eq-ok (ltb q a) _ (ok (t * (q - a) / q)) k.2 in
    let s =
      share_facts t q a r (ground (arith, guarded.0)) whole_quantity.1
        (sym (ok-injective guarded.1)) in
    (t, q, a, whole_total.0, whole_quantity.0, whole_actual.0, s.0, s.1, s.2, s.3)
