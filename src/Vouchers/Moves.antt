-- ===== src/Vouchers/Moves.antt =====
-- The moves of a reservation between its statuses, `release`, `settle` and `reconcile` of
-- src/vouchers/vouchers.service.ts, against the counters and the limits.
use appchat_be.Common.{
  ℕ, suc, ◌+◌, ◌≤◌, ◌≡◌, refl, ap, inl, inr, true, false, List, arith, Bool-cases, any, count, bit,
  count-update_first, count-update_first_le,
}
use appchat_be.Common.Int.{ℤ, pos, ◌+ℤ◌, ◌-ℤ◌, int_laws}
use appchat_be.Vouchers.Authority.{
  HoldStatus, reserved, used, released, same_hold, Reservation, Voucher, has_token, is_at,
  in_status, is_live, to_status, at_hold, release_reserved, release_used, use_reserved,
  reverse_used,
}

-- The counters count the reservations, both limits hold, and no token stands twice.
pub record IsCounted (v : Voucher) : Type 0 where
  pub reserved_is : v.reserved_count ≡ pos (count (in_status reserved) v.reservations)
  pub used_is : v.used_count ≡ pos (count (in_status used) v.reservations)
  pub total :
      count (in_status reserved) v.reservations + count (in_status used) v.reservations
      ≤ v.total_limit
  pub per_user : (user : ℕ) → count (is_live user) v.reservations ≤ v.per_user_limit
  pub once : (token : ℕ) → count (has_token token) v.reservations ≤ 1

pos_add : (a b : ℕ) → pos a +ℤ pos b ≡ pos (a + b)
pos_add a b = omega int_laws

pos_sub : (a b : ℕ) → pos (a + b) -ℤ pos b ≡ pos a
pos_sub a b = omega int_laws

same_hold_iff : (s t : HoldStatus) → same_hold s t ≡ true → s ≡ t
same_hold_iff reserved reserved h = refl
same_hold_iff reserved used h = cc
same_hold_iff reserved released h = cc
same_hold_iff used reserved h = cc
same_hold_iff used used h = refl
same_hold_iff used released h = cc
same_hold_iff released reserved h = cc
same_hold_iff released used h = cc
same_hold_iff released released h = refl

pub is_at-status :
    (token : ℕ) (from : HoldStatus) (r : Reservation) → is_at token from r ≡ true → r.status ≡ from
is_at-status token from r h = same_hold_iff r.status from (ground arith)

-- What a move does to the count of one status.
count-at_hold :
    (token : ℕ) (from to s : HoldStatus) (rs : List Reservation)
    → any (is_at token from) rs ≡ true
    → count (in_status s) (at_hold token from to rs) + bit (same_hold from s)
      ≡ count (in_status s) rs + bit (same_hold to s)
count-at_hold token from to s rs h =
    count-update_first (is_at token from) (in_status s) (to_status to) (same_hold from s)
      (same_hold to s) rs (λ r e. ap (λ t. same_hold t s) (is_at-status token from r e))
      (λ r e. refl) h

tokens-at_hold :
    (token t : ℕ) (from to : HoldStatus) (rs : List Reservation)
    → count (has_token t) (at_hold token from to rs) ≤ count (has_token t) rs
tokens-at_hold token t from to rs =
    count-update_first_le (is_at token from) (has_token t) (to_status to) rs (λ r e h. h)

-- A reservation that is live before its move counts at least as much as after it.
live-at_hold :
    (token user : ℕ) (from to : HoldStatus) (rs : List Reservation)
    → same_hold from released ≡ false
    → count (is_live user) (at_hold token from to rs) ≤ count (is_live user) rs
live-at_hold token user from to rs live =
    count-update_first_le (is_at token from) (is_live user) (to_status to) rs
      (λ r e h. ground (arith, ap (λ t. same_hold t released) (is_at-status token from r e)))

abbrev pub counted : HoldStatus → List Reservation → ℕ
counted s rs = count (in_status s) rs

-- A move from a status that counts keeps the document right if its counters follow.
moved-IsCounted :
    (token : ℕ) (from to : HoldStatus) (v : Voucher) (held spent : ℤ)
    → same_hold from released ≡ false
    → IsCounted v
    → held ≡ pos (counted reserved (at_hold token from to v.reservations))
    → spent ≡ pos (counted used (at_hold token from to v.reservations))
    → counted reserved (at_hold token from to v.reservations)
        + counted used (at_hold token from to v.reservations)
      ≤ counted reserved v.reservations + counted used v.reservations
    → IsCounted (record v {
      reserved_count = held;
      used_count = spent;
      reservations = at_hold token from to v.reservations;
    })
moved-IsCounted token from to v held spent live c h s fewer = record {
  reserved_is = h;
  used_is = s;
  total = omega (arith, c.total, fewer);
  per_user =
      λ user. omega (arith, c.per_user user, live-at_hold token user from to v.reservations live);
  once = λ t. omega (arith, c.once t, tokens-at_hold token t from to v.reservations);
}

less_one : (x : ℤ) (a b : ℕ) → x ≡ pos a → a ≡ suc b → x -ℤ pos 1 ≡ pos b
less_one x a b h e = rw (h, e) (omega int_laws)

pub one_more : (x : ℤ) (a b : ℕ) → x ≡ pos a → b ≡ suc a → x +ℤ pos 1 ≡ pos b
one_more x a b h e = rw (h, e) (omega int_laws)

pub same_pos : (x : ℤ) (a b : ℕ) → x ≡ pos a → b ≡ a → x ≡ pos b
same_pos x a b h e = rw (e, h)

pub release_reserved-IsCounted :
    (token : ℕ) (v : Voucher) → IsCounted v → IsCounted (release_reserved token v)
unfolding release_reserved
release_reserved-IsCounted token v c =
    elim (Bool-cases (any (is_at token reserved) v.reservations)) [
      | inr none_there ↦ rw none_there c
      | inl there ↦
          let r = count-at_hold token reserved released reserved v.reservations there in
          let u = count-at_hold token reserved released used v.reservations there in
          rw there (
            moved-IsCounted token reserved released v _ _ refl c
              (less_one _ _ _ c.reserved_is (omega (arith, r)))
              (same_pos _ _ _ c.used_is (omega (arith, u))) (omega (arith, r, u)))
    ]

pub release_used-IsCounted :
    (token : ℕ) (v : Voucher) → IsCounted v → IsCounted (release_used token v)
unfolding release_used
release_used-IsCounted token v c = elim (Bool-cases (any (is_at token used) v.reservations)) [
  | inr none_there ↦ rw none_there c
  | inl there ↦
      let r = count-at_hold token used released reserved v.reservations there in
      let u = count-at_hold token used released used v.reservations there in
      rw there (
        moved-IsCounted token used released v _ _ refl c
          (same_pos _ _ _ c.reserved_is (omega (arith, r)))
          (less_one _ _ _ c.used_is (omega (arith, u))) (omega (arith, r, u)))
]

pub use_reserved-IsCounted :
    (token : ℕ) (v : Voucher) → IsCounted v → IsCounted (use_reserved token v)
unfolding use_reserved
use_reserved-IsCounted token v c = elim (Bool-cases (any (is_at token reserved) v.reservations)) [
  | inr none_there ↦ rw none_there c
  | inl there ↦
      let r = count-at_hold token reserved used reserved v.reservations there in
      let u = count-at_hold token reserved used used v.reservations there in
      rw there (
        moved-IsCounted token reserved used v _ _ refl c
          (less_one _ _ _ c.reserved_is (omega (arith, r)))
          (one_more _ _ _ c.used_is (omega (arith, u))) (omega (arith, r, u)))
]

pub reverse_used-IsCounted :
    (token : ℕ) (v : Voucher) → IsCounted v → IsCounted (reverse_used token v)
unfolding reverse_used
reverse_used-IsCounted token v c = elim (Bool-cases (any (is_at token used) v.reservations)) [
  | inr none_there ↦ rw none_there c
  | inl there ↦
      let r = count-at_hold token used reserved reserved v.reservations there in
      let u = count-at_hold token used reserved used v.reservations there in
      rw there (
        moved-IsCounted token used reserved v _ _ refl c
          (one_more _ _ _ c.reserved_is (omega (arith, r)))
          (less_one _ _ _ c.used_is (omega (arith, u))) (omega (arith, r, u)))
]
