-- ===== src/Vouchers/Quotas.antt =====
-- The updates of the voucher document in src/vouchers/vouchers.service.ts against its quotas, in
-- any order.
use appchat_be.Common.{
  ℕ, suc, ◌+◌, ◌≤◌, ◌≡◌, refl, sym, ap, subst, ◌∙◌, inl, inr, Bool, true, false, ◌&&◌, List, [],
  ◌∷◌, arith, ◌==◌, Bool-cases, any, count, bit, count-append, any-update_first, any-append,
  count-zero, count-positive,
}
use appchat_be.Common.Int.{ℤ, pos, ◌+ℤ◌, ltb_ℤ, int_laws}
use appchat_be.Vouchers.Authority.{
  HoldStatus, reserved, used, released, same_hold, Reservation, Voucher, has_token, is_at,
  in_status, is_live, admits, add_entry, on_offer, has_room, reserve, tombstone, to_status, at_hold,
  release_reserved, release_used, use_reserved, reverse_used, Step, reserving, burying,
  releasing_reserved, releasing_used, using, reversing, step, run,
}
use appchat_be.Vouchers.Moves.{
  IsCounted, one_more, same_pos, is_at-status, release_reserved-IsCounted, release_used-IsCounted,
  use_reserved-IsCounted, reverse_used-IsCounted,
}

-- Appending an entry whose token is new.
once-add_entry :
    (token user t : ℕ) (s : HoldStatus) (rs : List Reservation)
    → any (has_token token) rs ≡ false
    → count (has_token t) rs ≤ 1
    → count (has_token t) (add_entry token user s rs) ≤ 1
once-add_entry token user t s rs fresh h = elim (Bool-cases (token == t)) [
  | inr apart ↦ ground (
    arith,
    count-append (has_token t) rs (record { token = token; user_id = user; status = s } ∷ []),
  )
  | inl same ↦
      let e : token ≡ t = ground arith in
      let z : count (has_token t) rs ≡ 0 = rw (sym e) (count-zero (has_token token) rs fresh) in
      ground (
        arith,
        z,
        count-append (has_token t) rs (record { token = token; user_id = user; status = s } ∷ []),
      )
]

count-add_entry :
    (q : Reservation → Bool) (token user : ℕ) (s : HoldStatus) (rs : List Reservation)
    → count q (add_entry token user s rs)
      ≡ count q rs + bit (q (record { token = token; user_id = user; status = s }))
count-add_entry q token user s rs =
    ground (arith, count-append q rs (record { token = token; user_id = user; status = s } ∷ []))

tombstone-IsCounted :
    (small : Voucher → Bool) (token user : ℕ) (v : Voucher)
    → IsCounted v
    → IsCounted (tombstone small token user v)
unfolding tombstone
tombstone-IsCounted small token user v c = elim (Bool-cases (admits small token v)) [
  | inr refused ↦ rw refused c
  | inl taken ↦
      let n = λ (q : Reservation → Bool). count-add_entry q token user released v.reservations in
      rw taken (record {
        reserved_is = same_pos _ _ _ c.reserved_is (omega (arith, n (in_status reserved)));
        used_is = same_pos _ _ _ c.used_is (omega (arith, n (in_status used)));
        total = omega (arith, c.total, n (in_status reserved), n (in_status used));
        per_user = λ u. ground (arith, c.per_user u, n (is_live u));
        once = λ t. once-add_entry token user t released v.reservations (ground arith) (c.once t);
      })
]

room_total :
    (a b c : ℕ) (x y : ℤ) → x ≡ pos a → y ≡ pos b → ltb_ℤ (x +ℤ y) (pos c) ≡ true → suc (a + b) ≤ c
room_total a b c x y h k room =
    let e : x +ℤ y ≡ pos (a + b) = rw (h, k) (omega int_laws) in
    let room' : ltb_ℤ (pos (a + b)) (pos c) ≡ true = subst (λ t. ltb_ℤ t (pos c) ≡ true) e room in
    ground arith

reserve-IsCounted :
    (small : Voucher → Bool) (token user revision now : ℕ) (v : Voucher)
    → IsCounted v
    → IsCounted (reserve small token user revision now v)
unfolding reserve
reserve-IsCounted small token user revision now v c =
    elim (Bool-cases (on_offer revision now v && admits small token v && has_room user v)) [
      | inr refused ↦ rw refused c
      | inl taken ↦
          let n =
            λ (q : Reservation → Bool). count-add_entry q token user reserved v.reservations in
          let room : has_room user v ≡ true = ground arith in
          let fresh : any (has_token token) v.reservations ≡ false = ground arith in
          let quota = room_total _ _ v.total_limit _ _ c.reserved_is c.used_is (ground arith) in
          rw taken (record {
            reserved_is = one_more _ _ _ c.reserved_is (omega (arith, n (in_status reserved)));
            used_is = same_pos _ _ _ c.used_is (omega (arith, n (in_status used)));
            total = omega (arith, quota, n (in_status reserved), n (in_status used));
            per_user = λ u. ground (arith, c.per_user u, n (is_live u), room);
            once = λ t. once-add_entry token user t reserved v.reservations fresh (c.once t);
          })
    ]

step-IsCounted :
    (small : Voucher → Bool) (s : Step) (v : Voucher) → IsCounted v → IsCounted (step small s v)
unfolding step
step-IsCounted small (reserving token user revision now) v c =
    reserve-IsCounted small token user revision now v c
step-IsCounted small (burying token user) v c = tombstone-IsCounted small token user v c
step-IsCounted small (releasing_reserved token) v c = release_reserved-IsCounted token v c
step-IsCounted small (releasing_used token) v c = release_used-IsCounted token v c
step-IsCounted small (using token) v c = use_reserved-IsCounted token v c
step-IsCounted small (reversing token) v c = reverse_used-IsCounted token v c

-- However the updates of any number of purchases interleave, the voucher's counters count its
-- reservations, the total limit and the limit per user hold, and no token stands twice: they did
-- so before.
pub run-IsCounted :
    (small : Voucher → Bool) (ss : List Step) (v : Voucher)
    → IsCounted v
    → IsCounted (run small ss v)
unfolding run
run-IsCounted small [] v c = c
run-IsCounted small (s ∷ ss) v c =
    run-IsCounted small ss (step small s v) (step-IsCounted small s v c)

lost-at_hold :
    (t token : ℕ) (from to : HoldStatus) (rs : List Reservation)
    → same_hold from released ≡ false
    → any (is_at t released) rs ≡ true
    → any (is_at t released) (at_hold token from to rs) ≡ true
lost-at_hold t token from to rs live h =
    any-update_first (is_at token from) (is_at t released) (to_status to) rs
      (λ r e l.
        absurd (ground (arith, ap (λ s. same_hold s released) (is_at-status token from r e))))
      h

absent :
    (t : ℕ) (s : HoldStatus) (rs : List Reservation)
    → any (has_token t) rs ≡ false
    → any (is_at t s) rs ≡ false
absent t s [] h = refl
absent t s (r ∷ rs) h = ground (arith, absent t s rs)

one_here :
    (t : ℕ) (s : HoldStatus) (r : Reservation) (rs : List Reservation)
    → same_hold s released ≡ false
    → has_token t r ≡ true
    → any (has_token t) rs ≡ false
    → any (is_at t released) (r ∷ rs) ≡ true
    → any (is_at t s) (r ∷ rs) ≡ false
one_here t s r rs live here gone e =
    let is_released : is_at t released r ≡ true = ground (arith, absent t released rs gone) in
    let at : r.status ≡ released = is_at-status t released r is_released in
    elim (Bool-cases (is_at t s r)) [
      | inr other ↦ ground (arith, absent t s rs gone)
      | inl same ↦
          let wrong : same_hold s released ≡ true =
            ap (λ x. same_hold x released) (sym (is_at-status t s r same) ∙ at) in
          absurd (ground arith)
    ]

-- A token that was released, or refused by a tombstone, stays so: no later update reserves it or
-- counts it as used.
lost-step :
    (small : Voucher → Bool) (t : ℕ) (s : Step) (v : Voucher)
    → any (is_at t released) v.reservations ≡ true
    → any (is_at t released) (step small s v).reservations ≡ true
unfolding step reserve tombstone release_reserved release_used use_reserved reverse_used
lost-step small t (reserving token user revision now) v h = ground (
  arith,
  any-append (is_at t released) v.reservations
      (record { token = token; user_id = user; status = reserved } ∷ []),
)
lost-step small t (burying token user) v h = ground (
  arith,
  any-append (is_at t released) v.reservations
      (record { token = token; user_id = user; status = released } ∷ []),
)
lost-step small t (releasing_reserved token) v h =
    ground (arith, lost-at_hold t token reserved released v.reservations refl h)
lost-step small t (releasing_used token) v h =
    ground (arith, lost-at_hold t token used released v.reservations refl h)
lost-step small t (using token) v h =
    ground (arith, lost-at_hold t token reserved used v.reservations refl h)
lost-step small t (reversing token) v h =
    ground (arith, lost-at_hold t token used reserved v.reservations refl h)

lost-run :
    (small : Voucher → Bool) (t : ℕ) (ss : List Step) (v : Voucher)
    → any (is_at t released) v.reservations ≡ true
    → any (is_at t released) (run small ss v).reservations ≡ true
unfolding run
lost-run small t [] v h = h
lost-run small t (s ∷ ss) v h = lost-run small t ss (step small s v) (lost-step small t s v h)

-- Where a token stands at most once, it stands in one status.
one_status :
    (t : ℕ) (s : HoldStatus) (rs : List Reservation)
    → same_hold s released ≡ false
    → count (has_token t) rs ≤ 1
    → any (is_at t released) rs ≡ true
    → any (is_at t s) rs ≡ false
one_status t s [] live h e = refl
one_status t s (r ∷ rs) live h e = elim (Bool-cases (has_token t r)) [
  | inr apart ↦ ground (arith, one_status t s rs live)
  | inl here ↦ elim (Bool-cases (any (has_token t) rs)) [
    | inl again ↦ absurd (ground (arith, count-positive (has_token t) rs again))
    | inr gone ↦ one_here t s r rs live here gone e
  ]
]

-- Once a purchase's token is released, by a release or by the tombstone, no sequence of updates
-- ever makes it hold or use a quota again.
pub released-IsFinal :
    (small : Voucher → Bool) (t : ℕ) (ss : List Step) (v : Voucher)
    → IsCounted v
    → any (is_at t released) v.reservations ≡ true
    → (any (is_at t released) (run small ss v).reservations ≡ true)
      × (any (is_at t reserved) (run small ss v).reservations ≡ false)
      × (any (is_at t used) (run small ss v).reservations ≡ false)
released-IsFinal small t ss v c h =
    let once = (run-IsCounted small ss v c).once t in
    let lost = lost-run small t ss v h in
    (lost, one_status t reserved _ refl once lost, one_status t used _ refl once lost)
