-- ===== src/Worker/ExpiryLaws.antt =====
-- What `checkExpiredOrders` of orders-expiration.scheduler.ts comes to.
use appchat_be.Common.{
  update_all-twice, update_all-agrees, append_assoc, append_nil, ℕ, zero, suc, ◌≤◌, ◌≡◌, refl, sym,
  ap, ◌∙◌, subst, inl, inr, Bool, true, false, ◌&&◌, ◌||◌, ◌==◌, Bool-cases, List, [], ◌∷◌, ◌++◌,
  update_all, contains, any-append, OneOf, length, if◌then◌else◌, arith,
}
use appchat_be.Worker.Expiry.{
  Lasting, Leased, Estate, is_expiring, expire, switch_off_proxy, expire_batch, split_at,
  expire_batches, expiring_ids, check_expired_orders, batch_size,
}

split_at-append : (n : ℕ) (ids : List ℕ) → (split_at n ids).0 ++ (split_at n ids).1 ≡ ids
split_at-append zero ids = refl
split_at-append (suc n) [] = refl
split_at-append (suc n) (i ∷ ids) = ap (λ js. i ∷ js) (split_at-append n ids)

length-split_at : (n : ℕ) (ids : List ℕ) → length (split_at n ids).1 ≤ length ids
length-split_at zero ids = omega arith
length-split_at (suc n) [] = omega arith
length-split_at (suc n) (i ∷ ids) = omega (arith, length-split_at n ids)

is_expiring-expire : (now : ℕ) (o : Lasting) → is_expiring now (expire o) ≡ false
is_expiring-expire now o = refl

stays : (o : Lasting) (c : Bool) → (if c && false then expire (expire o) else expire o) ≡ expire o
stays o true = refl
stays o false = refl

both : (a e : Bool) → a && e ≡ true → e ≡ true
both true e h = h
both false e h = absurd (ground arith)

spread : (a b e : Bool) → a && e || b && e ≡ (a || b) && e
spread true true true = refl
spread true true false = refl
spread true false true = refl
spread true false false = refl
spread false b e = refl

settled_test :
    (now : ℕ) (b : List ℕ) (o : Lasting) (t : Bool)
    → (t ≡ true → is_expiring now o ≡ true)
    → (let y = if t then expire o else o in
        if contains y.id b && is_expiring now y then expire y else y)
      ≡ (if t || contains o.id b && is_expiring now o then expire o else o)
settled_test now b o true h = stays o (contains o.id b)
settled_test now b o false h = refl

off_again :
    (p : Leased) (c : Bool)
    → (if c then switch_off_proxy (switch_off_proxy p) else switch_off_proxy p) ≡ switch_off_proxy p
off_again p true = refl
off_again p false = refl

off_twice :
    (b : List ℕ) (p : Leased) (t : Bool)
    → (let y = if t then switch_off_proxy p else p in
        if contains y.order_id b then switch_off_proxy y else y)
      ≡ (if t || contains p.order_id b then switch_off_proxy p else p)
off_twice b p true = off_again p (contains p.order_id b)
off_twice b p false = refl

-- The orders of two batches, as those of one.
orders_twice :
    (now : ℕ) (a b : List ℕ) (os : List Lasting)
    → update_all
        (λ o. contains o.id b && is_expiring now o)
        expire
        (update_all (λ o. contains o.id a && is_expiring now o) expire os)
      ≡ update_all (λ o. contains o.id (a ++ b) && is_expiring now o) expire os
orders_twice now a b os = update_all-twice expire _ _ _ os (λ o.
    settled_test now b o (contains o.id a && is_expiring now o)
      (both (contains o.id a) (is_expiring now o))
    ∙ ap (λ t. if t then expire o else o)
        (spread (contains o.id a) (contains o.id b) (is_expiring now o)
          ∙ ap (λ c. c && is_expiring now o) (sym (any-append (λ c. o.id == c) a b))))

proxies_twice :
    (a b : List ℕ) (ps : List Leased)
    → update_all
        (λ p. contains p.order_id b)
        switch_off_proxy
        (update_all (λ p. contains p.order_id a) switch_off_proxy ps)
      ≡ update_all (λ p. contains p.order_id (a ++ b)) switch_off_proxy ps
proxies_twice a b ps = update_all-twice switch_off_proxy _ _ _ ps (λ p.
    off_twice b p (contains p.order_id a)
    ∙ ap (λ t. if t then switch_off_proxy p else p) (sym (any-append (λ c. p.order_id == c) a b)))

never : (b : Bool) → b && false ≡ false
never true = refl
never false = refl

found_or : (b : Bool) {rest : Bool} → rest ≡ true → (if b then true else rest) ≡ true
found_or true h = refl
found_or false h = h

-- What the batches of some orders make of the books: as if all were one batch.
pub record AsOne (now : ℕ) (ids : List ℕ) (x y : Estate) : Type 0 where
  pub orders : y.orders ≡ update_all (λ o. contains o.id ids && is_expiring now o) expire x.orders
  pub proxies : y.proxies ≡ update_all (λ p. contains p.order_id ids) switch_off_proxy x.proxies
  pub handed_over : y.handed_over ≡ x.handed_over ++ ids

then_one :
    (now : ℕ) (a b : List ℕ) (x y : Estate)
    → AsOne now b (expire_batch now a x) y
    → AsOne now (a ++ b) x y
unfolding expire_batch
then_one now a b x y h = record {
  orders = h.orders ∙ orders_twice now a b x.orders;
  proxies = h.proxies ∙ proxies_twice a b x.proxies;
  handed_over = h.handed_over ∙ append_assoc x.handed_over a b;
}

none_left_orders :
    (now : ℕ) (os : List Lasting)
    → os ≡ update_all (λ o. contains o.id [] && is_expiring now o) expire os
none_left_orders now [] = refl
none_left_orders now (o ∷ os) = ap (λ ys. o ∷ ys) (none_left_orders now os)

none_left_proxies :
    (ps : List Leased) → ps ≡ update_all (λ p. contains p.order_id []) switch_off_proxy ps
none_left_proxies [] = refl
none_left_proxies (p ∷ ps) = ap (λ ys. p ∷ ys) (none_left_proxies ps)

nothing_left : (now : ℕ) (x : Estate) → AsOne now [] x x
nothing_left now x = record {
  orders = none_left_orders now x.orders;
  proxies = none_left_proxies x.proxies;
  handed_over = sym (append_nil x.handed_over);
}

expire_batches-AsOne :
    (fuel now size : ℕ) (ids : List ℕ) (x : Estate)
    → length ids ≤ fuel
    → AsOne now ids x (expire_batches fuel now (suc size) ids x)
unfolding expire_batches
expire_batches-AsOne zero now size [] x le = nothing_left now x
expire_batches-AsOne zero now size (i ∷ ids) x le = absurd (omega (arith, le))
expire_batches-AsOne (suc fuel) now size [] x le = nothing_left now x
expire_batches-AsOne (suc fuel) now size (i ∷ ids) x le =
    let r = split_at (suc size) (i ∷ ids) in
    subst (λ js. AsOne now js x (expire_batches fuel now (suc size) r.1 (expire_batch now r.0 x)))
      (split_at-append (suc size) (i ∷ ids))
      (then_one now r.0 r.1 x _ (
        expire_batches-AsOne fuel now size r.1 (expire_batch now r.0 x)
          (omega (arith, le, length-split_at size ids))))

same_first : (n : ℕ) (rest : Bool) → (if n == n then true else rest) ≡ true
same_first n rest = ground arith

contains-expiring_ids :
    (now : ℕ) (os : List Lasting) (o : Lasting)
    → OneOf o os
    → is_expiring now o ≡ true
    → contains o.id (expiring_ids now os) ≡ true
contains-expiring_ids now [] o m h = absurd m
contains-expiring_ids now (x ∷ os) o (inl e) h =
    subst (λ y. contains y.id (expiring_ids now (x ∷ os)) ≡ true) (sym e)
      (let here : is_expiring now x ≡ true = subst (λ y. is_expiring now y ≡ true) e h in
        rw here (same_first x.id _))
contains-expiring_ids now (x ∷ os) o (inr m) h = elim (Bool-cases (is_expiring now x)) [
  | inl hit ↦ rw hit (found_or (o.id == x.id) (contains-expiring_ids now os o m h))
  | inr miss ↦ rw miss (contains-expiring_ids now os o m h)
]

only_expiring :
    (now : ℕ) (os : List Lasting) (o : Lasting)
    → OneOf o os
    → contains o.id (expiring_ids now os) && is_expiring now o ≡ is_expiring now o
only_expiring now os o m = elim (Bool-cases (is_expiring now o)) [
  | inl hit ↦ rw (contains-expiring_ids now os o m hit) refl
  | inr miss ↦ rw miss (never (contains o.id (expiring_ids now os)))
]

-- A run of the expiry with nobody else about, in batches however many orders there are: exactly the orders that
-- are running or under way, past their end and, with a voucher, delivered and settled, are expired
-- and nothing else of any order changes; exactly the proxies of such an order's number are switched
-- off; and each such order is handed to the affiliate program once, in the order of the list.
pub check_expired_orders-AllAtOnce :
    (now : ℕ) (x : Estate)
    → ((check_expired_orders now x).orders ≡ update_all (is_expiring now) expire x.orders)
      × ((check_expired_orders now x).proxies
          ≡ update_all
              (λ p. contains p.order_id (expiring_ids now x.orders))
              switch_off_proxy
              x.proxies)
      × ((check_expired_orders now x).handed_over ≡ x.handed_over ++ expiring_ids now x.orders)
unfolding check_expired_orders
check_expired_orders-AllAtOnce now x =
    let ids = expiring_ids now x.orders in
    let h : AsOne now ids x (expire_batches (length ids) now batch_size ids x) =
      expire_batches-AsOne (length ids) now 99 ids x (omega arith) in
    (
      h.orders ∙ update_all-agrees expire _ (is_expiring now) x.orders (only_expiring now x.orders),
      h.proxies,
      h.handed_over,
    )
