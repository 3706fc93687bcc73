-- ===== src/Renewal/Charges.antt =====
-- What renewals in orders.service.ts take from the user's wallet.
use appchat_be.Common.{
  suc, ◌+◌, ◌*◌, none, ◌==◌, ℕ, ◌≡◌, refl, sym, ap, subst, ◌⊎◌, inl, inr, Bool, true, false, ◌&&◌,
  not, Option, some, List, arith, length, Text, ok, err, Bool-cases, Option-cases, Result-cases,
  >>=-eq-ok, throw_if-eq-ok, ok-injective,
}
use appchat_be.Common.Int.{ℤ, pos, ◌+ℤ◌, ◌-ℤ◌, ◌≤ℤ◌, ◌<ℤ◌, leb_ℤ, int_laws}
use appchat_be.Renewal.Order.{
  Error, Order, Answer, throws, renews, Provider, Store, Report, renewal_price, check_renewal,
  extended, logged, call_provider, renew_order_proxies, failure_of, finish_renewal, check_request,
  renew_by_user, provider_failed, is_gpnip, cannot_renew, whole_order_only, no_price,
  proxyseller_checks, no_money,
}

-- The order lasts until the date that the provider gave, or, where it gave none, so many days longer than
-- before, from 1970 on if it had no end; the days are added, the renewal is counted, and nothing
-- else changes.
pub record Extends (days : ℕ) (date : Option ℕ) (o o' : Order) : Type 0 where
  pub given : (t : ℕ) → date ≡ some t → o'.end_date ≡ some t
  pub longer :
      (t : ℕ) → date ≡ none → o.end_date ≡ some t → o'.end_date ≡ some (t + days * 86400000)
  pub without_end : date ≡ none → o.end_date ≡ none → o'.end_date ≡ some (days * 86400000)
  pub more_days : o'.duration_days ≡ o.duration_days + days
  pub counted : o'.renew_count ≡ suc o.renew_count
  pub rest :
      record o' {
        end_date = o.end_date;
        duration_days = o.duration_days;
        renew_count = o.renew_count;
      }
      ≡ o

extended-Extends :
    (days : ℕ) (date : Option ℕ) (o : Order) → Extends days date o (extended days date o)
extended-Extends days date o = record {
  given = λ t e. ground (arith, e);
  longer = λ t e old. ground (arith, e, old);
  without_end = λ e old. ground (arith, e, old);
  more_days = refl;
  counted = omega arith;
  rest = refl;
}

-- The contract of a charged call of the provider: the price was there, and it is taken for an
-- extension that is on record, or given back with the order as it was. The money is the user's from
-- before, with what other calls did meanwhile.
pub data Settles (o : Order) (days : ℕ) (price m : ℤ) (p : Provider) (s : Store)
    : Report → Order → Store → Type 0 where
  taken :
      (r : Report) (date success fail : Option ℕ) (o' : Order) (s' : Store)
      → p.answer ≡ renews date success fail
      → Extends days date o o'
      → r.refunded ≡ false
      → r.price ≡ price
      → failure_of r ≡ ok r
      → s'.money ≡ some (m -ℤ price +ℤ p.meanwhile)
      → s'.history ≡ logged price (m -ℤ price) o.id s.history
      → Settles o days price m p s r o' s'
  given_back :
      (r : Report) (s' : Store)
      → p.answer ≡ throws
      → r.refunded ≡ true
      → r.price ≡ price
      → failure_of r ≡ err provider_failed
      → s'.money ≡ some (m +ℤ p.meanwhile)
      → s'.history ≡ s.history
      → Settles o days price m p s r o s'

give_back : (m price change : ℤ) → m -ℤ price +ℤ change +ℤ price ≡ m +ℤ change
give_back m price change = omega int_laws

call_provider-Settles :
    (o : Order) (n days : ℕ) (price m : ℤ) (p : Provider) (s : Store) (a : Answer)
    → p.answer ≡ a
    → let r = call_provider o n days price (m -ℤ price) p.meanwhile s a in
      Settles o days price m p s r.0 r.1 r.2
call_provider-Settles o n days price m p s throws said =
    given_back _ _ said refl refl refl (ap some (give_back m price p.meanwhile)) refl
call_provider-Settles o n days price m p s (renews date success fail) said =
    taken _ date success fail _ _ said (extended-Extends days date o) refl refl (ground arith) refl
      refl

some_price : (cost : ℤ) → leb_ℤ cost (pos 0) ≡ false → pos 0 <ℤ cost
some_price cost h = ground arith

check_renewal-price :
    (o : Order) (ids : List Text) (days n : ℕ) (p : Provider) {price : ℤ}
    → check_renewal o ids days n p ≡ ok price
    → (price ≡ renewal_price o n days) × (pos 0 <ℤ price)
unfolding check_renewal
check_renewal-price o ids days n p {price} h =
    let cost = renewal_price o n days in
    let a = throw_if-eq-ok (not p.can_renew) cannot_renew _ h in
    let b =
      throw_if-eq-ok (is_gpnip o.partner.code && not (n == o.quantity)) whole_order_only _ a.1 in
    let c = throw_if-eq-ok (leb_ℤ cost (pos 0)) no_price _ b.1 in
    let d = >>=-eq-ok (proxyseller_checks o ids p) _ c.1 in
    let same : cost ≡ price = ok-injective d.2 in
    (sym same, subst (λ x. pos 0 <ℤ x) same (some_price cost c.0))

-- A renewal changes nothing but what other calls do, or charges the price: which is positive and which
-- the user has.
pub renew_order_proxies-cases :
    (o : Order) (ids : List Text) (days n : ℕ) (p : Provider) (s : Store)
    → ((e : Error) × (renew_order_proxies o ids days n p s ≡ (err e, s)))
      ⊎ ((r : Report) × (o' : Order) × (s' : Store) × (m : ℤ) × (renew_order_proxies o ids days n p
              s
            ≡ (ok (r, o'), s'))
          × (s.money ≡ some m)
          × (renewal_price o n days ≤ℤ m)
          × (pos 0 <ℤ renewal_price o n days)
          × Settles o days (renewal_price o n days) m p s r o' s')
unfolding renew_order_proxies
renew_order_proxies-cases o ids days n p s = elim (Result-cases (check_renewal o ids days n p)) [
  | inr (e, bad) ↦ inl (e, rw (bad, renew_order_proxies) refl)
  | inl (price, good) ↦
      let (same, some_cost) = check_renewal-price o ids days n p good in
      elim (Option-cases s.money) [
        | inl nobody ↦ inl (no_money, ground arith)
        | inr (m, known) ↦ elim (Bool-cases (leb_ℤ price m)) [
          | inr short ↦ inl (no_money, ground arith)
          | inl enough ↦
              let r = call_provider o (length ids) days price (m -ℤ price) p.meanwhile s p.answer in
              let cost = renewal_price o n days in
              inr (
                r.0,
                r.1,
                r.2,
                m,
                ground arith,
                known,
                subst (λ x. x ≤ℤ m) same (ground arith),
                subst (λ x. pos 0 <ℤ x) same some_cost,
                subst (λ x. Settles o days x m p s r.0 r.1 r.2) same
                    (call_provider-Settles o (length ids) days price m p s p.answer refl),
              )
        ]
      ]
]

renewal-Settles :
    (o : Order) (ids : List Text) (days : ℕ) (p : Provider) (s : Store)
    → let r = finish_renewal (renew_order_proxies o ids days o.quantity p s) o in
      ((e : Error) × (r ≡ (err e, o, s)))
      ⊎ ((f : Report) × (m : ℤ) × (r.0 ≡ failure_of f)
          × (s.money ≡ some m)
          × (renewal_price o o.quantity days ≤ℤ m)
          × (pos 0 <ℤ renewal_price o o.quantity days)
          × Settles o days (renewal_price o o.quantity days) m p s f r.1 r.2)
renewal-Settles o ids days p s = elim (renew_order_proxies-cases o ids days o.quantity p s) [
  | inl (e, same) ↦ rw same (inl (e, refl))
  | inr (f, o', s', m, same, known, enough, some_cost, settled) ↦
      rw same (inr (f, m, refl, known, enough, some_cost, settled))
]

-- Renewing one's own order: it is refused with nothing changed; or the provider is called for the whole
-- order and a positive price, price per unit times quantity times days, that the user had. If it
-- throws, the call fails, the order is as before and the price is given back; if it answers, the order
-- lasts until the date that it gave, or so many days longer, with the days added and the renewal
-- counted, and the price is taken and on record.
pub renew_by_user-Settles :
    (enabled : Bool) (user_id days now : ℕ) (ids : List Text) (p : Provider) (o : Order) (s : Store)
    → let r = renew_by_user enabled user_id days now ids p o s in
      ((e : Error) × (r ≡ (err e, o, s)))
      ⊎ ((f : Report) × (m : ℤ) × (r.0 ≡ failure_of f)
          × (s.money ≡ some m)
          × (renewal_price o o.quantity days ≤ℤ m)
          × (pos 0 <ℤ renewal_price o o.quantity days)
          × Settles o days (renewal_price o o.quantity days) m p s f r.1 r.2)
unfolding renew_by_user
renew_by_user-Settles enabled user_id days now ids p o s =
    elim (Result-cases (check_request enabled user_id days now ids o)) [
      | inr (e, bad) ↦ rw (bad, renew_by_user) (inl (e, refl))
      | inl (chosen, good) ↦ rw (good, renew_by_user) (renewal-Settles o chosen days p s)
    ]
