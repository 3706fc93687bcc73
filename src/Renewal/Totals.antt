-- ===== src/Renewal/Totals.antt =====
-- What `bulkRenewByUser` of orders.service.ts takes in total.
use appchat_be.Common.{
  ℕ, ◌≡◌, refl, sym, ap, ◌∙◌, subst, inl, inr, Bool, true, false, ◌&&◌, not, some, List, [], ◌∷◌,
  arith, if◌then◌else◌, length, Result, ok, err, Bool-cases, Result-cases,
}
use mathlib.Core.Option.{some-injective}
use appchat_be.Common.Int.{ℤ, pos, ◌+ℤ◌, ◌-ℤ◌, ltb_ℤ, int_laws, +ℤ_assoc, add_zero}
use appchat_be.Renewal.Order.{
  Error, Order, Provider, Store, Report, renewal_price, renew_order_proxies,
}
use appchat_be.Renewal.Charges.{Settles, taken, given_back, renew_order_proxies-cases}
use appchat_be.Renewal.Bulk.{
  Proxy, World, Eligible, Tally, prune, is_failed, after_renewal, renew_each, renew_sorted,
  sorted_orders, check_bulk, bulk_renew, balance_of, grand_total,
}

-- What other calls do to the money while the provider works, if it is called.
abbrev pub called : Result Error (Report × Order) → ℤ → ℤ
called (err x) change = pos 0
called (ok r) change = change

-- The same for all orders of the loop.
abbrev pub drift : ℕ → (ℕ → Provider) → List Eligible → Store → ℤ
drift days providers [] s = pos 0
drift days providers (e ∷ es) s =
    let p = providers e.order.id in
    let r = renew_order_proxies e.order e.list days (length e.list) p s in
    called r.0 p.meanwhile +ℤ drift days providers es r.1

prune-wallet :
    (selected : List Proxy) (o : Order) (w : World) → (prune selected o w).wallet ≡ w.wallet
unfolding prune
prune-wallet selected o w = ground arith

saved-wallet :
    (b : Bool) (selected : List Proxy) (o : Order) (w : World)
    → (if b then prune selected o w else w).wallet ≡ w.wallet
saved-wallet true selected o w = prune-wallet selected o w
saved-wallet false selected o w = refl

-- One order of the loop: the wallet is that of the renewal, and the tally rises by what it took.
record Balanced (m change : ℤ) (t : Tally) (r : Result Error (Report × Order) × Store)
    (next : Tally × World) : Type 0 where
  pub wallet : next.1.wallet ≡ r.1
  pub left : ℤ
  pub known : r.1.money ≡ some left
  pub sum : left +ℤ next.0.charged ≡ m +ℤ t.charged +ℤ called r.0 change

regroup :
    (m price change total : ℤ) → m -ℤ price +ℤ change +ℤ (total +ℤ price) ≡ m +ℤ total +ℤ change
regroup m price change total = omega int_laws

swap_last : (m change total : ℤ) → m +ℤ change +ℤ total ≡ m +ℤ total +ℤ change
swap_last m change total = omega int_laws

settled-Balanced :
    (is_auto : Bool) (selected : List Proxy) (days : ℕ) (p : Provider) (e : Eligible) (t : Tally)
    (w : World) (price m : ℤ) (f : Report) (o' : Order) (s' : Store)
    → Settles e.order days price m p w.wallet f o' s'
    → Balanced m p.meanwhile t
        (ok (f, o'), s')
        (after_renewal is_auto selected e t w (ok (f, o'), s'))
settled-Balanced is_auto selected days p e t w price m f _ s'
      (taken _ date _ _ _ _ said extends kept cost done money log) =
    record {
      wallet = saved-wallet (not is_auto && not (is_failed f.status)) selected _ _;
      left = m -ℤ price +ℤ p.meanwhile;
      known = money;
      sum = rw kept (rw cost (regroup m price p.meanwhile t.charged));
    }
settled-Balanced is_auto selected days p e t w price m f _ s'
      (given_back _ _ said back cost fails money log) =
    record {
      wallet = saved-wallet (not is_auto && not (is_failed f.status)) selected _ _;
      left = m +ℤ p.meanwhile;
      known = money;
      sum = rw back (swap_last m p.meanwhile t.charged);
    }

step-Balanced :
    (is_auto : Bool) (selected : List Proxy) (days : ℕ) (p : Provider) (e : Eligible) (t : Tally)
    (w : World) (m : ℤ)
    → w.wallet.money ≡ some m
    → let r = renew_order_proxies e.order e.list days (length e.list) p w.wallet in
      Balanced m p.meanwhile t r (after_renewal is_auto selected e t w r)
step-Balanced is_auto selected days p e t w m known =
    elim (renew_order_proxies-cases e.order e.list days (length e.list) p w.wallet) [
      | inl (x, same) ↦
          rw same (record {
            wallet = refl;
            left = m;
            known = known;
            sum = sym (add_zero (m +ℤ t.charged));
          })
      | inr (f, o', s', n, same, had, enough, some_cost, settled) ↦
          let n_eq_m : n ≡ m = some-injective _ _ (sym had ∙ known) in
          let cost = renewal_price e.order (length e.list) days in
          rw same (
            settled-Balanced is_auto selected days p e t w cost m f o' s'
              (subst (λ k. Settles e.order days cost k p w.wallet f o' s') n_eq_m settled))
    ]

renew_each-balanced :
    (is_auto : Bool) (selected : List Proxy) (days : ℕ) (providers : ℕ → Provider)
    (es : List Eligible) (t : Tally) (w : World) (m : ℤ)
    → w.wallet.money ≡ some m
    → let r = renew_each is_auto selected days providers es t w in
      (m' : ℤ) × (r.1.wallet.money ≡ some m')
      × (m' +ℤ r.0.charged ≡ m +ℤ t.charged +ℤ drift days providers es w.wallet)
unfolding renew_each
renew_each-balanced is_auto selected days providers [] t w m known =
    (m, known, sym (add_zero (m +ℤ t.charged)))
renew_each-balanced is_auto selected days providers (e ∷ es) t w m known =
    let p = providers e.order.id in
    let r = renew_order_proxies e.order e.list days (length e.list) p w.wallet in
    let next = after_renewal is_auto selected e t w r in
    let step = step-Balanced is_auto selected days p e t w m known in
    let (m', final, total) =
      renew_each-balanced is_auto selected days providers es next.0 next.1 step.left
        (ap (λ s. s.money) step.wallet ∙ step.known) in
    (
      m',
      final,
      total
          ∙ ap (λ s. step.left +ℤ next.0.charged +ℤ drift days providers es s) step.wallet
          ∙ ap (λ x. x +ℤ drift days providers es r.1) step.sum
          ∙ +ℤ_assoc (m +ℤ t.charged) (called r.0 p.meanwhile) (drift days providers es r.1),
    )

sorted-balanced :
    (is_auto : Bool) (selected : List Proxy) (days : ℕ) (providers : ℕ → Provider) (w : World)
    (sorted : List Report × List Eligible) (m : ℤ) {t : Tally} {w' : World}
    → w.wallet.money ≡ some m
    → renew_sorted is_auto selected days providers w sorted ≡ (ok t, w')
    → (m' : ℤ) × (w'.wallet.money ≡ some m')
      × (m' +ℤ t.charged ≡ m +ℤ drift days providers sorted.1 w.wallet)
sorted-balanced is_auto selected days providers w (refusals, []) m known h = absurd (ground arith)
sorted-balanced is_auto selected days providers w (refusals, e ∷ es) m {t} {w'} known h =
    elim (Bool-cases (ltb_ℤ (balance_of w.wallet.money) (grand_total (e ∷ es)))) [
      | inl short ↦ absurd (ground arith)
      | inr enough ↦
          let start : Tally = record {
            results = refusals;
            charged = pos 0;
            refunded = pos 0;
            balance = balance_of w.wallet.money;
          } in
          let (m', final, total) =
            renew_each-balanced is_auto selected days providers (e ∷ es) start w m known in
          let r = renew_each is_auto selected days providers (e ∷ es) start w in
          let tallied : r.0 ≡ t = ground arith in
          let left : r.1 ≡ w' = ground arith in
          (
            m',
            ap (λ v. v.wallet.money) (sym left) ∙ final,
            ap (λ x. m' +ℤ x.charged) (sym tallied)
                ∙ total
                ∙ ap (λ x. x +ℤ drift days providers (e ∷ es) w.wallet) (add_zero m),
          )
    ]

-- A bulk renewal takes from the user, over all orders and whatever the providers answer, exactly the
-- total that it reports as charged: the money afterwards and that total are the money from before
-- and what other calls did to it while the providers worked.
pub bulk_renew-Charges :
    (enabled is_auto : Bool) (user_id days now given : ℕ) (selected : List Proxy)
    (providers : ℕ → Provider) (w : World) (m : ℤ) {t : Tally} {w' : World}
    → w.wallet.money ≡ some m
    → bulk_renew enabled is_auto user_id days now given selected providers w ≡ (ok t, w')
    → (m' : ℤ) × (w'.wallet.money ≡ some m')
      × (m' +ℤ t.charged
          ≡ m +ℤ drift days providers (sorted_orders user_id days now selected w).1 w.wallet)
unfolding bulk_renew
bulk_renew-Charges enabled is_auto user_id days now given selected providers w m {t} {w'} known h =
    elim (Result-cases (check_bulk enabled days given selected)) [
      | inr (e, bad) ↦ absurd (ground arith)
      | inl (done, good) ↦
          sorted-balanced is_auto selected days providers w
            (sorted_orders user_id days now selected w) m {t = t} {w' = w'} known (ground arith)
    ]
