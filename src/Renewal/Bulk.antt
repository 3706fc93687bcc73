-- ===== src/Renewal/Bulk.antt =====
-- `bulkRenewByUser` and `pruneUnrenewedProxies` of orders.service.ts. The provider names that are
-- hidden in the reports' errors are left out.
use appchat_be.Common.{
  ℕ, Bool, true, false, ◌&&◌, not, Option, none, some, List, [], ◌∷◌, ◌++◌, ◌==◌, if◌then◌else◌,
  any, filter, count, contains, length, map, update_first, update_all, or_else, Text, is_empty,
  Result, ok, err, ◌>>◌, throw_if,
}
use appchat_be.Common.Int.{ℤ, pos, ◌+ℤ◌, ltb_ℤ, leb_ℤ}
use appchat_be.Renewal.Order.{
  Error, purchase_disabled, bad_duration, nothing_selected, unknown_proxies, no_proxies,
  other_owner, no_price, no_money, bulk_unsupported, whole_order_only, Partner, gpnip, proxyseller,
  proxyv6, proxysieutoc, homeproxy, proxyvn, twoproxy, another, Order, Provider, Store, Status,
  renewed, partly, failed, Report, is_gpnip, check_order_renewable, renewal_price,
  renew_order_proxies,
}

pub record Proxy : Type 0 where
  pub id : ℕ
  pub order_id : Option ℕ
  pub provider_proxy_id : Text
  pub deleted : Bool

-- The collections.
pub record World : Type 0 where
  pub wallet : Store
  pub orders : List Order
  pub proxies : List Proxy

abbrev pub belongs : ℕ → Proxy → Bool
belongs order_id p = elim p.order_id [ none ↦ false | some id ↦ id == order_id ]

abbrev pub can_group : Proxy → Bool
can_group p =
    not (is_empty p.provider_proxy_id) && (elim p.order_id [ none ↦ false | some id ↦ true ])

-- `byOrder.get(order._id)`
abbrev pub group_of : ℕ → List Proxy → List Text
group_of order_id proxies =
    map (λ p. p.provider_proxy_id) (filter (λ p. can_group p && belongs order_id p) proxies)

-- `BULK_UNSUPPORTED_PARTNERS[code]`
abbrev pub is_unsupported : Partner → Bool
is_unsupported proxyv6 = true
is_unsupported proxysieutoc = true
is_unsupported gpnip = false
is_unsupported proxyseller = false
is_unsupported homeproxy = false
is_unsupported proxyvn = false
is_unsupported twoproxy = false
is_unsupported another = false

abbrev pub reason : ℕ → ℕ → List Text → Order → Option Error
reason user_id now list o =
    if not (o.user_id == user_id) then some other_owner else (elim (check_order_renewable now o) [
      | some e ↦ some e
      | none ↦
          if is_unsupported o.partner.code
          then some bulk_unsupported
          else if is_gpnip o.partner.code && not (length list == o.quantity)
          then some whole_order_only
          else none
    ])

abbrev pub refusal : Order → List Text → ℤ → Error → ℤ → Report
refusal o list price e balance = record {
  order_id = o.id;
  status = failed;
  selected = length list;
  success = 0;
  fail = length list;
  price = price;
  refunded = false;
  error = some e;
  balance_after = balance;
}

pub record Eligible : Type 0 where
  pub order : Order
  pub list : List Text
  pub price : ℤ

-- The loop that sorts the orders out: the refusals, and the orders to renew.
abbrev pub sort_out : ℕ → ℕ → ℕ → List Proxy → List Order → List Report × List Eligible
sort_out user_id days now proxies [] = ([], [])
sort_out user_id days now proxies (o ∷ os) =
    let rest = sort_out user_id days now proxies os in
    let list = group_of o.id proxies in
    let price = renewal_price o (length list) days in
    elim (reason user_id now list o) [
      | some e ↦ (refusal o list (pos 0) e (pos 0) ∷ rest.0, rest.1)
      | none ↦
          if leb_ℤ price (pos 0)
          then (refusal o list (pos 0) no_price (pos 0) ∷ rest.0, rest.1)
          else (rest.0, record { order = o; list = list; price = price } ∷ rest.1)
    ]

abbrev pub grand_total : List Eligible → ℤ
grand_total [] = pos 0
grand_total (e ∷ es) = e.price +ℤ grand_total es

-- The live proxies of the order that were not selected.
abbrev pub is_dropped : ℕ → List ℕ → Proxy → Bool
is_dropped order_id keep p = belongs order_id p && not p.deleted && not (contains p.id keep)

abbrev pub save_order : Order → List Order → List Order
save_order o orders = update_first (λ x. x.id == o.id) (λ x. o) orders

-- `pruneUnrenewedProxies`: the proxies that were not selected are deleted softly.
unfoldable pub prune : List Proxy → Order → World → World
prune selected o w =
    let keep = map (λ p. p.id) (filter (belongs o.id) selected) in
    let proxies = update_all (is_dropped o.id keep) (λ p. record p { deleted = true }) w.proxies in
    if any (is_dropped o.id keep) w.proxies
    then record w {
      proxies = proxies;
      orders =
          save_order
            (record o {
              quantity = count (λ p. belongs o.id p && not p.deleted) proxies;
              actual_quantity = none;
            })
            w.orders;
    }
    else w

pub record Tally : Type 0 where
  pub results : List Report
  pub charged : ℤ
  pub refunded : ℤ
  pub balance : ℤ

abbrev pub is_failed : Status → Bool
is_failed failed = true
is_failed renewed = false
is_failed partly = false

abbrev pub counted : Report → Tally → Tally
counted r t = record {
  results = t.results ++ r ∷ [];
  charged = if r.refunded then t.charged else t.charged +ℤ r.price;
  refunded = if r.refunded then t.refunded +ℤ r.price else t.refunded;
  balance = r.balance_after;
}

-- One order of the loop that renews; what was thrown before the charge is a report too.
abbrev pub after_renewal :
    Bool
    → List Proxy
    → Eligible
    → Tally
    → World
    → Result Error (Report × Order) × Store
    → Tally × World
after_renewal is_auto selected e t w (err x, s) = (
  record t { results = t.results ++ refusal e.order e.list e.price x t.balance ∷ [] },
  record w { wallet = s },
)
after_renewal is_auto selected e t w (ok (r, o), s) =
    let saved : World = record w { wallet = s; orders = save_order o w.orders } in
    (counted r t, if not is_auto && not (is_failed r.status) then prune selected o saved else saved)

unfoldable pub renew_each :
    Bool → List Proxy → ℕ → (ℕ → Provider) → List Eligible → Tally → World → Tally × World
unfolding renew_order_proxies prune
renew_each is_auto selected days providers [] t w = (t, w)
renew_each is_auto selected days providers (e ∷ es) t w =
    let r =
      renew_order_proxies e.order e.list days (length e.list) (providers e.order.id) w.wallet in
    let next = after_renewal is_auto selected e t w r in
    renew_each is_auto selected days providers es next.0 next.1

abbrev pub balance_of : Option ℤ → ℤ
balance_of none = pos 0
balance_of (some m) = m

abbrev pub first_error : List Report → Error
first_error [] = no_proxies
first_error (r ∷ rs) = or_else r.error no_proxies

abbrev pub renew_sorted :
    Bool
    → List Proxy
    → ℕ
    → (ℕ → Provider)
    → World
    → List Report × List Eligible
    → Result Error Tally × World
renew_sorted is_auto selected days providers w (refusals, []) = (err (first_error refusals), w)
renew_sorted is_auto selected days providers w (refusals, e ∷ es) =
    let start : Tally = record {
      results = refusals;
      charged = pos 0;
      refunded = pos 0;
      balance = balance_of w.wallet.money;
    } in
    if ltb_ℤ (balance_of w.wallet.money) (grand_total (e ∷ es))
    then (err no_money, w)
    else (let r = renew_each is_auto selected days providers (e ∷ es) start w in (ok r.0, r.1))

abbrev pub check_bulk : Bool → ℕ → ℕ → List Proxy → Result Error (Unit {0})
check_bulk enabled days chosen proxies =
    throw_if (not enabled) purchase_disabled
    >> (throw_if (days == 0) bad_duration
        >> (throw_if (chosen == 0) nothing_selected
            >> (throw_if (length proxies == 0) unknown_proxies
                >> throw_if (not (any can_group proxies)) no_proxies)))

-- The orders of the selected proxies.
abbrev pub sorted_orders : ℕ → ℕ → ℕ → List Proxy → World → List Report × List Eligible
sorted_orders user_id days now selected w =
    sort_out user_id days now selected
      (filter (λ o. any (λ p. can_group p && belongs o.id p) selected) w.orders)

-- `bulkRenewByUser`: `chosen` identifiers were given, which found the proxies `selected`.
unfoldable pub bulk_renew :
    Bool → Bool → ℕ → ℕ → ℕ → ℕ → List Proxy → (ℕ → Provider) → World → Result Error Tally × World
unfolding check_order_renewable renew_each
bulk_renew enabled is_auto user_id days now chosen selected providers w =
    elim (check_bulk enabled days chosen selected) [
      | err e ↦ (err e, w)
      | ok done ↦
          renew_sorted is_auto selected days providers w (sorted_orders user_id days now selected w)
    ]
