-- ===== src/Renewal/Order.antt =====
-- `checkOrderRenewable`, `validateProxysellerRenewal`, `renewOrderProxies`, `renewByUser` and
-- `renewByAdmin` of orders.service.ts. Money is in whole VND, times are milliseconds. What the provider
-- answers, and what other calls do to the user's money while it works, are arguments.
use appchat_be.Common.{
  ℕ, ◌+◌, ◌*◌, Bool, true, false, ◌&&◌, ◌||◌, not, Option, none, some, List, [], ◌∷◌, ltb, leb,
  ◌==◌, if◌then◌else◌, all, length, or_else, Text, trim, is_empty, to_lower, eq_text, all_apart,
  Result, ok, err, ◌>>◌, throw_if,
}
use appchat_be.Common.Int.{ℤ, pos, ◌+ℤ◌, ◌-ℤ◌, ◌*ℤ◌, leb_ℤ}
use appchat_be.Orders.Status.{OrderStatus, active, same_status}

pub data Error : Type 0 where
  purchase_disabled bad_duration no_order other_owner not_active partner_off no_partner_data : Error
  gpnip_by_time not_renewable no_proxies cannot_renew whole_order_only no_price : Error
  bad_proxy_ids provider_refuses no_money provider_failed : Error
  nothing_selected unknown_proxies bulk_unsupported : Error

pub data Partner : Type 0 where
  gpnip proxyseller proxyv6 proxysieutoc homeproxy proxyvn twoproxy another : Partner

-- The partner's document: whether it is on, whether it has a token and a code, and the code.
pub record PartnerData : Type 0 where
  pub status : Bool
  pub complete : Bool
  pub code : Partner

pub record Order : Type 0 where
  pub id : ℕ
  pub user_id : ℕ
  pub status : OrderStatus
  pub partner : PartnerData
  pub is_bandwidth : Bool
  pub allow_renew : Bool
  pub provider_order_id : Text
  pub proxyseller_type : Text
  pub id_service : Text
  pub end_date : Option ℕ
  pub price_per_unit : ℤ
  pub quantity : ℕ
  pub actual_quantity : Option ℕ
  pub duration_days : ℕ
  pub renew_count : ℕ

-- What `provider.renew` comes to: it throws, or gives a new end date perhaps, and how many proxies it
-- renewed and did not, where it says so.
pub data Answer : Type 0 where
  throws : Answer
  renews : Option ℕ → Option ℕ → Option ℕ → Answer

-- The provider: `capabilities.renew !== false`, whether `validateRenew` lets the call pass, the
-- answer, and the change that other calls make to the user's money meanwhile.
pub record Provider : Type 0 where
  pub can_renew : Bool
  pub accepts : Bool
  pub answer : Answer
  pub meanwhile : ℤ

-- A line of the wallet's history, of type RENEW and direction `out`.
pub record Log : Type 0 where
  pub amount : ℤ
  pub before : ℤ
  pub after : ℤ
  pub order_id : ℕ

pub record Store : Type 0 where
  pub money : Option ℤ
  pub history : List Log

abbrev pub is_gpnip : Partner → Bool
is_gpnip gpnip = true
is_gpnip proxyseller = false
is_gpnip proxyv6 = false
is_gpnip proxysieutoc = false
is_gpnip homeproxy = false
is_gpnip proxyvn = false
is_gpnip twoproxy = false
is_gpnip another = false

abbrev pub is_proxyseller : Partner → Bool
is_proxyseller proxyseller = true
is_proxyseller gpnip = false
is_proxyseller proxyv6 = false
is_proxyseller proxysieutoc = false
is_proxyseller homeproxy = false
is_proxyseller proxyvn = false
is_proxyseller twoproxy = false
is_proxyseller another = false

-- `order.end_date && end_date <= now`
abbrev pub has_ended : ℕ → Order → Bool
has_ended now o = elim o.end_date [ none ↦ false | some t ↦ leb t now ]

-- The reason why an order is not renewable, if there is one.
unfoldable pub check_order_renewable : ℕ → Order → Option Error
check_order_renewable now o =
    if not (same_status o.status active)
    then some not_active
    else if not o.partner.status
    then some partner_off
    else if not o.partner.complete
    then some no_partner_data
    else if is_gpnip o.partner.code
        && (o.is_bandwidth || is_empty o.provider_order_id || has_ended now o)
    then some gpnip_by_time
    else if not o.allow_renew
    then some not_renewable
    else none

-- `s.split(':')[0]`, if there is a colon.
abbrev pub before_colon : Text → Option Text
before_colon [] = none
before_colon (c ∷ s) =
    let rest = before_colon s in
    if c == b':' then some [] else elim rest [ none ↦ none | some t ↦ some (c ∷ t) ]

abbrev pub or_text : Text → Text → Text
or_text s t = if is_empty s then t else s

abbrev pub ipv4 : Text
ipv4 = b'i' ∷ b'p' ∷ b'v' ∷ b'4' ∷ []

abbrev pub ipv6 : Text
ipv6 = b'i' ∷ b'p' ∷ b'v' ∷ b'6' ∷ []

abbrev pub mix : Text
mix = b'm' ∷ b'i' ∷ b'x' ∷ []

abbrev pub mix_isp : Text
mix_isp = b'm' ∷ b'i' ∷ b'x' ∷ b'_' ∷ b'i' ∷ b's' ∷ b'p' ∷ []

abbrev pub proxyseller_kind : Order → Text
proxyseller_kind o = to_lower (
    or_text o.proxyseller_type
      (or_text (or_else (before_colon o.provider_order_id) o.id_service) ipv4))

-- The identifiers are there, none is blank, none stands twice.
abbrev pub are_ids : List Text → Bool
are_ids ids = not (length ids == 0) && all (λ id. not (is_empty (trim id))) ids && all_apart ids

unfoldable pub validate_proxyseller_renewal : Order → List Text → Result Error (Unit {0})
validate_proxyseller_renewal o ids =
    let kind = proxyseller_kind o in
    throw_if (not (are_ids ids)) bad_proxy_ids
    >> throw_if
        ((eq_text kind ipv6 || eq_text kind mix || eq_text kind mix_isp)
          && not (length ids == o.quantity))
        whole_order_only

abbrev pub renewal_price : Order → ℕ → ℕ → ℤ
renewal_price o charge_quantity duration_days =
    o.price_per_unit *ℤ (charge_quantity * duration_days)

unfoldable pub proxyseller_checks : Order → List Text → Provider → Result Error (Unit {0})
unfolding validate_proxyseller_renewal
proxyseller_checks o ids p =
    if is_proxyseller o.partner.code
    then validate_proxyseller_renewal o ids >> throw_if (not p.accepts) provider_refuses
    else ok tt

-- What `renewOrderProxies` checks before it takes money: the price.
unfoldable pub check_renewal : Order → List Text → ℕ → ℕ → Provider → Result Error ℤ
unfolding proxyseller_checks
check_renewal o ids duration_days charge_quantity p =
    let price = renewal_price o charge_quantity duration_days in
    throw_if (not p.can_renew) cannot_renew
    >> (throw_if (is_gpnip o.partner.code && not (charge_quantity == o.quantity)) whole_order_only
        >> (throw_if (leb_ℤ price (pos 0)) no_price >> (proxyseller_checks o ids p >> ok price)))

pub data Status : Type 0 where
  renewed partly failed : Status

pub record Report : Type 0 where
  pub order_id : ℕ
  pub status : Status
  pub selected : ℕ
  pub success : ℕ
  pub fail : ℕ
  pub price : ℤ
  pub refunded : Bool
  pub error : Option Error
  pub balance_after : ℤ

-- The date of the provider, or the old one and the days; an order without a date, `null` in the document,
-- counts from 1970: `new Date(null)`.
abbrev pub new_end : Order → ℕ → Option ℕ → Option ℕ
new_end o days (some date) = some date
new_end o days none = some (or_else o.end_date 0 + days * 86400000)

abbrev pub extended : ℕ → Option ℕ → Order → Order
extended days date o = record o {
  end_date = new_end o days date;
  duration_days = o.duration_days + days;
  renew_count = o.renew_count + 1;
}

abbrev pub logged : ℤ → ℤ → ℕ → List Log → List Log
logged price after order_id history =
    record { amount = price; before = after +ℤ price; after = after; order_id = order_id } ∷ history

-- After the money was taken, `left` being the user's money then.
abbrev pub call_provider : Order → ℕ → ℕ → ℤ → ℤ → ℤ → Store → Answer → Report × Order × Store
call_provider o selected days price left meanwhile s throws = (
  record {
    order_id = o.id;
    status = failed;
    selected = selected;
    success = 0;
    fail = selected;
    price = price;
    refunded = true;
    error = some provider_failed;
    balance_after = left +ℤ meanwhile +ℤ price;
  },
  o,
  record s { money = some (left +ℤ meanwhile +ℤ price) },
)
call_provider o selected days price left meanwhile s (renews date success fail) = (
  record {
    order_id = o.id;
    status = if ltb 0 (or_else fail 0) then partly else renewed;
    selected = selected;
    success = or_else success selected;
    fail = or_else fail 0;
    price = price;
    refunded = false;
    error = none;
    balance_after = left;
  },
  extended days date o,
  record { money = some (left +ℤ meanwhile); history = logged price left o.id s.history },
)

-- The money is taken if there is enough of it.
abbrev pub charge :
    Order → ℕ → ℕ → ℤ → Provider → Store → Option ℤ → Result Error (Report × Order) × Store
charge o selected days price p s none = (err no_money, s)
charge o selected days price p s (some m) =
    if leb_ℤ price m
    then (let r = call_provider o selected days price (m -ℤ price) p.meanwhile s p.answer in
        (ok (r.0, r.1), r.2))
    else (err no_money, s)

-- `renewOrderProxies`
unfoldable pub renew_order_proxies :
    Order → List Text → ℕ → ℕ → Provider → Store → Result Error (Report × Order) × Store
unfolding check_renewal
renew_order_proxies o ids days charge_quantity p s =
    elim (check_renewal o ids days charge_quantity p) [
      | err e ↦ (err e, s)
      | ok price ↦ charge o (length ids) days price p s s.money
    ]

-- The proxies that the provider knows: `provider_proxy_id` exists and is not empty.
abbrev pub known_ids : List Text → List Text
known_ids [] = []
known_ids (id ∷ ids) = if is_empty id then known_ids ids else id ∷ known_ids ids

abbrev pub failure_of : Report → Result Error Report
failure_of r = elim r.status [ renewed ↦ ok r | partly ↦ ok r | failed ↦ err provider_failed ]

abbrev pub finish_renewal :
    Result Error (Report × Order) × Store → Order → Result Error Report × Order × Store
finish_renewal (err e, s) o = (err e, o, s)
finish_renewal (ok (r, o'), s) o = (failure_of r, o', s)

abbrev pub check_request : Bool → ℕ → ℕ → ℕ → List Text → Order → Result Error (List Text)
check_request enabled user_id days now ids o =
    throw_if (not enabled) purchase_disabled
    >> (throw_if (days == 0) bad_duration
        >> (throw_if (not (o.user_id == user_id)) other_owner
            >> (elim (check_order_renewable now o) [
              | some e ↦ err e
              | none ↦ throw_if (length (known_ids ids) == 0) no_proxies >> ok (known_ids ids)
            ])))

-- `renewByUser` on the order that the identifier finds, with its proxies.
unfoldable pub renew_by_user :
    Bool → ℕ → ℕ → ℕ → List Text → Provider → Order → Store → Result Error Report × Order × Store
unfolding check_order_renewable renew_order_proxies
renew_by_user enabled user_id days now ids p o s =
    elim (check_request enabled user_id days now ids o) [
      | err e ↦ (err e, o, s)
      | ok chosen ↦ finish_renewal (renew_order_proxies o chosen days o.quantity p s) o
    ]
