-- ===== src/Worker/Products.antt =====
-- Which of the provider's products an order is for, in `processOrder` of orders.worker.service.ts.
use appchat_be.Common.{
  ℕ, none, some, [], ◌∷◌, ◌==◌, if◌then◌else◌, Text, to_lower, eq_text, Result, ok, err,
}
use appchat_be.Renewal.Order.{
  Partner, gpnip, proxyseller, proxyv6, proxysieutoc, homeproxy, proxyvn, twoproxy, another,
}
use appchat_be.Worker.State.{Failure, bad_duration, bad_isp, Order}

abbrev pub rotating_day : Text
rotating_day =
    b'2' ∷ b'7' ∷ b'5' ∷ b'0' ∷ b'8' ∷ b'e' ∷ b'1' ∷ b'3' ∷ b'-' ∷ b'4' ∷ b'3' ∷ b'4' ∷ b'1' ∷ b'-'
    ∷ b'4' ∷ b'f' ∷ b'e' ∷ b'b' ∷ b'-' ∷ b'b' ∷ b'1' ∷ b'0' ∷ b'c' ∷ b'-' ∷ b'b' ∷ b'9' ∷ b'2'
    ∷ b'f' ∷ b'0' ∷ b'8' ∷ b'd' ∷ b'9' ∷ b'4' ∷ b'7' ∷ b'9' ∷ b'8' ∷ []

abbrev pub rotating_week : Text
rotating_week =
    b'3' ∷ b'2' ∷ b'b' ∷ b'7' ∷ b'7' ∷ b'2' ∷ b'3' ∷ b'6' ∷ b'-' ∷ b'7' ∷ b'8' ∷ b'a' ∷ b'e' ∷ b'-'
    ∷ b'4' ∷ b'e' ∷ b'9' ∷ b'a' ∷ b'-' ∷ b'9' ∷ b'1' ∷ b'c' ∷ b'6' ∷ b'-' ∷ b'e' ∷ b'a' ∷ b'c'
    ∷ b'1' ∷ b'3' ∷ b'5' ∷ b'2' ∷ b'd' ∷ b'9' ∷ b'9' ∷ b'4' ∷ b'5' ∷ []

abbrev pub rotating_month : Text
rotating_month =
    b'6' ∷ b'0' ∷ b'8' ∷ b'e' ∷ b'0' ∷ b'2' ∷ b'6' ∷ b'f' ∷ b'-' ∷ b'4' ∷ b'6' ∷ b'a' ∷ b'5' ∷ b'-'
    ∷ b'4' ∷ b'2' ∷ b'c' ∷ b'd' ∷ b'-' ∷ b'9' ∷ b'8' ∷ b'3' ∷ b'9' ∷ b'-' ∷ b'e' ∷ b'6' ∷ b'2'
    ∷ b'4' ∷ b'1' ∷ b'9' ∷ b'9' ∷ b'9' ∷ b'9' ∷ b'd' ∷ b'a' ∷ b'0' ∷ []

abbrev pub vnpt_product : Text
vnpt_product =
    b'a' ∷ b'b' ∷ b'7' ∷ b'3' ∷ b'4' ∷ b'a' ∷ b'd' ∷ b'e' ∷ b'-' ∷ b'8' ∷ b'b' ∷ b'c' ∷ b'6' ∷ b'-'
    ∷ b'4' ∷ b'a' ∷ b'7' ∷ b'0' ∷ b'-' ∷ b'b' ∷ b'7' ∷ b'8' ∷ b'3' ∷ b'-' ∷ b'd' ∷ b'9' ∷ b'b'
    ∷ b'3' ∷ b'1' ∷ b'd' ∷ b'7' ∷ b'd' ∷ b'f' ∷ b'3' ∷ b'6' ∷ b'c' ∷ []

abbrev pub viettel_product : Text
viettel_product =
    b'6' ∷ b'4' ∷ b'2' ∷ b'2' ∷ b'b' ∷ b'0' ∷ b'e' ∷ b'2' ∷ b'-' ∷ b'1' ∷ b'd' ∷ b'8' ∷ b'6' ∷ b'-'
    ∷ b'4' ∷ b'4' ∷ b'3' ∷ b'e' ∷ b'-' ∷ b'b' ∷ b'f' ∷ b'7' ∷ b'f' ∷ b'-' ∷ b'5' ∷ b'0' ∷ b'3'
    ∷ b'1' ∷ b'e' ∷ b'6' ∷ b'b' ∷ b'7' ∷ b'4' ∷ b'f' ∷ b'6' ∷ b'6' ∷ []

abbrev pub fpt_product : Text
fpt_product =
    b'c' ∷ b'9' ∷ b'4' ∷ b'5' ∷ b'8' ∷ b'4' ∷ b'f' ∷ b'b' ∷ b'-' ∷ b'6' ∷ b'0' ∷ b'a' ∷ b'c' ∷ b'-'
    ∷ b'4' ∷ b'f' ∷ b'2' ∷ b'6' ∷ b'-' ∷ b'8' ∷ b'2' ∷ b'f' ∷ b'8' ∷ b'-' ∷ b'd' ∷ b'3' ∷ b'd'
    ∷ b'c' ∷ b'1' ∷ b'e' ∷ b'4' ∷ b'2' ∷ b'5' ∷ b'1' ∷ b'6' ∷ b'9' ∷ []

abbrev pub vnpt : Text
vnpt = b'v' ∷ b'n' ∷ b'p' ∷ b't' ∷ []

abbrev pub viettel : Text
viettel = b'v' ∷ b'i' ∷ b'e' ∷ b't' ∷ b't' ∷ b'e' ∷ b'l' ∷ []

abbrev pub fpt : Text
fpt = b'f' ∷ b'p' ∷ b't' ∷ []

-- HomeProxy's rotating products, by the days.
unfoldable pub rotating_product : ℕ → Result Failure Text
rotating_product days =
    if days == 1
    then ok rotating_day
    else if days == 7
    then ok rotating_week
    else if days == 30
    then ok rotating_month
    else err bad_duration

-- HomeProxy's static products, by the internet provider.
unfoldable pub static_product : Text → Result Failure Text
static_product isp =
    if eq_text (to_lower isp) vnpt
    then ok vnpt_product
    else if eq_text (to_lower isp) viettel
    then ok viettel_product
    else if eq_text (to_lower isp) fpt
    then ok fpt_product
    else err bad_isp

abbrev pub product_by_code : Partner → Text → Order → Result Failure Text
product_by_code homeproxy id_service o =
    if o.rotating then rotating_product o.duration_days else static_product o.isp
product_by_code proxyvn id_service o = ok o.isp
product_by_code twoproxy id_service o = ok o.isp
product_by_code gpnip id_service o = ok id_service
product_by_code proxyseller id_service o = ok id_service
product_by_code proxyv6 id_service o = ok id_service
product_by_code proxysieutoc id_service o = ok id_service
product_by_code another id_service o = ok id_service

-- The mapped product, if the order has one, or else the one of the partner's code.
unfoldable pub product : Partner → Text → Order → Result Failure Text
product code id_service o = elim o.mapped_product [
  | none ↦ product_by_code code id_service o
  | some p ↦ ok p
]
