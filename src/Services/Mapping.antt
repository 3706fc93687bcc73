-- ===== src/Services/Mapping.antt =====
-- `validateProductMapping` and `resolveProduct` of src/services/product-mapping.ts. A text that is missing or
-- not a text is empty where the source asks for a nonempty one; what `JSON.parse` finds in the
-- template of a GPNIP service is an argument.
use appchat_be.Common.{
  ℕ, ◌+◌, ◌-◌, ◌*◌, Bool, true, false, ◌&&◌, ◌||◌, not, Option, none, some, List, [], ◌∷◌, leb,
  ◌==◌, if◌then◌else◌, all, find, length, or_else, is_some, max_safe, Text, trim, is_empty,
  to_lower, to_upper, eq_text, decimal, Result, ok, err, ◌>>=◌, ◌>>◌, throw_if,
}
use mathlib.Core.Option
use appchat_be.Orders.Pricing.{lookup_text}
use appchat_be.Renewal.Order.{
  Partner, gpnip, proxyseller, proxyv6, proxysieutoc, homeproxy, proxyvn, twoproxy, another,
}

pub data Refusal : Type 0 where
  bad_durations bad_choices bad_product bad_choice_durations : Refusal
  unknown_choice choice_required no_product bad_isp unsupported : Refusal

-- `ServiceIsp`; `duration_ids` as its entries.
pub record Choice : Type 0 where
  pub name : Text
  pub code : Text
  pub product_id : Option Text
  pub provider_isp : Option Text
  pub duration_ids : Option (List (Text × Text))

-- `body_id` is `packageId ?? id` of the parsed template, if it is there.
pub record MappedService : Type 0 where
  pub isp : Option (List Choice)
  pub duration_ids : Option (List (Text × Text))
  pub id_service : Text
  pub rotating : Bool
  pub body_id : Option Text

-- A product's identifier, or what a look-up in a table written as an object finds under a name that every object
-- inherits: a function or the prototype, not a text.
pub data ProductId : Type 0 where
  an_id : Text → ProductId
  inherited : ProductId

pub record Snapshot : Type 0 where
  pub product_id : ProductId
  pub provider_isp : Text
  pub selection : Option Text
  pub is_configured : Bool

abbrev pub rotating_1 : Text
rotating_1 =
    b'2' ∷ b'7' ∷ b'5' ∷ b'0' ∷ b'8' ∷ b'e' ∷ b'1' ∷ b'3' ∷ b'-' ∷ b'4' ∷ b'3' ∷ b'4' ∷ b'1' ∷ b'-'
    ∷ b'4' ∷ b'f' ∷ b'e' ∷ b'b' ∷ b'-' ∷ b'b' ∷ b'1' ∷ b'0' ∷ b'c' ∷ b'-' ∷ b'b' ∷ b'9' ∷ b'2'
    ∷ b'f' ∷ b'0' ∷ b'8' ∷ b'd' ∷ b'9' ∷ b'4' ∷ b'7' ∷ b'9' ∷ b'8' ∷ []

abbrev pub rotating_7 : Text
rotating_7 =
    b'3' ∷ b'2' ∷ b'b' ∷ b'7' ∷ b'7' ∷ b'2' ∷ b'3' ∷ b'6' ∷ b'-' ∷ b'7' ∷ b'8' ∷ b'a' ∷ b'e' ∷ b'-'
    ∷ b'4' ∷ b'e' ∷ b'9' ∷ b'a' ∷ b'-' ∷ b'9' ∷ b'1' ∷ b'c' ∷ b'6' ∷ b'-' ∷ b'e' ∷ b'a' ∷ b'c'
    ∷ b'1' ∷ b'3' ∷ b'5' ∷ b'2' ∷ b'd' ∷ b'9' ∷ b'9' ∷ b'4' ∷ b'5' ∷ []

abbrev pub rotating_30 : Text
rotating_30 =
    b'6' ∷ b'0' ∷ b'8' ∷ b'e' ∷ b'0' ∷ b'2' ∷ b'6' ∷ b'f' ∷ b'-' ∷ b'4' ∷ b'6' ∷ b'a' ∷ b'5' ∷ b'-'
    ∷ b'4' ∷ b'2' ∷ b'c' ∷ b'd' ∷ b'-' ∷ b'9' ∷ b'8' ∷ b'3' ∷ b'9' ∷ b'-' ∷ b'e' ∷ b'6' ∷ b'2'
    ∷ b'4' ∷ b'1' ∷ b'9' ∷ b'9' ∷ b'9' ∷ b'9' ∷ b'd' ∷ b'a' ∷ b'0' ∷ []

abbrev pub vnpt_id : Text
vnpt_id =
    b'a' ∷ b'b' ∷ b'7' ∷ b'3' ∷ b'4' ∷ b'a' ∷ b'd' ∷ b'e' ∷ b'-' ∷ b'8' ∷ b'b' ∷ b'c' ∷ b'6' ∷ b'-'
    ∷ b'4' ∷ b'a' ∷ b'7' ∷ b'0' ∷ b'-' ∷ b'b' ∷ b'7' ∷ b'8' ∷ b'3' ∷ b'-' ∷ b'd' ∷ b'9' ∷ b'b'
    ∷ b'3' ∷ b'1' ∷ b'd' ∷ b'7' ∷ b'd' ∷ b'f' ∷ b'3' ∷ b'6' ∷ b'c' ∷ []

abbrev pub viettel_id : Text
viettel_id =
    b'6' ∷ b'4' ∷ b'2' ∷ b'2' ∷ b'b' ∷ b'0' ∷ b'e' ∷ b'2' ∷ b'-' ∷ b'1' ∷ b'd' ∷ b'8' ∷ b'6' ∷ b'-'
    ∷ b'4' ∷ b'4' ∷ b'3' ∷ b'e' ∷ b'-' ∷ b'b' ∷ b'f' ∷ b'7' ∷ b'f' ∷ b'-' ∷ b'5' ∷ b'0' ∷ b'3'
    ∷ b'1' ∷ b'e' ∷ b'6' ∷ b'b' ∷ b'7' ∷ b'4' ∷ b'f' ∷ b'6' ∷ b'6' ∷ []

abbrev pub fpt_id : Text
fpt_id =
    b'c' ∷ b'9' ∷ b'4' ∷ b'5' ∷ b'8' ∷ b'4' ∷ b'f' ∷ b'b' ∷ b'-' ∷ b'6' ∷ b'0' ∷ b'a' ∷ b'c' ∷ b'-'
    ∷ b'4' ∷ b'f' ∷ b'2' ∷ b'6' ∷ b'-' ∷ b'8' ∷ b'2' ∷ b'f' ∷ b'8' ∷ b'-' ∷ b'd' ∷ b'3' ∷ b'd'
    ∷ b'c' ∷ b'1' ∷ b'e' ∷ b'4' ∷ b'2' ∷ b'5' ∷ b'1' ∷ b'6' ∷ b'9' ∷ []

abbrev pub vnpt_name : Text
vnpt_name = b'v' ∷ b'n' ∷ b'p' ∷ b't' ∷ []

abbrev pub viettel_name : Text
viettel_name = b'v' ∷ b'i' ∷ b'e' ∷ b't' ∷ b't' ∷ b'e' ∷ b'l' ∷ []

abbrev pub fpt_name : Text
fpt_name = b'f' ∷ b'p' ∷ b't' ∷ []

abbrev pub vnpt_upper : Text
vnpt_upper = b'V' ∷ b'N' ∷ b'P' ∷ b'T' ∷ []

abbrev pub viettel_upper : Text
viettel_upper = b'V' ∷ b'I' ∷ b'E' ∷ b'T' ∷ b'T' ∷ b'E' ∷ b'L' ∷ []

abbrev pub fpt_upper : Text
fpt_upper = b'F' ∷ b'P' ∷ b'T' ∷ []

abbrev pub homeproxy_upper : Text
homeproxy_upper = b'H' ∷ b'O' ∷ b'M' ∷ b'E' ∷ b'P' ∷ b'R' ∷ b'O' ∷ b'X' ∷ b'Y' ∷ []

abbrev pub nonempty : Text → Bool
nonempty s = not (is_empty (trim s))

abbrev pub is_digit : ℕ → Bool
is_digit c = leb b'0' c && leb c b'9'

abbrev pub value_of : ℕ → Text → ℕ
value_of n [] = n
value_of n (c ∷ s) = value_of (n * 10 + (c - b'0')) s

-- `/^(0|[1-9]\d*)$/`, and within the safe integers.
abbrev pub is_days : Text → Bool
is_days [] = false
is_days (c ∷ s) =
    is_digit c
    && all is_digit s
    && (not (c == b'0') || is_empty s)
    && leb (value_of 0 (c ∷ s)) max_safe

abbrev pub valid_entry : Text × Text → Bool
valid_entry (key, id) = is_days key && nonempty id

abbrev pub valid_ids : Option (List (Text × Text)) → Bool
valid_ids none = true
valid_ids (some ids) = all valid_entry ids

abbrev pub valid_text : Option Text → Bool
valid_text none = true
valid_text (some s) = nonempty s

-- The loop over the choices, with the codes that were seen.
unfoldable pub check_choices : List Text → List Choice → Result Refusal (Unit {0})
check_choices seen [] = ok tt
check_choices seen (c ∷ cs) =
    throw_if
      (not (nonempty c.name)
        || not (nonempty c.code)
        || not (all (λ s. not (eq_text s c.code)) seen))
      bad_choices
    >> (throw_if (not (valid_text c.product_id) || not (valid_text c.provider_isp)) bad_product
        >> (throw_if (not (valid_ids c.duration_ids)) bad_choice_durations
            >> check_choices (c.code ∷ seen) cs))

unfoldable pub validate_product_mapping : MappedService → Result Refusal (Unit {0})
validate_product_mapping s =
    throw_if (not (valid_ids s.duration_ids)) bad_durations >> check_choices [] (or_else s.isp [])

abbrev pub is_mapped : Choice → Bool
is_mapped c = is_some c.product_id || is_some c.duration_ids || is_some c.provider_isp

-- The choice with the code, if there is one, or else the unmapped one with the name.
abbrev pub code_or_name : Text → List Choice → Option Choice → Option Choice
code_or_name input cs (some c) = some c
code_or_name input cs none =
    if is_empty input then none else find (λ c. eq_text c.name input && not (is_mapped c)) cs

abbrev pub find_choice : Option Text → List Choice → Option Choice
find_choice none cs = none
find_choice (some input) cs = code_or_name input cs (find (λ c. eq_text c.code input) cs)

abbrev pub only_choice : Option Text → List Choice → Result Refusal (Option Choice)
only_choice input [] = ok none
only_choice input (c ∷ cs) =
    if not (is_empty (or_else input []))
    then err unknown_choice
    else if length cs == 0
    then ok (some c)
    else err choice_required

abbrev pub found_or_only :
    Option Text → List Choice → Option Choice → Result Refusal (Option Choice)
found_or_only input cs (some c) = ok (some c)
found_or_only input cs none = only_choice input cs

unfoldable pub pick_choice : Option Text → List Choice → Result Refusal (Option Choice)
pick_choice input cs = found_or_only input cs (find_choice input cs)

abbrev pub id_for : Option ℕ → Option (List (Text × Text)) → Option Text
id_for none ids = none
id_for (some days) none = none
id_for (some days) (some ids) = lookup_text (decimal days) ids

abbrev pub is_homeproxy : Partner → Bool
is_homeproxy homeproxy = true
is_homeproxy gpnip = false
is_homeproxy proxyseller = false
is_homeproxy proxyv6 = false
is_homeproxy proxysieutoc = false
is_homeproxy proxyvn = false
is_homeproxy twoproxy = false
is_homeproxy another = false

abbrev pub allowed_isp : Bool → Text → Bool
allowed_isp rotating isp =
    if rotating
    then eq_text (to_upper isp) homeproxy_upper
    else eq_text (to_upper isp) fpt_upper
      || eq_text (to_upper isp) vnpt_upper
      || eq_text (to_upper isp) viettel_upper

abbrev pub rotating_id : Option ℕ → Option Text
rotating_id none = none
rotating_id (some days) =
    if days == 1
    then some rotating_1
    else if days == 7
    then some rotating_7
    else if days == 30
    then some rotating_30
    else none

abbrev pub constructor_name : Text
constructor_name = b'c' ∷ b'o' ∷ b'n' ∷ b's' ∷ b't' ∷ b'r' ∷ b'u' ∷ b'c' ∷ b't' ∷ b'o' ∷ b'r' ∷ []

abbrev pub proto_name : Text
proto_name = b'_' ∷ b'_' ∷ b'p' ∷ b'r' ∷ b'o' ∷ b't' ∷ b'o' ∷ b'_' ∷ b'_' ∷ []

-- The names in lower case that every object inherits.
abbrev pub is_inherited : Text → Bool
is_inherited name = eq_text name constructor_name || eq_text name proto_name

-- `({ vnpt: ..., viettel: ..., fpt: ... }[isp.toLowerCase()])`
abbrev pub static_id : Text → Option ProductId
static_id isp =
    if eq_text (to_lower isp) vnpt_name
    then some (an_id vnpt_id)
    else if eq_text (to_lower isp) viettel_name
    then some (an_id viettel_id)
    else if eq_text (to_lower isp) fpt_name
    then some (an_id fpt_id)
    else if is_inherited (to_lower isp)
    then some inherited
    else none

-- The products of a HomeProxy service that configures none.
abbrev pub homeproxy_id : Bool → Text → Option ℕ → Result Refusal ProductId
homeproxy_id rotating isp days =
    elim (if rotating then Option.map an_id (rotating_id days) else static_id isp) [
      | none ↦ err unsupported
      | some p ↦ ok p
    ]

-- The product where nothing is configured; `product` is the service's own.
abbrev pub default_id : Partner → MappedService → Text → Option ℕ → Text → Result Refusal ProductId
default_id homeproxy s isp days product =
    if not (is_empty isp) || s.rotating
    then homeproxy_id s.rotating isp days
    else ok (an_id product)
default_id proxyvn s isp days product = ok (an_id isp)
default_id twoproxy s isp days product = ok (an_id isp)
default_id gpnip s isp days product = ok (an_id (or_else s.body_id product))
default_id proxyseller s isp days product = ok (an_id product)
default_id proxyv6 s isp days product = ok (an_id product)
default_id proxysieutoc s isp days product = ok (an_id product)
default_id another s isp days product = ok (an_id product)

abbrev pub snapshot : Text → Option Text → Bool → ProductId → Snapshot
snapshot isp selection configured product = record {
  product_id = product;
  provider_isp = isp;
  selection = selection;
  is_configured = configured;
}

abbrev pub or_product : Option Text → Option Text → Result Refusal Text
or_product (some p) q = ok p
or_product none (some q) = ok q
or_product none none = err no_product

-- A choice with a mapping of its own.
unfoldable pub resolve_mapped :
    MappedService → Choice → Option ℕ → Partner → Result Refusal Snapshot
resolve_mapped s c days provider =
    let isp = or_else c.provider_isp c.code in
    or_product (id_for days c.duration_ids) c.product_id >>= λ product.
    throw_if (is_homeproxy provider && not (allowed_isp s.rotating isp)) bad_isp
    >> ok (snapshot isp (some c.code) true (an_id product))

-- The service's product for the duration, or its own one and the provider's defaults.
unfoldable pub resolve_unmapped :
    MappedService → Text → Option Text → Option ℕ → Partner → Result Refusal Snapshot
resolve_unmapped s isp selection days provider =
    let product = or_else (id_for days s.duration_ids) [] in
    if not (is_empty product)
    then ok (snapshot isp selection true (an_id product))
    else (default_id provider s isp days (trim s.id_service) >>= λ p.
        ok (snapshot isp selection false p))

abbrev pub resolve_choice :
    MappedService → Option Text → Option ℕ → Partner → Option Choice → Result Refusal Snapshot
resolve_choice s input days provider none =
    resolve_unmapped s (or_else input []) input days provider
resolve_choice s input days provider (some c) =
    if is_mapped c
    then resolve_mapped s c days provider
    else resolve_unmapped s c.code (some c.code) days provider

unfoldable pub resolve_product :
    MappedService → Option Text → Option ℕ → Partner → Result Refusal Snapshot
resolve_product s input days provider =
    pick_choice input (or_else s.isp []) >>= resolve_choice s input days provider
