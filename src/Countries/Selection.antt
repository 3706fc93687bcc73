-- ===== src/Countries/Selection.antt =====
-- `effective` and `select` of src/countries/country-policy.service.ts: the countries that a customer of a
-- service may choose, and the one that a purchase gets. The provider's coverage, the countries on
-- record and the cache's entry for the package are arguments, and so is the package, which
-- `resolveProduct` gives before.
use appchat_be.Common.{
  ℕ, ◌==◌, Bool, true, false, ◌&&◌, not, Option, none, some, List, [], ◌∷◌, map, any, filter, find,
  leb, ltb, length, first, if◌then◌else◌, or_else, is_some, Text, trim, to_upper, to_lower,
  is_empty, eq_text, Result, ok, err, ◌>>=◌,
}
use appchat_be.Countries.Policy.{
  Error, Given, absent, given, Source, inherit, manual, api, no_country, OptionBody, ConfigBody,
  CountryOption, Config, validate_country_config,
}

-- Where the countries come from; `legacy` where nothing says so.
pub data Origin : Type 0 where
  legacy by_hand covered nowhere : Origin

pub data Readiness : Type 0 where
  ready unavailable failed : Readiness

pub data Refusal : Type 0 where
  not_ready no_choice_here needs_country no_such_country no_provider_value : Refusal

-- The partner: its source and options, whether its adapter lets customers select, whether it has a token and
-- lists a package's countries, and whether it is ProxySeller.
pub record Supplier : Type 0 where
  pub source : Option Source
  pub options : List CountryOption
  pub can_select : Bool
  pub has_token : Bool
  pub lists : Bool
  pub is_proxyseller : Bool

pub record Offered : Type 0 where
  pub source : Option Source
  pub options : List CountryOption
  pub is_allowlist : Bool
  pub allowed : List Text
  pub country : Option CountryOption

-- An entry of the cache.
pub record Entry : Type 0 where
  pub expires : ℕ
  pub options : List CountryOption

-- The answer of `listCountriesForPackage`, `none` where it throws or is no list; a code that is no text is
-- `none`.
pub record Coverage : Type 0 where
  pub now : ℕ
  pub cached : Option Entry
  pub answer : Option (List (Option Text))

pub record Resolved : Type 0 where
  pub origin : Origin
  pub status : Readiness
  pub options : List CountryOption

pub record Chosen : Type 0 where
  pub origin : Origin
  pub code : Option Text
  pub provider_value : Option Text

abbrev pub origin_of : Option Source → Origin
origin_of none = legacy
origin_of (some inherit) = legacy
origin_of (some manual) = by_hand
origin_of (some api) = covered
origin_of (some no_country) = nowhere

abbrev pub partner_source : Option Supplier → Option Source
partner_source none = none
partner_source (some p) = p.source

abbrev pub effective_origin : Offered → Option Supplier → Origin
effective_origin s p = elim s.source [
  | none ↦ legacy
  | some k ↦ elim k [
    | inherit ↦ origin_of (partner_source p)
    | manual ↦ by_hand
    | api ↦ covered
    | no_country ↦ nowhere
  ]
]

abbrev pub is_inherited : Option Source → Bool
is_inherited none = false
is_inherited (some inherit) = true
is_inherited (some manual) = false
is_inherited (some api) = false
is_inherited (some no_country) = false

abbrev pub partner_options : Option Supplier → List CountryOption
partner_options none = []
partner_options (some p) = p.options

abbrev pub as_given : Option Text → Given Text
as_given none = absent
as_given (some t) = given t

abbrev pub as_body : CountryOption → Option OptionBody
as_body o = some (record {
  code = some o.code;
  name = as_given o.name;
  provider_value = as_given o.provider_value;
})

abbrev pub config_of : Given Source → List (Option OptionBody) → ConfigBody
config_of source options = record {
  country_source = source;
  country_options = given options;
  country_sales_mode = absent;
  country_allowlist = absent;
}

-- `[...new Set(iso_codes)]`
abbrev pub same_value : Option Text → Option Text → Bool
same_value none none = true
same_value none (some t) = false
same_value (some s) none = false
same_value (some s) (some t) = eq_text s t

unfoldable pub distinct : List (Option Text) → List (Option Text)
distinct [] = []
distinct (c ∷ cs) = c ∷ filter (λ d. not (same_value d c)) (distinct cs)

abbrev pub code_body : Option Text → Option OptionBody
code_body code = some (record { code = code; name = absent; provider_value = absent })

abbrev pub options_in : Result Error Config → Option (List CountryOption)
options_in (err e) = none
options_in (ok c) = some (or_else c.options [])

abbrev pub read_coverage : Option (List (Option Text)) → Option (List CountryOption)
read_coverage none = none
read_coverage (some codes) =
    options_in (validate_country_config false (config_of absent (map code_body (distinct codes))))

-- The cached countries while they last, or else the provider's.
abbrev pub covered_options : Coverage → Option (List CountryOption)
covered_options c = elim c.cached [
  | none ↦ read_coverage c.answer
  | some e ↦ if leb e.expires c.now then read_coverage c.answer else some e.options
]

abbrev pub manual_options : Offered → Option Supplier → Option (List CountryOption)
manual_options s p =
    let options = if is_inherited s.source then partner_options p else s.options in
    elim (validate_country_config false (config_of (given manual) (map as_body options))) [
      | err e ↦ none
      | ok c ↦ some options
    ]

-- The options by their origin; `none` where an error is caught.
unfoldable pub options_from :
    Offered → Option Supplier → Text → Coverage → Origin → Option (List CountryOption)
options_from s p package_id c legacy = elim s.country [
  | none ↦ some []
  | some o ↦ some (record o { code = to_upper o.code } ∷ [])
]
options_from s p package_id c nowhere = some []
options_from s p package_id c by_hand = elim p [
  | none ↦ none
  | some q ↦ if q.can_select then manual_options s (some q) else none
]
options_from s p package_id c covered = elim p [
  | none ↦ none
  | some q ↦
      if q.can_select && q.has_token && not (is_empty package_id) && q.lists
      then covered_options c
      else none
]

abbrev pub is_legacy : Origin → Bool
is_legacy legacy = true
is_legacy by_hand = false
is_legacy covered = false
is_legacy nowhere = false

abbrev pub is_nowhere : Origin → Bool
is_nowhere nowhere = true
is_nowhere legacy = false
is_nowhere by_hand = false
is_nowhere covered = false

abbrev pub allowed_options : Offered → Origin → List CountryOption → List CountryOption
allowed_options s k options =
    if not (is_legacy k) && s.is_allowlist
    then filter (λ o. any (λ c. eq_text c o.code) s.allowed) options
    else options

abbrev pub readiness : Origin → List CountryOption → Readiness
readiness k options =
    if not (is_nowhere k) && not (is_legacy k) && length options == 0 then unavailable else ready

abbrev pub resolved_with : Offered → Origin → Option (List CountryOption) → Resolved
resolved_with s k none = record { origin = k; status = failed; options = [] }
resolved_with s k (some options) =
    let left = allowed_options s k options in
    record { origin = k; status = readiness k left; options = left }

unfoldable pub resolve : Offered → Option Supplier → Text → Coverage → Resolved
resolve s p package_id c =
    let k = effective_origin s p in resolved_with s k (options_from s p package_id c k)

-- `requires_selection`
abbrev pub requires_selection : Resolved → Bool
requires_selection r =
    not (is_legacy r.origin) && not (is_nowhere r.origin) && ltb 1 (length r.options)

abbrev pub has_code : Text → CountryOption → Bool
has_code code o = eq_text o.code code

abbrev pub has_name : Text → CountryOption → Bool
has_name name o = elim o.name [ none ↦ false | some n ↦ eq_text (to_lower n) name ]

abbrev pub code_named : Text → List CountryOption → Option Text
code_named input options = elim (find (has_name (to_lower (trim input))) options) [
  | none ↦ none
  | some o ↦ some o.code
]

-- The code that an input means: itself, or that of a country on record (`known`), or of an option's name.
abbrev pub code_meant : Option Text → Text → List CountryOption → Option Text
code_meant known input options =
    if not (is_empty input) && not (any (has_code (to_upper (trim input))) options)
    then (elim known [ some code ↦ some (to_upper code) | none ↦ code_named input options ])
    else some (to_upper (trim input))

abbrev pub option_meant : Option Text → List CountryOption → Option CountryOption
option_meant none options = none
option_meant (some code) options = find (has_code code) options

abbrev pub selected : Option Text → Text → List CountryOption → Option CountryOption
selected known input options =
    if is_empty (trim input) && length options == 1
    then first options
    else option_meant (code_meant known input options) options

abbrev pub choose_option : Origin → Bool → Option CountryOption → Result Refusal Chosen
choose_option k proxyseller none = err no_such_country
choose_option k proxyseller (some o) =
    if proxyseller && is_empty (or_else o.provider_value [])
    then err no_provider_value
    else ok (record {
      origin = k;
      code = some o.code;
      provider_value = some (or_else o.provider_value o.code);
    })

abbrev pub is_proxyseller : Option Supplier → Bool
is_proxyseller none = false
is_proxyseller (some p) = p.is_proxyseller

abbrev pub is_ready : Readiness → Bool
is_ready ready = true
is_ready unavailable = false
is_ready failed = false

abbrev pub select_from :
    Option Text → Text → Option Supplier → Resolved → Result Refusal (Option Chosen)
select_from known input p r =
    if is_legacy r.origin
    then ok none
    else if not (is_ready r.status)
    then err not_ready
    else if is_nowhere r.origin
    then (if not (is_empty (trim input))
        then err no_choice_here
        else if is_proxyseller p
        then err needs_country
        else ok (some (record { origin = nowhere; code = none; provider_value = none })))
    else (choose_option r.origin (is_proxyseller p) (selected known input r.options) >>= λ chosen.
        ok (some chosen))

-- An input that is missing is empty.
unfoldable pub select :
    Offered
    → Option Supplier
    → Text
    → Coverage
    → Option Text
    → Text
    → Result Refusal (Option Chosen)
select s p package_id c known input =
    if is_some s.source then select_from known input p (resolve s p package_id c) else ok none
