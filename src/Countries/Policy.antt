-- ===== src/Countries/Policy.antt =====
-- `validateCountryConfig` of src/countries/country-policy.ts: the countries that a partner or a service
-- may sell. A value that is not a string is `none`; a field that is there and is not of its kind, null
-- included, is `malformed`.
use appchat_be.Common.{
  Bool, true, false, ◌&&◌, ◌||◌, not, Option, none, some, List, [], ◌∷◌, map, any, filter, length,
  ◌==◌, if◌then◌else◌, or_else, Text, trim, to_upper, is_empty, eq_text, Result, ok, err, ◌>>=◌,
  ◌>>◌, throw_if,
}
use appchat_be.Countries.Iso.{is_iso}

pub data Error : Type 0 where
  bad_source bad_code bad_options bad_option duplicate_options manual_without_options bad_sales_mode
        bad_allowlist missing_allowlist not_an_option :
      Error

-- A field of the request.
pub data Given {ℓ} (A : Type ℓ) : Type ℓ where
  absent malformed : Given A
  given : A → Given A

pub data Source : Type 0 where
  inherit manual api no_country : Source

pub data SalesMode : Type 0 where
  all_countries allowlist : SalesMode

pub record OptionBody : Type 0 where
  pub code : Option Text
  pub name : Given Text
  pub provider_value : Given Text

pub record ConfigBody : Type 0 where
  pub country_source : Given Source
  pub country_options : Given (List (Option OptionBody))
  pub country_sales_mode : Given SalesMode
  pub country_allowlist : Given (List (Option Text))

pub record CountryOption : Type 0 where
  pub code : Text
  pub name : Option Text
  pub provider_value : Option Text

-- What only a service has.
pub record Sales : Type 0 where
  pub mode : Option SalesMode
  pub allowed : Option (List Text)

pub record Config : Type 0 where
  pub source : Option Source
  pub options : Option (List CountryOption)
  pub sales : Option Sales

-- `normalizeIso` and the check of its result.
unfoldable pub iso : Option Text → Result Error Text
iso none = err bad_code
iso (some v) = let code = to_upper (trim v) in if is_iso code then ok code else err bad_code

abbrev pub is_malformed {ℓ} : {A : Type ℓ} → Given A → Bool
is_malformed absent = false
is_malformed malformed = true
is_malformed (given a) = false

-- `provider_value` is there and is no string, or is blank.
abbrev pub is_bad_value : Given Text → Bool
is_bad_value absent = false
is_bad_value malformed = true
is_bad_value (given v) = is_empty (trim v)

abbrev pub read_text : Given Text → Option Text
read_text absent = none
read_text malformed = none
read_text (given v) = some v

abbrev pub trimmed : Given Text → Option Text
trimmed absent = none
trimmed malformed = none
trimmed (given v) = some (trim v)

unfoldable pub read_option : Option OptionBody → Result Error CountryOption
read_option none = err bad_option
read_option (some o) =
    throw_if (is_malformed o.name || is_bad_value o.provider_value) bad_option
    >> (iso o.code >>= λ code. ok (record {
      code = code;
      name = read_text o.name;
      provider_value = trimmed o.provider_value;
    }))

unfoldable pub read_all {ℓ κ} :
    {A : Type ℓ} {B : Type κ} → (A → Result Error B) → List A → Result Error (List B)
read_all read [] = ok []
read_all read (x ∷ xs) = read x >>= λ y. read_all read xs >>= λ ys. ok (y ∷ ys)

-- `[...new Set(codes)]`
unfoldable pub unique : List Text → List Text
unique [] = []
unique (c ∷ cs) = c ∷ filter (λ d. not (eq_text d c)) (unique cs)

abbrev pub codes_of : List CountryOption → List Text
codes_of options = map (λ o. o.code) options

unfoldable pub read_source : Bool → Given Source → Result Error (Option Source)
read_source service absent = ok none
read_source service malformed = err bad_source
read_source service (given inherit) = if service then ok (some inherit) else err bad_source
read_source service (given manual) = ok (some manual)
read_source service (given api) = ok (some api)
read_source service (given no_country) = ok (some no_country)

unfoldable pub read_options :
    Given (List (Option OptionBody)) → Result Error (Option (List CountryOption))
read_options absent = ok none
read_options malformed = err bad_options
read_options (given os) = read_all read_option os >>= λ options.
    throw_if (not (length (unique (codes_of options)) == length options)) duplicate_options
    >> ok (some options)

abbrev pub is_manual : Option Source → Bool
is_manual none = false
is_manual (some inherit) = false
is_manual (some manual) = true
is_manual (some api) = false
is_manual (some no_country) = false

abbrev pub read_mode : Given SalesMode → Result Error (Option SalesMode)
read_mode absent = ok none
read_mode malformed = err bad_sales_mode
read_mode (given m) = ok (some m)

abbrev pub is_allowlist : Option SalesMode → Bool
is_allowlist none = false
is_allowlist (some all_countries) = false
is_allowlist (some allowlist) = true

unfoldable pub read_allowlist : Given (List (Option Text)) → Result Error (Option (List Text))
read_allowlist absent = ok none
read_allowlist malformed = err bad_allowlist
read_allowlist (given vs) = read_all iso vs >>= λ codes. ok (some (unique codes))

abbrev pub is_absent {ℓ} : {A : Type ℓ} → Option A → Bool
is_absent none = true
is_absent (some a) = false

-- A country of the list is none of the options.
abbrev pub is_outside : List CountryOption → List Text → Bool
is_outside options codes = any (λ c. not (any (λ o. eq_text o.code c) options)) codes

-- What is checked of a service only.
unfoldable pub read_sales :
    Option Source → Option (List CountryOption) → ConfigBody → Result Error Sales
read_sales source options body = read_mode body.country_sales_mode >>= λ mode.
    read_allowlist body.country_allowlist >>= λ allowed.
    throw_if (is_allowlist mode && is_absent allowed) missing_allowlist
    >> (throw_if
          (is_manual source
            && is_allowlist mode
            && is_outside (or_else options []) (or_else allowed []))
          not_an_option
        >> ok (record { mode = mode; allowed = allowed }))

abbrev pub read_service :
    Bool → Option Source → Option (List CountryOption) → ConfigBody → Result Error (Option Sales)
read_service false source options body = ok none
read_service true source options body = read_sales source options body >>= λ s. ok (some s)

unfoldable pub validate_country_config : Bool → ConfigBody → Result Error Config
validate_country_config service body = read_source service body.country_source >>= λ source.
    read_options body.country_options >>= λ options.
    throw_if (is_manual source && length (or_else options []) == 0) manual_without_options
    >> (read_service service source options body >>= λ sales.
        ok (record { source = source; options = options; sales = sales }))
