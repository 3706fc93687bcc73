-- ===== src/Countries/Tests.antt =====
-- A service's countries, for src/countries/country-policy.ts.
use appchat_be.Common.{
  any, eq_text, false, ◌≡◌, refl, true, some, none, [], ◌∷◌, Text, trim, to_upper, ok, err,
}
use appchat_be.Countries.Iso.{iso_codes}
use appchat_be.Countries.Selection.{
  Supplier, Offered, Coverage, by_hand, has_code, is_ready, options_from, resolve, select,
}
use appchat_be.Countries.SelectionLaws.{select-IsOffered}
use appchat_be.Countries.Policy.{
  absent, given, inherit, manual, allowlist, OptionBody, ConfigBody, Config, iso, read_option,
  read_all, unique, read_source, read_options, read_allowlist, read_sales, validate_country_config,
  not_an_option,
}
use appchat_be.Countries.PolicyLaws.{IsSound, validate_country_config-IsSound}

abbrev vietnam : Text
vietnam = b'V' ∷ b'N' ∷ []

abbrev japan : Text
japan = b'J' ∷ b'P' ∷ []

abbrev option_of : Text → OptionBody
option_of code = record { code = some code; name = absent; provider_value = given (32 ∷ code) }

abbrev a_service : ConfigBody
a_service = record {
  country_source = given manual;
  country_options = given (some (option_of (b'v' ∷ b'n' ∷ 32 ∷ [])) ∷ some (option_of japan) ∷ []);
  country_sales_mode = given allowlist;
  country_allowlist = given (some japan ∷ some (b'j' ∷ b'p' ∷ []) ∷ []);
}

abbrev stored_config : Config
stored_config = record {
  source = some manual;
  options = some (
      record { code = vietnam; name = none; provider_value = some (b'v' ∷ b'n' ∷ []) }
      ∷ record { code = japan; name = none; provider_value = some japan }
      ∷ []);
  sales = some (record { mode = some allowlist; allowed = some (japan ∷ []) });
}

accepted : validate_country_config true a_service ≡ ok stored_config
unfolding validate_country_config read_source read_options read_all read_option unique read_sales
    read_allowlist iso iso_codes trim to_upper
accepted = refl

validate_country_config-IsSound_example : IsSound true stored_config
validate_country_config-IsSound_example =
    validate_country_config-IsSound true a_service {c = stored_config} accepted

-- Germany is assigned, but not one of the options.
foreign :
    validate_country_config true
      (record a_service { country_allowlist = given (some (b'D' ∷ b'E' ∷ []) ∷ []) })
    ≡ err not_an_option
unfolding validate_country_config read_source read_options read_all read_option unique read_sales
    read_allowlist iso iso_codes trim to_upper
foreign = refl

abbrev vn : Text
vn = b'V' ∷ b'N' ∷ []

abbrev a_partner : Supplier
a_partner = record {
  source = some manual;
  options =
      record { code = vn; name = none; provider_value = none }
      ∷ record { code = b'U' ∷ b'S' ∷ []; name = none; provider_value = none }
      ∷ [];
  can_select = true;
  has_token = true;
  lists = false;
  is_proxyseller = false;
}

abbrev an_offer : Offered
an_offer = record {
  source = some inherit;
  options = [];
  is_allowlist = true;
  allowed = vn ∷ [];
  country = none;
}

abbrev no_coverage : Coverage
no_coverage = record { now = 0; cached = none; answer = none }

-- One country is left by the allowlist, and the customer's input is empty.
the_only_one :
    select an_offer (some a_partner) [] no_coverage none []
    ≡ ok (some (record { origin = by_hand; code = some vn; provider_value = some vn }))
unfolding select resolve options_from validate_country_config read_source read_options read_all
    read_option unique iso iso_codes to_upper trim
the_only_one = refl

select-IsOffered_example :
    (any (has_code vn) (resolve an_offer (some a_partner) [] no_coverage).options ≡ true)
    × (is_ready (resolve an_offer (some a_partner) [] no_coverage).status ≡ true)
    × (true ≡ true → any (λ d. eq_text d vn) (vn ∷ []) ≡ true)
select-IsOffered_example =
    select-IsOffered an_offer (some a_partner) [] no_coverage none []
      (record { origin = by_hand; code = some vn; provider_value = some vn }) vn the_only_one refl
