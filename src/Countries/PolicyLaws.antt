-- ===== src/Countries/PolicyLaws.antt =====
-- On `validateCountryConfig` of src/countries/country-policy.ts.
use appchat_be.Common.{
  ◌≤◌, ◌≡◌, refl, ap, ◌∙◌, sym, subst, inl, inr, Bool, true, false, ◌&&◌, not, Option, none, some,
  List, [], ◌∷◌, all, filter, arith, length, ◌==◌, or_else, Text, trim, to_upper, eq_text,
  all_apart, Result, ok, Bool-cases, >>=-eq-ok, throw_if-eq-ok, ok-injective,
}
use mathlib.Core.Option.{some-injective}
use appchat_be.Countries.Iso.{is_iso}
use appchat_be.Countries.Policy.{
  Error, Given, absent, malformed, given, Source, SalesMode, inherit, manual, api, no_country,
  OptionBody, ConfigBody, CountryOption, Sales, Config, iso, read_option, read_all, unique,
  codes_of, read_source, read_options, is_manual, read_mode, is_allowlist, read_allowlist,
  is_absent, is_outside, read_sales, read_service, validate_country_config, bad_option,
  manual_without_options, missing_allowlist, not_an_option, duplicate_options,
}

length-filter : (p : Text → Bool) (cs : List Text) → length (filter p cs) ≤ length cs
length-filter p [] = omega arith
length-filter p (c ∷ cs) = ground (arith, length-filter p cs)

length-unique : (cs : List Text) → length (unique cs) ≤ length cs
unfolding unique
length-unique [] = omega arith
length-unique (c ∷ cs) =
    omega (arith, length-unique cs, length-filter (λ d. not (eq_text d c)) (unique cs))

filter-keeps_all :
    (p : Text → Bool) (cs : List Text) → length (filter p cs) ≡ length cs → all p cs ≡ true
filter-keeps_all p [] h = refl
filter-keeps_all p (c ∷ cs) h = ground (arith, length-filter p cs, filter-keeps_all p cs)

all-eq_filter : (p : Text → Bool) (cs : List Text) → all p cs ≡ true → filter p cs ≡ cs
all-eq_filter p [] h = refl
all-eq_filter p (c ∷ cs) h = ground (arith, all-eq_filter p cs)

all-filter : (p q : Text → Bool) (cs : List Text) → all q cs ≡ true → all q (filter p cs) ≡ true
all-filter p q [] h = refl
all-filter p q (c ∷ cs) h = ground (arith, all-filter p q cs)

all-filter_self : (p : Text → Bool) (cs : List Text) → all p (filter p cs) ≡ true
all-filter_self p [] = refl
all-filter_self p (c ∷ cs) = ground (arith, all-filter_self p cs)

filter-apart :
    (p : Text → Bool) (cs : List Text) → all_apart cs ≡ true → all_apart (filter p cs) ≡ true
filter-apart p [] h = refl
filter-apart p (c ∷ cs) h =
    ground (arith, filter-apart p cs, all-filter p (λ d. not (eq_text d c)) cs)

unique-apart : (cs : List Text) → all_apart (unique cs) ≡ true
unfolding unique
unique-apart [] = refl
unique-apart (c ∷ cs) = ground (
  arith,
  all-filter_self (λ d. not (eq_text d c)) (unique cs),
  filter-apart (λ d. not (eq_text d c)) (unique cs) (unique-apart cs),
)

all-unique : (q : Text → Bool) (cs : List Text) → all q cs ≡ true → all q (unique cs) ≡ true
unfolding unique
all-unique q [] h = refl
all-unique q (c ∷ cs) h =
    ground
      (arith, all-filter (λ d. not (eq_text d c)) q (unique cs) (all-unique q cs (ground arith)))

-- Codes of which none is dropped are apart.
unique-eq : (cs : List Text) → length (unique cs) ≡ length cs → unique cs ≡ cs
unfolding unique
unique-eq [] h = refl
unique-eq (c ∷ cs) h =
    let p : Text → Bool = λ d. not (eq_text d c) in
    let least = length-filter p (unique cs) in
    let most = length-unique cs in
    let kept : length (filter p (unique cs)) ≡ length (unique cs) = omega (arith, least, most, h) in
    let full : length (unique cs) ≡ length cs = omega (arith, least, most, h) in
    ap (λ ds. c ∷ ds)
      (all-eq_filter p (unique cs) (filter-keeps_all p (unique cs) kept) ∙ unique-eq cs full)

read_all-all {ℓ κ} :
    {A : Type ℓ} {B : Type κ} (read : A → Result Error B) (p : B → Bool)
    → ((x : A) (y : B) → read x ≡ ok y → p y ≡ true)
    → (xs : List A) {ys : List B} → read_all read xs ≡ ok ys
    → all p ys ≡ true
unfolding read_all
read_all-all read p good [] h = rw (sym (ok-injective h)) refl
read_all-all read p good (x ∷ xs) h =
    let (y, first, h₁) = >>=-eq-ok (read x) _ h in
    let (ys, rest, h₂) = >>=-eq-ok (read_all read xs) _ h₁ in
    let ih = read_all-all read p good xs rest in
    let hit = good x y first in subst (λ zs. all p zs ≡ true) (ok-injective h₂) (ground arith)

iso-IsIso : (v : Option Text) (c : Text) → iso v ≡ ok c → is_iso c ≡ true
unfolding iso
iso-IsIso none c h = cc
iso-IsIso (some v) c h = elim (Bool-cases (is_iso (to_upper (trim v)))) [
  | inl known ↦ ground arith
  | inr unknown ↦ absurd (ground arith)
]

read_option-IsIso :
    (o : Option OptionBody) (r : CountryOption) → read_option o ≡ ok r → is_iso r.code ≡ true
unfolding read_option
read_option-IsIso none r h = cc
read_option-IsIso (some o) r h =
    let s = throw_if-eq-ok _ bad_option _ h in
    let (code, known, made) = >>=-eq-ok (iso o.code) _ s.1 in
    subst (λ r. is_iso r.code ≡ true) (ok-injective made) (iso-IsIso o.code code known)

all-codes :
    (p : Text → Bool) (os : List CountryOption)
    → all (λ o. p o.code) os ≡ true
    → all p (codes_of os) ≡ true
all-codes p [] h = refl
all-codes p (o ∷ os) h = ground (arith, all-codes p os)

length-codes : (os : List CountryOption) → length (codes_of os) ≡ length os
length-codes [] = refl
length-codes (o ∷ os) = ground (arith, length-codes os)

-- The codes are assigned, and none stands twice.
abbrev pub AreCodes : List Text → Type 0
AreCodes cs = (all is_iso cs ≡ true) × (all_apart cs ≡ true)

read_options-AreCodes :
    (g : Given (List (Option OptionBody))) {r : Option (List CountryOption)}
    → read_options g ≡ ok r
    → AreCodes (codes_of (or_else r []))
unfolding read_options
read_options-AreCodes absent h =
    subst (λ r. AreCodes (codes_of (or_else r []))) (ok-injective h) (refl, refl)
read_options-AreCodes malformed h = cc
read_options-AreCodes (given os) h =
    let (options, made, h₁) = >>=-eq-ok (read_all read_option os) _ h in
    let (same, h₂) =
      throw_if-eq-ok (not (length (unique (codes_of options)) == length options)) duplicate_options
        _ h₁ in
    let codes = codes_of options in
    let full : length (unique codes) ≡ length codes = ground (arith, same, length-codes options) in
    let known = read_all-all read_option (λ o. is_iso o.code) read_option-IsIso os made in
    subst (λ r. AreCodes (codes_of (or_else r []))) (ok-injective h₂)
      (
        all-codes is_iso options known,
        subst (λ cs. all_apart cs ≡ true) (unique-eq codes full) (unique-apart codes),
      )

read_allowlist-AreCodes :
    (g : Given (List (Option Text))) {r : Option (List Text)}
    → read_allowlist g ≡ ok r
    → AreCodes (or_else r [])
unfolding read_allowlist
read_allowlist-AreCodes absent h =
    subst (λ r. AreCodes (or_else r [])) (ok-injective h) (refl, refl)
read_allowlist-AreCodes malformed h = cc
read_allowlist-AreCodes (given vs) h =
    let (codes, made, h₁) = >>=-eq-ok (read_all iso vs) _ h in
    subst (λ r. AreCodes (or_else r [])) (ok-injective h₁)
      (all-unique is_iso codes (read_all-all iso is_iso iso-IsIso vs made), unique-apart codes)

read_source-own :
    (g : Given Source) {r : Option Source} → read_source false g ≡ ok r → (r ≡ some inherit) → ⊥
unfolding read_source
read_source-own absent h e = cc
read_source-own malformed h e = cc
read_source-own (given inherit) h e = cc
read_source-own (given manual) h e = cc
read_source-own (given api) h e = cc
read_source-own (given no_country) h e = cc

-- What a service may sell of the options.
pub record SellsWithin (source : Option Source) (options : List CountryOption) (s : Sales)
    : Type 0 where
  pub codes : AreCodes (or_else s.allowed [])
  pub listed : is_allowlist s.mode ≡ true → is_absent s.allowed ≡ false
  pub within :
      is_manual source ≡ true
      → is_allowlist s.mode ≡ true
      → is_outside options (or_else s.allowed []) ≡ false

pub record IsSound (service : Bool) (c : Config) : Type 0 where
  pub codes : AreCodes (codes_of (or_else c.options []))
  pub manual_options : is_manual c.source ≡ true → 1 ≤ length (or_else c.options [])
  pub own_source : service ≡ false → c.source ≡ some inherit → ⊥
  pub sales : (s : Sales) → c.sales ≡ some s → SellsWithin c.source (or_else c.options []) s
  pub has_sales : is_absent c.sales ≡ not service

unlisted :
    (mode : Option SalesMode) (allowed : Option (List Text))
    → (is_allowlist mode && is_absent allowed) ≡ false
    → is_allowlist mode ≡ true
    → is_absent allowed ≡ false
unlisted mode allowed h m = ground arith

inside :
    (source : Option Source) (mode : Option SalesMode) (b : Bool)
    → (is_manual source && is_allowlist mode && b) ≡ false
    → is_manual source ≡ true
    → is_allowlist mode ≡ true
    → b ≡ false
inside source mode b h k m = ground arith

some_option :
    (source : Option Source) (options : List CountryOption)
    → (is_manual source && length options == 0) ≡ false
    → is_manual source ≡ true
    → 1 ≤ length options
some_option source options h m = ground arith

read_sales-SellsWithin :
    (source : Option Source) (options : Option (List CountryOption)) (body : ConfigBody) {s : Sales}
    → read_sales source options body ≡ ok s
    → SellsWithin source (or_else options []) s
unfolding read_sales
read_sales-SellsWithin source options body h =
    let (mode, e₁, h₁) = >>=-eq-ok (read_mode body.country_sales_mode) _ h in
    let (allowed, e₂, h₂) = >>=-eq-ok (read_allowlist body.country_allowlist) _ h₁ in
    let (listed, h₃) =
      throw_if-eq-ok (is_allowlist mode && is_absent allowed) missing_allowlist _ h₂ in
    let (within, h₄) =
      throw_if-eq-ok
        (is_manual source
          && is_allowlist mode
          && is_outside (or_else options []) (or_else allowed []))
        not_an_option _ h₃ in
    subst (SellsWithin source (or_else options [])) (ok-injective h₄) (record {
      codes = read_allowlist-AreCodes body.country_allowlist e₂;
      listed = λ m. unlisted mode allowed listed m;
      within = λ k m. inside source mode _ within k m;
    })

read_service-sales :
    (service : Bool) (source : Option Source) (options : Option (List CountryOption))
    (body : ConfigBody) {r : Option Sales}
    → read_service service source options body ≡ ok r
    → ((s : Sales) → r ≡ some s → SellsWithin source (or_else options []) s)
      × (is_absent r ≡ not service)
read_service-sales false source options body h =
    subst
      (λ r.
        ((s : Sales) → r ≡ some s → SellsWithin source (or_else options []) s)
        × (is_absent r ≡ true))
      (ok-injective h) (λ s e. cc, refl)
read_service-sales true source options body h =
    let (s, made, h₁) = >>=-eq-ok (read_sales source options body) _ h in
    let sound = read_sales-SellsWithin source options body made in
    subst
      (λ r.
        ((s : Sales) → r ≡ some s → SellsWithin source (or_else options []) s)
        × (is_absent r ≡ false))
      (ok-injective h₁)
      (λ t e. subst (SellsWithin source (or_else options [])) (some-injective _ _ e) sound, refl)

-- A configuration that is accepted has options with assigned country codes, none twice, and at least
-- one if its source is manual; a partner's source is not inherited and it has no sales settings; a
-- service's list of allowed countries has assigned codes, none twice, is there if it is asked for, and
-- then, where the source is manual, only names countries of the options.
pub validate_country_config-IsSound :
    (service : Bool) (body : ConfigBody) {c : Config}
    → validate_country_config service body ≡ ok c
    → IsSound service c
unfolding validate_country_config
validate_country_config-IsSound service body h =
    let (source, e₁, h₁) = >>=-eq-ok (read_source service body.country_source) _ h in
    let (options, e₂, h₂) = >>=-eq-ok (read_options body.country_options) _ h₁ in
    let (enough, h₃) =
      throw_if-eq-ok (is_manual source && length (or_else options []) == 0) manual_without_options _
        h₂ in
    let (sales, e₃, h₄) = >>=-eq-ok (read_service service source options body) _ h₃ in
    let sells = read_service-sales service source options body e₃ in
    subst (IsSound service) (ok-injective h₄) (record {
      codes = read_options-AreCodes body.country_options e₂;
      manual_options = λ m. some_option source (or_else options []) enough m;
      own_source = λ p.
          read_source-own body.country_source
            (subst (λ b. read_source b body.country_source ≡ ok source) p e₁);
      sales = sells.0;
      has_sales = sells.1;
    })
