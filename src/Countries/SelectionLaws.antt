-- ===== src/Countries/SelectionLaws.antt =====
-- What `select` of src/countries/country-policy.service.ts gives a purchase.
use appchat_be.Common.{
  ◌≡◌, refl, sym, subst, Bool, true, false, ◌&&◌, inl, inr, Bool-cases, Option, none, some, List,
  [], ◌∷◌, any, filter, find, first, length, ◌==◌, or_else, is_some, Text, trim, is_empty, eq_text,
  eq_text_refl, eq_text-eq, ok, ◌>>=◌, >>=-eq-ok, arith, if◌then◌else◌,
}
use appchat_be.Countries.Policy.{CountryOption}
use appchat_be.Countries.Selection.{
  effective_origin, options_from, Origin, Supplier, Offered, Coverage, Resolved, Chosen, has_code,
  code_meant, option_meant, selected, choose_option, is_proxyseller, is_legacy, is_nowhere,
  is_ready, select_from, resolve, resolved_with, select,
}

found_here :
    (x o : CountryOption) (rest : Bool) → x ≡ o → (if has_code o.code x then true else rest) ≡ true
found_here x o rest e =
    subst (λ y. (if has_code o.code y then true else rest) ≡ true) (sym e)
      (rw (eq_text_refl o.code) refl)

found_later : (b : Bool) {rest : Bool} → rest ≡ true → (if b then true else rest) ≡ true
found_later true h = refl
found_later false h = h

-- What a search finds is an entry of the list.
any-find_option :
    (p : CountryOption → Bool) (os : List CountryOption) (o : CountryOption)
    → find p os ≡ some o
    → any (has_code o.code) os ≡ true
any-find_option p [] o h = absurd (ground arith)
any-find_option p (x ∷ os) o h = elim (Bool-cases (p x)) [
  | inl hit ↦ found_here x o _ (ground (arith, hit, h))
  | inr miss ↦ found_later (has_code o.code x) (any-find_option p os o (ground (arith, miss, h)))
]

any-first :
    (os : List CountryOption) (o : CountryOption)
    → first os ≡ some o
    → any (has_code o.code) os ≡ true
any-first [] o h = absurd (ground arith)
any-first (x ∷ os) o h = found_here x o _ (ground (arith, h))

any-option_meant :
    (code : Option Text) (os : List CountryOption) (o : CountryOption)
    → option_meant code os ≡ some o
    → any (has_code o.code) os ≡ true
any-option_meant none os o h = absurd (ground arith)
any-option_meant (some code) os o h = any-find_option (has_code code) os o h

any-selected :
    (known : Option Text) (input : Text) (os : List CountryOption) (o : CountryOption)
    → selected known input os ≡ some o
    → any (has_code o.code) os ≡ true
any-selected known input os o h = elim (Bool-cases (is_empty (trim input) && length os == 1)) [
  | inl alone ↦ any-first os o (ground (arith, alone, h))
  | inr asked ↦ any-option_meant (code_meant known input os) os o (ground (arith, asked, h))
]

choose_option-inside :
    (k : Origin) (proxyseller : Bool) (os : List CountryOption) (o : Option CountryOption)
    (c : Chosen) (code : Text)
    → ((x : CountryOption) → o ≡ some x → any (has_code x.code) os ≡ true)
    → choose_option k proxyseller o ≡ ok c
    → c.code ≡ some code
    → any (has_code code) os ≡ true
choose_option-inside k proxyseller os none c code inside h e = absurd (ground arith)
choose_option-inside k proxyseller os (some x) c code inside h e =
    elim (Bool-cases (proxyseller && is_empty (or_else x.provider_value []))) [
      | inl bad ↦ absurd (ground (arith, bad, h))
      | inr good ↦
          let same : x.code ≡ code = ground (arith, good, h, e) in
          subst (λ t. any (has_code t) os ≡ true) same (inside x refl)
    ]

select_from-inside :
    (known : Option Text) (input : Text) (p : Option Supplier) (r : Resolved) (c : Chosen)
    (code : Text)
    → select_from known input p r ≡ ok (some c)
    → c.code ≡ some code
    → (any (has_code code) r.options ≡ true)
      × (is_ready r.status ≡ true)
      × (is_legacy r.origin ≡ false)
select_from-inside known input p r c code h e = elim (Bool-cases (is_legacy r.origin)) [
  | inl old ↦ absurd (ground (arith, old, h))
  | inr modern ↦ elim (Bool-cases (is_ready r.status)) [
    | inr not_yet ↦ absurd (ground (arith, modern, not_yet, h))
    | inl available ↦ elim (Bool-cases (is_nowhere r.origin)) [
      | inl none_here ↦ absurd (ground (arith, modern, available, none_here, h, e))
      | inr some_here ↦
          let chosen : (choose_option r.origin (is_proxyseller p) (selected known input r.options)
                >>= λ d. ok (some d))
              ≡ ok (some c) =
            ground (arith, modern, available, some_here, h) in
          let (d, took, same) =
            >>=-eq-ok (choose_option r.origin (is_proxyseller p) (selected known input r.options))
              (λ d. ok (some d)) chosen in
          (
            choose_option-inside r.origin (is_proxyseller p) r.options
                (selected known input r.options) d code (any-selected known input r.options) took
                (ground (arith, same, e)),
            available,
            modern,
          )
    ]
  ]
]

any-filter_code :
    (allowed : List Text) (os : List CountryOption) (code : Text)
    → any (has_code code) (filter (λ o. any (λ c. eq_text c o.code) allowed) os) ≡ true
    → any (λ c. eq_text c code) allowed ≡ true
any-filter_code allowed [] code h = absurd (ground arith)
any-filter_code allowed (x ∷ os) code h = elim (Bool-cases (any (λ c. eq_text c x.code) allowed)) [
  | inr out ↦ any-filter_code allowed os code (ground (arith, out, h))
  | inl within ↦ elim (Bool-cases (has_code code x)) [
    | inl it ↦ subst (λ t. any (λ c. eq_text c t) allowed ≡ true) (eq_text-eq x.code code it) within
    | inr other ↦ any-filter_code allowed os code (ground (arith, within, other, h))
  ]
]

resolved_with-allowed :
    (s : Offered) (k : Origin) (o : Option (List CountryOption)) (code : Text)
    → is_legacy k ≡ false
    → s.is_allowlist ≡ true
    → any (has_code code) (resolved_with s k o).options ≡ true
    → any (λ c. eq_text c code) s.allowed ≡ true
resolved_with-allowed s k none code modern listed h = absurd (ground arith)
resolved_with-allowed s k (some os) code modern listed h =
    any-filter_code s.allowed os code (ground (arith, modern, listed, h))

origin-resolved_with :
    (s : Offered) (k : Origin) (o : Option (List CountryOption)) → (resolved_with s k o).origin ≡ k
origin-resolved_with s k none = refl
origin-resolved_with s k (some os) = refl

-- A country that a purchase gets is one of those that the service shows at that moment, which are there to
-- choose from, and where the service sells to an allowlist it is on that list; whatever the customer
-- put in, whatever countries are on record, and whether the coverage came from the cache or not.
pub select-IsOffered :
    (s : Offered) (p : Option Supplier) (package_id : Text) (v : Coverage) (known : Option Text)
    (input : Text) (c : Chosen) (code : Text)
    → select s p package_id v known input ≡ ok (some c)
    → c.code ≡ some code
    → (any (has_code code) (resolve s p package_id v).options ≡ true)
      × (is_ready (resolve s p package_id v).status ≡ true)
      × (s.is_allowlist ≡ true → any (λ d. eq_text d code) s.allowed ≡ true)
unfolding select resolve
select-IsOffered s p package_id v known input c code h e = elim (Bool-cases (is_some s.source)) [
  | inr old ↦ absurd (ground (arith, old, h))
  | inl set_up ↦
      let k = effective_origin s p in
      let o = options_from s p package_id v k in
      let (shown, available, modern) =
        select_from-inside known input p (resolved_with s k o) c code (ground (arith, set_up, h))
          e in
      (
        shown,
        available,
        λ listed.
            resolved_with-allowed s k o code
              (subst (λ x. is_legacy x ≡ false) (origin-resolved_with s k o) modern) listed shown,
      )
]
