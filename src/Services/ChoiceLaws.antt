-- ===== src/Services/ChoiceLaws.antt =====
-- Which choice of a service `resolveProduct` of src/services/product-mapping.ts takes.
use appchat_be.Common.{
  ℕ, ◌≡◌, refl, sym, ap, ◌∙◌, subst, Bool, true, false, ◌||◌, not, inl, inr, Bool-cases,
  Result-cases, Option, none, some, List, [], ◌∷◌, find, all, or_else, OneOf, Text, trim, is_empty,
  eq_text, eq_text_refl, Result, ok, err, ◌>>=◌, ◌>>◌, throw_if, throw_if-eq-ok, arith,
  if◌then◌else◌,
}
use appchat_be.Renewal.Order.{Partner}
use appchat_be.Services.Mapping.{
  code_or_name, found_or_only, bad_durations, bad_isp, or_product, id_for, bad_choices, bad_product,
  bad_choice_durations, nonempty, valid_text, valid_ids, snapshot, an_id, Choice, MappedService,
  Snapshot, Refusal, check_choices, validate_product_mapping, is_mapped, pick_choice,
  resolve_mapped, resolve_unmapped, resolve_choice, resolve_product, default_id,
}

third_test : (a b c : Bool) → not a || not b || not c ≡ false → c ≡ true
third_test a b c h = ground arith

both_true : (a b : Bool) → (if a then b else false) ≡ true → (a ≡ true) × (b ≡ true)
both_true true b h = (refl, h)
both_true false b h = absurd (ground arith)

passed_over :
    (d : Choice) {c : Choice} {rest : Option Choice} (b : Bool)
    → not b ≡ true
    → rest ≡ some c
    → (if b then some d else rest) ≡ some c
passed_over d true h e = absurd (ground arith)
passed_over d false h e = e

check_choices-first :
    (seen : List Text) (d : Choice) (ds : List Choice)
    → check_choices seen (d ∷ ds) ≡ ok tt
    → (all (λ s. not (eq_text s d.code)) seen ≡ true) × (check_choices (d.code ∷ seen) ds ≡ ok tt)
unfolding check_choices
check_choices-first seen d ds h =
    let a =
      throw_if-eq-ok
        (not (nonempty d.name)
          || not (nonempty d.code)
          || not (all (λ s. not (eq_text s d.code)) seen))
        bad_choices _ h in
    let b =
      throw_if-eq-ok (not (valid_text d.product_id) || not (valid_text d.provider_isp)) bad_product
        _ a.1 in
    let c = throw_if-eq-ok (not (valid_ids d.duration_ids)) bad_choice_durations _ b.1 in
    (third_test (nonempty d.name) (nonempty d.code) _ a.0, c.1)

-- The codes that were seen are no code of a choice that passes.
check_choices-unseen :
    (seen : List Text) (cs : List Choice) (c : Choice)
    → check_choices seen cs ≡ ok tt
    → OneOf c cs
    → all (λ s. not (eq_text s c.code)) seen ≡ true
check_choices-unseen seen [] c h m = absurd m
check_choices-unseen seen (d ∷ ds) c h (inl e) =
    subst (λ x. all (λ s. not (eq_text s x.code)) seen ≡ true) (sym e)
      (check_choices-first seen d ds h).0
check_choices-unseen seen (d ∷ ds) c h (inr m) =
    (both_true (not (eq_text d.code c.code)) _
      (check_choices-unseen (d.code ∷ seen) ds c (check_choices-first seen d ds h).1 m)).1

-- A choice that passes is found by its code.
find-check_choices :
    (seen : List Text) (cs : List Choice) (c : Choice)
    → check_choices seen cs ≡ ok tt
    → OneOf c cs
    → find (λ d. eq_text d.code c.code) cs ≡ some c
find-check_choices seen [] c h m = absurd m
find-check_choices seen (d ∷ ds) c h (inl e) =
    subst (λ x. find (λ y. eq_text y.code x.code) (d ∷ ds) ≡ some x) (sym e)
      (rw (eq_text_refl d.code) refl)
find-check_choices seen (d ∷ ds) c h (inr m) =
    let rest = (check_choices-first seen d ds h).1 in
    let other : not (eq_text d.code c.code) ≡ true =
      (both_true (not (eq_text d.code c.code)) _
        (check_choices-unseen (d.code ∷ seen) ds c rest m)).0 in
    passed_over d (eq_text d.code c.code) other (find-check_choices (d.code ∷ seen) ds c rest m)

-- The snapshot says which choice it is of.
abbrev IsOf : Choice → Result Refusal Snapshot → Type 0
IsOf c (err e) = Unit
IsOf c (ok p) = (p.selection ≡ some c.code) × (p.provider_isp ≡ or_else c.provider_isp c.code)

module _ (s : MappedService) (c : Choice) (days : Option ℕ) (provider : Partner) where
  after_check :
      (b : Bool) (t : Text)
      → IsOf c (
          throw_if b bad_isp
          >> ok (snapshot (or_else c.provider_isp c.code) (some c.code) true (an_id t)))
  after_check true t = tt
  after_check false t = (refl, refl)

  resolve_mapped-IsOf : IsOf c (resolve_mapped s c days provider)
  unfolding resolve_mapped
  resolve_mapped-IsOf = elim (Result-cases (or_product (id_for days c.duration_ids) c.product_id)) [
    | inl (t, e) ↦ rw e (after_check _ t)
    | inr (f, e) ↦ rw e tt
  ]

  resolve_unmapped-IsOf :
      c.provider_isp ≡ none → IsOf c (resolve_unmapped s c.code (some c.code) days provider)
  unfolding resolve_unmapped
  resolve_unmapped-IsOf h =
      elim (Bool-cases (not (is_empty (or_else (id_for days s.duration_ids) [])))) [
        | inl own ↦ rw own (refl, sym (ap (λ o. or_else o c.code) h))
        | inr nothing ↦
            elim (Result-cases (default_id provider s c.code days (trim s.id_service))) [
              | inl (t, e) ↦ rw nothing (rw e (refl, sym (ap (λ o. or_else o c.code) h)))
              | inr (f, e) ↦ rw nothing (rw e tt)
            ]
      ]

  no_mapping : is_mapped c ≡ false → c.provider_isp ≡ none
  no_mapping h = ground (arith, h)

  resolve_choice-IsOf : IsOf c (resolve_choice s (some c.code) days provider (some c))
  resolve_choice-IsOf = elim (Bool-cases (is_mapped c)) [
    | inl own ↦ rw own resolve_mapped-IsOf
    | inr plain ↦ rw plain (resolve_unmapped-IsOf (no_mapping plain))
  ]

pick_choice-found :
    (input : Text) (cs : List Choice) (c : Choice)
    → find (λ d. eq_text d.code input) cs ≡ some c
    → pick_choice (some input) cs ≡ ok (some c)
unfolding pick_choice
pick_choice-found input cs c h = ap (λ f. found_or_only (some input) cs (code_or_name input cs f)) h

-- For a service whose mapping passed the validation and one of its choices: a product that is resolved for the
-- choice's code is recorded under that code and for that choice's provider code, or for its own code
-- if it has none, and never for another choice.
pub resolve_product-IsChosen :
    (s : MappedService) (cs : List Choice) (c : Choice) (days : Option ℕ) (provider : Partner)
    {p : Snapshot}
    → s.isp ≡ some cs
    → validate_product_mapping s ≡ ok tt
    → OneOf c cs
    → resolve_product s (some c.code) days provider ≡ ok p
    → (p.selection ≡ some c.code) × (p.provider_isp ≡ or_else c.provider_isp c.code)
unfolding resolve_product validate_product_mapping pick_choice
resolve_product-IsChosen s cs c days provider {p} own valid m h =
    let passed = (throw_if-eq-ok (not (valid_ids s.duration_ids)) bad_durations _ valid).1 in
    let found : find (λ d. eq_text d.code c.code) (or_else s.isp []) ≡ some c =
      find-check_choices [] (or_else s.isp []) c passed
        (subst (λ x. OneOf c (or_else x [])) (sym own) m) in
    let picked : pick_choice (some c.code) (or_else s.isp []) ≡ ok (some c) =
      pick_choice-found c.code (or_else s.isp []) c found in
    subst (IsOf c) (sym (ap (λ x. x >>= resolve_choice s (some c.code) days provider) picked) ∙ h)
      (resolve_choice-IsOf s c days provider)
