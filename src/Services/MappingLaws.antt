-- ===== src/Services/MappingLaws.antt =====
-- What `resolveProduct` of src/services/product-mapping.ts gives.
use appchat_be.Common.{
  ◌==◌, ℕ, ◌≡◌, refl, sym, ap, ◌∙◌, Bool, true, false, ◌||◌, not, inl, inr, Bool-cases, Option,
  none, some, [], ◌∷◌, Text, is_empty, eq_text, eq_text-eq, arith, ◌&&◌, to_lower, Result, ok, err,
  ◌>>=◌, if◌then◌else◌,
}
use mathlib.Core.Option
use appchat_be.Renewal.Order.{homeproxy}
use appchat_be.Worker.State.{Order}
use appchat_be.Worker.Products.{product, rotating_product, static_product}
use appchat_be.Services.Mapping.{
  snapshot, unsupported, ProductId, an_id, inherited, is_inherited, vnpt_name, viettel_name,
  fpt_name, MappedService, Snapshot, Refusal, pick_choice, resolve_unmapped, resolve_choice,
  resolve_product, rotating_id, static_id,
}

-- The product, if one is given.
abbrev pub product_in : Result Refusal Snapshot → Option ProductId
product_in (err e) = none
product_in (ok p) = some p.product_id

abbrev pub given : {E : Type 0} → Result E Text → Option Text
given (err e) = none
given (ok t) = some t

-- A service that configures no products.
abbrev pub plain_service : Text → Bool → Option Text → MappedService
plain_service id rotating body = record {
  isp = none;
  duration_ids = none;
  id_service = id;
  rotating = rotating;
  body_id = body;
}

given-rotating_product : (days : ℕ) → given (rotating_product days) ≡ rotating_id (some days)
unfolding rotating_product
given-rotating_product days = elim (Bool-cases (days == 1)) [
  | inl one ↦ rw one refl
  | inr more ↦ elim (Bool-cases (days == 7)) [
    | inl seven ↦ rw (more, seven) refl
    | inr longer ↦ elim (Bool-cases (days == 30)) [
      | inl thirty ↦ rw (more, longer, thirty) refl
      | inr other ↦ rw (more, longer, other) refl
    ]
  ]
]

-- A name of the table is none that objects inherit.
apart :
    (name key : Text)
    → is_inherited key ≡ false
    → eq_text name key ≡ true
    → is_inherited name ≡ false
apart name key h e = ap is_inherited (eq_text-eq name key e) ∙ h

given-static_product :
    (isp : Text)
    → static_id isp ≡ (
        if is_inherited (to_lower isp)
        then some inherited
        else Option.map an_id (given (static_product isp)))
unfolding static_product
given-static_product isp = elim (Bool-cases (eq_text (to_lower isp) vnpt_name)) [
  | inl first ↦ rw (first, apart (to_lower isp) vnpt_name refl first) refl
  | inr a ↦ elim (Bool-cases (eq_text (to_lower isp) viettel_name)) [
    | inl second ↦ rw (a, second, apart (to_lower isp) viettel_name refl second) refl
    | inr b ↦ elim (Bool-cases (eq_text (to_lower isp) fpt_name)) [
      | inl third ↦ rw (a, b, third, apart (to_lower isp) fpt_name refl third) refl
      | inr c ↦ rw (a, b, c) refl
    ]
  ]
]

refused-inherited :
    (isp : Text) → is_inherited (to_lower isp) ≡ true → given (static_product isp) ≡ none
unfolding static_product
refused-inherited isp h = elim (Bool-cases (eq_text (to_lower isp) vnpt_name)) [
  | inl first ↦ absurd (ground (arith, h, apart (to_lower isp) vnpt_name refl first))
  | inr a ↦ elim (Bool-cases (eq_text (to_lower isp) viettel_name)) [
    | inl second ↦ absurd (ground (arith, h, apart (to_lower isp) viettel_name refl second))
    | inr b ↦ elim (Bool-cases (eq_text (to_lower isp) fpt_name)) [
      | inl third ↦ absurd (ground (arith, h, apart (to_lower isp) fpt_name refl third))
      | inr c ↦ rw (a, b, c) refl
    ]
  ]
]

no_choice : (isp : Text) → pick_choice (some isp) [] ≡ ok none
unfolding pick_choice
no_choice [] = refl
no_choice (c ∷ isp) = refl

product_in-default :
    (s : MappedService) (isp : Text) (days : Option ℕ) (r : Option ProductId)
    → (selection : Option Text)
    → product_in (
        elim r [ none ↦ err unsupported | some p ↦ ok p ] >>= λ p.
        ok (snapshot isp selection false p))
      ≡ r
product_in-default s isp days none selection = refl
product_in-default s isp days (some p) selection = refl

resolve_plain :
    (id : Text) (body : Option Text) (isp : Text) (rotating : Bool) (days : ℕ)
    → not (is_empty isp) || rotating ≡ true
    → product_in
        (resolve_unmapped (plain_service id rotating body) isp (some isp) (some days) homeproxy)
      ≡ (if rotating then Option.map an_id (rotating_id (some days)) else static_id isp)
unfolding resolve_unmapped
resolve_plain id body isp rotating days h = rw h (
    product_in-default (plain_service id rotating body) isp (some days)
      (if rotating then Option.map an_id (rotating_id (some days)) else static_id isp) (some isp))

given-table :
    (rotating : Bool) (days : ℕ) (isp : Text)
    → (if rotating then Option.map an_id (rotating_id (some days)) else static_id isp) ≡ (
        if not rotating && is_inherited (to_lower isp)
        then some inherited
        else Option.map an_id
            (given (if rotating then rotating_product days else static_product isp)))
given-table true days isp = ap (Option.map an_id) (sym (given-rotating_product days))
given-table false days isp = given-static_product isp

table-inherited :
    (rotating : Bool) (days : ℕ) (isp : Text)
    → given (if rotating then rotating_product days else static_product isp) ≡ (
        if not rotating && is_inherited (to_lower isp)
        then none
        else given (if rotating then rotating_product days else static_product isp))
table-inherited true days isp = refl
table-inherited false days isp = elim (Bool-cases (is_inherited (to_lower isp))) [
  | inl odd ↦ rw (odd, refused-inherited isp odd) refl
  | inr plain ↦ rw plain refl
]

product-homeproxy :
    (t : Text) (o : Order)
    → o.mapped_product ≡ none
    → product homeproxy t o
      ≡ (if o.rotating then rotating_product o.duration_days else static_product o.isp)
unfolding product
product-homeproxy t o h =
    ap
      (λ m. elim m [
        | none ↦ if o.rotating then rotating_product o.duration_days else static_product o.isp
        | some p ↦ ok p
      ])
      h

-- A HomeProxy service that configures no products, asked for an internet provider that is not empty or for
-- rotating proxies. The product of the service's choice is the one that the buying worker takes for
-- an order of that provider and duration without a mapping, and there is none where the worker
-- refuses the order, whatever the service's own identifiers say: but for static proxies of a provider
-- by the name of `constructor` or `__proto__` in any case of letters, for which the service takes what
-- every object inherits for the product and the worker refuses the order.
pub resolve_product-agrees :
    (id t : Text) (body : Option Text) (o : Order)
    → o.mapped_product ≡ none
    → not (is_empty o.isp) || o.rotating ≡ true
    → (product_in (
          resolve_product
            (plain_service id o.rotating body)
            (some o.isp)
            (some o.duration_days)
            homeproxy)
        ≡ (if not o.rotating && is_inherited (to_lower o.isp)
            then some inherited
            else Option.map an_id (given (product homeproxy t o))))
      × (given (product homeproxy t o) ≡ (
          if not o.rotating && is_inherited (to_lower o.isp)
          then none
          else given (product homeproxy t o)))
unfolding resolve_product
resolve_product-agrees id t body o unmapped asked = rw (product-homeproxy t o unmapped) (
  ap
        (λ c. product_in (
          c
          >>= resolve_choice (plain_service id o.rotating body) (some o.isp) (some o.duration_days)
              homeproxy))
        (no_choice o.isp)
      ∙ resolve_plain id body o.isp o.rotating o.duration_days asked
      ∙ given-table o.rotating o.duration_days o.isp,
  table-inherited o.rotating o.duration_days o.isp,
)
