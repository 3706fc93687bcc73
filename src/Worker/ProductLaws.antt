-- ===== src/Worker/ProductLaws.antt =====
-- HomeProxy's products in `processOrder` of orders.worker.service.ts: which one is sold for whom.
use appchat_be.Common.{
  ◌≡◌, refl, sym, ap, ◌∙◌, inl, inr, Bool-cases, if◌then◌else◌, Text, to_lower, eq_text, eq_text-eq,
  ok, ok-injective, arith,
}
use appchat_be.Worker.Products.{
  vnpt, viettel, fpt, vnpt_product, viettel_product, fpt_product, static_product,
}

-- The internet provider that a product is of.
abbrev isp_of : Text → Text
isp_of p =
    if eq_text p vnpt_product then vnpt else if eq_text p viettel_product then viettel else fpt

isp_of-static_product : (isp p : Text) → static_product isp ≡ ok p → to_lower isp ≡ isp_of p
unfolding static_product
isp_of-static_product isp p h = elim (Bool-cases (eq_text (to_lower isp) vnpt)) [
  | inl first ↦
      let sold : vnpt_product ≡ p = ok-injective (sym (rw first refl) ∙ h) in
      eq_text-eq (to_lower isp) vnpt first ∙ ap isp_of sold
  | inr not_first ↦ elim (Bool-cases (eq_text (to_lower isp) viettel)) [
    | inl second ↦
        let sold : viettel_product ≡ p = ok-injective (sym (rw (not_first, second) refl) ∙ h) in
        eq_text-eq (to_lower isp) viettel second ∙ ap isp_of sold
    | inr not_second ↦ elim (Bool-cases (eq_text (to_lower isp) fpt)) [
      | inl third ↦
          let sold : fpt_product ≡ p =
            ok-injective (sym (rw (not_first, not_second, third) refl) ∙ h) in
          eq_text-eq (to_lower isp) fpt third ∙ ap isp_of sold
      | inr not_third ↦ absurd (ground (arith, not_first, not_second, not_third, h))
    ]
  ]
]

-- Two orders of static proxies at HomeProxy for which the same product is bought name the same internet
-- provider, up to the case of letters: no customer is sold another network's proxies.
pub static_product_injective :
    (isp other p : Text)
    → static_product isp ≡ ok p
    → static_product other ≡ ok p
    → to_lower isp ≡ to_lower other
static_product_injective isp other p h k =
    isp_of-static_product isp p h ∙ sym (isp_of-static_product other p k)
