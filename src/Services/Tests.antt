-- ===== src/Services/Tests.antt =====
-- Choices of products at concrete services, for src/services/product-mapping.ts.
use mathlib.Core.Option
use appchat_be.Common.{
  if◌then◌else◌, not, ◌&&◌, ◌≡◌, refl, inl, inr, true, false, none, some, [], ◌∷◌, or_else, ok,
  decimal, to_lower, trim,
}
use appchat_be.Renewal.Order.{homeproxy, proxyseller}
use appchat_be.Worker.Products.{viettel, product, static_product}
use appchat_be.Orders.Status.{pending}
use appchat_be.Worker.State.{Order, opened, nobody}
use appchat_be.Services.Mapping.{
  an_id, inherited, is_inherited, Choice, MappedService, Snapshot, check_choices,
  validate_product_mapping, pick_choice, resolve_mapped, resolve_product, viettel_id,
}
use appchat_be.Services.MappingLaws.{product_in, given, plain_service, resolve_product-agrees}
use appchat_be.Services.ChoiceLaws.{resolve_product-IsChosen}

abbrev order : Order
order = record {
  status = pending;
  quantity = 1;
  actual_quantity = none;
  error = none;
  provider_order_id = [];
  mapped_product = none;
  rotating = false;
  duration_days = 30;
  isp = viettel;
  purchase_started = false;
  voucher = false;
  resolution = opened;
  dispatch_claimed = false;
  dispatch_source = nobody;
  buy_finished = false;
  result = none;
  frozen = none;
  refund_planned = false;
  affiliate_pending = false;
}

sells_viettel : given (product homeproxy [] order) ≡ some viettel_id
unfolding product static_product to_lower
sells_viettel = refl

resolve_product-agrees_example :
    (product_in (resolve_product (plain_service [] false none) (some viettel) (some 30) homeproxy)
      ≡ (if not false && is_inherited (to_lower viettel)
          then some inherited
          else Option.map an_id (given (product homeproxy [] order))))
    × (given (product homeproxy [] order) ≡ (
        if not false && is_inherited (to_lower viettel)
        then none
        else given (product homeproxy [] order)))
resolve_product-agrees_example = resolve_product-agrees [] [] none order refl refl

-- A choice with a product for 30 days, and one without a mapping.
abbrev mapped : Choice
mapped = record {
  name = b'A' ∷ [];
  code = b'a' ∷ [];
  product_id = none;
  provider_isp = some (b'x' ∷ []);
  duration_ids = some ((b'3' ∷ b'0' ∷ [], b'7' ∷ []) ∷ []);
}

abbrev unmapped : Choice
unmapped = record {
  name = b'B' ∷ [];
  code = b'b' ∷ [];
  product_id = none;
  provider_isp = none;
  duration_ids = none;
}

abbrev service : MappedService
service = record {
  isp = some (unmapped ∷ mapped ∷ []);
  duration_ids = none;
  id_service = [];
  rotating = false;
  body_id = none;
}

service_valid : validate_product_mapping service ≡ ok tt
unfolding validate_product_mapping check_choices trim
service_valid = refl

abbrev bought : Snapshot
bought = record {
  product_id = an_id (b'7' ∷ []);
  provider_isp = b'x' ∷ [];
  selection = some (b'a' ∷ []);
  is_configured = true;
}

resolved : resolve_product service (some (b'a' ∷ [])) (some 30) proxyseller ≡ ok bought
unfolding resolve_product pick_choice resolve_mapped decimal
resolved = refl

resolve_product-IsChosen_example :
    (bought.selection ≡ some (b'a' ∷ []))
    × (bought.provider_isp ≡ or_else mapped.provider_isp mapped.code)
resolve_product-IsChosen_example =
    resolve_product-IsChosen service (unmapped ∷ mapped ∷ []) mapped (some 30) proxyseller
      {p = bought} refl service_valid (inr (inl refl)) resolved
