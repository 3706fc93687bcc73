-- ===== src/Worker/Expiry.antt =====
-- `checkExpiredOrders` of orders-expiration.scheduler.ts: the orders past their end, in batches.
use appchat_be.Common.{
  ℕ, zero, suc, Bool, false, ◌&&◌, ◌||◌, not, Option, none, some, List, [], ◌∷◌, ◌++◌, map, filter,
  update_all, contains, leb, length,
}
use appchat_be.Orders.Status.{OrderStatus, active, processing, expired, same_status}
use appchat_be.Worker.State.{Resolution}
use appchat_be.Worker.Delivery.{is_fulfilled, reaches}

pub record Lasting : Type 0 where
  pub id : ℕ
  pub status : OrderStatus
  pub end_date : Option ℕ
  pub voucher : Bool
  pub resolution : Resolution
  pub actual_quantity : Option ℕ
  pub affiliate_pending : Bool

pub record Leased : Type 0 where
  pub order_id : ℕ
  pub is_active : Bool
  pub is_available : Bool

-- `handed_over` are the orders that `handleOrderExpired` was called with.
pub record Estate : Type 0 where
  pub orders : List Lasting
  pub proxies : List Leased
  pub handed_over : List ℕ

abbrev pub is_past : ℕ → Option ℕ → Bool
is_past now none = false
is_past now (some t) = leb t now

-- The filter of the query, which the update repeats.
abbrev pub is_expiring : ℕ → Lasting → Bool
is_expiring now o =
    (same_status o.status active || same_status o.status processing)
    && is_past now o.end_date
    && (not o.voucher
        || is_fulfilled o.resolution && reaches o.actual_quantity 1 && not o.affiliate_pending)

abbrev pub expire : Lasting → Lasting
expire o = record o { status = expired }

abbrev pub switch_off_proxy : Leased → Leased
switch_off_proxy p = record p { is_active = false; is_available = false }

-- One batch.
unfoldable pub expire_batch : ℕ → List ℕ → Estate → Estate
expire_batch now ids x = record {
  orders = update_all (λ o. contains o.id ids && is_expiring now o) expire x.orders;
  proxies = update_all (λ p. contains p.order_id ids) switch_off_proxy x.proxies;
  handed_over = x.handed_over ++ ids;
}

-- `slice(i, i + n)`, and what is left.
abbrev pub split_at : ℕ → List ℕ → List ℕ × List ℕ
split_at zero ids = ([], ids)
split_at (suc n) [] = ([], [])
split_at (suc n) (i ∷ ids) = let r = split_at n ids in (i ∷ r.0, r.1)

-- Fuel: each batch takes an order at least.
unfoldable pub expire_batches : ℕ → ℕ → ℕ → List ℕ → Estate → Estate
expire_batches zero now size ids x = x
expire_batches (suc fuel) now size [] x = x
expire_batches (suc fuel) now size (i ∷ ids) x =
    let r = split_at size (i ∷ ids) in expire_batches fuel now size r.1 (expire_batch now r.0 x)

abbrev pub expiring_ids : ℕ → List Lasting → List ℕ
expiring_ids now os = map (λ o. o.id) (filter (is_expiring now) os)

abbrev pub batch_size : ℕ
batch_size = 100

unfoldable pub check_expired_orders : ℕ → Estate → Estate
check_expired_orders now x =
    let ids = expiring_ids now x.orders in expire_batches (length ids) now batch_size ids x
