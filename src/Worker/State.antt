-- ===== src/Worker/State.antt =====
-- What a run of `processOrder` of orders.worker.service.ts reads and writes: the order's document, the
-- partner's, the order's lock in Redis, and how often it called out.
use appchat_be.Common.{ℕ, Bool, Option, Text}
use appchat_be.Orders.Status.{OrderStatus}
use appchat_be.Renewal.Order.{PartnerData}

-- Why a run ends in its `catch`, or an order is given up by the polling worker.
pub data Failure : Type 0 where
  no_partner unknown_provider bad_duration bad_isp already_attempted : Failure
  all_failed insert_failed dropped incomplete no_intent no_affiliate : Failure
  no_fetching polled_out : Failure

pub data Resolution : Type 0 where
  opened fulfilled confirmed_failed : Resolution

-- Who claimed the dispatch.
pub data Source : Type 0 where
  nobody worker reconciliation : Source

-- What the provider sold: its own order's id, and how many proxies it gave at once.
pub record Goods : Type 0 where
  pub order_id : Text
  pub proxies : ℕ

-- `voucher` says whether there is a `voucher_snapshot`; `frozen` is the result of
-- `voucher_fulfilment` and `result` the number of proxies of `voucher_provider_result`.
pub record Order : Type 0 where
  pub status : OrderStatus
  pub quantity : ℕ
  pub actual_quantity : Option ℕ
  pub error : Option Failure
  pub provider_order_id : Text
  pub mapped_product : Option Text
  pub rotating : Bool
  pub duration_days : ℕ
  pub isp : Text
  pub purchase_started : Bool
  pub voucher : Bool
  pub resolution : Resolution
  pub dispatch_claimed : Bool
  pub dispatch_source : Source
  pub buy_finished : Bool
  pub result : Option ℕ
  pub frozen : Option Goods
  pub refund_planned : Bool
  pub affiliate_pending : Bool

-- `proxies` counts the order's proxies in the database, `bought` the calls of `provider.buy`, `queued`
-- the pushes to the processing queue, and the last two the calls of `handleOrderActive` and
-- `handleOrderExpired`.
pub record World : Type 0 where
  pub order : Order
  pub partner : Option PartnerData
  pub services_on : Bool
  pub fail_count : ℕ
  pub lock : Bool
  pub proxies : ℕ
  pub bought : ℕ
  pub queued : ℕ
  pub activated : ℕ
  pub expired : ℕ

pub data Answer : Type 0 where
  throws empty : Answer
  sells : Goods → Answer

-- What one step meets outside: whether the factory knows the partner's code, the service's `id_service`,
-- the provider's answer, whether it can be written down, whether the insertions end without another
-- error than a duplicate, how many proxies the database then has for the order, and whether `settle`,
-- `handleOrderActive` and `handleOrderExpired` end well.
pub record Env : Type 0 where
  pub registered : Bool
  pub id_service : Text
  pub answer : Answer
  pub persists : Bool
  pub inserts : Bool
  pub saved : ℕ
  pub settles : Bool
  pub affiliate : Bool
  pub expires : Bool
