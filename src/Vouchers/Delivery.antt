-- ===== src/Vouchers/Delivery.antt =====
-- How far `recover` of src/vouchers/vouchers.service.ts gets, and what a further call finds.
use appchat_be.Common.{not, false, ◌&&◌, Bool, Option, none, some}
use appchat_be.Orders.Status.{pending, same_status}
use appchat_be.Vouchers.Dispatch.{Waiting}

-- Whether an order is there that waits for the worker, and Redis takes it.
abbrev pub waits : Bool → Option Waiting → Bool
waits redis none = false
waits redis (some o) = same_status o.status pending && o.is_open && not o.dispatch_claimed && redis
