-- ===== src/Orders/Status.antt =====
-- The statuses of an order and of its payment, enum/order.enum.ts.
use appchat_be.Common.{ℕ, Bool, ◌==◌}

pub data OrderStatus : Type 0 where
  pending paid processing active completed expired cancelled : OrderStatus
  partial_refunded failed pending_refund partial refunded depleted : OrderStatus

pub data PaymentStatus : Type 0 where
  unpaid settled reimbursed : PaymentStatus

-- The enum's numbers.
abbrev pub code_of : OrderStatus → ℕ
code_of pending = 0
code_of paid = 1
code_of processing = 2
code_of active = 3
code_of completed = 4
code_of expired = 5
code_of cancelled = 6
code_of partial_refunded = 7
code_of failed = 8
code_of pending_refund = 9
code_of partial = 10
code_of refunded = 11
code_of depleted = 12

-- `===` on statuses.
abbrev pub same_status : OrderStatus → OrderStatus → Bool
same_status s t = code_of s == code_of t
