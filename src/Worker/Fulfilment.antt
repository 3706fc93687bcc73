-- ===== src/Worker/Fulfilment.antt =====
-- Any number of results for one voucher order: `materialize` of vouchers.service.ts, which the buying worker,
-- the polling worker and the recovery of vouchers call.
use appchat_be.Common.{Bool, ℕ, ◌+◌, ◌≤◌, ◌≡◌, true, false, some, List, [], ◌∷◌, bit, not}
use appchat_be.Worker.State.{World, Goods, Env}
use appchat_be.Worker.Delivery.{is_waiting, is_fulfilled, materialize}

-- Results as they come, each with the surroundings it meets.
unfoldable pub materialize_all : List (Env × Goods) → World → World
materialize_all [] w = w
materialize_all (c ∷ cs) w = materialize_all cs (materialize c.0 c.1 w).0

-- Whether a commission is due, or may still become so.
abbrev pub may_hand_over : World → ℕ
may_hand_over w = bit w.order.affiliate_pending + bit (is_waiting w.order.status)

-- From one state to a later one: how often the affiliate's hooks were called with success, or may still be.
-- The first is called again only after the second failed, `failures` times.
abbrev Hooks : ℕ → World → World → Type 0
Hooks failures w w' =
    (w'.activated + may_hand_over w' ≤ w.activated + may_hand_over w + failures)
    × (w'.expired + may_hand_over w' ≤ w.expired + may_hand_over w)

abbrev pub fails_late : Env × Goods → Bool
fails_late c = not c.0.expires

-- The order holds the result, and once it is delivered it carries the result's order at the provider.
pub record Holds (g : Goods) (w : World) : Type 0 where
  pub resolved : is_fulfilled w.order.resolution ≡ true
  pub first : w.order.frozen ≡ some g
  pub named : is_waiting w.order.status ≡ false → w.order.provider_order_id ≡ g.order_id
