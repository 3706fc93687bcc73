-- ===== src/Affiliate/Run.antt =====
-- Any sequence of calls of affiliate.service.ts, as the administrators, the orders' events and the
-- referrers make them; a rejection, which needs more of the state, is apart.
use appchat_be.Common.{
  ℕ, Bool, Option, List, [], ◌∷◌, inl, inr, Bool-cases, none, some, ◌≡◌, subst, arith, Option-cases,
  ltb, ◌==◌, ◌||◌,
}
use mathlib.Core.Option.{some-injective}
use appchat_be.Affiliate.State.{State, Bank}
use appchat_be.Affiliate.Commissions.{
  Order, handle_order_active, handle_order_expired, credit_commission, update_config,
}
use appchat_be.Affiliate.Withdrawals.{request_withdraw, request_withdraw_all, approve_withdraw}
use appchat_be.Affiliate.Books.{
  Booked, BookedIn, credit_commission-Booked, handle_order_expired-Booked,
  handle_order_active-Booked, approve_withdraw-Booked,
}
use appchat_be.Affiliate.Requests.{request_withdraw-Booked, request_withdraw_all-Booked}

pub data Call : Type 0 where
  order_active : ℕ → Order → Call
  orders_expired : List ℕ → Call
  crediting approving : ℕ → Call
  configuring : Option ℕ → Option Bool → Call
  withdrawing : ℕ → ℕ → ℕ → Call
  withdrawing_all : ℕ → ℕ → Option Bank → Call

-- The state after a call, if all amounts are whole VND.
unfoldable pub perform : Call → State → Option State
perform (order_active id o) s = handle_order_active id o s
perform (orders_expired orders) s = some (handle_order_expired orders s)
perform (crediting id) s = some (credit_commission id s).1
perform (approving id) s = some (approve_withdraw id s).1
perform (configuring rate is_active) s = some (update_config rate is_active s).1
perform (withdrawing fresh user id) s = some (request_withdraw fresh user id s).1
perform (withdrawing_all fresh user bank) s = some (request_withdraw_all fresh user bank s).1

unfoldable pub perform_all : List Call → State → Option State
perform_all [] s = some s
perform_all (c ∷ cs) s = elim (perform c s) [ none ↦ none | some s' ↦ perform_all cs s' ]

update_config-Booked :
    (rate : Option ℕ) (is_active : Option Bool) (s : State)
    → Booked s
    → Booked (update_config rate is_active s).1
unfolding update_config
update_config-Booked none is_active s h = h
update_config-Booked (some r) is_active s h = elim (Bool-cases (r == 0 || ltb 10000 r)) [
  | inl bad ↦ rw bad h
  | inr good ↦ rw good h
]

perform-Booked : (c : Call) (s : State) → Booked s → BookedIn (perform c s)
unfolding perform
perform-Booked (order_active id o) s h = handle_order_active-Booked id o s h
perform-Booked (orders_expired orders) s h = handle_order_expired-Booked orders s h
perform-Booked (crediting id) s h = credit_commission-Booked id s h
perform-Booked (approving id) s h = approve_withdraw-Booked id s h
perform-Booked (configuring rate is_active) s h = update_config-Booked rate is_active s h
perform-Booked (withdrawing fresh user id) s h = (request_withdraw-Booked fresh user id s h).0
perform-Booked (withdrawing_all fresh user bank) s h =
    (request_withdraw_all-Booked fresh user bank s h).0

-- After any sequence of calls but rejections, refused ones included, whose commissions come to whole VND, every
-- user's affiliate balance is the sum of the user's commissions that are credited and not asked for:
-- it was so before.
pub perform_all-Booked :
    (cs : List Call) (s : State) {s' : State} → Booked s → perform_all cs s ≡ some s' → Booked s'
unfolding perform_all
perform_all-Booked [] s h e = subst Booked (some-injective _ _ e) h
perform_all-Booked (c ∷ cs) s {s'} h e = elim (Option-cases (perform c s)) [
  | inl outside ↦ absurd (ground (arith, outside, e))
  | inr (t, next) ↦
      perform_all-Booked cs t {s' = s'} (subst BookedIn next (perform-Booked c s h))
        (ground (arith, next, e))
]
