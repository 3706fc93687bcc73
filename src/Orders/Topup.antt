-- ===== src/Orders/Topup.antt =====
-- `topUpBandwidth` of orders.service.ts: more GB for an order that is sold by size. What the provider
-- answers, and what other calls do to the user's money meanwhile, are arguments. The idempotency
-- entry is that of the request's key.
use appchat_be.Common.{
  ℕ, ◌+◌, ◌==◌, Bool, true, false, ◌||◌, not, Option, none, some, List, ◌∷◌, ltb, leb,
  if◌then◌else◌, or_else, Result, ok, err, ◌>>=◌, ◌>>◌, throw_if, or_throw,
}
use appchat_be.Common.Int.{ℤ, pos, ◌+ℤ◌, ◌-ℤ◌, leb_ℤ}
use appchat_be.Orders.Status.{OrderStatus, active, depleted, same_status}
use appchat_be.Orders.Pricing.{Error, unknown_duration, Service, Price, price_by_gb}
use appchat_be.Renewal.Order.{PartnerData}

pub data Failure : Type 0 where
  purchase_disabled in_progress no_order other_owner by_days not_running over : Failure
  partner_off no_partner_data no_service no_price unknown_provider cannot_extend : Failure
  no_money provider_failed : Failure
  unpriced : Error → Failure

pub record SizedOrder : Type 0 where
  pub user_id : ℕ
  pub is_bandwidth : Bool
  pub status : OrderStatus
  pub end_date : Option ℕ
  pub partner : PartnerData
  pub service : Option Service
  pub bandwidth_gb : Option ℕ
  pub total_cost : Option ℤ
  pub total_price : ℤ
  pub profit : ℤ

-- The answer of a call that went through.
pub record Reply : Type 0 where
  pub gb_added : ℕ
  pub bandwidth_gb : ℕ
  pub total_price : ℤ
  pub balance_after : ℤ
  pub end_date : Option ℕ

-- A line of the wallet's history, of type PURCHASE and direction `out`.
pub record Line : Type 0 where
  pub amount : ℤ
  pub before : ℤ
  pub after : ℤ

-- The answer that Redis keeps for a key, and until when.
pub record Entry : Type 0 where
  pub reply : Reply
  pub until : ℕ

-- The order and the user's money, if there are such, and what Redis has for the key: the answer, and until when
-- the key is locked.
pub record TopupStore : Type 0 where
  pub order : Option SizedOrder
  pub money : Option ℤ
  pub history : List Line
  pub cached : Option Entry
  pub locked : Option ℕ

-- Whether the factory knows the partner's code, whether there is `extendBandwidth`, whether it ends well, the
-- change that other calls make to the user's money meanwhile, and when the answer is kept.
pub record Extender : Type 0 where
  pub registered : Bool
  pub can_extend : Bool
  pub succeeds : Bool
  pub meanwhile : ℤ
  pub ends_at : ℕ

-- `resolvePricing` on a request that has a size and nothing else: by days it looks for the key of no
-- duration, which no table has.
abbrev pub price_of : Service → ℕ → Option ℤ → Result Error Price
price_of s user_id raw = if s.is_bandwidth then price_by_gb s user_id raw else err unknown_duration

abbrev pub priced : Result Error Price → Result Failure Price
priced (err e) = err (unpriced e)
priced (ok p) = if leb_ℤ p.total_price (pos 0) then err no_price else ok p

abbrev pub ended : ℕ → SizedOrder → Bool
ended now o = elim o.end_date [ none ↦ false | some t ↦ leb t now ]

-- The checks before the money is touched.
unfoldable pub check_topup : ℕ → ℕ → Option ℤ → Extender → SizedOrder → Result Failure Price
check_topup user_id now raw p o =
    throw_if (not (o.user_id == user_id)) other_owner
    >> (throw_if (not o.is_bandwidth) by_days
        >> (throw_if (not (same_status o.status active || same_status o.status depleted))
              not_running
            >> (throw_if (ended now o) over
                >> (throw_if (not o.partner.status) partner_off
                    >> (throw_if (not o.partner.complete) no_partner_data
                        >> (or_throw o.service no_service >>= λ s.
                            priced (price_of s user_id raw) >>= λ price.
                            throw_if (not p.registered) unknown_provider
                            >> (throw_if (not p.can_extend) cannot_extend >> ok price)))))))

abbrev pub more_cost : Option ℤ → Option ℤ → Option ℤ
more_cost old none = old
more_cost old (some c) = some (or_else old (pos 0) +ℤ c)

abbrev pub profit_of : ℤ → ℤ → Option ℤ → ℤ
profit_of old total none = old
profit_of old total (some cost) = total -ℤ cost

abbrev pub topped_up : Price → SizedOrder → SizedOrder
topped_up price o =
    let cost = more_cost o.total_cost price.cost_per_unit in
    let total = o.total_price +ℤ price.total_price in
    record o {
      bandwidth_gb = some (or_else o.bandwidth_gb 0 + or_else price.bandwidth_gb 0);
      status = if same_status o.status depleted then active else o.status;
      total_cost = cost;
      total_price = total;
      profit = profit_of o.profit total cost;
    }

abbrev pub reply_of : Price → SizedOrder → ℤ → Reply
reply_of price o left = record {
  gb_added = or_else price.bandwidth_gb 0;
  bandwidth_gb = or_else o.bandwidth_gb 0 + or_else price.bandwidth_gb 0;
  total_price = price.total_price;
  balance_after = left;
  end_date = o.end_date;
}

-- `'EX', 86400` of the answer and `'EX', 60` of the lock, in milliseconds.
abbrev pub day : ℕ
day = 86400000

abbrev pub minute : ℕ
minute = 60000

-- The call of the provider, after the price was taken and `left` was left; where it throws, the price is given
-- back.
unfoldable pub extend :
    Bool → Extender → Price → SizedOrder → ℤ → TopupStore → Result Failure Reply × TopupStore
extend keyed p price o left s =
    let r = reply_of price o left in
    if p.succeeds
    then (
      ok r,
      record s {
        order = some (topped_up price o);
        money = some (left +ℤ p.meanwhile);
        history =
            record { amount = price.total_price; before = left +ℤ price.total_price; after = left }
            ∷ s.history;
        cached = if keyed then some (record { reply = r; until = p.ends_at + day }) else s.cached;
      },
    )
    else (err provider_failed, record s { money = some (left +ℤ p.meanwhile +ℤ price.total_price) })

abbrev pub take_price :
    Bool → Extender → Price → SizedOrder → TopupStore → Option ℤ → Result Failure Reply × TopupStore
take_price keyed p price o s none = (err no_money, s)
take_price keyed p price o s (some m) =
    if leb_ℤ price.total_price m
    then extend keyed p price o (m -ℤ price.total_price) s
    else (err no_money, s)

abbrev pub serve_checked :
    Bool
    → Extender
    → SizedOrder
    → TopupStore
    → Result Failure Price
    → Result Failure Reply × TopupStore
serve_checked keyed p o s (err e) = (err e, s)
serve_checked keyed p o s (ok price) = take_price keyed p price o s s.money

abbrev pub serve :
    Bool
    → ℕ
    → ℕ
    → Option ℤ
    → Extender
    → TopupStore
    → Option SizedOrder
    → Result Failure Reply × TopupStore
serve keyed user_id now raw p s none = (err no_order, s)
serve keyed user_id now raw p s (some o) =
    serve_checked keyed p o s (check_topup user_id now raw p o)

-- What is still kept of a key's answer.
abbrev pub kept_reply : ℕ → Option Entry → Option Reply
kept_reply now none = none
kept_reply now (some e) = if ltb now e.until then some e.reply else none

abbrev pub is_locked : ℕ → Option ℕ → Bool
is_locked now none = false
is_locked now (some t) = ltb now t

abbrev pub answer_cached :
    ℕ → ℕ → Option ℤ → Extender → TopupStore → Option Reply → Result Failure Reply × TopupStore
answer_cached user_id now raw p s (some r) = (ok r, s)
answer_cached user_id now raw p s none =
    if is_locked now s.locked
    then (err in_progress, s)
    else serve true user_id now raw p (record s { locked = some (now + minute) }) s.order

-- `enabled` is the flag of `assertPurchaseEnabled`, `keyed` says that the request has an idempotency key.
unfoldable pub top_up_bandwidth :
    Bool → Bool → ℕ → ℕ → Option ℤ → Extender → TopupStore → Result Failure Reply × TopupStore
top_up_bandwidth enabled keyed user_id now raw p s =
    if not enabled
    then (err purchase_disabled, s)
    else if keyed
    then answer_cached user_id now raw p s (kept_reply now s.cached)
    else serve false user_id now raw p s s.order
