-- ===== src/Affiliate/Commissions.antt =====
-- A commission from the order to the referrer's balance: `handleOrderActive`, `handleOrderExpired`
-- and `creditCommission`, with `updateConfig`.
use appchat_be.Common.{
  ℕ, ◌+◌, ◌*◌, ◌/◌, ◌%◌, leb, max_safe, Bool, false, ◌&&◌, ◌||◌, Option, none, some, List, ◌∷◌, ltb,
  ◌==◌, if◌then◌else◌, or_else, find, any, contains, update_first, update_all, Result, ok, err,
}
use appchat_be.Affiliate.State.{
  CommissionStatus, pending, confirmed, credited, same_status, Commission, User, Config, State,
  Error, not_creditable, bad_rate, has_user, at_status,
}

pub record Order : Type 0 where
  pub id : ℕ
  pub user : ℕ
  pub total : ℕ

-- `parseFloat(((total * rate) / 100).toFixed(2))`, rates in hundredths of a percent. The source computes with
-- doubles, which are exact where the rate is a whole percent, the product a safe integer and the
-- amount a whole VND; any other amount is `none` here.
unfoldable pub commission_amount : ℕ → ℕ → Option ℕ
commission_amount total rate =
    let product = total * (rate / 100) in
    if rate % 100 == 0 && product % 100 == 0 && leb product max_safe
    then some (product / 100)
    else none

-- The referrer's own rate, or the configured one.
abbrev pub rate_for : State → ℕ → ℕ
rate_for s referrer = elim (find (has_user referrer) s.users) [
  | none ↦ s.config.rate
  | some u ↦ or_else u.rate s.config.rate
]

abbrev pub new_commission : ℕ → Order → ℕ → ℕ → ℕ → Commission
new_commission id o referrer rate amount = record {
  id = id;
  referrer = referrer;
  referred = o.user;
  order = o.id;
  order_total = o.total;
  rate = rate;
  amount = amount;
  status = pending;
  bank = none;
}

-- `save`, which the unique index on `order_id` refuses for a second commission of an order.
abbrev pub save_commission : Commission → State → State
save_commission c s =
    if any (λ d. d.order == c.order) s.commissions
    then s
    else record s { commissions = c ∷ s.commissions }

abbrev pub referred_by : ℕ → State → Option ℕ
referred_by user s = elim (find (has_user user) s.users) [ none ↦ none | some u ↦ u.referred_by ]

-- A commission of nothing is not saved.
abbrev pub save_amount : ℕ → Order → ℕ → ℕ → State → Option ℕ → Option State
save_amount id o referrer rate s none = none
save_amount id o referrer rate s (some amount) =
    if amount == 0
    then some s
    else some (save_commission (new_commission id o referrer rate amount) s)

-- `handleOrderActive`, with a fresh id for the commission; `none` where the amount is not a whole VND.
unfoldable pub handle_order_active : ℕ → Order → State → Option State
handle_order_active id o s =
    if s.config.is_active
    then (elim (referred_by o.user s) [
      | none ↦ some s
      | some referrer ↦
          save_amount id o referrer (rate_for s referrer) s
            (commission_amount o.total (rate_for s referrer))
    ])
    else some s

abbrev pub with_status : CommissionStatus → Commission → Commission
with_status status c = record c { status = status }

-- `handleOrderExpired`
unfoldable pub handle_order_expired : List ℕ → State → State
handle_order_expired orders s = record s {
  commissions =
      update_all (λ c. contains c.order orders && same_status c.status pending)
        (with_status confirmed) s.commissions;
}

abbrev pub add_balance : ℕ → User → User
add_balance amount u = record u { balance = u.balance + amount }

-- `$inc: { affiliate_balance: amount }` by id.
abbrev pub pay_in : ℕ → ℕ → List User → List User
pay_in user amount = update_all (has_user user) (add_balance amount)

unfoldable pub credit_commission : ℕ → State → Result Error ℕ × State
credit_commission id s = elim (find (at_status id confirmed) s.commissions) [
  | none ↦ (err not_creditable, s)
  | some c ↦ (
    ok c.amount,
    record s {
      commissions = update_first (at_status id confirmed) (with_status credited) s.commissions;
      users = pay_in c.referrer c.amount s.users;
    },
  )
]

-- `updateConfig`; a rate that is not given is `none`.
unfoldable pub update_config : Option ℕ → Option Bool → State → Result Error Config × State
update_config rate is_active s =
    let bad : Bool = elim rate [ none ↦ false | some r ↦ r == 0 || ltb 10000 r ] in
    let config : Config = record {
      is_active = or_else is_active s.config.is_active;
      rate = or_else rate s.config.rate;
    } in
    if bad then (err bad_rate, s) else (ok config, record s { config = config })
