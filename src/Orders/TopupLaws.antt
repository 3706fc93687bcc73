-- ===== src/Orders/TopupLaws.antt =====
-- What `topUpBandwidth` of orders.service.ts does to the wallet and the order.
use appchat_be.Common.{◌+◌, or_else, ℕ, ◌≡◌, false, Option, some, ◌∷◌, Result, ok, err}
use appchat_be.Common.Int.{ℤ, ◌+ℤ◌, ◌-ℤ◌, ◌≤ℤ◌}
use appchat_be.Orders.Pricing.{Price}
use appchat_be.Orders.Topup.{
  Failure, provider_failed, SizedOrder, Reply, TopupStore, Extender, kept_reply,
}
use appchat_be.Orders.TopupPrice.{IsPriced, Grows}

-- What a call leaves: the order has the GB and the money paid for them; or the provider threw and the price was
-- given back; or the answer was there; or it was refused before. `meanwhile` is what other calls did to the money.
pub data Topped (user_id now : ℕ) (raw : Option ℤ) (p : Extender) (s : TopupStore)
    : Result Failure Reply → TopupStore → Type 0 where
  bought :
      (o o' : SizedOrder) (price : Price) (m : ℤ) (r : Reply) (s' : TopupStore)
      → s.order ≡ some o
      → o.user_id ≡ user_id
      → (good : IsPriced user_id raw o price) → s.money ≡ some m
      → price.total_price ≤ℤ m
      → s'.order ≡ some o'
      → Grows good.choice.gb price o o'
      → s'.money ≡ some (m -ℤ price.total_price +ℤ p.meanwhile)
      → s'.history
        ≡ record { amount = price.total_price; before = m; after = m -ℤ price.total_price }
          ∷ s.history
      → r ≡ record {
        gb_added = good.choice.gb;
        bandwidth_gb = or_else o.bandwidth_gb 0 + good.choice.gb;
        total_price = price.total_price;
        balance_after = m -ℤ price.total_price;
        end_date = o.end_date;
      }
      → Topped user_id now raw p s (ok r) s'
  given_back :
      (m : ℤ) (s' : TopupStore)
      → p.succeeds ≡ false
      → s.money ≡ some m
      → s'.money ≡ some (m +ℤ p.meanwhile)
      → s'.order ≡ s.order
      → s'.history ≡ s.history
      → Topped user_id now raw p s (err provider_failed) s'
  answered : (r : Reply) → kept_reply now s.cached ≡ some r → Topped user_id now raw p s (ok r) s
  refused :
      (e : Failure) (s' : TopupStore)
      → s'.money ≡ s.money
      → s'.order ≡ s.order
      → s'.history ≡ s.history
      → s'.cached ≡ s.cached
      → Topped user_id now raw p s (err e) s'
