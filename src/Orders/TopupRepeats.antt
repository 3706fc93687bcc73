-- ===== src/Orders/TopupRepeats.antt =====
-- A top-up asked for twice with the same key, in `topUpBandwidth` of orders.service.ts.
use appchat_be.Common.{
  ℕ, ◌+◌, ◌<◌, arith, sym, ◌∙◌, ◌≡◌, refl, ap, subst, inl, inr, Bool, true, false, Bool-cases,
  Option, none, some, Result, ok, err,
}
use appchat_be.Common.Int.{ℤ, ◌-ℤ◌, leb_ℤ}
use appchat_be.Orders.Pricing.{Price}
use appchat_be.Orders.Topup.{
  Failure, SizedOrder, Reply, TopupStore, Extender, check_topup, extend, take_price, serve_checked,
  serve, answer_cached, kept_reply, is_locked, day, minute, top_up_bandwidth,
}

-- An answer that a call with a key gives is kept for the key, a day from when it ended.
abbrev Keeps : Extender → Result Failure Reply × TopupStore → Type 0
Keeps p (ok r, s) = s.cached ≡ some (record { reply = r; until = p.ends_at + day })
Keeps p (err e, s) = Unit

extend-Keeps :
    (p : Extender) (price : Price) (o : SizedOrder) (left : ℤ) (s : TopupStore)
    → Keeps p (extend true p price o left s)
unfolding extend
extend-Keeps p price o left s = elim (Bool-cases p.succeeds) [
  | inl well ↦ rw well refl
  | inr throws ↦ rw throws tt
]

take_price-Keeps :
    (p : Extender) (price : Price) (o : SizedOrder) (s : TopupStore) (money : Option ℤ)
    → Keeps p (take_price true p price o s money)
take_price-Keeps p price o s none = tt
take_price-Keeps p price o s (some m) = elim (Bool-cases (leb_ℤ price.total_price m)) [
  | inl enough ↦ rw enough (extend-Keeps p price o (m -ℤ price.total_price) s)
  | inr short ↦ rw short tt
]

serve_checked-Keeps :
    (p : Extender) (o : SizedOrder) (s : TopupStore) (c : Result Failure Price)
    → Keeps p (serve_checked true p o s c)
serve_checked-Keeps p o s (err e) = tt
serve_checked-Keeps p o s (ok price) = take_price-Keeps p price o s s.money

serve-Keeps :
    (user_id now : ℕ) (raw : Option ℤ) (p : Extender) (s : TopupStore) (o : Option SizedOrder)
    → Keeps p (serve true user_id now raw p s o)
serve-Keeps user_id now raw p s none = tt
serve-Keeps user_id now raw p s (some o) =
    serve_checked-Keeps p o s (check_topup user_id now raw p o)

answer_cached-Keeps :
    (user_id now : ℕ) (raw : Option ℤ) (p : Extender) (s : TopupStore)
    → Keeps p (answer_cached user_id now raw p s none)
answer_cached-Keeps user_id now raw p s = elim (Bool-cases (is_locked now s.locked)) [
  | inl busy ↦ rw busy tt
  | inr free ↦
      rw free (serve-Keeps user_id now raw p (record s { locked = some (now + minute) }) s.order)
]

top_up_bandwidth-Keeps :
    (enabled : Bool) (user_id now : ℕ) (raw : Option ℤ) (p : Extender) (s : TopupStore)
    → kept_reply now s.cached ≡ none
    → Keeps p (top_up_bandwidth enabled true user_id now raw p s)
unfolding top_up_bandwidth
top_up_bandwidth-Keeps false user_id now raw p s fresh = tt
top_up_bandwidth-Keeps true user_id now raw p s fresh =
    subst (λ a. Keeps p (answer_cached user_id now raw p s a)) (sym fresh)
      (answer_cached-Keeps user_id now raw p s)

-- A top-up with a key for which no answer is kept yet, if it went through and is asked for again with the key
-- within a day of its end, for whatever size and whatever the provider would do: gives the same
-- answer and changes nothing, so that no money is taken twice.
pub top_up_bandwidth_idem :
    (enabled : Bool) (user_id now later : ℕ) (raw other : Option ℤ) (p q : Extender)
    (s s' : TopupStore) (r : Reply)
    → kept_reply now s.cached ≡ none
    → later < p.ends_at + day
    → top_up_bandwidth enabled true user_id now raw p s ≡ (ok r, s')
    → top_up_bandwidth true true user_id later other q s' ≡ (ok r, s')
unfolding top_up_bandwidth
top_up_bandwidth_idem enabled user_id now later raw other p q s s' r fresh soon h =
    let entry : s'.cached ≡ some (record { reply = r; until = p.ends_at + day }) =
      subst (Keeps p) h (top_up_bandwidth-Keeps enabled user_id now raw p s fresh) in
    let known : kept_reply later s'.cached ≡ some r =
      ap (kept_reply later) entry ∙ still_kept later (p.ends_at + day) r soon in
    ap (answer_cached user_id later other q s') known
  where
    still_kept :
        (t until : ℕ) (r : Reply)
        → t < until
        → kept_reply t (some (record { reply = r; until = until })) ≡ some r
    still_kept t until r h = ground arith
