-- ===== src/Vouchers/RefundLaws.antt =====
-- On `refund` of src/vouchers/vouchers.service.ts: the wallet and the order over several calls.
use appchat_be.Common.{
  ℕ, ◌-◌, ◌≤◌, ◌≡◌, refl, sym, ap, ◌∙◌, subst, inl, inr, Bool, true, false, ◌&&◌, Option, none,
  some, arith, ltb, leb, if◌then◌else◌, Bool-cases, Result-cases, any, any-find, max_safe, Value,
  whole, ok, >>=-eq-ok, throw_if-eq-ok, ok-injective, or_else,
}
use mathlib.Core.Option
use mathlib.Core.Option.{some-injective}
use appchat_be.Common.Int.{pos}
use appchat_be.Vouchers.Rules.{integer, over_total, not_partial, not_failed}
use appchat_be.Vouchers.RuleLaws.{integer_value}
use appchat_be.Vouchers.Purchase.{
  Token, of_order, Receipt, Wallet, Money, whole_money, part_money, has_receipt, wallet_admits,
  found_receipt,
}
use appchat_be.Vouchers.Refund.{
  Plan, VoucherOrder, Account, asked_amount, wrong_state, refund_target, with_plan, agrees,
  refunded_by, refund_money, refund_wallet, paid_back, receipt_in, finish_refund, pay_plan, refund,
}

refund_money-eq :
    (small : Wallet → Bool) (token : Token) (amount : ℕ) (w : Wallet) (money : Money)
    → any (has_receipt token) w.receipts ≡ true
    → refund_money small token amount w money ≡ w
refund_money-eq small token amount w (part_money n) h = refl
refund_money-eq small token amount w (whole_money n) h = ground arith

-- A wallet with the receipt is not touched again.
refund_wallet-eq :
    (small : Wallet → Bool) (token : Token) (amount : ℕ) (w : Wallet) {r : Receipt}
    → found_receipt token w ≡ some r
    → refund_wallet small token amount w ≡ w
unfolding refund_wallet
refund_wallet-eq small token amount w {r} h =
    refund_money-eq small token amount w w.money (any-find (has_receipt token) w.receipts r h)

-- What a refund that succeeded leaves.
pub record Done (small : Wallet → Bool) (target : ℕ) (missing : Bool) (a : Account) (b : Account)
    : Type 0 where
  pub plan : Plan
  pub holder : Wallet
  pub receipt : Receipt
  pub has_plan : b.order.plan ≡ some plan
  pub agreed : agrees target missing plan ≡ true
  pub order : b.order ≡ paid_back target missing (with_plan target missing a.order)
  pub wallet : b.wallet ≡ some holder
  pub moved : b.wallet ≡ Option.map (refund_wallet small (of_order a.order.id) target) a.wallet
  pub found : found_receipt (of_order a.order.id) holder ≡ some receipt

finish_refund-ok :
    (target t : ℕ) (missing : Bool) (o : VoucherOrder) (u : Option Wallet) (a : Account)
    (r : Option Receipt) {b : Account}
    → finish_refund target missing o u a r ≡ (ok t, b)
    → (t ≡ target)
      × (b.order ≡ paid_back target missing o)
      × (b.wallet ≡ u)
      × ((s : Receipt) × (r ≡ some s))
finish_refund-ok target t missing o u a none h = absurd (ground arith)
finish_refund-ok target t missing o u a (some s) h =
    (ground arith, ap (λ x. x.1.order) (sym h), ap (λ x. x.1.wallet) (sym h), (s, refl))

holder_of :
    (token : Token) (u : Option Wallet) (s : Receipt)
    → receipt_in token u ≡ some s
    → (w : Wallet) × (u ≡ some w) × (found_receipt token w ≡ some s)
holder_of token none s h = absurd (ground arith)
holder_of token (some w) s h = (w, refl, h)

pay_plan-Done :
    (small : Wallet → Bool) (target t : ℕ) (missing : Bool) (a : Account) (p : Plan) {b : Account}
    → (with_plan target missing a.order).plan ≡ some p
    → pay_plan small target missing (with_plan target missing a.order) a (some p) ≡ (ok t, b)
    → (t ≡ target) × Done small target missing a b
pay_plan-Done small target t missing a p {b} planned h =
    elim (Bool-cases (agrees target missing p)) [
      | inr apart ↦ absurd (ground arith)
      | inl same ↦
          let u = Option.map (refund_wallet small (of_order a.order.id) target) a.wallet in
          let f =
            finish_refund-ok target t missing (with_plan target missing a.order) u a
              (receipt_in (of_order a.order.id) u) {b = b} (ground arith) in
          let k = holder_of (of_order a.order.id) u f.3.0 f.3.1 in
          (
            f.0,
            record {
              plan = p;
              holder = k.0;
              receipt = f.3.0;
              has_plan = ap (λ o. o.plan) f.1 ∙ planned;
              agreed = same;
              order = f.1;
              wallet = f.2 ∙ k.1;
              moved = f.2;
              found = k.2;
            },
          )
    ]

refund-Done :
    (small : Wallet → Bool) (amount : Option Value) (missing : Bool) (a : Account) {t : ℕ}
    {b : Account}
    → refund small amount missing a ≡ (ok t, b)
    → (refund_target a.order amount missing ≡ ok t) × Done small t missing a b
unfolding refund
refund-Done small amount missing a {t} {b} h =
    elim (Result-cases (refund_target a.order amount missing)) [
      | inr (e, bad) ↦ absurd (ground arith)
      | inl (target, good) ↦
          let r = pay_plan-Done small target t missing a _ {b = b} refl (ground arith) in
          (good ∙ ap ok (sym r.0), subst (λ x. Done small x missing a b) (sym r.0) r.1)
    ]

-- The plan of an order decides the amount and the kind of every refund that succeeds.
agrees_same :
    (t t' : ℕ) (m m' : Bool) (p : Plan)
    → agrees t m p ≡ true
    → agrees t' m' p ≡ true
    → (t' ≡ t) × (m' ≡ m)
agrees_same t t' true true p h k = ground arith
agrees_same t t' false false p h k = ground arith
agrees_same t t' true false p h k = absurd (ground arith)
agrees_same t t' false true p h k = absurd (ground arith)

paid_back_again :
    (t : ℕ) (m : Bool) (o : VoucherOrder)
    → paid_back t m (with_plan t m (paid_back t m (with_plan t m o)))
      ≡ paid_back t m (with_plan t m o)
paid_back_again t m o = refl

kept_plan :
    (t' : ℕ) (m' : Bool) (b c : Account) (p q : Plan)
    → b.order.plan ≡ some p
    → c.order.plan ≡ some q
    → c.order ≡ paid_back t' m' (with_plan t' m' b.order)
    → q ≡ p
kept_plan t' m' b c p q h k e = some-injective _ _ (
    sym k
    ∙ ap (λ o. o.plan) e
    ∙ ap (λ o. some (or_else o (record { amount = t'; missing = m' }))) h)

wallet_again :
    (small : Wallet → Bool) (token : Token) (t : ℕ) (u : Option Wallet) (w : Wallet) (r : Receipt)
    → u ≡ some w
    → found_receipt token w ≡ some r
    → Option.map (refund_wallet small token t) u ≡ u
wallet_again small token t u w r e h =
    subst (λ x. Option.map (refund_wallet small token t) x ≡ x) (sym e)
      (ap some (refund_wallet-eq small token t w {r = r} h))

-- After one refund of an order succeeded, every further refund that succeeds, whatever is asked for,
-- is for the same amount and leaves the wallet and the order as they are.
pub refund-Once :
    (small : Wallet → Bool) (amount other_amount : Option Value) (missing other_missing : Bool)
    (a : Account) {t t' : ℕ} {b c : Account}
    → refund small amount missing a ≡ (ok t, b)
    → refund small other_amount other_missing b ≡ (ok t', c)
    → (t' ≡ t) × (c.wallet ≡ b.wallet) × (c.order ≡ b.order)
refund-Once small amount other_amount missing other_missing a {t} {t'} {b} {c} h k =
    let first = (refund-Done small amount missing a h).1 in
    let second = (refund-Done small other_amount other_missing b k).1 in
    let same_plan : second.plan ≡ first.plan =
      kept_plan t' other_missing b c first.plan second.plan first.has_plan second.has_plan
        second.order in
    let same =
      agrees_same t t' missing other_missing first.plan first.agreed
        (subst (λ q. agrees t' other_missing q ≡ true) same_plan second.agreed) in
    let same_id : a.order.id ≡ b.order.id = sym (ap (λ o. o.id) first.order) in
    (
      same.0,
      second.moved
          ∙ wallet_again small (of_order b.order.id) t' b.wallet first.holder first.receipt
              first.wallet
              (subst (λ i. found_receipt (of_order i) first.holder ≡ some first.receipt) same_id
                first.found),
      second.order
          ∙ ap (λ x. paid_back x other_missing (with_plan x other_missing b.order)) same.0
          ∙ ap (λ x. paid_back t x (with_plan t x b.order)) same.1
          ∙ ap (λ o. paid_back t missing (with_plan t missing o)) first.order
          ∙ paid_back_again t missing a.order
          ∙ sym first.order,
    )

target-le_total :
    (o : VoucherOrder) (amount : Option Value) (missing : Bool) {t : ℕ}
    → refund_target o amount missing ≡ ok t
    → t ≤ o.total_price
unfolding refund_target
target-le_total o amount missing {t} h =
    let i = >>=-eq-ok (integer (whole (pos o.total_price)) 0) _ h in
    let j = >>=-eq-ok (asked_amount o amount missing) _ i.2 in
    let k = throw_if-eq-ok (ltb i.0 j.0) over_total _ j.2 in
    let l =
      throw_if-eq-ok (wrong_state o missing) (if missing then not_partial else not_failed) (ok j.0)
        k.1 in
    let total : whole (pos o.total_price) ≡ whole (pos i.0) =
      (integer_value (whole (pos o.total_price)) 0 {n = i.0} i.1).0 in
    let same : j.0 ≡ t = ok-injective l.1 in ground (arith, k.0, total, same)

added :
    (small : Wallet → Bool) (token : Token) (t m : ℕ) (u v : Option Wallet) (w w' : Wallet)
    (r : Receipt)
    → u ≡ some w
    → w.money ≡ whole_money (pos m)
    → any (has_receipt token) w.receipts ≡ false
    → v ≡ Option.map (refund_wallet small token t) u
    → v ≡ some w'
    → found_receipt token w' ≡ some r
    → v ≡ some (refunded_by token t m w)
unfolding refund_wallet
added small token t m u v w w' r holder money fresh moved kept found =
    let e : some w' ≡ some (refund_money small token t w (whole_money (pos m))) =
      sym kept
      ∙ moved
      ∙ ap (Option.map (refund_wallet small token t)) holder
      ∙ ap (λ x. some (refund_money small token t w x)) money in
    elim (Bool-cases (wallet_admits small token w && leb m (max_safe - t))) [
      | inl taken ↦ kept ∙ e ∙ (rw taken refl)
      | inr refused_now ↦
          let same : w' ≡ w = some-injective _ _ (e ∙ (rw refused_now refl)) in
          let lost : any (has_receipt token) w'.receipts ≡ true =
            any-find (has_receipt token) w'.receipts r found in
          absurd (ground (arith, ap (λ x. any (has_receipt token) x.receipts) same))
    ]

-- For a wallet whose money is a whole number of 0 or more and that has no receipt for the order yet, a
-- refund that succeeds is for at most the order's price and adds exactly that much to the money, with
-- one receipt.
pub refund-Exact :
    (small : Wallet → Bool) (amount : Option Value) (missing : Bool) (a : Account) (w : Wallet)
    (m : ℕ) {t : ℕ} {b : Account}
    → a.wallet ≡ some w
    → w.money ≡ whole_money (pos m)
    → any (has_receipt (of_order a.order.id)) w.receipts ≡ false
    → refund small amount missing a ≡ (ok t, b)
    → (t ≤ a.order.total_price)
      × (b.wallet ≡ some (refunded_by (of_order a.order.id) t m w))
      × (b.order.refunded_amount ≡ t)
refund-Exact small amount missing a w m {t} {b} holder money fresh h =
    let d = refund-Done small amount missing a h in
    (
      target-le_total a.order amount missing d.0,
      added small (of_order a.order.id) t m a.wallet b.wallet w d.1.holder d.1.receipt holder money
          fresh d.1.moved d.1.wallet d.1.found,
      ap (λ o. o.refunded_amount) d.1.order,
    )
