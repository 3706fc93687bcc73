-- ===== src/Vouchers/PurchaseLaws.antt =====
-- The money of a purchase that `recover` of src/vouchers/vouchers.service.ts takes up at any stage.
use appchat_be.Common.{
  ℕ, ◌+◌, ◌-◌, ◌≤◌, ◌≡◌, refl, ap, ◌∙◌, inl, inr, Bool, true, false, ◌&&◌, Option, none, some, List,
  [], ◌∷◌, ◌++◌, arith, leb, if◌then◌else◌, Bool-cases, length, max_safe, Result, ok, err,
}
use mathlib.Core.Option
use appchat_be.Common.Int.{pos, negsuc, ltb_ℤ, ◌+ℤ◌, int_laws}
use appchat_be.Vouchers.Authority.{Voucher}
use appchat_be.Vouchers.Rules.{Error}
use appchat_be.Vouchers.Purchase.{
  ReceiptType, debit, refused, refunded, Token, of_intent, Receipt, Wallet, Money, whole_money,
  part_money, floor, IntentState, created, held, debited, turned_down, World, wallet_admits,
  receipt_of, debited_by, debit_money, debit_wallet, refuse_debit, reserve_stage, found_receipt,
  finish_debit, without_debit, after_refusal, after_debit, debit_from, debit_stage, insert_stage,
  is_state, then_stage, when_state, insert_rest, debit_rest, recover, receipt_cap,
}

abbrev pub is_debit : ReceiptType → Bool
is_debit debit = true
is_debit refused = false
is_debit refunded = false

-- What the receipts say was taken.
abbrev pub spent : List Receipt → ℕ
spent [] = 0
spent (r ∷ rs) = (if is_debit r.type then r.amount else 0) + spent rs

abbrev plus : ℕ → Money → Money
plus n (whole_money z) = whole_money (z +ℤ pos n)
plus n (part_money z) = part_money (z +ℤ pos n)

-- The balance together with what the receipts say was taken from it.
abbrev pub worth : Wallet → Money
worth w = plus (spent w.receipts) w.money

spent-append : (rs : List Receipt) (r : Receipt) → spent (rs ++ r ∷ []) ≡ spent rs + spent (r ∷ [])
spent-append [] r = omega arith
spent-append (x ∷ rs) r = omega (arith, spent-append rs r)

whole_shift : (m amount n : ℕ) → amount ≤ m → pos (m - amount) +ℤ pos (n + amount) ≡ pos m +ℤ pos n
whole_shift m amount n h = omega int_laws

debit_money-worth :
    (small : Wallet → Bool) (token : Token) (amount : ℕ) (w : Wallet) (money : Money)
    → w.money ≡ money
    → worth (debit_money small token amount w money) ≡ worth w
debit_money-worth small token amount w (part_money n) e = refl
debit_money-worth small token amount w (whole_money (negsuc n)) e = refl
debit_money-worth small token amount w (whole_money (pos m)) e =
    elim (Bool-cases (wallet_admits small token w && leb amount m && leb m max_safe)) [
      | inr refused_now ↦ rw refused_now refl
      | inl taken ↦
          let s : spent (debited_by token amount m w).receipts ≡ spent w.receipts + amount =
            ground
              (arith, spent-append w.receipts (receipt_of token debit amount m (m - amount))) in
          rw (taken, e, s) (ap whole_money (whole_shift m amount (spent w.receipts) (ground arith)))
    ]

refuse_debit-worth :
    (small : Wallet → Bool) (token : Token) (amount : ℕ) (w : Wallet)
    → worth (refuse_debit small token amount w) ≡ worth w
unfolding refuse_debit
refuse_debit-worth small token amount w =
    elim (Bool-cases (wallet_admits small token w && ltb_ℤ (floor w.money) (pos amount))) [
      | inr enough ↦ rw enough refl
      | inl short ↦
          let s : spent (w.receipts ++ receipt_of token refused 0 0 0 ∷ []) ≡ spent w.receipts =
            ground (arith, spent-append w.receipts (receipt_of token refused 0 0 0)) in
          rw (short, s) refl
    ]

debit_wallet-worth :
    (small : Wallet → Bool) (token : Token) (amount : ℕ) (w : Wallet)
    → worth (debit_wallet small token amount w) ≡ worth w
unfolding debit_wallet
debit_wallet-worth small token amount w = debit_money-worth small token amount w w.money refl

-- What all three stages keep, `recover` keeps.
then_stage-keeps :
    (P : World → Type 0) (r : Result Error (Unit {0}) × World)
    (k : World → Result Error (Unit {0}) × World)
    → P r.1
    → ((v : World) → P v → P (k v).1)
    → P (then_stage r k).1
then_stage-keeps P (ok t, w) k h f = f w h
then_stage-keeps P (err e, w) k h f = h

when_state-keeps :
    (P : World → Type 0) (s : IntentState) (stage : World → Result Error (Unit {0}) × World)
    (w : World)
    → P w
    → (is_state w.intent.state s ≡ true → P (stage w).1)
    → P (when_state s stage w).1
when_state-keeps P s stage w h f = elim (Bool-cases (is_state w.intent.state s)) [
  | inl here ↦ rw here (f here)
  | inr elsewhere ↦ rw elsewhere h
]

pub recover-keeps :
    (P : World → Type 0) (small : Voucher → Bool) (small_wallet : Wallet → Bool) (now : ℕ)
    → ((v : World) → is_state v.intent.state created ≡ true → P v → P (reserve_stage small now v).1)
    → ((v : World) → is_state v.intent.state held ≡ true → P v → P (debit_stage small_wallet v).1)
    → ((v : World) → is_state v.intent.state debited ≡ true → P v → P (insert_stage v))
    → (w : World) → P w
    → P (recover small small_wallet now w).1
unfolding recover
recover-keeps P small small_wallet now f g h w p =
    elim (Bool-cases (is_state w.intent.state turned_down)) [
      | inl refused_before ↦ rw refused_before p
      | inr open_still ↦ rw open_still (
          then_stage-keeps P (when_state created (reserve_stage small now) w)
            (debit_rest small_wallet)
            (when_state-keeps P created (reserve_stage small now) w p (λ e. f w e p))
            (λ v q.
              then_stage-keeps P (when_state held (debit_stage small_wallet) v) insert_rest
                (when_state-keeps P held (debit_stage small_wallet) v q (λ e. g v e q))
                (λ u r.
                  when_state-keeps P debited (λ x. (ok tt, insert_stage x)) u r (λ e. h u e r))))
    ]

reserve_stage-wallet :
    (small : Voucher → Bool) (now : ℕ) (w : World) → (reserve_stage small now w).1.wallet ≡ w.wallet
unfolding reserve_stage
reserve_stage-wallet small now w = ground arith

finish_debit-wallet : (w : World) (r : Receipt) → (finish_debit w r).1.wallet ≡ w.wallet
unfolding finish_debit
finish_debit-wallet w r = ground arith

insert_stage-wallet :
    (w : World) → Option.map worth (insert_stage w).wallet ≡ Option.map worth w.wallet
unfolding insert_stage
insert_stage-wallet w = refl

after_refusal-wallet : (w : World) (o : Option Receipt) → (after_refusal w o).1.wallet ≡ w.wallet
after_refusal-wallet w none = refl
after_refusal-wallet w (some r) = finish_debit-wallet w r

without_debit-worth :
    (small : Wallet → Bool) (w : World) (u : Wallet)
    → Option.map worth (without_debit small w u).1.wallet ≡ some (worth u)
unfolding without_debit
without_debit-worth small w u = elim (Bool-cases (leb receipt_cap (length u.receipts))) [
  | inl full ↦ rw full refl
  | inr space ↦ rw space (
      ap (Option.map worth) (after_refusal-wallet (record w { wallet = some _ }) _)
      ∙ ap some (refuse_debit-worth small (of_intent w.intent.token) w.intent.total_price u))
]

after_debit-worth :
    (small : Wallet → Bool) (w : World) (u : Wallet) (o : Option Receipt)
    → Option.map worth (after_debit small w u o).1.wallet ≡ some (worth u)
after_debit-worth small w u none = without_debit-worth small w u
after_debit-worth small w u (some r) =
    ap (Option.map worth) (finish_debit-wallet (record w { wallet = some u }) r)

debit_from-worth :
    (small : Wallet → Bool) (w : World) (o : Option Wallet)
    → w.wallet ≡ o
    → Option.map worth (debit_from small w o).1.wallet ≡ Option.map worth o
debit_from-worth small w none e = ap (Option.map worth) e
debit_from-worth small w (some u₀) e =
    let u : Wallet = debit_wallet small (of_intent w.intent.token) w.intent.total_price u₀ in
    after_debit-worth small w u (found_receipt (of_intent w.intent.token) u)
    ∙ ap some (debit_wallet-worth small (of_intent w.intent.token) w.intent.total_price u₀)

debit_stage-worth :
    (small : Wallet → Bool) (w : World)
    → Option.map worth (debit_stage small w).1.wallet ≡ Option.map worth w.wallet
unfolding debit_stage
debit_stage-worth small w = debit_from-worth small w w.wallet refl

-- However far an earlier call got and on whatever branch this one ends, an error or not, the
-- balance together with the debits on its receipts is what it was: money leaves a wallet only with
-- a receipt of the same amount.
pub recover-Conserves :
    (small : Voucher → Bool) (small_wallet : Wallet → Bool) (now : ℕ) (w : World)
    → Option.map worth (recover small small_wallet now w).1.wallet ≡ Option.map worth w.wallet
recover-Conserves small small_wallet now w =
    recover-keeps (λ v. Option.map worth v.wallet ≡ Option.map worth w.wallet) small small_wallet
      now (λ v e h. ap (Option.map worth) (reserve_stage-wallet small now v) ∙ h)
      (λ v e h. debit_stage-worth small_wallet v ∙ h) (λ v e h. insert_stage-wallet v ∙ h) w refl
