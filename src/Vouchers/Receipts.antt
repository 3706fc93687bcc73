-- ===== src/Vouchers/Receipts.antt =====
-- What the receipts of the wallet, which `recover` of src/vouchers/vouchers.service.ts writes, say of
-- a purchase.
use appchat_be.Common.{
  ℕ, ◌-◌, ◌≡◌, refl, ◌⊎◌, inl, inr, Bool, true, false, ◌&&◌, ◌||◌, not, Option, none, some, List,
  [], ◌∷◌, ◌++◌, all-append, arith, leb, ◌==◌, Bool-cases, find, any, all, max_safe,
}
use appchat_be.Common.Int.{pos, negsuc, ltb_ℤ}
use appchat_be.Vouchers.Purchase.{
  ReceiptType, debit, refused, refunded, of_intent, same_token, Receipt, Wallet, Money, whole_money,
  part_money, floor, has_receipt, wallet_admits, receipt_of, debit_money, debit_wallet,
  refuse_debit,
}

abbrev pub is_refused : ReceiptType → Bool
is_refused refused = true
is_refused debit = false
is_refused refunded = false

abbrev is_debit_of : ℕ → Receipt → Bool
is_debit_of price r = elim r.type [ debit ↦ r.amount == price | refused ↦ false | refunded ↦ false ]

pub ReceiptType-cases : (t : ReceiptType) → (t ≡ debit) ⊎ (t ≡ refused) ⊎ (t ≡ refunded)
ReceiptType-cases debit = inl refl
ReceiptType-cases refused = inr (inl refl)
ReceiptType-cases refunded = inr (inr refl)

-- A receipt of the purchase is a refusal or a debit of its price.
abbrev pub honest : ℕ → ℕ → Receipt → Bool
honest token price r =
    not (has_receipt (of_intent token) r) || is_refused r.type || is_debit_of price r

-- A receipt that proves that the price was taken.
abbrev pub pays : ℕ → ℕ → Receipt → Bool
pays token price r = has_receipt (of_intent token) r && is_debit_of price r

abbrev pub receipts_in : Option Wallet → List Receipt
receipts_in none = []
receipts_in (some u) = u.receipts

any-append_left :
    (p : Receipt → Bool) (xs ys : List Receipt) → any p xs ≡ true → any p (xs ++ ys) ≡ true
any-append_left p [] ys h = cc
any-append_left p (x ∷ xs) ys h = ground (arith, any-append_left p xs ys)

-- A receipt that is found and is no refusal is a payment.
pub found-pays :
    (token price : ℕ) (rs : List Receipt) (r : Receipt)
    → all (honest token price) rs ≡ true
    → find (has_receipt (of_intent token)) rs ≡ some r
    → is_refused r.type ≡ false
    → any (pays token price) rs ≡ true
found-pays token price [] r h e n = cc
found-pays token price (x ∷ rs) r h e n = elim (Bool-cases (has_receipt (of_intent token) x)) [
  | inr other ↦ ground (arith, found-pays token price rs r)
  | inl here ↦
      let same : x ≡ r = ground arith in
      let kind : is_refused x.type ≡ false = rw same n in ground arith
]

-- The receipts of `v` are those of `u` and perhaps one more, which is honest.
abbrev pub Extends : ℕ → ℕ → Wallet → Wallet → Type 0
Extends token price u v =
    (all (honest token price) u.receipts ≡ true → all (honest token price) v.receipts ≡ true)
    × (any (pays token price) u.receipts ≡ true → any (pays token price) v.receipts ≡ true)

self_token : (token : ℕ) → same_token (of_intent token) (of_intent token) ≡ true
self_token token = ground arith

debit_money-Extends :
    (small : Wallet → Bool) (token price : ℕ) (u : Wallet) (money : Money)
    → Extends token price u (debit_money small (of_intent token) price u money)
debit_money-Extends small token price u (part_money n) = (λ h. h, λ h. h)
debit_money-Extends small token price u (whole_money (negsuc n)) = (λ h. h, λ h. h)
debit_money-Extends small token price u (whole_money (pos m)) =
    elim (Bool-cases (wallet_admits small (of_intent token) u && leb price m && leb m max_safe)) [
      | inr refused_now ↦ rw refused_now (λ h. h, λ h. h)
      | inl taken ↦
          let r = receipt_of (of_intent token) debit price m (m - price) in
          rw taken (
            λ h. all-append (honest token price) u.receipts (r ∷ []) h (ground arith),
            λ h. any-append_left (pays token price) u.receipts (r ∷ []) h,
          )
    ]

pub debit_wallet-Extends :
    (small : Wallet → Bool) (token price : ℕ) (u : Wallet)
    → Extends token price u (debit_wallet small (of_intent token) price u)
unfolding debit_wallet
debit_wallet-Extends small token price u = debit_money-Extends small token price u u.money

pub refuse_debit-Extends :
    (small : Wallet → Bool) (token price : ℕ) (u : Wallet)
    → Extends token price u (refuse_debit small (of_intent token) price u)
unfolding refuse_debit
refuse_debit-Extends small token price u =
    elim (Bool-cases
      (wallet_admits small (of_intent token) u && ltb_ℤ (floor u.money) (pos price))) [
        | inr enough ↦ rw enough (λ h. h, λ h. h)
        | inl short ↦
            let r = receipt_of (of_intent token) refused 0 0 0 in
            rw short (
              λ h. all-append (honest token price) u.receipts (r ∷ []) h (ground arith),
              λ h. any-append_left (pays token price) u.receipts (r ∷ []) h,
            )
      ]
