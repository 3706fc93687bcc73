-- ===== src/Accounts/Ledger.antt =====
-- The balances of src/users/users.service.ts against the manual transactions.
use appchat_be.Common.{
  ℕ, ◌≡◌, refl, sym, ap, ◌∙◌, subst, inl, inr, Bool, false, Option, some, List, [], ◌∷◌, ◌++◌,
  arith, ◌==◌, if◌then◌else◌, Bool-cases, Option-cases, find, update_first,
}
use mathlib.Core.Option
use appchat_be.Common.Int.{ℤ, pos, ◌+ℤ◌, ◌-ℤ◌, ◌≤ℤ◌, leb_ℤ, int_laws}
use appchat_be.Accounts.Money.{
  Account, Transaction, Books, money_in, money_out, has_id, add_money, take_money, no_amount,
  deposit, deduct, bad_commission, with_rate, set_commission_rate, Request, depositing, deducting,
  rating, perform, perform_all,
}

abbrev pub signed : Transaction → ℤ
signed t = elim t.direction [ money_in ↦ t.amount | money_out ↦ pos 0 -ℤ t.amount ]

-- What the transactions of a user add to the balance.
abbrev pub net : ℕ → List Transaction → ℤ
net id [] = pos 0
net id (t ∷ ts) = let rest = net id ts in if t.user_id == id then signed t +ℤ rest else rest

abbrev pub balance : ℕ → List Account → Option ℤ
balance id accounts = Option.map (λ a. a.money) (find (has_id id) accounts)

-- The balance is `opening` and what the transactions add, and is not negative.
abbrev pub Accounted : ℕ → ℤ → Books → Type 0
Accounted id opening s =
    (m : ℤ) × (balance id s.accounts ≡ some m)
    × (m ≡ opening +ℤ net id s.transactions)
    × (pos 0 ≤ℤ m)

net-append :
    (id : ℕ) (ts : List Transaction) (t : Transaction)
    → net id (ts ++ t ∷ []) ≡ net id ts +ℤ (if t.user_id == id then signed t else pos 0)
net-append id [] t = grind int_laws
net-append id (x ∷ ts) t = grind (int_laws, net-append id ts t)

-- Updating one user's account: that user's balance follows, the others' stay.
find-update_first :
    (id : ℕ) (f : Account → Account) (xs : List Account)
    → ((a : Account) → (f a).id ≡ a.id)
    → find (has_id id) (update_first (has_id id) f xs) ≡ Option.map f (find (has_id id) xs)
find-update_first id f [] keep = refl
find-update_first id f (a ∷ xs) keep = elim (Bool-cases (has_id id a)) [
  | inl hit ↦ ground (arith, keep a)
  | inr miss ↦ ground (arith, find-update_first id f xs keep)
]

find-update_other :
    (id other : ℕ) (f : Account → Account) (xs : List Account)
    → ((a : Account) → (f a).id ≡ a.id)
    → (other == id) ≡ false
    → find (has_id id) (update_first (has_id other) f xs) ≡ find (has_id id) xs
find-update_other id other f [] keep apart = refl
find-update_other id other f (a ∷ xs) keep apart = elim (Bool-cases (has_id other a)) [
  | inl hit ↦ ground (arith, keep a)
  | inr miss ↦ ground (arith, find-update_other id other f xs keep apart)
]

shifted :
    (x m opening delta n n' : ℤ)
    → x ≡ m
    → m ≡ opening +ℤ n
    → n' ≡ n +ℤ delta
    → x +ℤ delta ≡ opening +ℤ n'
shifted x m opening delta n n' e h k = rw (e, h, k) (omega int_laws)

minus : (x amount : ℤ) → x -ℤ amount ≡ x +ℤ (pos 0 -ℤ amount)
minus x amount = omega int_laws

covered : (x amount : ℤ) → amount ≤ℤ x → pos 0 ≤ℤ x +ℤ (pos 0 -ℤ amount)
covered x amount h = omega int_laws

grown : (x amount : ℤ) → pos 0 ≤ℤ amount → pos 0 ≤ℤ x → pos 0 ≤ℤ x +ℤ amount
grown x amount h k = omega int_laws

-- A change by `delta` of one account, with a transaction that says so.
moved-Accounted :
    (id other : ℕ) (opening delta : ℤ) (s : Books) (f : Account → Account) (t : Transaction)
    (a : Account)
    → ((a : Account) → (f a).id ≡ a.id)
    → (f a).money ≡ a.money +ℤ delta
    → signed t ≡ delta
    → t.user_id ≡ other
    → find (has_id other) s.accounts ≡ some a
    → (pos 0 ≤ℤ a.money → pos 0 ≤ℤ a.money +ℤ delta)
    → Accounted id opening s
    → Accounted id opening (record {
      accounts = update_first (has_id other) f s.accounts;
      transactions = s.transactions ++ t ∷ [];
    })
moved-Accounted id other opening delta s f t a keep money sign owner known enough
      (m, is_m, sums, nonneg) =
    elim (Bool-cases (other == id)) [
      | inr apart ↦
          let same_net : net id (s.transactions ++ t ∷ []) ≡ net id s.transactions =
            grind (int_laws, net-append id s.transactions t) in
          (
            m,
            ap (Option.map (λ b. b.money)) (find-update_other id other f s.accounts keep apart)
                ∙ is_m,
            sums ∙ ap (λ z. opening +ℤ z) (sym same_net),
            nonneg,
          )
      | inl here ↦
          let e : other ≡ id = ground arith in
          let mine : find (has_id id) s.accounts ≡ some a =
            subst (λ i. find (has_id i) s.accounts ≡ some a) e known in
          let same : a.money ≡ m = ground (arith, mine, is_m) in
          let new_net : net id (s.transactions ++ t ∷ []) ≡ net id s.transactions +ℤ delta =
            ground (arith, net-append id s.transactions t, sign, owner, here) in
          (
            a.money +ℤ delta,
            subst (λ i. balance id (update_first (has_id i) f s.accounts) ≡ some (a.money +ℤ delta))
                (sym e)
                (ap (Option.map (λ b. b.money))
                    (find-update_first id f s.accounts keep ∙ ap (Option.map f) mine)
                  ∙ ap some money),
            shifted a.money m opening delta (net id s.transactions) _ same sums new_net,
            enough (rw same nonneg),
          )
    ]

deposit-Accounted :
    (enabled : Bool) (id other : ℕ) (amount opening : ℤ) (s : Books)
    → Accounted id opening s
    → Accounted id opening (deposit enabled other amount s).1
unfolding deposit
deposit-Accounted enabled id other amount opening s c = elim (Bool-cases enabled) [
  | inr off ↦ rw off c
  | inl on ↦ elim (Bool-cases (no_amount amount)) [
    | inl nothing ↦ rw on (rw nothing c)
    | inr something ↦ elim (Option-cases (find (has_id other) s.accounts)) [
      | inl nobody ↦ rw on (rw something (rw nobody c))
      | inr (a, known) ↦ rw on (
          rw something (
            rw known (
              moved-Accounted id other opening amount s (add_money amount) _ a (λ b. refl) refl refl
                refl known (grown a.money amount (ground arith)) c)))
    ]
  ]
]

deduct-Accounted :
    (id other : ℕ) (amount opening : ℤ) (s : Books)
    → Accounted id opening s
    → Accounted id opening (deduct other amount s).1
unfolding deduct
deduct-Accounted id other amount opening s c = elim (Bool-cases (no_amount amount)) [
  | inl nothing ↦ rw nothing c
  | inr something ↦ elim (Option-cases (find (has_id other) s.accounts)) [
    | inl nobody ↦ rw something (rw nobody c)
    | inr (a, known) ↦ elim (Bool-cases (leb_ℤ amount a.money)) [
      | inr short ↦ rw something (rw known (rw short c))
      | inl enough ↦ rw something (
          rw known (
            rw enough (
              moved-Accounted id other opening (pos 0 -ℤ amount) s (take_money amount) _ a
                (λ b. refl) (minus a.money amount) refl refl known
                (λ h. covered a.money amount (ground arith)) c)))
    ]
  ]
]

find-with_rate :
    (id other : ℕ) (rate : Option ℤ) (xs : List Account)
    → balance id (update_first (has_id other) (with_rate rate) xs) ≡ balance id xs
find-with_rate id other rate [] = refl
find-with_rate id other rate (a ∷ xs) = elim (Bool-cases (has_id other a)) [
  | inl hit ↦ ground arith
  | inr miss ↦ ground (arith, find-with_rate id other rate xs)
]

set_commission_rate-Accounted :
    (id other : ℕ) (rate : Option ℤ) (opening : ℤ) (s : Books)
    → Accounted id opening s
    → Accounted id opening (set_commission_rate other rate s).1
unfolding set_commission_rate
set_commission_rate-Accounted id other rate opening s c = elim (Bool-cases (bad_commission rate)) [
  | inl bad ↦ rw bad c
  | inr good ↦ elim (Option-cases (find (has_id other) s.accounts)) [
    | inl nobody ↦ rw good (rw nobody c)
    | inr (a, known) ↦
        rw good (rw known (c.0, find-with_rate id other rate s.accounts ∙ c.1, c.2, c.3))
  ]
]

perform-Accounted :
    (enabled : Bool) (id : ℕ) (opening : ℤ) (r : Request) (s : Books)
    → Accounted id opening s
    → Accounted id opening (perform enabled r s)
unfolding perform
perform-Accounted enabled id opening (depositing other amount) s c =
    deposit-Accounted enabled id other amount opening s c
perform-Accounted enabled id opening (deducting other amount) s c =
    deduct-Accounted id other amount opening s c
perform-Accounted enabled id opening (rating other rate) s c =
    set_commission_rate-Accounted id other rate opening s c

-- After any requests of the administrators, refused ones included, the balance of every user is the
-- opening balance and what that user's transactions add and take, and it is not below 0: both held
-- before.
pub perform_all-Accounted :
    (enabled : Bool) (id : ℕ) (opening : ℤ) (rs : List Request) (s : Books)
    → Accounted id opening s
    → Accounted id opening (perform_all enabled rs s)
unfolding perform_all
perform_all-Accounted enabled id opening [] s c = c
perform_all-Accounted enabled id opening (r ∷ rs) s c =
    perform_all-Accounted enabled id opening rs (perform enabled r s)
      (perform-Accounted enabled id opening r s c)
