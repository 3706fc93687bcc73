-- ===== src/Affiliate/Books.antt =====
-- The books of the affiliate program of src/affiliate/affiliate.service.ts: a user's balance against
-- the user's commissions that are credited and not yet asked for.
use appchat_be.Common.{
  ℕ, ◌+◌, ◌≡◌, refl, sym, subst, ap, ◌∙◌, ◌⊎◌, inl, inr, Bool, true, ◌&&◌, Option, none, some, List,
  [], ◌∷◌, arith, ◌==◌, if◌then◌else◌, find, any, update_first, update_all, contains, All,
  Bool-cases, Option-cases,
}
use appchat_be.Affiliate.State.{
  pending, confirmed, credited, requested, paid, same_status, Commission, User, WithdrawalStatus,
  asked, transferred, rejected, State, at_status, of_referrer,
}
use appchat_be.Affiliate.Commissions.{
  Order, handle_order_active, handle_order_expired, credit_commission, with_status, pay_in,
  save_amount, save_commission, new_commission, referred_by, commission_amount, rate_for,
}
use appchat_be.Affiliate.Withdrawals.{approve_withdraw, pay_out, has_id}

-- What a commission counts in a user's balance.
unfoldable pub weight : ℕ → Commission → ℕ
weight user c = if of_referrer user credited c then c.amount else 0

abbrev pub credited_sum : ℕ → List Commission → ℕ
credited_sum user [] = 0
credited_sum user (c ∷ cs) = weight user c + credited_sum user cs

abbrev pub IsBooked : List Commission → User → Type 0
IsBooked cs u = u.balance ≡ credited_sum u.id cs

-- The books are right: it holds of every user.
abbrev pub Booked : State → Type 0
Booked s = All (IsBooked s.commissions) s.users

-- An update of the first entry that passes changes the sum by that entry's weights.
pub sum-update_first :
    (user : ℕ) (p : Commission → Bool) (f : Commission → Commission) (cs : List Commission)
    {c : Commission}
    → find p cs ≡ some c
    → credited_sum user (update_first p f cs) + weight user c
      ≡ credited_sum user cs + weight user (f c)
sum-update_first user p f [] h = cc
sum-update_first user p f (d ∷ cs) {c} h = elim (Bool-cases (p d)) [
  | inl hit ↦
      let e : d ≡ c = ground arith in
      rw hit (omega (arith, ap (weight user) e, ap (λ x. weight user (f x)) e))
  | inr miss ↦ rw miss (omega (arith, sum-update_first user p f cs {c = c} (ground arith)))
]

-- An update of every entry that passes keeps the sum, if it keeps each weight.
pub sum-update_all :
    (user : ℕ) (p : Commission → Bool) (f : Commission → Commission)
    → ((c : Commission) → p c ≡ true → weight user (f c) ≡ weight user c)
    → (cs : List Commission) → credited_sum user (update_all p f cs) ≡ credited_sum user cs
sum-update_all user p f keep [] = refl
sum-update_all user p f keep (c ∷ cs) = elim (Bool-cases (p c)) [
  | inl hit ↦ rw hit (omega (arith, keep c hit, sum-update_all user p f keep cs))
  | inr miss ↦ rw miss (omega (arith, sum-update_all user p f keep cs))
]

-- If a sum changes for one user by an amount that is paid in, the books stay right.
pub pay_in-Booked :
    (user amount : ℕ) (cs ds : List Commission) (users : List User)
    → ((v : ℕ) → credited_sum v ds ≡ credited_sum v cs + (if user == v then amount else 0))
    → All (IsBooked cs) users
    → All (IsBooked ds) (pay_in user amount users)
pay_in-Booked user amount cs ds [] change h = tt
pay_in-Booked user amount cs ds (u ∷ us) change h =
    (ground (arith, change u.id), pay_in-Booked user amount cs ds us change h.1)

pub pay_out-Booked :
    (user amount : ℕ) (cs ds : List Commission) (users : List User)
    → ((v : ℕ) → credited_sum v ds + (if user == v then amount else 0) ≡ credited_sum v cs)
    → All (IsBooked cs) users
    → All (IsBooked ds) (pay_out user amount users)
pay_out-Booked user amount cs ds [] change h = tt
pay_out-Booked user amount cs ds (u ∷ us) change h =
    (ground (arith, change u.id), pay_out-Booked user amount cs ds us change h.1)

-- The books depend on the sums only.
pub Booked-same_sums :
    (cs ds : List Commission) (users : List User)
    → ((v : ℕ) → credited_sum v ds ≡ credited_sum v cs)
    → All (IsBooked cs) users
    → All (IsBooked ds) users
Booked-same_sums cs ds [] same h = tt
Booked-same_sums cs ds (u ∷ us) same h = (h.0 ∙ sym (same u.id), Booked-same_sums cs ds us same h.1)

pub find-passes :
    (p : Commission → Bool) (cs : List Commission) {c : Commission}
    → find p cs ≡ some c
    → p c ≡ true
find-passes p [] h = cc
find-passes p (d ∷ cs) {c} h = elim (Bool-cases (p d)) [
  | inl hit ↦ let e : d ≡ c = ground arith in subst (λ x. p x ≡ true) e hit
  | inr miss ↦ find-passes p cs (ground arith)
]

-- Crediting a commission keeps the books right: what the referrer's balance gains is what the
-- commission then counts.
pub credit_commission-Booked : (id : ℕ) (s : State) → Booked s → Booked (credit_commission id s).1
unfolding credit_commission weight
credit_commission-Booked id s h =
    elim (Option-cases (find (at_status id confirmed) s.commissions)) [
      | inl missing ↦ rw (missing, credit_commission) h
      | inr (c, e) ↦
          let status = find-passes (at_status id confirmed) s.commissions e in
          rw (e, credit_commission)
            (pay_in-Booked c.referrer c.amount s.commissions _ s.users
              (λ v. ground (
                arith,
                sum-update_first v (at_status id confirmed) (with_status credited) s.commissions e,
                status,
              ))
              h)
    ]

-- A commission that has expired, or whose withdrawal is paid, counts as much as before.
pub handle_order_expired-Booked :
    (orders : List ℕ) (s : State) → Booked s → Booked (handle_order_expired orders s)
unfolding handle_order_expired weight
handle_order_expired-Booked orders s h =
    Booked-same_sums s.commissions _ s.users
      (λ v.
        sum-update_all v (λ x. contains x.order orders && same_status x.status pending)
          (with_status confirmed) (λ c e. ground arith) s.commissions)
      h

pub WithdrawalStatus-cases :
    (t : WithdrawalStatus) → (t ≡ asked) ⊎ ((t ≡ transferred) ⊎ (t ≡ rejected))
WithdrawalStatus-cases asked = inl refl
WithdrawalStatus-cases transferred = inr (inl refl)
WithdrawalStatus-cases rejected = inr (inr refl)

pub approve_withdraw-Booked : (id : ℕ) (s : State) → Booked s → Booked (approve_withdraw id s).1
unfolding approve_withdraw weight
approve_withdraw-Booked id s h = elim (Option-cases (find (has_id id) s.withdrawals)) [
  | inl missing ↦ rw (missing, approve_withdraw) h
  | inr (w, e) ↦ elim (WithdrawalStatus-cases w.status) [
    | inl open_request ↦
        rw (e, approve_withdraw)
          (rw open_request (
            Booked-same_sums s.commissions _ s.users
              (λ v.
                sum-update_all v
                  (λ x. contains x.id w.commissions && same_status x.status requested)
                  (with_status paid) (λ c e. ground arith) s.commissions)
              h))
    | inr (inl done) ↦ rw (e, approve_withdraw) (rw done h)
    | inr (inr done) ↦ rw (e, approve_withdraw) (rw done h)
  ]
]

-- A commission that is saved as pending does not count yet.
save_commission-Booked :
    (c : Commission) (s : State) → c.status ≡ pending → Booked s → Booked (save_commission c s)
unfolding weight
save_commission-Booked c s e h = elim (Bool-cases (any (λ d. d.order == c.order) s.commissions)) [
  | inl old ↦ rw old h
  | inr new ↦
      rw new (Booked-same_sums s.commissions (c ∷ s.commissions) s.users (λ v. ground arith) h)
]

-- The books are right in the state that is given, if one is.
abbrev pub BookedIn : Option State → Type 0
BookedIn none = Unit
BookedIn (some s) = Booked s

save_amount-Booked :
    (id : ℕ) (o : Order) (r rate : ℕ) (s : State) (amount : Option ℕ)
    → Booked s
    → BookedIn (save_amount id o r rate s amount)
unfolding weight
save_amount-Booked id o r rate s none h = tt
save_amount-Booked id o r rate s (some n) h = elim (Bool-cases (n == 0)) [
  | inl nothing ↦ rw nothing h
  | inr some_amount ↦
      rw some_amount (save_commission-Booked (new_commission id o r rate n) s refl h)
]

pub handle_order_active-Booked :
    (id : ℕ) (o : Order) (s : State) → Booked s → BookedIn (handle_order_active id o s)
unfolding handle_order_active
handle_order_active-Booked id o s h = elim (Bool-cases s.config.is_active) [
  | inr off ↦ rw (off, handle_order_active) h
  | inl on ↦ elim (Option-cases (referred_by o.user s)) [
    | inl nobody ↦ rw (on, handle_order_active) (rw nobody h)
    | inr (r, e) ↦
        rw (on, handle_order_active)
          (rw e (
            save_amount-Booked id o r (rate_for s r) s (commission_amount o.total (rate_for s r))
              h))
  ]
]
