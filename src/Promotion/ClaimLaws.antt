-- ===== src/Promotion/ClaimLaws.antt =====
-- On `claim` of deposit-promotions.service.ts: which transfers an intent's quote goes to.
use appchat_be.Common.{
  ℕ, ◌≡◌, refl, ◌⊎◌, inl, inr, Bool, true, false, ◌&&◌, ◌||◌, not, Option, none, some, List, [],
  ◌∷◌, arith, ◌==◌, find, any, all, count, count-positive, ◌≤◌, update_first, all-update_first,
  Text, Result, ok, err, whole, Bool-cases, Option-cases, Result-cases,
}
use appchat_be.Common.Int.{pos}
use appchat_be.Promotion.Quote.{
  Error, unknown_intent, intent_mismatch, intent_used, Quote, Intent, calculate_quote,
  intent_eligible,
}
use appchat_be.Promotion.Claim.{has_code, is_free, consume, code_of, claim_intent, claim}

abbrev pub is_consumer : ℕ → Option ℕ → Bool
is_consumer receipt none = false
is_consumer receipt (some r) = r == receipt

abbrev owned : Text → ℕ → Intent → Bool
owned code receipt i = not (has_code code i) || is_consumer receipt i.consumed_by

-- The intent of the code is consumed by this transfer.
abbrev pub Owned : Text → ℕ → List Intent → Type 0
Owned code receipt intents = all (owned code receipt) intents ≡ true

-- A claim of a transfer: the text, the user, the amount, the date and the receipt.
pub record Call : Type 0 where
  pub content : Text
  pub user_id : ℕ
  pub amount : ℕ
  pub date : Option ℕ
  pub receipt : ℕ

abbrev pub answer : Call → List Intent → Result Error Quote × List Intent
answer c intents = claim c.content c.user_id c.amount c.date c.receipt intents

abbrev pub answer_all : List Call → List Intent → List Intent
answer_all [] intents = intents
answer_all (c ∷ cs) intents = answer_all cs (answer c intents).1

free_owned :
    (code : Text) (owner receipt : ℕ) (i : Intent) (consumer : Option ℕ)
    → i.consumed_by ≡ consumer
    → is_free receipt i ≡ true
    → is_consumer owner consumer ≡ true
    → (receipt == owner) ≡ true
free_owned code owner receipt i none e free own = cc
free_owned code owner receipt i (some r) e free own = ground arith

consume-owned :
    (code code' : Text) (owner receipt : ℕ) (i : Intent)
    → (has_code code' i && is_free receipt i) ≡ true
    → owned code owner i ≡ true
    → owned code owner (consume receipt i) ≡ true
consume-owned code code' owner receipt i hit own = elim (Bool-cases (has_code code i)) [
  | inr other ↦ ground arith
  | inl here ↦
      let mine : is_consumer owner i.consumed_by ≡ true = ground arith in
      let same = free_owned code owner receipt i i.consumed_by refl (ground arith) mine in
      ground arith
]

claim_intent-Owned :
    (code code' : Text) (owner user_id amount receipt : ℕ) (date : Option ℕ) (i : Intent)
    (intents : List Intent)
    → Owned code owner intents
    → Owned code owner (claim_intent user_id amount date receipt code' i intents).1
unfolding claim_intent
claim_intent-Owned code code' owner user_id amount receipt date i intents h = ground (
  arith,
  all-update_first (λ x. has_code code' x && is_free receipt x) (owned code owner) (consume receipt)
      intents (λ x hit own. consume-owned code code' owner receipt x hit own) h,
)

answer-Owned :
    (code : Text) (owner : ℕ) (c : Call) (intents : List Intent)
    → Owned code owner intents
    → Owned code owner (answer c intents).1
unfolding claim
answer-Owned code owner c intents h = elim (Result-cases (code_of c.content)) [
  | inr (e, bad) ↦ rw (bad, claim) h
  | inl (o, good) ↦ elim (Option-cases o) [
    | inl nothing ↦ rw (good, claim) (rw nothing h)
    | inr (code', there) ↦ elim (Option-cases (find (has_code code') intents)) [
      | inl unknown ↦ rw (good, claim) (rw there (rw unknown h))
      | inr (i, known) ↦
          rw (good, claim)
            (rw there (
              rw known (
                claim_intent-Owned code code' owner c.user_id c.amount c.receipt c.date i intents
                  h)))
    ]
  ]
]

answer_all-Owned :
    (code : Text) (owner : ℕ) (cs : List Call) (intents : List Intent)
    → Owned code owner intents
    → Owned code owner (answer_all cs intents)
answer_all-Owned code owner [] intents h = h
answer_all-Owned code owner (c ∷ cs) intents h =
    answer_all-Owned code owner cs (answer c intents).1 (answer-Owned code owner c intents h)

none_free :
    (code : Text) (owner receipt : ℕ) (intents : List Intent)
    → (receipt == owner) ≡ false
    → Owned code owner intents
    → any (λ i. has_code code i && is_free receipt i) intents ≡ false
none_free code owner receipt [] apart h = refl
none_free code owner receipt (i ∷ intents) apart h =
    elim (Bool-cases (has_code code i && is_free receipt i)) [
      | inr miss ↦ ground (arith, none_free code owner receipt intents apart)
      | inl hit ↦
          let mine : is_consumer owner i.consumed_by ≡ true = ground arith in
          let same = free_owned code owner receipt i i.consumed_by refl (ground arith) mine in
          absurd (ground arith)
    ]

unclaimed-Owned :
    (code : Text) (owner : ℕ) (intents : List Intent)
    → count (has_code code) intents ≡ 0
    → Owned code owner intents
unclaimed-Owned code owner [] h = refl
unclaimed-Owned code owner (i ∷ intents) h = elim (Bool-cases (has_code code i)) [
  | inl here ↦ absurd (ground arith)
  | inr other ↦ ground (arith, unclaimed-Owned code owner intents)
]

any-weaken :
    (code : Text) (receipt : ℕ) (intents : List Intent)
    → any (λ i. has_code code i && is_free receipt i) intents ≡ true
    → any (has_code code) intents ≡ true
any-weaken code receipt [] h = cc
any-weaken code receipt (i ∷ intents) h = ground (arith, any-weaken code receipt intents)

-- Where a code is unique, consuming its intent makes it the transfer's.
taken :
    (code : Text) (receipt : ℕ) (intents : List Intent)
    → count (has_code code) intents ≤ 1
    → any (λ i. has_code code i && is_free receipt i) intents ≡ true
    → Owned code receipt
        (update_first (λ i. has_code code i && is_free receipt i) (consume receipt) intents)
taken code receipt [] h e = cc
taken code receipt (i ∷ intents) h e = elim (Bool-cases (has_code code i)) [
  | inr other ↦ ground (arith, taken code receipt intents)
  | inl here ↦ elim (Bool-cases (is_free receipt i)) [
    | inl free ↦ ground (arith, unclaimed-Owned code receipt intents)
    | inr spent ↦
        let elsewhere : any (λ x. has_code code x && is_free receipt x) intents ≡ true =
          ground arith in
        absurd (
          ground (
            arith,
            count-positive (has_code code) intents (any-weaken code receipt intents elsewhere),
          ))
  ]
]

-- Claiming an intent that is eligible for the transfer.
taken_by_claim :
    (code : Text) (c : Call) (i : Intent) (intents : List Intent) {q : Quote}
    → count (has_code code) intents ≤ 1
    → code_of c.content ≡ ok (some code)
    → find (has_code code) intents ≡ some i
    → intent_eligible i c.user_id c.amount c.date ≡ true
    → (answer c intents).0 ≡ ok q
    → Owned code c.receipt (answer c intents).1
unfolding claim claim_intent
taken_by_claim code c i intents once good known eligible h =
    elim (Bool-cases (not (i.user_id == c.user_id) || not (i.quote.amount == c.amount))) [
      | inl mismatch ↦ absurd (ground arith)
      | inr fits ↦ elim (Bool-cases (any (λ x. has_code code x && is_free c.receipt x) intents)) [
        | inr used ↦ absurd (ground arith)
        | inl free ↦
            rw (good, claim)
              (rw (known, claim_intent)
                (rw fits (rw eligible (rw free (taken code c.receipt intents once free)))))
      ]
    ]

-- Of an intent that is another transfer's, a claim gets no more than the plain quote of its amount.
refused_other :
    (code : Text) (owner : ℕ) (c : Call) (intents : List Intent)
    → Owned code owner intents
    → code_of c.content ≡ ok (some code)
    → (c.receipt == owner) ≡ false
    → ((x : Error) × ((answer c intents).0 ≡ err x))
      ⊎ ((answer c intents).0 ≡ calculate_quote (whole (pos c.amount)) none)
unfolding claim claim_intent
refused_other code owner c intents own good apart =
    let none_left = none_free code owner c.receipt intents apart own in
    elim (Option-cases (find (has_code code) intents)) [
      | inl unknown ↦ inl (unknown_intent, ground arith)
      | inr (i, known) ↦
          elim (Bool-cases (not (i.user_id == c.user_id) || not (i.quote.amount == c.amount))) [
            | inl mismatch ↦ inl (intent_mismatch, ground arith)
            | inr fits ↦ elim (Bool-cases (intent_eligible i c.user_id c.amount c.date)) [
              | inl eligible ↦ inl (intent_used, ground arith)
              | inr late ↦ inr (ground arith)
            ]
          ]
    ]

-- Codes being unique, once a transfer has claimed an eligible intent, no claim of another transfer by
-- the same code ever gets the intent's quote, whatever claims come between: it is refused, or gets
-- the plain quote of its amount without a bonus.
pub claim-Exclusive :
    (code : Text) (c d : Call) (between : List Call) (i : Intent) (intents : List Intent)
    {q : Quote}
    → count (has_code code) intents ≤ 1
    → code_of c.content ≡ ok (some code)
    → find (has_code code) intents ≡ some i
    → intent_eligible i c.user_id c.amount c.date ≡ true
    → (answer c intents).0 ≡ ok q
    → code_of d.content ≡ ok (some code)
    → (d.receipt == c.receipt) ≡ false
    → ((x : Error) × ((answer d (answer_all between (answer c intents).1)).0 ≡ err x))
      ⊎ ((answer d (answer_all between (answer c intents).1)).0
          ≡ calculate_quote (whole (pos d.amount)) none)
claim-Exclusive code c d between i intents once good known eligible h good' apart =
    refused_other code c.receipt d (answer_all between (answer c intents).1)
      (answer_all-Owned code c.receipt between (answer c intents).1
        (taken_by_claim code c i intents once good known eligible h))
      good' apart
