-- ===== src/Promotion/Claim.antt =====
-- The deposit intents of deposit-promotions.service.ts: `code`, `createIntent`, `findIntent` and
-- `claim`. A transfer's content is a text; an intent is found by its code, which a unique index
-- keeps unique.
use appchat_be.Common.{
  ℕ, zero, suc, ◌+◌, ◌*◌, Bool, true, ◌&&◌, ◌||◌, not, Option, none, some, List, [], ◌∷◌, ltb, leb,
  ◌==◌, if◌then◌else◌, find, update_first, length, Text, to_upper, eq_text, Result, ok, err, ◌>>◌,
  throw_if, whole, any, first,
}
use appchat_be.Common.Int.{pos}
use appchat_be.Promotion.Quote.{
  Error, many_references, unknown_intent, intent_mismatch, intent_used, deposit_disabled, Quote,
  Program, Intent, calculate_quote, intent_eligible,
}
use appchat_be.Promotion.Catalog.{current}

-- `[0-9A-F]`
abbrev pub is_hex : ℕ → Bool
is_hex c = (leb b'0' c && leb c b'9') || (leb b'A' c && leb c b'F')

-- The next `n` characters, if there are so many and all are hexadecimal digits.
abbrev pub hex_digits : ℕ → Text → Option Text
hex_digits zero s = some []
hex_digits (suc n) [] = none
hex_digits (suc n) (c ∷ s) =
    let rest = hex_digits n s in
    if is_hex c then elim rest [ none ↦ none | some digits ↦ some (c ∷ digits) ] else none

-- `/DPI[0-9A-F]{24}/` at the start of the text: the match.
unfoldable pub reference : Text → Option Text
reference (d ∷ p ∷ i ∷ s) =
    let digits = hex_digits 24 s in
    if d == b'D' && p == b'P' && i == b'I'
    then elim digits [ none ↦ none | some code ↦ some (d ∷ p ∷ i ∷ code) ]
    else none
reference s = none

-- All matches from the left, which do not overlap: after a match its 27 characters are skipped.
unfoldable pub references : ℕ → Text → List Text
unfolding reference
references skip [] = []
references (suc k) (c ∷ s) = references k s
references zero (c ∷ s) = elim (reference (c ∷ s)) [
  | none ↦ references zero s
  | some code ↦ code ∷ references 26 s
]

unfoldable pub code_of : Text → Result Error (Option Text)
unfolding references to_upper
code_of content = do
  let codes = references 0 (to_upper content)
  throw_if (ltb 1 (length codes)) many_references
  ok (first codes)

-- `createIntent` at the instant `now`, under a fresh code, with the programs of the catalog.
unfoldable pub create_intent :
    Bool → ℕ → Text → ℕ → ℕ → List Program → List Intent → Result Error Intent × List Intent
unfolding current
create_intent enabled user_id code amount now programs intents =
    if enabled
    then (elim (calculate_quote (whole (pos amount)) (current now programs)) [
      | err e ↦ (err e, intents)
      | ok quote ↦
          let intent : Intent = record {
            code = code;
            user_id = user_id;
            quote = quote;
            issued_at = now;
            expires_at = now + 15 * 60000;
            consumed_by = none;
          } in
          (ok intent, intent ∷ intents)
    ])
    else (err deposit_disabled, intents)

abbrev pub has_code : Text → Intent → Bool
has_code code i = eq_text i.code code

-- `{ $or: [{ consumedBy: null }, { consumedBy: receiptId }] }`
abbrev pub is_free : ℕ → Intent → Bool
is_free receipt i = elim i.consumed_by [ none ↦ true | some r ↦ r == receipt ]

abbrev pub consume : ℕ → Intent → Intent
consume receipt i = record i { consumed_by = some receipt }

unfoldable pub claim_intent :
    ℕ → ℕ → Option ℕ → ℕ → Text → Intent → List Intent → Result Error Quote × List Intent
unfolding intent_eligible
claim_intent user_id amount date receipt code intent intents =
    if not (intent.user_id == user_id) || not (intent.quote.amount == amount)
    then (err intent_mismatch, intents)
    else if not (intent_eligible intent user_id amount date)
    then (calculate_quote (whole (pos amount)) none, intents)
    else if any (λ i. has_code code i && is_free receipt i) intents
    then (
      ok intent.quote,
      update_first (λ i. has_code code i && is_free receipt i) (consume receipt) intents,
    )
    else (err intent_used, intents)

unfoldable pub claim : Text → ℕ → ℕ → Option ℕ → ℕ → List Intent → Result Error Quote × List Intent
unfolding code_of claim_intent
claim content user_id amount date receipt intents = elim (code_of content) [
  | err e ↦ (err e, intents)
  | ok none ↦ (calculate_quote (whole (pos amount)) none, intents)
  | ok (some code) ↦ elim (find (has_code code) intents) [
    | none ↦ (err unknown_intent, intents)
    | some intent ↦ claim_intent user_id amount date receipt code intent intents
  ]
]
