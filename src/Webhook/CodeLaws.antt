-- ===== src/Webhook/CodeLaws.antt =====
-- On the top-up codes of users.service.ts and their search in webhook.service.ts.
use appchat_be.Common.{
  ℕ, zero, suc, ◌+◌, ◌*◌, ◌/◌, ◌%◌, ◌<◌, ◌≤◌, ◌≡◌, refl, sym, ap, ◌∙◌, subst, inl, inr, Bool, true,
  false, ◌||◌, not, none, some, List, [], ◌∷◌, ◌++◌, arith, ◌==◌, find, any, all, All, count,
  length, Text, eq_text, upper, to_upper, ok, Bool-cases, Option-cases, find-append_new, map,
  all_apart, eq_text-eq, eq_text_refl, eq_text_sym,
}
use appchat_be.Promotion.Claim.{is_hex, hex_digits, code_of}
use appchat_be.Webhook.Matching.{topup_at, find_topup}
use appchat_be.Webhook.State.{Account, Bank, has_topup, find_user}
use appchat_be.Webhook.Codes.{hex_digit, hex, topup_code, unique_code}

-- Four bytes.
abbrev pub IsDraw : List ℕ → Type 0
IsDraw bytes = (length bytes ≡ 4) × All (λ byte. byte < 256) bytes

upper_hex : (d : ℕ) → d < 16 → is_hex (upper (hex_digit d)) ≡ true
upper_hex d h = ground arith

hex-is_hex :
    (bytes : List ℕ) → All (λ byte. byte < 256) bytes → all is_hex (to_upper (hex bytes)) ≡ true
unfolding hex to_upper
hex-is_hex [] h = refl
hex-is_hex (byte ∷ bytes) h = ground (
  arith,
  upper_hex (byte / 16) (omega arith),
  upper_hex (byte % 16) (omega arith),
  hex-is_hex bytes h.1,
)

length-hex : (bytes : List ℕ) → length (to_upper (hex bytes)) ≡ 2 * length bytes
unfolding hex to_upper
length-hex [] = refl
length-hex (byte ∷ bytes) = omega (arith, length-hex bytes)

hex_digits-append :
    (n : ℕ) (code after : Text)
    → length code ≡ n
    → all is_hex code ≡ true
    → hex_digits n (code ++ after) ≡ some code
hex_digits-append zero [] after e h = refl
hex_digits-append zero (c ∷ code) after e h = absurd (omega arith)
hex_digits-append (suc n) [] after e h = absurd (omega arith)
hex_digits-append (suc n) (c ∷ code) after e h =
    let rest = hex_digits-append n code after (omega arith) (ground arith) in ground arith

topup_at-other : (c : ℕ) (s : Text) → (c == b'N') ≡ false → topup_at (c ∷ s) ≡ none
unfolding topup_at
topup_at-other c [] h = refl
topup_at-other c (a ∷ []) h = refl
topup_at-other c (a ∷ p ∷ s) h = ground arith

-- The first code in a text that has no other N before it.
find_topup-append :
    (before code after : Text)
    → all (λ c. not (c == b'N')) before ≡ true
    → topup_at (code ++ after) ≡ some code
    → find_topup (before ++ code ++ after) ≡ some code
unfolding find_topup
find_topup-append [] code after h e = start code after e
  where
    start :
        (code after : Text)
        → topup_at (code ++ after) ≡ some code
        → find_topup (code ++ after) ≡ some code
    start [] [] e = cc
    start [] (c ∷ after) e = ground arith
    start (c ∷ code) after e = ground arith
find_topup-append (c ∷ before) code after h e =
    let miss = topup_at-other c (before ++ code ++ after) (ground arith) in
    let rest = find_topup-append before code after (ground arith) e in ground arith

topup_at-code :
    (bytes : List ℕ) (after : Text)
    → IsDraw bytes
    → topup_at (topup_code bytes ++ after) ≡ some (topup_code bytes)
unfolding topup_code topup_at
topup_at-code bytes after h =
    let digits =
      hex_digits-append 8 (to_upper (hex bytes)) after (omega (arith, length-hex bytes))
        (hex-is_hex bytes h.1) in
    ground arith

-- A code that is given to a user is new, and made of four bytes.
unique_code-new :
    (draws : List (List ℕ)) (accounts : List Account) (code : Text)
    → All IsDraw draws
    → unique_code draws accounts ≡ some code
    → (any (has_topup code) accounts ≡ false)
      × ((bytes : List ℕ) × IsDraw bytes × (topup_code bytes ≡ code))
unfolding unique_code
unique_code-new [] accounts code drawn h = cc
unique_code-new (draw ∷ draws) accounts code drawn h =
    elim (Bool-cases (any (has_topup (topup_code draw)) accounts)) [
      | inl taken ↦ unique_code-new draws accounts code drawn.1 (ground arith)
      | inr free ↦
          let same : topup_code draw ≡ code = ground arith in
          (subst (λ c. any (has_topup c) accounts ≡ false) same free, (draw, drawn.0, same))
    ]

find_user-topup :
    (content code : Text) (b : Bank) (a : Account)
    → code_of content ≡ ok none
    → find_topup (to_upper content) ≡ some code
    → find (has_topup code) b.accounts ≡ some a
    → find_user content b ≡ ok (some a)
unfolding find_user
find_user-topup content code b a plain there known = ground arith

-- The code that the loop draws for a new user leads the webhook to that user: written into a transfer's
-- content, in any case of letters, behind a text without the letter N and before any text, where no
-- deposit intent is referred to.
pub unique_code-find_user :
    (draws : List (List ℕ)) (b : Bank) (a : Account) (content before after : Text)
    → All IsDraw draws
    → unique_code draws b.accounts ≡ some a.topup_code
    → to_upper content ≡ before ++ a.topup_code ++ after
    → all (λ c. not (c == b'N')) before ≡ true
    → code_of content ≡ ok none
    → find_user content (record b { accounts = b.accounts ++ a ∷ [] }) ≡ ok (some a)
unique_code-find_user draws b a content before after drawn given text clear plain =
    let (fresh, (bytes, four, made)) = unique_code-new draws b.accounts a.topup_code drawn given in
    let here : topup_at (a.topup_code ++ after) ≡ some a.topup_code =
      subst (λ c. topup_at (c ++ after) ≡ some c) made (topup_at-code bytes after four) in
    find_user-topup content a.topup_code (record b { accounts = b.accounts ++ a ∷ [] }) a plain
      (ap find_topup text ∙ find_topup-append before a.topup_code after clear here)
      (find-append_new (has_topup a.topup_code) b.accounts a fresh (eq_text_refl a.topup_code))

count-apart :
    (t : Text) (cs : List Text)
    → all (λ d. not (eq_text d t)) cs ≡ true
    → count (λ d. eq_text t d) cs ≡ 0
count-apart t [] h = refl
count-apart t (c ∷ cs) h = ground (arith, eq_text_sym t c, count-apart t cs)

-- Of texts that are apart, at most one is a given text.
count-same : (t : Text) (cs : List Text) → all_apart cs ≡ true → count (λ d. eq_text t d) cs ≤ 1
count-same t [] h = omega arith
count-same t (c ∷ cs) h = elim (Bool-cases (eq_text t c)) [
  | inr other ↦ ground (arith, count-same t cs)
  | inl here ↦
      let gone : all (λ d. not (eq_text d t)) cs ≡ true =
        subst (λ u. all (λ d. not (eq_text d u)) cs ≡ true) (sym (eq_text-eq t c here))
          (ground arith) in
      ground (arith, count-apart t cs gone)
]

-- The code is some user's.
abbrev taken : List Account → Text → Bool
taken accounts code = any (has_topup code) accounts

count-either :
    (p q r : Text → Bool) (cs : List Text)
    → ((c : Text) → r c ≡ p c || q c)
    → count r cs ≤ count p cs + count q cs
count-either p q r [] h = omega arith
count-either p q r (c ∷ cs) h = ground (arith, h c, count-either p q r cs h)

count-taken :
    (accounts : List Account) (cs : List Text)
    → all_apart cs ≡ true
    → count (taken accounts) cs ≤ length accounts
count-taken [] cs h = omega (arith, nothing_taken cs)
  where
    nothing_taken : (cs : List Text) → count (taken []) cs ≡ 0
    nothing_taken [] = refl
    nothing_taken (c ∷ cs) = ground (arith, nothing_taken cs)
count-taken (a ∷ accounts) cs h = omega (
  arith,
  count-either (λ c. eq_text a.topup_code c) (taken accounts) (taken (a ∷ accounts)) cs
      (λ c. ground arith),
  count-same a.topup_code cs h,
  count-taken accounts cs h,
)

unique_code-none :
    (draws : List (List ℕ)) (accounts : List Account)
    → unique_code draws accounts ≡ none
    → count (taken accounts) (map topup_code draws) ≡ length draws
unfolding unique_code
unique_code-none [] accounts h = refl
unique_code-none (draw ∷ draws) accounts h = ground (arith, unique_code-none draws accounts)

-- The loop ends: of more codes than there are users, no two of them the same, one is given.
pub unique_code-Terminates :
    (draws : List (List ℕ)) (accounts : List Account)
    → all_apart (map topup_code draws) ≡ true
    → length accounts < length draws
    → (code : Text) × (unique_code draws accounts ≡ some code)
unique_code-Terminates draws accounts apart enough =
    elim (Option-cases (unique_code draws accounts)) [
      | inr found ↦ found
      | inl never ↦ absurd (
          omega (
            arith,
            unique_code-none draws accounts never,
            count-taken accounts (map topup_code draws) apart,
          ))
    ]
