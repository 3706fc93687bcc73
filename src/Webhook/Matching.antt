-- ===== src/Webhook/Matching.antt =====
-- How webhook.service.ts finds references in the text of a transfer: the regular expressions of
-- `findUserFromContent`, `/NAP[0-9A-F]{8}/` and the one for e-mail addresses.
use appchat_be.Common.{
  ℕ, Bool, ◌&&◌, ◌||◌, Option, none, some, [], ◌∷◌, ◌++◌, leb, ◌==◌, if◌then◌else◌, length, Text,
  is_empty,
}
use appchat_be.Promotion.Claim.{hex_digits}

-- `/NAP[0-9A-F]{8}/` at the start of the text: the match.
unfoldable pub topup_at : Text → Option Text
topup_at (n ∷ a ∷ p ∷ s) =
    let digits = hex_digits 8 s in
    if n == b'N' && a == b'A' && p == b'P'
    then elim digits [ none ↦ none | some code ↦ some (n ∷ a ∷ p ∷ code) ]
    else none
topup_at s = none

-- The first match from the left.
unfoldable pub find_topup : Text → Option Text
unfolding topup_at
find_topup [] = none
find_topup (c ∷ s) = elim (topup_at (c ∷ s)) [ some code ↦ some code | none ↦ find_topup s ]

abbrev pub is_letter : ℕ → Bool
is_letter c = (leb b'a' c && leb c b'z') || (leb b'A' c && leb c b'Z')

abbrev pub is_digit : ℕ → Bool
is_digit c = leb b'0' c && leb c b'9'

-- `[a-zA-Z0-9._%+\-]`
abbrev pub is_local : ℕ → Bool
is_local c =
    is_letter c || is_digit c || c == b'.' || c == b'_' || c == b'%' || c == b'+' || c == b'-'

-- `[a-zA-Z0-9.\-]`
abbrev pub is_domain : ℕ → Bool
is_domain c = is_letter c || is_digit c || c == b'.' || c == b'-'

-- The longest run of such characters at the start, and what follows it.
abbrev pub run : (ℕ → Bool) → Text → Text × Text
run p [] = ([], [])
run p (c ∷ s) = let rest = run p s in if p c then (c ∷ rest.0, rest.1) else ([], c ∷ s)

-- `\.[a-zA-Z]{2,}` after the character `c`, if that is the dot.
abbrev pub top_level : ℕ → Text → Option Text
top_level c s =
    let letters = (run is_letter s).0 in
    if c == b'.' && leb 2 (length letters) then some (c ∷ letters) else none

-- The rest of a domain after its first character: greedy, and back to the last dot that serves.
unfoldable pub domain_rest : Text → Option Text
domain_rest [] = none
domain_rest (c ∷ s) =
    let longer = domain_rest s in
    elim (if is_domain c then longer else none) [ some d ↦ some (c ∷ d) | none ↦ top_level c s ]

-- `[a-zA-Z0-9.\-]+\.[a-zA-Z]{2,}` at the start of the text.
abbrev pub domain : Text → Option Text
domain [] = none
domain (c ∷ s) =
    if is_domain c then elim (domain_rest s) [ some d ↦ some (c ∷ d) | none ↦ none ] else none

-- What follows the local part is the at sign and a domain.
abbrev pub after_local : Text → Text → Option Text
after_local name [] = none
after_local name (c ∷ s) =
    if is_empty name
    then none
    else if c == b'@'
    then elim (domain s) [ some d ↦ some (name ++ c ∷ d) | none ↦ none ]
    else none

unfoldable pub email_at : Text → Option Text
unfolding domain_rest
email_at s = after_local (run is_local s).0 (run is_local s).1

unfoldable pub find_email : Text → Option Text
unfolding email_at
find_email [] = none
find_email (c ∷ s) = elim (email_at (c ∷ s)) [ some m ↦ some m | none ↦ find_email s ]
