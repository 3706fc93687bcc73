-- ===== src/Webhook/Codes.antt =====
-- `generateUniqueTopupCode` of src/users/users.service.ts. The random bytes are drawn from a list; the
-- loop ends with `none` if the list runs out.
use appchat_be.Common.{
  ℕ, ◌+◌, ◌-◌, ◌/◌, ◌%◌, Option, none, some, List, [], ◌∷◌, any, ltb, if◌then◌else◌, Text, to_upper,
}
use appchat_be.Webhook.State.{Account, has_topup}

abbrev pub hex_digit : ℕ → ℕ
hex_digit d = if ltb d 10 then b'0' + d else b'a' + (d - 10)

-- `toString('hex')`
unfoldable pub hex : List ℕ → Text
hex [] = []
hex (byte ∷ bytes) = hex_digit (byte / 16) ∷ hex_digit (byte % 16) ∷ hex bytes

unfoldable pub topup_code : List ℕ → Text
unfolding hex
topup_code bytes = b'N' ∷ b'A' ∷ b'P' ∷ to_upper (hex bytes)

unfoldable pub unique_code : List (List ℕ) → List Account → Option Text
unique_code [] accounts = none
unique_code (draw ∷ draws) accounts =
    let rest = unique_code draws accounts in
    if any (has_topup (topup_code draw)) accounts then rest else some (topup_code draw)
