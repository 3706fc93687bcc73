-- ===== src/Promotion/Catalog.antt =====
-- The catalog of deposit programs: `save`, `remove`, `edit` and the choice of the program of the
-- moment in `quote` and `createIntent`, deposit-promotions.service.ts.
use appchat_be.Common.{
  ℕ, zero, suc, ◌+◌, Bool, true, false, ◌&&◌, not, Option, none, some, List, [], ◌∷◌, ◌++◌, ltb,
  leb, ◌==◌, if◌then◌else◌, filter, find, any, sort, length, Text, trim, is_empty, Result, ok, err,
  ◌>>=◌, ◌>>◌, throw_if, or_throw, Value, whole, other,
}
use appchat_be.Common.Int.{pos, negsuc}
use appchat_be.Promotion.Quote.{
  Error, bad_name, bad_interval, bad_tiers, bad_rate, duplicate_tier, not_found, overlap,
  concurrent_edit, Status, is_active, Tier, Program, vnd,
}

-- The fields of the request that `save` reads. A field that is not a string, not one of the three
-- status words or not a date is `none`; a rate is in hundredths of a percent.
pub record TierBody : Type 0 where
  pub min_amount : Value
  pub rate : Value

pub record Body : Type 0 where
  pub name : Option Text
  pub status : Option Status
  pub start : Option ℕ
  pub end : Option ℕ
  pub max_bonus : Value
  pub tiers : Option (List TierBody)

abbrev pub rate_of : Value → Result Error ℕ
rate_of other = err bad_rate
rate_of (whole (negsuc n)) = err bad_rate
rate_of (whole (pos n)) = if leb n 10000 then ok n else err bad_rate

unfoldable pub read_tiers : List TierBody → Result Error (List Tier)
unfolding vnd
read_tiers [] = ok []
read_tiers (t ∷ ts) = do
  minimum ← vnd t.min_amount 0
  rate ← rate_of t.rate
  rest ← read_tiers ts
  ok (record { min_amount = minimum; rate = rate } ∷ rest)

-- `(a, b) => a.minAmount - b.minAmount`
abbrev pub lower_first : Tier → Tier → Bool
lower_first a b = leb a.min_amount b.min_amount

-- `new Set(minimums).size !== tiers.length`
abbrev pub has_duplicate : List Tier → Bool
has_duplicate [] = false
has_duplicate (t ∷ ts) =
    let rest = has_duplicate ts in if any (λ u. u.min_amount == t.min_amount) ts then true else rest

abbrev pub name_of : Option Text → Result Error Text
name_of none = err bad_name
name_of (some s) =
    if is_empty (trim s)
    then err bad_name
    else if leb (length s) 200
    then ok (trim s)
    else err bad_name

unfoldable pub read_program : ℕ → Body → Result Error Program
unfolding read_tiers vnd trim
read_program id body = do
  name ← name_of body.name
  status ← or_throw body.status bad_name
  start ← or_throw body.start bad_interval
  end ← or_throw body.end bad_interval
  throw_if (leb end start) bad_interval
  max_bonus ← vnd body.max_bonus 0
  bodies ← or_throw body.tiers bad_tiers
  throw_if (length bodies == 0) bad_tiers
  throw_if (ltb 100 (length bodies)) bad_tiers
  tiers ← read_tiers bodies
  throw_if (has_duplicate (sort lower_first tiers)) duplicate_tier
  ok (record {
    id = id;
    name = name;
    start = start;
    end = end;
    status = status;
    tiers = sort lower_first tiers;
    max_bonus = max_bonus;
  })

abbrev pub has_id : ℕ → Program → Bool
has_id id p = p.id == id

abbrev pub without : ℕ → List Program → List Program
without id = filter (λ p. not (has_id id p))

-- An active program whose interval meets that of `q`.
abbrev pub meets : Program → Program → Bool
meets q p = is_active p.status && ltb p.start q.end && ltb q.start p.end

-- The change that `save` makes to the programs read; `editing` says that an id was given.
unfoldable pub change_save : Bool → Program → List Program → Result Error (List Program)
change_save editing program programs = do
  throw_if (editing && not (any (has_id program.id) programs)) not_found
  let others = without program.id programs
  throw_if (is_active program.status && any (meets program) others) overlap
  ok (others ++ program ∷ [])

unfoldable pub change_remove : ℕ → List Program → Result Error (List Program)
change_remove id programs = do
  throw_if (not (any (has_id id) programs)) not_found
  ok (without id programs)

-- The one document that holds all programs.
pub record Catalog : Type 0 where
  pub revision : ℕ
  pub programs : List Program

-- `$setOnInsert`: the document is made if it is missing.
abbrev pub ensure : Option Catalog → Catalog
ensure none = record { revision = 0; programs = [] }
ensure (some c) = c

-- A successful `updateOne`: `$set` the programs and `$inc` the revision.
abbrev pub written : Catalog → List Program → Catalog
written c ps = record { revision = c.revision + 1; programs = ps }

-- The writes of other editors, in order.
abbrev pub interfere : Catalog → List (List Program) → Catalog
interfere c [] = c
interfere c (ps ∷ rest) = interfere (written c ps) rest

-- Read, change, and write if the revision is still the one read. `others n` lists what other
-- editors write between the read and the write, when `n` attempts are left.
unfoldable pub edit :
    ℕ
    → (ℕ → List (List Program))
    → (List Program → Result Error (List Program))
    → Catalog
    → Result Error (Unit {0}) × Catalog
edit zero others change c = (err concurrent_edit, c)
edit (suc n) others change c =
    let now = interfere c (others n) in
    let again = edit n others change now in
    elim (change c.programs) [
      | err e ↦ (err e, now)
      | ok ps ↦ if now.revision == c.revision then (ok tt, written now ps) else again
    ]

-- `for (let n = 0; n < 20; n++)`
abbrev pub attempts : ℕ
attempts = 20

abbrev pub stored : Result Error (Unit {0}) × Catalog → Result Error (Unit {0}) × Option Catalog
stored (r, c) = (r, some c)

-- `save` under an id, given or fresh, and `remove`. A body that is refused leaves the store alone.
unfoldable pub save :
    (ℕ → List (List Program))
    → Bool
    → ℕ
    → Body
    → Option Catalog
    → Result Error (Unit {0}) × Option Catalog
unfolding edit read_program change_save
save others editing id body c = elim (read_program id body) [
  | err e ↦ (err e, c)
  | ok program ↦ stored (edit attempts others (change_save editing program) (ensure c))
]

unfoldable pub remove :
    (ℕ → List (List Program)) → ℕ → Option Catalog → Result Error (Unit {0}) × Option Catalog
unfolding edit change_remove
remove others id c = stored (edit attempts others (change_remove id) (ensure c))

-- The program of the moment.
abbrev pub covers : ℕ → Program → Bool
covers now p = is_active p.status && leb p.start now && ltb now p.end

unfoldable pub current : ℕ → List Program → Option Program
current now = find (covers now)
