-- ===== src/Promotion/Overlaps.antt =====
-- The intervals of the active programs in the catalog of deposit-promotions.service.ts, and what its
-- changes do to them.
use appchat_be.Common.{
  ℕ, ◌≤◌, ◌<◌, ◌≡◌, Bool, true, false, ◌&&◌, not, List, [], ◌∷◌, ◌++◌, arith, filter, any, All,
  Result, ok, throw_if-eq-ok, ok-injective, subst,
}
use appchat_be.Promotion.Quote.{Error, is_active, Program}
use appchat_be.Promotion.Catalog.{has_id, without, meets, change_save, change_remove}

-- The program is active and its interval, whose end is excluded, holds the instant.
abbrev pub Applies : ℕ → Program → Type 0
Applies t p = (is_active p.status ≡ true) × (p.start ≤ t) × (t < p.end)

abbrev pub Excludes : Program → Program → Type 0
Excludes p q = (t : ℕ) → Applies t p → Applies t q → ⊥

abbrev pub OneAtATime : List Program → Type 0
OneAtATime [] = Unit {0}
OneAtATime (p ∷ ps) = All (Excludes p) ps × OneAtATime ps

-- Where `meets` fails the two programs exclude one another.
meets-Excludes : (p q : Program) → (is_active q.status && meets q p) ≡ false → Excludes p q
meets-Excludes p q h t a b = ground arith

All-filter :
    (P : Program → Type 0) (keep : Program → Bool) (ps : List Program)
    → All P ps
    → All P (filter keep ps)
All-filter P keep [] h = tt
All-filter P keep (p ∷ ps) h = ground (arith, All-filter P keep ps h.1)

filter-OneAtATime :
    (keep : Program → Bool) (ps : List Program) → OneAtATime ps → OneAtATime (filter keep ps)
filter-OneAtATime keep [] h = tt
filter-OneAtATime keep (p ∷ ps) h =
    ground (arith, filter-OneAtATime keep ps h.1, All-filter (Excludes p) keep ps h.0)

All-append :
    (P : Program → Type 0) (ps : List Program) (q : Program) → All P ps → P q → All P (ps ++ q ∷ [])
All-append P [] q h hq = (hq, tt)
All-append P (p ∷ ps) q h hq = (h.0, All-append P ps q h.1 hq)

append-OneAtATime :
    (ps : List Program) (q : Program)
    → OneAtATime ps
    → (is_active q.status && any (meets q) ps) ≡ false
    → OneAtATime (ps ++ q ∷ [])
append-OneAtATime [] q h e = (tt, tt)
append-OneAtATime (p ∷ ps) q h e = (
  All-append (Excludes p) ps q h.0 (meets-Excludes p q (ground arith)),
  append-OneAtATime ps q h.1 (ground arith),
)

-- A change keeps the catalog free of overlaps.
abbrev pub Keeps : (List Program → Result Error (List Program)) → Type 0
Keeps change = (ps qs : List Program) → OneAtATime ps → change ps ≡ ok qs → OneAtATime qs

pub change_save-Keeps : (editing : Bool) (p : Program) → Keeps (change_save editing p)
unfolding change_save
change_save-Keeps editing p ps qs h e =
    let (known, e₁) = throw_if-eq-ok (editing && not (any (has_id p.id) ps)) _ _ e in
    let (clear, e₂) =
      throw_if-eq-ok (is_active p.status && any (meets p) (without p.id ps)) _ _ e₁ in
    subst OneAtATime (ok-injective e₂)
      (append-OneAtATime (without p.id ps) p (filter-OneAtATime _ ps h) clear)

pub change_remove-Keeps : (id : ℕ) → Keeps (change_remove id)
unfolding change_remove
change_remove-Keeps id ps qs h e =
    subst OneAtATime (ok-injective (throw_if-eq-ok (not (any (has_id id) ps)) _ _ e).1)
      (filter-OneAtATime _ ps h)
