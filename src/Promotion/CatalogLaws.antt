-- ===== src/Promotion/CatalogLaws.antt =====
-- On the edits of the catalog of deposit-promotions.service.ts under other
-- editors' writes.
use appchat_be.Common.{
  ℕ, zero, suc, ◌+◌, ◌<◌, ◌≡◌, refl, sym, ap, ◌∙◌, ◌≢◌, inl, inr, Bool, true, false, some, List, [],
  ◌∷◌, ◌++◌, arith, ◌==◌, All, OneOf, All-OneOf, error_of, Result, ok, err, Bool-cases,
  Result-cases, subst, length,
}
use mathlib.Core.Option.{some-injective}
use appchat_be.Promotion.Quote.{Error, concurrent_edit, Program}
use appchat_be.Promotion.Catalog.{
  Body, Catalog, read_program, change_save, change_remove, written, interfere, ensure, edit,
  attempts, save, remove, covers, current,
}
use appchat_be.Promotion.Overlaps.{
  Applies, Excludes, OneAtATime, Keeps, change_save-Keeps, change_remove-Keeps,
}

interfere-OneAtATime :
    (c : Catalog) (writes : List (List Program))
    → OneAtATime c.programs
    → All OneAtATime writes
    → OneAtATime (interfere c writes).programs
interfere-OneAtATime c [] h hs = h
interfere-OneAtATime c (ps ∷ rest) h hs = interfere-OneAtATime (written c ps) rest hs.0 hs.1

-- The three ways in which an attempt ends.
module _ (n : ℕ) (others : ℕ → List (List Program))
    (change : List Program → Result Error (List Program)) (c : Catalog) where
  edit-refused :
      {e : Error}
      → change c.programs ≡ err e
      → edit (suc n) others change c ≡ (err e, interfere c (others n))
  unfolding edit
  edit-refused h = rw (h, edit)

  edit-won :
      {ps : List Program}
      → change c.programs ≡ ok ps
      → ((interfere c (others n)).revision == c.revision) ≡ true
      → edit (suc n) others change c ≡ (ok tt, written (interfere c (others n)) ps)
  unfolding edit
  edit-won h same = rw (h, edit) (rw same)

  edit-lost :
      {ps : List Program}
      → change c.programs ≡ ok ps
      → ((interfere c (others n)).revision == c.revision) ≡ false
      → edit (suc n) others change c ≡ edit n others change (interfere c (others n))
  unfolding edit
  edit-lost h moved = rw (h, edit) (rw moved)

revision-interfere :
    (c : Catalog) (writes : List (List Program))
    → (interfere c writes).revision ≡ c.revision + length writes
revision-interfere c [] = omega arith
revision-interfere c (ps ∷ rest) = omega (arith, revision-interfere (written c ps) rest)

-- Where the revision is the one that was read, nobody has written.
unmoved :
    (c : Catalog) (writes : List (List Program))
    → ((interfere c writes).revision == c.revision) ≡ true
    → interfere c writes ≡ c
unmoved c [] h = refl
unmoved c (ps ∷ rest) h = absurd (ground (arith, revision-interfere (written c ps) rest))

interfere-append :
    (c : Catalog) (xs ys : List (List Program))
    → interfere (interfere c xs) ys ≡ interfere c (xs ++ ys)
interfere-append c [] ys = refl
interfere-append c (x ∷ xs) ys = interfere-append (written c x) xs ys

-- No write is lost: an edit that succeeds has applied its change to the programs that the other
-- editors had written, and the catalog is that change of the catalog just before the write.
pub edit-last_write :
    (n : ℕ) (others : ℕ → List (List Program)) (change : List Program → Result Error (List Program))
    (c : Catalog)
    → (edit n others change c).0 ≡ ok tt
    → (writes : List (List Program)) × (ps : List Program) × (change (interfere c writes).programs
        ≡ ok ps)
      × ((edit n others change c).1 ≡ written (interfere c writes) ps)
unfolding edit
edit-last_write zero others change c h = cc
edit-last_write (suc n) others change c h =
    let now = interfere c (others n) in
    elim (Result-cases (change c.programs)) [
      | inr (x, e) ↦ absurd (ground (arith, edit-refused n others change c e))
      | inl (ps, e) ↦ elim (Bool-cases (now.revision == c.revision)) [
        | inl same ↦ (
          [],
          ps,
          e,
          ap (λ r. r.1) (edit-won n others change c e same)
              ∙ ap (λ d. written d ps) (unmoved c (others n) same),
        )
        | inr moved ↦
            let lost = edit-lost n others change c e moved in
            let (xs, qs, changed, final) =
              edit-last_write n others change now (sym (ap (λ r. r.0) lost) ∙ h) in
            let all = interfere-append c (others n) xs in
            (
              others n ++ xs,
              qs,
              sym (ap (λ d. change d.programs) all) ∙ changed,
              ap (λ r. r.1) lost ∙ final ∙ ap (λ d. written d qs) all,
            )
      ]
    ]

-- An edit under interference keeps the catalog free of overlaps, if the change does and all others'
-- writes are.
edit-OneAtATime :
    (n : ℕ) (others : ℕ → List (List Program)) (change : List Program → Result Error (List Program))
    (c : Catalog)
    → Keeps change
    → ((k : ℕ) → All OneAtATime (others k))
    → OneAtATime c.programs
    → OneAtATime (edit n others change c).1.programs
unfolding edit
edit-OneAtATime zero others change c keeps valid h = h
edit-OneAtATime (suc n) others change c keeps valid h =
    let now = interfere c (others n) in
    let now_valid : OneAtATime now.programs = interfere-OneAtATime c (others n) h (valid n) in
    elim (Result-cases (change c.programs)) [
      | inl (ps, e) ↦ elim (Bool-cases (now.revision == c.revision)) [
        | inl same ↦ rw (edit-won n others change c e same) (keeps c.programs ps h e)
        | inr moved ↦
            rw (edit-lost n others change c e moved)
              (edit-OneAtATime n others change now keeps valid now_valid)
      ]
      | inr (x, e) ↦ rw (edit-refused n others change c e) now_valid
    ]

-- Whatever other editors write meanwhile, if each of their writes leaves at most one active program
-- to every instant and the catalog does, so does `save`, whether it succeeds or not.
pub save-OneAtATime :
    (others : ℕ → List (List Program)) (editing : Bool) (id : ℕ) (body : Body) (c : Catalog)
    → ((k : ℕ) → All OneAtATime (others k))
    → OneAtATime c.programs
    → OneAtATime (ensure (save others editing id body (some c)).1).programs
unfolding save
save-OneAtATime others editing id body c valid h = elim (Result-cases (read_program id body)) [
  | inl (p, e) ↦
      rw (e, save)
        (edit-OneAtATime attempts others (change_save editing p) c (change_save-Keeps editing p)
          valid h)
  | inr (x, e) ↦ rw (e, save) h
]

-- Whatever other editors write meanwhile, if each of their writes leaves at most one active program
-- to every instant and the catalog does, so does `remove`, whether it succeeds or not.
pub remove-OneAtATime :
    (others : ℕ → List (List Program)) (id : ℕ) (c : Catalog)
    → ((k : ℕ) → All OneAtATime (others k))
    → OneAtATime c.programs
    → OneAtATime (ensure (remove others id (some c)).1).programs
unfolding remove
remove-OneAtATime others id c valid h =
    edit-OneAtATime attempts others (change_remove id) c (change_remove-Keeps id) valid h

overtaken :
    (c : Catalog) (writes : List (List Program))
    → ((interfere c writes).revision == c.revision) ≡ false
    → writes ≢ []
overtaken c [] h e = ground arith
overtaken c (ps ∷ rest) h e = cc

-- An edit gives up only after it was overtaken in every attempt: if in one of the attempts nobody
-- else writes, and the change itself does not fail so, the edit is not refused as concurrent.
pub edit_quiet :
    (n m : ℕ) (others : ℕ → List (List Program))
    (change : List Program → Result Error (List Program)) (c : Catalog)
    → m < n
    → others m ≡ []
    → ((ps : List Program) → change ps ≢ err concurrent_edit)
    → (edit n others change c).0 ≢ err concurrent_edit
edit_quiet zero m others change c lt quiet other_errors = elim lt [ ]
edit_quiet (suc n) m others change c lt quiet other_errors =
    elim (Result-cases (change c.programs)) [
      | inr (x, e) ↦
          rw (edit-refused n others change c e)
            (λ same. other_errors c.programs (e ∙ ap err (some-injective _ _ (ap error_of same))))
      | inl (ps, e) ↦ elim (Bool-cases ((interfere c (others n)).revision == c.revision)) [
        | inl same ↦ rw (edit-won n others change c e same) (λ eq. cc)
        | inr moved ↦
            let busy : m ≢ n =
              λ eq. overtaken c (others n) moved (subst (λ k. others k ≡ []) eq quiet) in
            rw (edit-lost n others change c e moved) (
              edit_quiet n m others change (interfere c (others n)) (omega arith) quiet
                other_errors)
      ]
    ]

-- In a catalog with at most one active program to an instant, the program of the moment is the one
-- that applies, wherever it stands.
pub current_unique :
    (now : ℕ) (p : Program) (ps : List Program)
    → OneAtATime ps
    → OneOf p ps
    → Applies now p
    → current now ps ≡ some p
unfolding current
current_unique now p [] h m a = absurd m
current_unique now p (q ∷ ps) h (inl e) a =
    let hit : covers now q ≡ true = subst (λ r. covers now r ≡ true) e (ground arith) in
    rw hit (ap some (sym e))
current_unique now p (q ∷ ps) h (inr m) a = elim (Bool-cases (covers now q)) [
  | inl hit ↦ absurd (All-OneOf (Excludes q) p ps h.0 m now (ground arith) a)
  | inr miss ↦ rw miss (current_unique now p ps h.1 m a)
]
