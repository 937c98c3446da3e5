-- ===== src/Server/Language/Distinct.antt =====
-- Languages in their order, of which those are dropped that stand next to themselves.
use fediway.Prelude.{
  ◌≡◌, refl, sym, inl, inr, Bool, true, false, List, [], ◌∷◌, arith, map, All, All-map, Among,
  Bool-cases,
}
use mathlib.Core.Path.{subst}
use fediway.Prelude.Float.{Float, IsIeee, fle}
use fediway.Prelude.Sort.{IsSorted}
use fediway.Format.Characters.{Text, text_eq, text_eq_iff}
use fediway.Server.Language.{by_quality, dedup_after, dedup_by}

module _ {F : Type 0} ⦃fl : Float F⦄ where
  -- No language is next to itself.
  abbrev pub IsApart : List (Text × F) → Type 0
  IsApart [] = Unit
  IsApart (l ∷ []) = Unit
  IsApart (l ∷ m ∷ ls) = (text_eq m.0 l.0 ≡ false) × IsApart (m ∷ ls)

  abbrev pub tags : List (Text × F) → List Text
  tags = map (λ l. l.0)

  abbrev pub HasQuality : Text × F → Type 0
  HasQuality l = fl.is_nan l.1 ≡ false

  dedup_after-All {κ} :
      (P : Text × F → Type κ) (last : Text × F) (ls : List (Text × F))
      → All P ls
      → All P (dedup_after last ls)
  unfolding dedup_after
  dedup_after-All P last [] h = tt
  dedup_after-All P last (l ∷ ls) h = elim (Bool-cases (text_eq l.0 last.0)) [
    | inl e ↦ rw e (dedup_after-All P last ls h.1)
    | inr e ↦ rw e (h.0, dedup_after-All P l ls h.1)
  ]

  dedup_after-IsSorted :
      (le : Text × F → Text × F → Bool) (last : Text × F) (ls : List (Text × F))
      → IsSorted le ls
      → IsSorted le (dedup_after last ls)
  unfolding dedup_after
  dedup_after-IsSorted le last [] h = tt
  dedup_after-IsSorted le last (l ∷ ls) h = elim (Bool-cases (text_eq l.0 last.0)) [
    | inl e ↦ rw e (dedup_after-IsSorted le last ls h.1)
    | inr e ↦ rw e (dedup_after-All _ l ls h.0, dedup_after-IsSorted le l ls h.1)
  ]

  dedup_after-IsApart :
      (last : Text × F) (ls : List (Text × F)) → IsApart (last ∷ dedup_after last ls)
  unfolding dedup_after
  dedup_after-IsApart last [] = tt
  dedup_after-IsApart last (l ∷ ls) = elim (Bool-cases (text_eq l.0 last.0)) [
    | inl e ↦ rw e (dedup_after-IsApart last ls)
    | inr e ↦ rw e (e, dedup_after-IsApart l ls)
  ]

  dedup_after_same :
      (last l : Text × F) (ls : List (Text × F))
      → text_eq l.0 last.0 ≡ true
      → dedup_after last (l ∷ ls) ≡ dedup_after last ls
  unfolding dedup_after
  dedup_after_same last l ls e = rw e refl

  dedup_after_other :
      (last l : Text × F) (ls : List (Text × F))
      → text_eq l.0 last.0 ≡ false
      → dedup_after last (l ∷ ls) ≡ l ∷ dedup_after l ls
  unfolding dedup_after
  dedup_after_other last l ls e = rw e refl

  -- Every language is still there, if not by this entry.
  dedup_after-Among :
      (last : Text × F) (ls : List (Text × F))
      → All (λ l. Among l.0 (tags (last ∷ dedup_after last ls))) ls
  dedup_after-Among last [] = tt
  dedup_after-Among last (l ∷ ls) = elim (Bool-cases (text_eq l.0 last.0)) [
    | inl e ↦
        subst (λ t. All (λ m. Among m.0 (tags (last ∷ t))) (l ∷ ls))
          (sym (dedup_after_same last l ls e))
          (inl ((text_eq_iff l.0 last.0).0 e), dedup_after-Among last ls)
    | inr e ↦
        subst (λ t. All (λ m. Among m.0 (tags (last ∷ t))) (l ∷ ls))
          (sym (dedup_after_other last l ls e))
          (inr (inl refl), All-map (λ m h. inr h) ls (dedup_after-Among l ls))
  ]

  pub by_quality_total :
      IsIeee fl
      → (a b : Text × F) → HasQuality a
      → HasQuality b
      → by_quality a b ≡ false
      → by_quality b a ≡ true
  by_quality_total laws a b n m h = ground (arith, laws.flip a.1 b.1)

  fle_of_by_quality :
      IsIeee fl
      → (a b : Text × F) → HasQuality a
      → HasQuality b
      → by_quality a b ≡ true
      → fle b.1 a.1 ≡ true
  fle_of_by_quality laws a b n m h = ground (arith, laws.comparable b.1 a.1)

  by_quality_of_fle : (a b : Text × F) → fle b.1 a.1 ≡ true → by_quality a b ≡ true
  by_quality_of_fle a b h = ground arith

  pub by_quality_trans :
      IsIeee fl
      → (a b c : Text × F) → HasQuality a
      → HasQuality b
      → HasQuality c
      → by_quality a b ≡ true
      → by_quality b c ≡ true
      → by_quality a c ≡ true
  by_quality_trans laws a b c n m o h k = by_quality_of_fle a c (
      laws.fle_trans c.1 b.1 a.1 (fle_of_by_quality laws b c m o k)
        (fle_of_by_quality laws a b n m h))

  -- What stays of some languages.
  pub dedup_by-facts :
      (ls : List (Text × F))
      → IsSorted by_quality ls
      → IsSorted by_quality (dedup_by ls)
        × IsApart (dedup_by ls)
        × All (λ l. Among l.0 (tags (dedup_by ls))) ls
  unfolding dedup_by
  dedup_by-facts [] h = (tt, tt, tt)
  dedup_by-facts (l ∷ ls) h = (
    (dedup_after-All _ l ls h.0, dedup_after-IsSorted by_quality l ls h.1),
    dedup_after-IsApart l ls,
    (inl refl, dedup_after-Among l ls),
  )

  pub dedup_by-All {κ} :
      (P : Text × F → Type κ) (ls : List (Text × F)) → All P ls → All P (dedup_by ls)
  unfolding dedup_by
  dedup_by-All P [] h = tt
  dedup_by-All P (l ∷ ls) h = (h.0, dedup_after-All P l ls h.1)
