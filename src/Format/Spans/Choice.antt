-- ===== src/Format/Spans/Choice.antt =====
-- The choice of spans as one pass that remembers the last span it took.
use fediway.Prelude.{
  ℕ, ◌≤◌, ◌<◌, ◌≡◌, refl, sym, ◌∙◌, inl, inr, ◌⊎◌, true, false, List, [], ◌∷◌, ◌++◌, append_assoc,
  append-nil, Option, none, some, arith, leb, if◌then◌else◌, Bool-cases, All, All-map, Among,
  All-Among, leb→le,
}
use mathlib.Core.Path.{subst}
use fediway.Prelude.Sort.{sort_by, IsSorted, sort_by-IsSorted, sort_by-All, sort_by-All_inv}
use fediway.Format.Matches.{Span}
use fediway.Format.Spans.{by_place, last_span, is_none_or, non_overlapping, choose_spans}

-- From byte `place` on, each span begins where the one before it has ended.
abbrev pub IsChain : ℕ → List Span → Type 0
IsChain place [] = Unit
IsChain place (s ∷ spans) = (place ≤ s.start) × IsChain s.end spans

-- The span is taken, or it begins inside one that is taken.
abbrev pub IsCovered : List Span → Span → Type 0
IsCovered chosen s =
    (k : Span) × Among k chosen × (k.start ≤ s.start) × ((k ≡ s) ⊎ (s.start < k.end))

-- The spans taken behind the last one.
taken : Option Span → List Span → List Span
taken before [] = []
taken before (s ∷ spans) =
    let free = is_none_or before (λ last. leb last.end s.start) in
    let rest = taken (if free then some s else before) spans in if free then s ∷ rest else rest

last_span-append : (kept : List Span) (s : Span) → last_span (kept ++ s ∷ []) ≡ some s
last_span-append [] s = refl
last_span-append (k ∷ []) s = refl
last_span-append (k ∷ l ∷ kept) s = last_span-append (l ∷ kept) s

non_overlapping-taken :
    (kept spans : List Span) → non_overlapping kept spans ≡ kept ++ taken (last_span kept) spans
unfolding non_overlapping taken
non_overlapping-taken kept [] = rw append-nil refl
non_overlapping-taken kept (s ∷ spans) =
    elim (Bool-cases (is_none_or (last_span kept) (λ last. leb last.end s.start))) [
      | inl e ↦ rw e (
          non_overlapping-taken (kept ++ s ∷ []) spans
          ∙ rw (last_span-append kept s) (append_assoc kept (s ∷ []) (taken (some s) spans)))
      | inr e ↦ rw e (non_overlapping-taken kept spans)
    ]

end_of : Option Span → ℕ
end_of none = 0
end_of (some s) = s.end

taken-IsChain :
    (before : Option Span) (spans : List Span) → IsChain (end_of before) (taken before spans)
unfolding taken end_of
taken-IsChain before [] = tt
taken-IsChain none (s ∷ spans) = (omega arith, taken-IsChain (some s) spans)
taken-IsChain (some l) (s ∷ spans) = elim (Bool-cases (leb l.end s.start)) [
  | inl e ↦ rw e (leb→le l.end s.start e, taken-IsChain (some s) spans)
  | inr e ↦ rw e (taken-IsChain (some l) spans)
]

taken-All {κ} :
    (P : Span → Type κ) (before : Option Span) (spans : List Span)
    → All P spans
    → All P (taken before spans)
unfolding taken
taken-All P before [] h = tt
taken-All P before (s ∷ spans) h =
    elim (Bool-cases (is_none_or before (λ last. leb last.end s.start))) [
      | inl e ↦ rw e (h.0, taken-All P (some s) spans h.1)
      | inr e ↦ rw e (taken-All P before spans h.1)
    ]

IsCovered-cons :
    (l : Span) (chosen : List Span) (s : Span) → IsCovered chosen s → IsCovered (l ∷ chosen) s
IsCovered-cons l chosen s (k, among, below, end) = (k, inr among, below, end)

by_place-start : (s t : Span) → by_place s t ≡ true → s.start ≤ t.start
by_place-start s t h = ground arith

taken_free :
    (l s : Span) (spans : List Span)
    → leb l.end s.start ≡ true
    → taken (some l) (s ∷ spans) ≡ s ∷ taken (some s) spans
unfolding taken
taken_free l s spans h = rw h refl

taken_blocked :
    (l s : Span) (spans : List Span)
    → leb l.end s.start ≡ false
    → taken (some l) (s ∷ spans) ≡ taken (some l) spans
unfolding taken
taken_blocked l s spans h = rw h refl

taken-IsCovered :
    (l : Span) (spans : List Span)
    → All (λ s. l.start ≤ s.start) spans
    → IsSorted by_place spans
    → All (IsCovered (l ∷ taken (some l) spans)) spans
taken-IsCovered l [] h sorted = tt
taken-IsCovered l (s ∷ spans) h sorted = elim (Bool-cases (leb l.end s.start)) [
  | inl e ↦
      let later : All (IsCovered (s ∷ taken (some s) spans)) spans =
        taken-IsCovered s spans (All-map (by_place-start s) spans sorted.0) sorted.1 in
      subst (λ t. All (IsCovered (l ∷ t)) (s ∷ spans)) (sym (taken_free l s spans e))
        (
          (s, inr (inl refl), omega arith, inl refl),
          All-map (IsCovered-cons l (s ∷ taken (some s) spans)) spans later,
        )
  | inr e ↦
      subst (λ t. All (IsCovered (l ∷ t)) (s ∷ spans)) (sym (taken_blocked l s spans e))
        ((l, inl refl, h.0, inr (ground arith)), taken-IsCovered l spans h.1 sorted.1)
]

by_place_total : (s t : Span) → by_place s t ≡ false → by_place t s ≡ true
by_place_total s t h = ground arith

by_place_trans : (s t u : Span) → by_place s t ≡ true → by_place t u ≡ true → by_place s u ≡ true
by_place_trans s t u h k = ground arith

pub choose_spans-All {κ} :
    (P : Span → Type κ) (spans : List Span) → All P spans → All P (choose_spans spans)
unfolding choose_spans
choose_spans-All P spans h =
    rw (non_overlapping-taken [] (sort_by by_place spans))
      (taken-All P none (sort_by by_place spans) (sort_by-All P by_place spans h))

pub choose_spans-IsChain : (spans : List Span) → IsChain 0 (choose_spans spans)
unfolding choose_spans end_of
choose_spans-IsChain spans =
    rw (non_overlapping-taken [] (sort_by by_place spans))
      (taken-IsChain none (sort_by by_place spans))

taken-none-IsCovered :
    (spans : List Span) → IsSorted by_place spans → All (IsCovered (taken none spans)) spans
unfolding taken
taken-none-IsCovered [] sorted = tt
taken-none-IsCovered (s ∷ spans) sorted = (
  (s, inl refl, omega arith, inl refl),
  taken-IsCovered s spans (All-map (by_place-start s) spans sorted.0) sorted.1,
)

-- The spans that are chosen are among the given ones, follow each other without overlap, and every
-- given span is chosen or begins inside one that is.
pub choose_spans-IsCovered :
    (spans : List Span)
    → IsChain 0 (choose_spans spans)
      × All (λ s. Among s spans) (choose_spans spans)
      × All (IsCovered (choose_spans spans)) spans
unfolding choose_spans
choose_spans-IsCovered spans = (
  choose_spans-IsChain spans,
  choose_spans-All (λ s. Among s spans) spans (All-Among spans),
  rw (non_overlapping-taken [] (sort_by by_place spans)) (
      sort_by-All_inv _ by_place spans (
        taken-none-IsCovered (sort_by by_place spans)
          (sort_by-IsSorted by_place by_place_total by_place_trans spans))),
)
