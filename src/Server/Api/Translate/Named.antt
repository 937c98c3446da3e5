-- ===== src/Server/Api/Translate/Named.antt =====
-- The identifiers that apps/server/src/mastodon/translate.rs collects of a status, and the fuel of the
-- recursion.
use mathlib.Core.Option
use mathlib.Core.Path.{subst}
use fediway.Prelude.{
  ◌++◌, ◌∙◌, ◌⊎◌, ◌↔◌, [], ◌∷◌, List, Among, Option-cases, inl, inr, sym, ℕ, zero, suc, ◌≡◌, ◌<◌,
  refl, ap, Option, none, some, String, arith, ◌>>=◌, >>=-eq-some,
}
use fediway.Prelude.Int.{ℤ}
use fediway.Server.Api.Json.{Json, null, bool, number, text, array, object, get, height, height-get}
use fediway.Server.Api.Translate.{
  enough, numeric, push_numeric, not_null, reblog_of, quoted_of, collect_ids,
}

not_null-some : (o : Option Json) (w : Json) → not_null o ≡ some w → o ≡ some w
not_null-some none w h = cc
not_null-some (some null) w h = cc
not_null-some (some (bool _)) w h = h
not_null-some (some (number _)) w h = h
not_null-some (some (text _)) w h = h
not_null-some (some (array _)) w h = h
not_null-some (some (object _)) w h = h

height-reblog_of : (v w : Json) → reblog_of v ≡ some w → height w < height v
height-reblog_of v w h = height-get "reblog" v w (not_null-some (get "reblog" v) w h)

height-quoted_of : (v w : Json) → quoted_of v ≡ some w → height w < height v
height-quoted_of v w h =
    let (q, outer, inner) =
      >>=-eq-some (get "quote" v) (get "quoted_status")
        (not_null-some (get "quote" v >>= get "quoted_status") w h) in
    omega (arith, height-get "quote" v q outer, height-get "quoted_status" q w inner)

-- The identifiers that a status names, by the shape of its JSON: its own, that of the status it replies
-- to, and those that its reblog and the status it quotes name.
pub data Named : Json → ℤ → Type 0 where
  own :
      {v : Json} (n : ℤ) (s : String) → get "id" v ≡ some (text s) → numeric s ≡ some n → Named v n
  replied :
      {v : Json} (n : ℤ) (s : String)
      → get "in_reply_to_id" v ≡ some (text s)
      → numeric s ≡ some n
      → Named v n
  reblogged : {v : Json} (n : ℤ) (w : Json) → get "reblog" v ≡ some w → Named w n → Named v n
  quoted :
      {v : Json} (n : ℤ) (q w : Json)
      → get "quote" v ≡ some q
      → get "quoted_status" q ≡ some w
      → Named w n
      → Named v n

Among-append {ℓ} :
    {A : Type ℓ} (a : A) (xs ys : List A) → Among a (xs ++ ys) ↔ (Among a xs ⊎ Among a ys)
Among-append a [] ys = ((λ h. inr h), (λ h. elim h [ inl k ↦ elim k [ ] | inr k ↦ k ]))
Among-append a (x ∷ xs) ys =
    let (there, back) = Among-append a xs ys in
    (
      (λ h. elim h [
        | inl e ↦ inl (inl e)
        | inr k ↦ elim (there k) [ inl l ↦ inl (inr l) | inr r ↦ inr r ]
      ]),
      (λ h. elim h [
        | inl k ↦ elim k [ inl e ↦ inl e | inr l ↦ inr (back (inl l)) ]
        | inr r ↦ inr (back (inr r))
      ]),
    )

abbrev pushed : Option ℤ → List ℤ
pushed none = []
pushed (some n) = n ∷ []

push_numeric-some :
    (n : ℤ) (s : String) → numeric s ≡ some n → push_numeric (some (text s)) ≡ n ∷ []
unfolding push_numeric numeric
push_numeric-some n s h = ap pushed h

push_numeric-none : (s : String) → numeric s ≡ none → push_numeric (some (text s)) ≡ []
unfolding push_numeric numeric
push_numeric-none s h = ap pushed h

Among-push_numeric :
    (n : ℤ) (s : String) → numeric s ≡ some n → Among n (push_numeric (some (text s)))
Among-push_numeric n s h = subst (Among n) (sym (push_numeric-some n s h)) (inl refl)

-- What `push_numeric` pushes of a field: the number of a numeric text.
push_numeric-Among :
    (n : ℤ) (field : Option Json)
    → Among n (push_numeric field)
    → (s : String) × (field ≡ some (text s)) × (numeric s ≡ some n)
unfolding push_numeric
push_numeric-Among n none h = elim h [ ]
push_numeric-Among n (some null) h = elim h [ ]
push_numeric-Among n (some (bool _)) h = elim h [ ]
push_numeric-Among n (some (number _)) h = elim h [ ]
push_numeric-Among n (some (array _)) h = elim h [ ]
push_numeric-Among n (some (object _)) h = elim h [ ]
push_numeric-Among n (some (text s)) h = elim (Option-cases (numeric s)) [
  | inl e ↦ let no_more : Among n [] = subst (Among n) (push_numeric-none s e) h in elim no_more [ ]
  | inr (m, e) ↦
      let one : Among n (m ∷ []) = subst (Among n) (push_numeric-some m s e) h in
      elim one [ inl same ↦ (s, refl, e ∙ ap some (sym same)) | inr k ↦ elim k [ ] ]
]

maybe-Among :
    (n : ℤ) (f : Json → List ℤ) (o : Option Json)
    → Among n (Option.get_or (Option.map f o) [])
    → (w : Json) × (o ≡ some w) × Among n (f w)
maybe-Among n f none h = elim h [ ]
maybe-Among n f (some w) h = (w, refl, h)

not_null-Named : {n : ℤ} (w : Json) → Named w n → not_null (some w) ≡ some w
not_null-Named null (own n s g e) = cc
not_null-Named null (replied n s g e) = cc
not_null-Named null (reblogged n w g d) = cc
not_null-Named null (quoted n q w g h d) = cc
not_null-Named (bool _) d = refl
not_null-Named (number _) d = refl
not_null-Named (text _) d = refl
not_null-Named (array _) d = refl
not_null-Named (object _) d = refl

-- The four parts of what is collected, on fuel that is left.
abbrev parts : ℕ → Json → List ℤ
parts fuel v =
    push_numeric (get "id" v)
    ++ (push_numeric (get "in_reply_to_id" v)
        ++ (Option.get_or (Option.map (collect_ids fuel) (reblog_of v)) []
            ++ Option.get_or (Option.map (collect_ids fuel) (quoted_of v)) []))

collect_ids-parts : (fuel : ℕ) (v : Json) → collect_ids (suc fuel) v ≡ parts fuel v
unfolding collect_ids
collect_ids-parts fuel v = refl

Named-collect_ids : (fuel : ℕ) (v : Json) (n : ℤ) → Among n (collect_ids fuel v) → Named v n
Named-collect_ids zero v n h = unfold collect_ids in elim h [ ]
Named-collect_ids (suc fuel) v n h =
    let all : Among n (parts fuel v) = subst (Among n) (collect_ids-parts fuel v) h in
    elim ((Among-append n (push_numeric (get "id" v)) _).0 all) [
      | inl a ↦ let (s, g, e) = push_numeric-Among n (get "id" v) a in own n s g e
      | inr rest ↦ elim ((Among-append n (push_numeric (get "in_reply_to_id" v)) _).0 rest) [
        | inl a ↦ let (s, g, e) = push_numeric-Among n (get "in_reply_to_id" v) a in replied n s g e
        | inr deep ↦ elim ((Among-append n _ _).0 deep) [
          | inl a ↦
              let (w, g, d) = maybe-Among n (collect_ids fuel) (reblog_of v) a in
              reblogged n w (not_null-some (get "reblog" v) w g) (Named-collect_ids fuel w n d)
          | inr a ↦
              let (w, g, d) = maybe-Among n (collect_ids fuel) (quoted_of v) a in
              let (q, outer, inner) =
                >>=-eq-some (get "quote" v) (get "quoted_status")
                  (not_null-some (get "quote" v >>= get "quoted_status") w g) in
              quoted n q w outer inner (Named-collect_ids fuel w n d)
        ]
      ]
    ]

-- Each part stands in the whole.
parts-Among :
    (fuel : ℕ) (v : Json) (n : ℤ)
    → (Among n (push_numeric (get "id" v))
        ⊎ (Among n (push_numeric (get "in_reply_to_id" v))
            ⊎ (Among n (Option.get_or (Option.map (collect_ids fuel) (reblog_of v)) [])
                ⊎ Among n (Option.get_or (Option.map (collect_ids fuel) (quoted_of v)) []))))
    → Among n (collect_ids (suc fuel) v)
parts-Among fuel v n h = subst (Among n) (sym (collect_ids-parts fuel v)) (
    (Among-append n _ _).1 (elim h [
      | inl a ↦ inl a
      | inr rest ↦ inr (
          (Among-append n _ _).1
            (elim rest [ inl a ↦ inl a | inr deep ↦ inr ((Among-append n _ _).1 deep) ]))
    ]))

collect_ids-of_Named :
    (fuel : ℕ) {v : Json} {n : ℤ} → height v < fuel → Named v n → Among n (collect_ids fuel v)
collect_ids-of_Named zero h d = elim h [ ]
collect_ids-of_Named (suc fuel) {v} h (own n s g e) =
    parts-Among fuel v n (inl (rw g (Among-push_numeric n s e)))
collect_ids-of_Named (suc fuel) {v} h (replied n s g e) =
    parts-Among fuel v n (inr (inl (rw g (Among-push_numeric n s e))))
collect_ids-of_Named (suc fuel) {v} h (reblogged n w g d) =
    let there : reblog_of v ≡ some w = ap not_null g ∙ not_null-Named w d in
    let deep = collect_ids-of_Named fuel {v = w} (omega (arith, height-reblog_of v w there)) d in
    parts-Among fuel v n (
      inr (
        inr (
          inl (
            subst (λ o. Among n (Option.get_or (Option.map (collect_ids fuel) o) [])) (sym there)
              deep))))
collect_ids-of_Named (suc fuel) {v} h (quoted n q w g k d) =
    let there : quoted_of v ≡ some w =
      ap (λ o. not_null (o >>= get "quoted_status")) g ∙ ap not_null k ∙ not_null-Named w d in
    let deep = collect_ids-of_Named fuel {v = w} (omega (arith, height-quoted_of v w there)) d in
    parts-Among fuel v n (
      inr (
        inr (
          inr (
            subst (λ o. Among n (Option.get_or (Option.map (collect_ids fuel) o) [])) (sym there)
              deep))))

-- Exactly the identifiers that a status names are collected, however deep its reblogs and quotes are
-- nested: the fuel is enough.
pub collect_ids-Named : (v : Json) (n : ℤ) → Among n (collect_ids (enough v) v) ↔ Named v n
collect_ids-Named v n =
    (Named-collect_ids (enough v) v n, collect_ids-of_Named (enough v) (omega arith))
