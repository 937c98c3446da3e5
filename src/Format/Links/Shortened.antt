-- ===== src/Format/Links/Shortened.antt =====
-- How a link is cut, and where the cut panics.
use fediway.Prelude.{
  ℕ, sym, ◌⊎◌, ◌+◌, ◌-◌, ◌≤◌, ◌<◌, ◌≡◌, refl, ap, ◌∙◌, inl, inr, Bool, true, false, [], ◌∷◌, ◌++◌,
  append_assoc, append-nil, Option, none, some, ◌>>=◌, arith, ltb, ltb→lt, lt→ltb, if◌then◌else◌,
  Bool-cases, Option-cases,
}
use mathlib.Core.Path.{subst}
use fediway.Prelude.Signed.{codes}
use fediway.Format.Characters.{
  Text, width, width_pos, size, size-append, split_at, split_at-some, split_at-whole, starts_with,
  starts_with-some, find, find-some,
}
use fediway.Format.Matches.{found}
use fediway.Format.Links.{link_display_max, Parts, shorten, link_html, link_parts, shortened_link}

-- The scheme with its `://`, where the URL has one, up to the first.
abbrev pub IsScheme : Text → Text → Type 0
IsScheme url scheme =
    ((find (codes "://") url ≡ none) × (scheme ≡ []))
    ⊎ ((a : Text) × (scheme ≡ a ++ codes "://") × (find (codes "://") url ≡ some (size a)))

-- The `www.` at the front, where there is one.
abbrev pub IsWww : Text → Text → Type 0
IsWww s www =
    ((starts_with (codes "www.") s ≡ false) × (www ≡ []))
    ⊎ ((starts_with (codes "www.") s ≡ true) × (www ≡ codes "www."))

-- All of a rest of at most 30 bytes is shown, of a longer one 30 bytes and an ellipsis.
abbrev pub IsDisplay : Parts → Type 0
IsDisplay (display, suffix, class) =
    ((size (display ++ suffix) ≤ link_display_max) × (suffix ≡ []) × (class ≡ []))
    ⊎ ((link_display_max < size (display ++ suffix))
        × (size display ≡ link_display_max)
        × (class ≡ codes "ellipsis"))

IsScheme-cut :
    (url : Text) (place : Option ℕ)
    → find (codes "://") url ≡ place
    → (a : Text) × (b : Text) × (a ++ b ≡ url)
      × (size a ≡ found place 0 (λ i. i + 3))
      × IsScheme url a
IsScheme-cut url none h = ([], url, refl, refl, inl (h, refl))
IsScheme-cut url (some i) h =
    let (a, b, whole, at) = find-some (codes "://") url h in
    (
      a ++ codes "://",
      b,
      append_assoc a (codes "://") b ∙ whole,
      size-append a (codes "://") ∙ ap (λ t. t + 3) at,
      inr (a, refl, h ∙ ap some (sym at)),
    )

IsWww-cut :
    (s : Text) (www : Bool)
    → starts_with (codes "www.") s ≡ www
    → (a : Text) × (b : Text) × (a ++ b ≡ s) × (size a ≡ (if www then 4 else 0)) × IsWww s a
IsWww-cut s false h = ([], s, refl, refl, inl (h, refl))
IsWww-cut s true h =
    let (b, whole) = starts_with-some (codes "www.") s h in
    (codes "www.", b, whole, refl, inr (h, refl))

-- The scheme and `www.` come off without a panic, and the parts are the whole URL.
link_parts_total :
    (url : Text)
    → (scheme : Text) × (www : Text) × (rest : Text) × (scheme ++ (www ++ rest) ≡ url)
      × IsScheme url scheme
      × IsWww (www ++ rest) www
      × (link_parts url ≡ some (scheme ++ www, rest))
unfolding link_parts
link_parts_total url =
    let (a, b, whole, at, is_scheme) = IsScheme-cut url (find (codes "://") url) refl in
    let (c, d, behind, www, is_www) = IsWww-cut b (starts_with (codes "www.") b) refl in
    let joined : (a ++ c) ++ d ≡ url = append_assoc a c d ∙ ap (◌++◌ a) behind ∙ whole in
    let place =
      size-append a c
      ∙ ap (λ t. t + size c) at
      ∙ ap (λ t. found (find (codes "://") url) 0 (λ i. i + 3) + t) www in
    (
      a,
      c,
      d,
      ap (◌++◌ a) behind ∙ whole,
      is_scheme,
      subst (λ t. IsWww t c) (sym behind) is_www,
      rw (split_at-whole a b whole at, split_at-whole (a ++ c) d joined place) refl,
    )

-- A long rest is cut after 30 bytes, which have to end a character.
abbrev IsShort : Text → Option Parts → Type 0
IsShort rest none = (link_display_max < size rest) × (split_at link_display_max rest ≡ none)
IsShort rest (some (display, suffix, class)) =
    (display ++ suffix ≡ rest) × IsDisplay (display, suffix, class)

shorten-IsShort : (rest : Text) → IsShort rest (shorten rest)
unfolding shorten
shorten-IsShort rest = elim (Bool-cases (ltb link_display_max (size rest))) [
  | inl long ↦ elim (Option-cases (split_at link_display_max rest)) [
    | inl e ↦ rw (long, e) (ltb→lt _ _ long, e)
    | inr ((display, suffix), e) ↦
        let (whole, width) = split_at-some link_display_max rest e in
        let longer =
          subst (λ t. link_display_max < size t) (sym whole) (ltb→lt link_display_max _ long) in
        rw (long, e) (whole, inr (longer, width, refl))
  ]
  | inr short ↦
      let within : size rest ≤ link_display_max = ground arith in
      let whole : rest ++ [] ≡ rest = append-nil rest in
      rw short (whole, inl (subst (λ t. size t ≤ link_display_max) (sym whole) within, refl, refl))
]

-- The cut of the whole URL, or why there is none.
abbrev pub IsCut : Text → Option Text → Type 0
IsCut url none =
    (scheme : Text) × (www : Text) × (rest : Text) × (scheme ++ (www ++ rest) ≡ url)
    × IsScheme url scheme
    × IsWww (www ++ rest) www
    × (link_display_max < size rest)
    × (split_at link_display_max rest ≡ none)
IsCut url (some html) =
    (scheme : Text) × (www : Text) × (display : Text) × (suffix : Text) × (class : Text) × (scheme
        ++ (www ++ (display ++ suffix))
      ≡ url)
    × IsScheme url scheme
    × IsWww (www ++ (display ++ suffix)) www
    × IsDisplay (display, suffix, class)
    × (html ≡ link_html url (scheme ++ www) (display, suffix, class))

IsCut-of_IsShort :
    (url scheme www rest : Text) (short : Option Parts)
    → scheme ++ (www ++ rest) ≡ url
    → IsScheme url scheme
    → IsWww (www ++ rest) www
    → IsShort rest short
    → IsCut url (short >>= λ parts. some (link_html url (scheme ++ www) parts))
IsCut-of_IsShort url scheme www rest none e s w h = (scheme, www, rest, e, s, w, h.0, h.1)
IsCut-of_IsShort url scheme www rest (some (display, suffix, class)) e s w h = (
  scheme,
  www,
  display,
  suffix,
  class,
  ap (λ t. scheme ++ (www ++ t)) h.0 ∙ e,
  s,
  subst (λ t. IsWww (www ++ t) www) (sym h.0) w,
  h.1,
  refl,
)

-- The link of a URL hides its scheme, up to the first `://`, and a `www.` behind it; of the rest it
-- shows all if that is at most 30 bytes, else exactly 30 bytes with an ellipsis, and hides what follows;
-- these parts are the whole URL in order. It panics only where the rest is longer than 30 bytes and its
-- 30th byte does not end a character.
pub shortened_link-IsCut : (url : Text) → IsCut url (shortened_link url)
unfolding shortened_link
shortened_link-IsCut url =
    let (scheme, www, rest, whole, s, w, cut) = link_parts_total url in
    rw cut (IsCut-of_IsShort url scheme www rest (shorten rest) whole s w (shorten-IsShort rest))

-- A character astride a byte is not cut there.
split_at_astride :
    (a : Text) (c : ℕ) (s : Text) (n : ℕ)
    → size a < n
    → n < size a + width c
    → split_at n (a ++ c ∷ s) ≡ none
unfolding split_at
split_at_astride [] c s n h k = ground arith
split_at_astride (d ∷ a) c s n h k =
    ground (arith, width_pos d, split_at_astride a c s (n - width d))

link_parts-https :
    (rest : Text)
    → starts_with (codes "www.") rest ≡ false
    → link_parts (codes "https://" ++ rest) ≡ some (codes "https://", rest)
unfolding link_parts find
link_parts-https rest www =
    let cut : split_at 8 (codes "https://" ++ rest) ≡ some (codes "https://", rest) =
      split_at-whole (codes "https://") rest refl refl in
    rw (cut, www, cut) refl

-- The link of an `https` URL, behind whose scheme no `www.` stands, panics where a character begins
-- within the first 30 bytes behind the scheme and ends behind them.
pub shortened_link_panics :
    (a : Text) (c : ℕ) (s : Text)
    → size a < 30
    → 30 < size a + width c
    → starts_with (codes "www.") (a ++ c ∷ s) ≡ false
    → shortened_link (codes "https://" ++ (a ++ c ∷ s)) ≡ none
unfolding shortened_link shorten
shortened_link_panics a c s h k www =
    let long : ltb link_display_max (size (a ++ c ∷ s)) ≡ true =
      lt→ltb _ _ (omega (arith, size-append a (c ∷ s))) in
    rw
      (
        link_parts-https (a ++ c ∷ s) www,
        long,
        split_at_astride a c s link_display_max (omega arith) (omega arith),
      )
      refl
