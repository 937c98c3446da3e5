-- ===== src/Sources/CommonFeed/Fetch/Supported.antt =====
-- Which filters a request asks for.
use mathlib.Core.Option
use fediway.Prelude.{
  ℕ, ◌≡◌, refl, ◌∙◌, Bool, true, false, List, [], ◌∷◌, Option, none, some, String, any, str_eq, min,
  display, ◌>>=◌, if◌then◌else◌,
}
use fediway.Prelude.Int.{pos}
use fediway.Server.Api.Json.{Json, null, number, text, array, object, get, field}
use fediway.Sources.CommonFeed.Types.{QueryFilters, for_provider}
use fediway.Sources.CommonFeed.Fetch.{
  Provider, request, strings, embedding_field, filters_field, filters_value,
}

-- The value of a filter in the body of a request.
abbrev pub asked : Json → String → Option Json
asked body name = get "filters" body >>= get name

abbrev pub language_value : List String → Option Json
language_value [] = none
language_value (s ∷ ss) = some (array (strings (s ∷ ss)))

asked-filters_value :
    (embedding : Option Json) (limit : Json) (language : List String) (tag link : Option String)
    → let body = object (
        field "limit" limit (
          field "cursor" null (
            embedding_field embedding (
              filters_field
                (filters_value (record { language = language; tag = tag; link = link })))))) in
      (asked body "language" ≡ language_value language)
      × (asked body "tag" ≡ Option.map text tag)
      × (asked body "link" ≡ Option.map text link)
asked-filters_value none limit [] none none = (refl, refl, refl)
asked-filters_value none limit [] none (some k) = (refl, refl, refl)
asked-filters_value none limit [] (some t) none = (refl, refl, refl)
asked-filters_value none limit [] (some t) (some k) = (refl, refl, refl)
asked-filters_value none limit (s ∷ ss) none none = (refl, refl, refl)
asked-filters_value none limit (s ∷ ss) none (some k) = (refl, refl, refl)
asked-filters_value none limit (s ∷ ss) (some t) none = (refl, refl, refl)
asked-filters_value none limit (s ∷ ss) (some t) (some k) = (refl, refl, refl)
asked-filters_value (some v) limit [] none none = (refl, refl, refl)
asked-filters_value (some v) limit [] none (some k) = (refl, refl, refl)
asked-filters_value (some v) limit [] (some t) none = (refl, refl, refl)
asked-filters_value (some v) limit [] (some t) (some k) = (refl, refl, refl)
asked-filters_value (some v) limit (s ∷ ss) none none = (refl, refl, refl)
asked-filters_value (some v) limit (s ∷ ss) none (some k) = (refl, refl, refl)
asked-filters_value (some v) limit (s ∷ ss) (some t) none = (refl, refl, refl)
asked-filters_value (some v) limit (s ∷ ss) (some t) (some k) = (refl, refl, refl)

if-map :
    (b : Bool) (s : Option String)
    → Option.map text (if b then s else none) ≡ (if b then Option.map text s else none)
if-map true s = refl
if-map false s = refl

if-language_value :
    (b : Bool) (ls : List String)
    → language_value (if b then ls else []) ≡ (if b then language_value ls else none)
if-language_value true ls = refl
if-language_value false ls = refl

abbrev pub supports : Provider → String → Bool
supports provider name = any (λ s. str_eq s name) provider.supported_filters

-- A request asks for a filter exactly if the provider supports it and it is set, with its value, and
-- for at most as many results as the provider gives.
pub request-supports :
    (provider : Provider) (resource algorithm : String) (f : QueryFilters) (embedding : Option Json)
    (limit : ℕ)
    → let body = (request provider resource algorithm f embedding limit).body in
      (asked body "language"
        ≡ (if supports provider "language" then language_value f.language else none))
      × (asked body "tag" ≡ (if supports provider "tag" then Option.map text f.tag else none))
      × (asked body "link" ≡ (if supports provider "link" then Option.map text f.link else none))
      × (get "limit" body ≡ some (number (display (pos (min limit provider.max_results)))))
unfolding request for_provider
request-supports provider resource algorithm f embedding limit =
    let (language, tag, link) =
      asked-filters_value embedding (number (display (pos (min limit provider.max_results))))
        (for_provider f provider.supported_filters).language
        (for_provider f provider.supported_filters).tag
        (for_provider f provider.supported_filters).link in
    (
      language ∙ if-language_value (supports provider "language") f.language,
      tag ∙ if-map (supports provider "tag") f.tag,
      link ∙ if-map (supports provider "link") f.link,
      refl,
    )
