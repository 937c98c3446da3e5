-- ===== src/Sources/CommonFeed/Posts/Mirror.antt =====
-- A post against the result that it was made of, with all that they reply to and quote.
use mathlib.Core.Option
use fediway.Prelude.{
  ℕ, suc, ◌^◌, ◌<◌, ◌≡◌, ◌≢◌, refl, ◌∙◌, Bool, ◌||◌, List, [], ◌∷◌, Option, none, some, String,
  arith, map, filter, length, All, if◌then◌else◌, Never, is_some,
}
use fediway.Prelude.Int.{ℤ, pos, negsuc, pos_part}
use fediway.Prelude.Map.{get, String_eq}
use fediway.Common.Types.{Content, CustomEmoji, Media, Post, post, MaybePost, no_post, boxed}
use fediway.Sources.CommonFeed.Types.{
  EmojiResult, EngagementResult, ImageObject, MediaResult, PostResult, post_result, MaybeResult,
  no_result, boxed_result, ResultFields, Sizes,
}
use fediway.Sources.CommonFeed.Posts.{
  or, or_empty, and_then, keep_some, filter_map, max_zero, cast_unsigned, emoji_from_result,
  media_file, media_of, media_from_result, count_of, content_from_result, post_from_result,
  maybe_from_result,
}

-- The integer is one that an `i32` holds.
abbrev pub IsI32 : ℤ → Type 0
IsI32 (pos n) = n < 2 ^ 31
IsI32 (negsuc n) = n < 2 ^ 31

-- What a count says: nothing, or a negative number, is none.
abbrev pub told : Option ℤ → ℕ
told none = 0
told (some v) = pos_part v

abbrev pub IsSmall : Option ℤ → Type 0
IsSmall none = Unit
IsSmall (some v) = IsI32 v

abbrev pub HasCounts : Option EngagementResult → Type 0
HasCounts none = Unit
HasCounts (some e) = IsSmall e.likes × IsSmall e.reposts × IsSmall e.replies

abbrev has_file : MediaResult → Bool
has_file m = is_some m.image || is_some m.sizes

abbrev pub MirrorsContent : {F : Type 0} → String → ResultFields F → Content → Type 0
MirrorsContent domain r c =
    (c.provider_domain ≡ some domain)
    × (c.uri ≡ get r.protocol r.identifiers)
    × (c.engagement.likes ≡ told (and_then r.engagement (λ e. e.likes)))
    × (c.engagement.reposts ≡ told (and_then r.engagement (λ e. e.reposts)))
    × (c.engagement.replies ≡ told (and_then r.engagement (λ e. e.replies)))
    × (length c.media ≡ length (filter has_file (or_empty r.media)))
    × All (λ (e : CustomEmoji). e.static_url ≢ none) c.emojis

abbrev mutual
  pub Mirrors : {F : Type 0} → String → PostResult F → Post → Type 0
  Mirrors domain (post_result r reply_to quote) (post c reply_to' quote') =
      MirrorsContent domain r c
      × MirrorsMaybe domain reply_to reply_to'
      × MirrorsMaybe domain quote quote'

  pub MirrorsMaybe : {F : Type 0} → String → MaybeResult F → MaybePost → Type 0
  MirrorsMaybe domain no_result no_post = Unit
  MirrorsMaybe domain (boxed_result r) (boxed p) = Mirrors domain r p
  MirrorsMaybe domain no_result (boxed p) = Never
  MirrorsMaybe domain (boxed_result r) no_post = Never

-- The counts of a result, and of all that it replies to and quotes, are those of an `i32`.
abbrev mutual
  pub HasI32 : {F : Type 0} → PostResult F → Type 0
  HasI32 (post_result r reply_to quote) =
      HasCounts r.engagement × MaybeHasI32 reply_to × MaybeHasI32 quote

  pub MaybeHasI32 : {F : Type 0} → MaybeResult F → Type 0
  MaybeHasI32 no_result = Unit
  MaybeHasI32 (boxed_result r) = HasI32 r

cast_unsigned-told :
    (count : Option ℤ)
    → IsSmall count
    → cast_unsigned (max_zero (Option.get_or count (pos 0))) ≡ told count
cast_unsigned-told none h = omega arith
cast_unsigned-told (some (pos n)) h = omega arith
cast_unsigned-told (some (negsuc n)) h = omega arith

count_of-told :
    (e : Option EngagementResult) (field : EngagementResult → Option ℤ)
    → IsSmall (and_then e field)
    → count_of e field ≡ told (and_then e field)
count_of-told none field h = omega arith
count_of-told (some e) field h = cast_unsigned-told (field e) h

length-keep_some :
    (m : MediaResult) (image : Option ImageObject) (sizes : Option Sizes)
    (poster : Option ImageObject) (rest : List Media)
    → length (keep_some (Option.map (media_of m) (media_file image sizes poster)) rest)
      ≡ (if is_some image || is_some sizes then suc (length rest) else length rest)
length-keep_some m (some img) sizes poster rest = refl
length-keep_some m none (some s) poster rest = refl
length-keep_some m none none poster rest = refl

length-filter_map :
    (ms : List MediaResult) → length (filter_map media_from_result ms) ≡ length (filter has_file ms)
unfolding media_from_result
length-filter_map [] = refl
length-filter_map (m ∷ ms) =
    length-keep_some m m.image m.sizes m.poster (filter_map media_from_result ms)
    ∙ ground (arith, length-filter_map ms)

or-ne-none : (o : Option String) (s : String) → or o (some s) ≢ none
or-ne-none none s h = cc
or-ne-none (some t) s h = cc

map-emoji_from_result-All :
    (es : List EmojiResult)
    → All (λ (e : CustomEmoji). e.static_url ≢ none) (map emoji_from_result es)
unfolding emoji_from_result
map-emoji_from_result-All [] = tt
map-emoji_from_result-All (e ∷ es) = (or-ne-none e.static_url e.url, map-emoji_from_result-All es)

HasCounts-field :
    (e : Option EngagementResult)
    → HasCounts e
    → IsSmall (and_then e (λ e. e.likes))
      × IsSmall (and_then e (λ e. e.reposts))
      × IsSmall (and_then e (λ e. e.replies))
HasCounts-field none h = (tt, tt, tt)
HasCounts-field (some e) h = h

pub content_from_result-MirrorsContent :
    {F : Type 0} (r : ResultFields F) (domain : String)
    → HasCounts r.engagement
    → MirrorsContent domain r (content_from_result r domain)
unfolding content_from_result
content_from_result-MirrorsContent r domain h =
    let (likes, reposts, replies) = HasCounts-field r.engagement h in
    (
      refl,
      refl,
      count_of-told r.engagement (λ e. e.likes) likes,
      count_of-told r.engagement (λ e. e.reposts) reposts,
      count_of-told r.engagement (λ e. e.replies) replies,
      length-filter_map (or_empty r.media),
      map-emoji_from_result-All (or_empty r.emojis),
    )

mutual
  unfolding post_from_result

  Mirrors-of_result :
      {F : Type 0} (r : PostResult F) (domain : String)
      → HasI32 r
      → Mirrors domain r (post_from_result r domain)
  Mirrors-of_result (post_result r reply_to quote) domain h = (
    content_from_result-MirrorsContent r domain h.0,
    MirrorsMaybe-of_result reply_to domain h.1,
    MirrorsMaybe-of_result quote domain h.2,
  )

  MirrorsMaybe-of_result :
      {F : Type 0} (r : MaybeResult F) (domain : String)
      → MaybeHasI32 r
      → MirrorsMaybe domain r (maybe_from_result r domain)
  MirrorsMaybe-of_result no_result domain h = tt
  MirrorsMaybe-of_result (boxed_result r) domain h = Mirrors-of_result r domain h

-- The post and all that it replies to and quotes carry the provider's domain, the identity of the
-- result's protocol, its counts with negative ones as zero, one media for each that has a file, and
-- emojis that have a static image.
pub post_from_result-Mirrors :
    {F : Type 0} (r : PostResult F) (domain : String)
    → HasI32 r
    → Mirrors domain r (post_from_result r domain)
post_from_result-Mirrors r domain h = Mirrors-of_result r domain h
