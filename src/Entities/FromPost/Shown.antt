-- ===== src/Entities/FromPost/Shown.antt =====
-- What a client sees of a provider's result: the result made a post, and the post made a status.
use mathlib.Core.Option
use fediway.Prelude.{◌≡◌, refl, Option, none, some, String, Never}
use fediway.Prelude.Signed.{codes}
use fediway.Prelude.Map.{get, String_eq}
use fediway.Prelude.Float.{Float}
use fediway.Format.Characters.{Text}
use fediway.Format.Remote.{Cleaner, format_remote}
use fediway.Sources.CommonFeed.Types.{
  PostResult, post_result, MaybeResult, no_result, boxed_result, ResultFields,
}
use fediway.Sources.CommonFeed.Posts.{
  and_then, content_from_result, fields, post_from_result, maybe_from_result,
}
use fediway.Sources.CommonFeed.Posts.Mirror.{
  told, HasI32, MaybeHasI32, HasCounts, content_from_result-MirrorsContent,
}
use fediway.Entities.Types.{StatusFields, Status, status, Quote, no_quote, quoting, fields_of}
use fediway.Entities.FromPost.{
  reply_id, status_fields, set_identity, status_of, quote_of, from_post, acct_of, texts,
}

-- The address of the result that is replied to.
abbrev replied : {R : Type 0} → MaybeResult R → Option Text
replied no_result = none
replied (boxed_result r) = some (codes (fields r).url)

module _ {R F : Type 0} ⦃fl : Float F⦄ (cleaner : Cleaner) where
  abbrev ShowsFields : ResultFields R → MaybeResult R → StatusFields F → Type 0
  ShowsFields r reply_to s =
      (s.favourites_count ≡ told (and_then r.engagement (λ e. e.likes)))
      × (s.reblogs_count ≡ told (and_then r.engagement (λ e. e.reposts)))
      × (s.replies_count ≡ told (and_then r.engagement (λ e. e.replies)))
      × (s.url ≡ some (codes r.url))
      × (s.content ≡ format_remote cleaner (codes r.content))
      × (s.in_reply_to_id ≡ replied reply_to)
      × (s.account.acct ≡ acct_of r.author.handle)

  -- The status shows the result, and its quote the quoted result.
  abbrev mutual
    pub Shows : PostResult R → Status F → Type 0
    Shows (post_result r reply_to quote) (status s shown) =
        ShowsFields r reply_to s × ShowsQuote quote shown

    pub ShowsQuote : MaybeResult R → Quote F → Type 0
    ShowsQuote no_result no_quote = Unit
    ShowsQuote (boxed_result r) (quoting state s) = (state ≡ codes "accepted") × Shows r s
    ShowsQuote no_result (quoting state s) = Never
    ShowsQuote (boxed_result r) no_quote = Never

reply_id-replied :
    {R : Type 0} (cleaner : Cleaner) (r : MaybeResult R) (domain : String)
    → reply_id cleaner (maybe_from_result r domain) ≡ replied r
unfolding reply_id maybe_from_result post_from_result content_from_result
reply_id-replied cleaner no_result domain = refl
reply_id-replied cleaner (boxed_result (post_result r reply_to quote)) domain = refl

module _ {R : Type 0} (F : Type 0) ⦃fl : Float F⦄ (cleaner : Cleaner) where
  status_fields-ShowsFields :
      (r : ResultFields R) (reply_to : MaybeResult R) (domain : String)
      → HasCounts r.engagement
      → ShowsFields cleaner r reply_to (
          status_fields cleaner {F = F}
            (content_from_result r domain)
            (maybe_from_result reply_to domain))
  unfolding status_fields content_from_result
  status_fields-ShowsFields r reply_to domain h =
      let mirrored = content_from_result-MirrorsContent r domain h in
      (
        mirrored.2,
        mirrored.3,
        mirrored.4,
        refl,
        refl,
        reply_id-replied cleaner reply_to domain,
        refl,
      )

  mutual
    unfolding status_of post_from_result

    Shows-of_result :
        (r : PostResult R) (domain : String)
        → HasI32 r
        → Shows cleaner r (status_of cleaner {F = F} (post_from_result r domain))
    Shows-of_result (post_result r reply_to quote) domain h =
        (status_fields-ShowsFields r reply_to domain h.0, ShowsQuote-of_result quote domain h.2)

    ShowsQuote-of_result :
        (r : MaybeResult R) (domain : String)
        → MaybeHasI32 r
        → ShowsQuote cleaner r (quote_of cleaner {F = F} (maybe_from_result r domain))
    ShowsQuote-of_result no_result domain h = tt
    ShowsQuote-of_result (boxed_result r) domain h = (refl, Shows-of_result r domain h)

  set_identity-Shows :
      (id uri : Text) (r : PostResult R) (s : Status F)
      → Shows cleaner r s
      → Shows cleaner r (set_identity cleaner id uri s)
        × ((fields_of (set_identity cleaner id uri s)).id ≡ id)
        × ((fields_of (set_identity cleaner id uri s)).uri ≡ uri)
  unfolding set_identity
  set_identity-Shows id uri (post_result r reply_to quote) (status s shown) h = (h, refl, refl)

  -- A client sees a provider's result under the identifier it is given, with the address of its
  -- protocol, else its URL; its counts (negative ones as zero), URL, content, author and the address of
  -- what it replies to are the result's, and so for the result that it quotes.
  pub from_post-post_from_result :
      (r : PostResult R) (domain : String) (id : Text)
      → HasI32 r
      → Shows cleaner r (from_post cleaner {F = F} (post_from_result r domain) id)
        × ((fields_of (from_post cleaner {F = F} (post_from_result r domain) id)).id ≡ id)
        × ((fields_of (from_post cleaner {F = F} (post_from_result r domain) id)).uri
            ≡ Option.get_or
                (texts (get (fields r).protocol (fields r).identifiers))
                (codes (fields r).url))
  unfolding from_post post_from_result content_from_result
  from_post-post_from_result (post_result r reply_to quote) domain id h =
      set_identity-Shows id _ (post_result r reply_to quote) _
        (Shows-of_result (post_result r reply_to quote) domain h)
