-- ===== src/Server/Trends/Follow.antt =====
-- A client that follows the pages of a trend feed while no rebuilding ends in between.
use fediway.Prelude.{
  ℕ, zero, suc, ◌<◌, ◌≡◌, refl, sym, ap, ◌∙◌, inl, inr, true, false, List, [], ◌++◌, append-nil,
  Option, none, some, ◌>>=◌, length, Option-cases,
}
use fediway.Prelude.Decimal.{Text, usize_values}
use fediway.State.Cache.{Codec}
use fediway.State.Cache.Store.{Store, IsStore, RoundTrips}
use fediway.Server.Engine.{paginate}
use fediway.Server.Engine.Walk.{walk, walk_all}
use fediway.Server.Trends.{TrendFeed, ttl, use_cached, load, serve_page}

module _ {S Item Response : Type 0} (st : Store S) (codec : Codec (List Item))
    (feed : TrendFeed Item Response) where
  -- The items of the pages that a client receives who follows each link to a next page, at most
  -- `fuel` times. A link names the offset alone, so that each request has a limit of its own: that of the
  -- client, or the default.
  abbrev pub follow : ℕ → Option Text → (ℕ → ℕ) → S → Option (List Item)
  follow zero cursor limits s = some []
  follow (suc fuel) cursor limits s =
      let next = λ (c : Text). follow fuel (some c) (λ n. limits (suc n)) in
      serve_page st codec feed cursor (limits 0) s >>= λ served. elim served.0.0.cursor [
        | none ↦ some served.0.0.items
        | some c ↦ next c served.1 >>= λ rest. some (served.0.0.items ++ rest)
      ]

  serve_page-hit :
      (cursor : Option Text) (limit : ℕ) (s : S) (items : List Item)
      → (st.get codec feed.cache_key s).0 ≡ some items
      → (st.get codec feed.cache_key s).1 ≡ s
      → serve_page st codec feed cursor limit s ≡ some ((paginate items cursor limit, true), s)
  unfolding serve_page load use_cached
  serve_page-hit cursor limit s items hit same = rw (hit, same) refl

  serve_page-miss :
      (cursor : Option Text) (limit : ℕ) (s : S) (items : List Item)
      → (st.get codec feed.cache_key s).0 ≡ none
      → (st.get codec feed.cache_key s).1 ≡ s
      → feed.collect ≡ some items
      → serve_page st codec feed cursor limit s
        ≡ some ((paginate items cursor limit, false), st.set codec feed.cache_key items ttl s)
  unfolding serve_page load use_cached
  serve_page-miss cursor limit s items miss same fresh = rw (miss, same, fresh) refl

  -- While the items are cached, each page is cut from them, and nothing changes.
  follow-hit :
      (fuel : ℕ) (cursor : Option Text) (limits : ℕ → ℕ) (s : S) (items : List Item)
      → (st.get codec feed.cache_key s).0 ≡ some items
      → (st.get codec feed.cache_key s).1 ≡ s
      → follow fuel cursor limits s ≡ some (walk fuel items cursor limits)
  unfolding walk
  follow-hit zero cursor limits s items hit same = refl
  follow-hit (suc fuel) cursor limits s items hit same =
      rw (serve_page-hit cursor (limits 0) s items hit same)
        (elim (Option-cases (paginate items cursor (limits 0)).cursor) [
          | inl e ↦ rw e (ap some (sym (append-nil _)))
          | inr (c, e) ↦
              rw (e, follow-hit fuel (some c) (λ n. limits (suc n)) s items hit same) refl
        ])

  -- The first page, which is not cached yet, goes on as if it were.
  follow-miss :
      (fuel : ℕ) (cursor : Option Text) (limits : ℕ → ℕ) (s s1 : S) (items : List Item)
      → serve_page st codec feed cursor (limits 0) s
        ≡ some ((paginate items cursor (limits 0), false), s1)
      → (st.get codec feed.cache_key s1).0 ≡ some items
      → (st.get codec feed.cache_key s1).1 ≡ s1
      → follow (suc fuel) cursor limits s ≡ some (walk (suc fuel) items cursor limits)
  unfolding walk
  follow-miss fuel cursor limits s s1 items first hit same =
      rw first (elim (Option-cases (paginate items cursor (limits 0)).cursor) [
        | inl e ↦ rw e (ap some (sym (append-nil _)))
        | inr (c, e) ↦ rw (e, follow-hit fuel (some c) (λ n. limits (suc n)) s1 items hit same) refl
      ])

  -- Over a cache that keeps its laws (one that neither fails nor drops an entry meanwhile) and has
  -- nothing under the feed's key, a client who follows the links from the first page on, with a positive
  -- limit in each of its requests, receives every item that was collected for the first page once and in
  -- order, if no rebuilding ends in between, serde reads the items back as they were written and their
  -- number is a `usize`.
  pub follow-serve_page :
      (Works : S → Type 0) (laws : IsStore st Works) (s : S) (items : List Item) (limits : ℕ → ℕ)
      → Works s
      → RoundTrips codec items
      → (st.get codec feed.cache_key s).0 ≡ none
      → feed.collect ≡ some items
      → ((n : ℕ) → 0 < limits n)
      → length items < usize_values
      → follow (suc (length items)) none limits s ≡ some items
  follow-serve_page Works laws s items limits works trips miss fresh pos small =
      let s1 = st.set codec feed.cache_key items ttl s in
      let works1 = laws.set-Works codec feed.cache_key items ttl s works in
      follow-miss (length items) none limits s s1 items
        (serve_page-miss none (limits 0) s items miss (laws.get-Works codec feed.cache_key s works)
          fresh)
        (laws.get-set codec feed.cache_key items ttl s works trips)
        (laws.get-Works codec feed.cache_key s1 works1)
      ∙ ap some (walk_all items limits pos small)
