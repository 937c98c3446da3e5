-- ===== src/Server/Statuses/Order.antt =====
-- `to_statuses` read item by item.
use fediway.Prelude.{
  ℕ, suc, ◌<◌, ◌≡◌, refl, ap, ◌∙◌, true, false, List, [], ◌∷◌, ◌++◌, append_assoc, append-nil,
  Option, none, some, String, arith, length, length-append, map, ◌==◌, ==_iff,
}
use fediway.Prelude.Int.{ℤ}
use fediway.Prelude.Float.{Float}
use fediway.Prelude.Map.{Map, get, remove, ℕ_eq, ℤ_eq}
use fediway.Common.Types.{Post, body}
use fediway.Sources.CommonFeed.Posts.{keep_some, filter_map}
use fediway.Sources.FeedItem.{FeedItem, local, remote}
use fediway.Server.Api.Json.{Json}
use fediway.Format.Remote.{Cleaner}
use fediway.Entities.Types.{Status}
use fediway.Entities.FromPost.{from_post}
use fediway.State.Detail.Fetch.{Outcome, done, failed, panicked, ◌>>=◌, collect_rows, keyed}
use fediway.Server.Statuses.{
  ProviderKey, provider_key, provider_pairs, Mappings, mapped_rows, post_mappings, status_id,
  ItemRef, local_ref, remote_ref, Refs, push_local, push_remote, push_post, promoted, refs_of,
  enumerated, statuses_of, from_posts, to_statuses,
}

module _ (resolved : List (ProviderKey × ℤ)) where
  abbrev pub promotion : Post → Option ℤ
  promotion p = promoted resolved (provider_key p)

  abbrev id_or : Option ℤ → List ℤ → List ℤ
  id_or none ids = ids
  id_or (some id) ids = id ∷ ids

  abbrev post_or : Option ℤ → Post → List Post → List Post
  post_or none p ps = p ∷ ps
  post_or (some id) p ps = ps

  -- The identifiers that Mastodon's database is asked for, and the posts that it does not know.
  abbrev pub wanted_ids : List FeedItem → List ℤ
  wanted_ids [] = []
  wanted_ids (local id ∷ items) = id ∷ wanted_ids items
  wanted_ids (remote p ∷ items) = id_or (promotion p) (wanted_ids items)

  abbrev pub wanted_posts : List FeedItem → List Post
  wanted_posts [] = []
  wanted_posts (local id ∷ items) = wanted_posts items
  wanted_posts (remote p ∷ items) = post_or (promotion p) p (wanted_posts items)

  abbrev ref_or : Option ℤ → ℕ → (ℕ → List ItemRef) → List ItemRef
  ref_or none n rest = remote_ref n ∷ rest (suc n)
  ref_or (some id) n rest = local_ref id ∷ rest n

  abbrev wanted_refs : List FeedItem → ℕ → List ItemRef
  wanted_refs [] n = []
  wanted_refs (local id ∷ items) n = local_ref id ∷ wanted_refs items n
  wanted_refs (remote p ∷ items) n = ref_or (promotion p) n (wanted_refs items)

  abbrev after_all : Refs → List FeedItem → Refs
  after_all r items = record {
    refs = r.refs ++ wanted_refs items (length r.remote_posts);
    local_ids = r.local_ids ++ wanted_ids items;
    remote_posts = r.remote_posts ++ wanted_posts items;
  }

  after_all-push_local :
      (id : ℤ) (r : Refs) (items : List FeedItem)
      → after_all (push_local id r) items ≡ record {
        refs = r.refs ++ local_ref id ∷ wanted_refs items (length r.remote_posts);
        local_ids = r.local_ids ++ id ∷ wanted_ids items;
        remote_posts = r.remote_posts ++ wanted_posts items;
      }
  unfolding push_local
  after_all-push_local id r items =
      rw
        (
          append_assoc r.refs (local_ref id ∷ []) (wanted_refs items (length r.remote_posts)),
          append_assoc r.local_ids (id ∷ []) (wanted_ids items),
        )
        refl

  after_all-push_post :
      (o : Option ℤ) (p : Post) (r : Refs) (items : List FeedItem)
      → after_all (push_post o p r) items ≡ record {
        refs = r.refs ++ ref_or o (length r.remote_posts) (wanted_refs items);
        local_ids = r.local_ids ++ id_or o (wanted_ids items);
        remote_posts = r.remote_posts ++ post_or o p (wanted_posts items);
      }
  unfolding push_post push_remote
  after_all-push_post (some id) p r items = after_all-push_local id r items
  after_all-push_post none p r items =
      let longer : length (r.remote_posts ++ p ∷ []) ≡ suc (length r.remote_posts) =
        omega (arith, length-append r.remote_posts (p ∷ [])) in
      rw
        (
          longer,
          append_assoc r.refs (remote_ref (length r.remote_posts) ∷ [])
              (wanted_refs items (suc (length r.remote_posts))),
          append_assoc r.remote_posts (p ∷ []) (wanted_posts items),
        )
        refl

  refs_of-after_all :
      (r : Refs) (items : List FeedItem) → refs_of resolved r items ≡ after_all r items
  unfolding refs_of
  refs_of-after_all r [] =
      rw (append-nil r.refs, append-nil r.local_ids, append-nil r.remote_posts) refl
  refs_of-after_all r (local id ∷ items) =
      refs_of-after_all (push_local id r) items ∙ after_all-push_local id r items
  refs_of-after_all r (remote p ∷ items) =
      refs_of-after_all (push_post (promotion p) p r) items
      ∙ after_all-push_post (promotion p) p r items

>>=-congr {ℓ μ κ} :
    {A : Type ℓ} {B : Type μ} {E : Type κ} (m : Outcome A E) (f g : A → Outcome B E)
    → ((a : A) → f a ≡ g a)
    → (m >>= f) ≡ (m >>= g)
>>=-congr (done a) f g h = h a
>>=-congr (failed e) f g h = refl
>>=-congr panicked f g h = refl

-- Removing a key that is below all keys changes nothing.
remove-enumerated {ℓ} :
    {A : Type ℓ} (k n : ℕ) (as_ : List A) → k < n → remove k (enumerated n as_) ≡ enumerated n as_
unfolding remove
remove-enumerated k n [] h = refl
remove-enumerated k n (a ∷ as_) h =
    let other : (n == k) ≡ false = ground arith in
    rw (other, remove-enumerated k (suc n) as_ (omega arith)) refl

module _ {F : Type 0} (local_by_id : Map ℤ (Status F)) (resolved : List (ProviderKey × ℤ))
    (entity : Post → Status F) where
  -- The status of an item: by its identifier, or made of the post.
  abbrev shown_post : Option ℤ → Post → Option (Status F)
  shown_post none p = some (entity p)
  shown_post (some id) p = get id local_by_id

  abbrev pub shown : FeedItem → Option (Status F)
  shown (local id) = get id local_by_id
  shown (remote p) = shown_post (promotion resolved p) p

  statuses_of-post :
      (o : Option ℤ) (p : Post) (n : ℕ) (posts : List Post) (refs : ℕ → List ItemRef)
      (rest : List (Status F))
      → ((k : ℕ) → statuses_of local_by_id (enumerated k (map entity posts)) (refs k) ≡ rest)
      → statuses_of local_by_id
          (enumerated n (map entity (post_or resolved o p posts)))
          (ref_or resolved o n refs)
        ≡ keep_some (shown_post o p) rest
  unfolding statuses_of get remove
  statuses_of-post (some id) p n posts refs rest h = ap (keep_some (get id local_by_id)) (h n)
  statuses_of-post none p n posts refs rest h =
      let same : (n == n) ≡ true = (==_iff n n).1 refl in
      let removed = remove-enumerated n (suc n) (map entity posts) (omega arith) in
      rw (same, removed) (ap (◌∷◌ (entity p)) (h (suc n)))

  statuses_of-shown :
      (items : List FeedItem) (n : ℕ)
      → statuses_of local_by_id
          (enumerated n (map entity (wanted_posts resolved items)))
          (wanted_refs resolved items n)
        ≡ filter_map shown items
  unfolding statuses_of
  statuses_of-shown [] n = refl
  statuses_of-shown (local id ∷ items) n =
      ap (keep_some (get id local_by_id)) (statuses_of-shown items n)
  statuses_of-shown (remote p ∷ items) n =
      statuses_of-post (promotion resolved p) p n (wanted_posts resolved items)
        (wanted_refs resolved items) (filter_map shown items) (statuses_of-shown items)

module _ {E F : Type 0} ⦃fl : Float F⦄ (db : Mappings E) (cleaner : Cleaner)
    (to_value : Post → Json) (instance_domain : String) where
  -- What a post that Mastodon does not know is shown as, by the rows that the posts are mapped to.
  abbrev pub entity_in : List Post → Post → Status F
  entity_in posts p = from_post cleaner p (
      status_id instance_domain
        (mapped_rows (db.map_posts (post_mappings to_value instance_domain posts))) (body p)
        (provider_key p))

  -- A page shows its items in their order, each at most once: an item of Mastodon's database, and a
  -- post that it knows, by the status that was fetched for its identifier, any other post by itself.
  -- Only the identifiers of the former are fetched, and the first failing query fails the page.
  pub to_statuses-shown :
      (fetch : List ℤ → Outcome (List (Status F)) E) (items : List FeedItem)
      → to_statuses db cleaner to_value instance_domain fetch items ≡ (
          db.find_mastodon_ids (provider_pairs items) >>= λ resolved.
          fetch (wanted_ids resolved items) >>= λ locals. done (
            filter_map
              (shown
                (collect_rows [] (keyed locals))
                resolved
                (entity_in (wanted_posts resolved items)))
              items))
  unfolding to_statuses from_posts
  to_statuses-shown fetch items =
      >>=-congr (db.find_mastodon_ids (provider_pairs items)) _ _ (λ resolved.
        let start : Refs = record { refs = []; local_ids = []; remote_posts = [] } in
        let read : refs_of resolved start items ≡ after_all resolved start items =
          refs_of-after_all resolved start items in
        rw read (
          >>=-congr (fetch (wanted_ids resolved items)) _ _ (λ locals. ap done (
            statuses_of-shown (collect_rows [] (keyed locals)) resolved
              (entity_in (wanted_posts resolved items)) items 0))))
