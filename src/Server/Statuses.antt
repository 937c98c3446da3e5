-- ===== src/Server/Statuses.antt =====
-- `to_statuses` and `from_posts` of apps/server/src/mastodon/statuses.rs: the items of a page as the
-- statuses of the response. The queries of crates/state are parameters; the two futures of `join!` are
-- run one after the other.
pub mod Order
use mathlib.Core.Option
use fediway.Prelude.{
  ℕ, suc, Bool, ◌&&◌, List, [], ◌∷◌, ◌++◌, Option, none, some, String, str_eq, length, map,
  if◌then◌else◌,
}
use fediway.Prelude.Int.{ℤ}
use fediway.Prelude.Signed.{codes, to_text}
use fediway.Prelude.Float.{Float}
use fediway.Prelude.Result.{Result, ok, err}
use fediway.Prelude.Map.{Map, get, remove, eq_ℤ, ℕ_eq, ℤ_eq}
use fediway.Common.Types.{Content, Post, body}
use fediway.Sources.CommonFeed.Posts.{keep_some}
use fediway.Sources.FeedItem.{FeedItem, local, remote}
use fediway.Server.Api.Json.{Json}
use fediway.Format.Characters.{Text}
use fediway.Format.Remote.{Cleaner}
use fediway.Entities.Types.{Status}
use fediway.Entities.FromPost.{from_post}
use fediway.State.Detail.Fetch.{Outcome, done, failed, panicked, ◌>>=◌, collect_rows, keyed}

-- A provider's domain and its identifier of a post.
abbrev pub ProviderKey : Type 0
ProviderKey = String × ℤ

abbrev key_eq : ProviderKey → ProviderKey → Bool
key_eq (d, i) (e, j) = str_eq d e && eq_ℤ i j

abbrev pub later {ℓ} : {A : Type ℓ} → Option A → Option A → Option A
later none first = first
later (some a) first = some a

-- A look-up in the map that the rows are collected into: the last row of a key counts.
abbrev pub find_key {ℓ} : {A : Type ℓ} → ProviderKey → List (ProviderKey × A) → Option A
find_key k [] = none
find_key k ((j, a) ∷ rows) = later (find_key k rows) (if key_eq j k then some a else none)

abbrev both : Option String → Option ℤ → Option ProviderKey
both (some d) (some i) = some (d, i)
both (some d) none = none
both none i = none

abbrev pub provider_key : Post → Option ProviderKey
provider_key p = both (body p).provider_domain (body p).provider_id

-- `PostMapping`
pub record PostMapping : Type 0 where
  pub provider_domain : String
  pub remote_id : ℤ
  pub post_url : String
  pub post_uri : String
  pub post_data : Json

-- What the database answers: rows of keys with identifiers.
pub record Mappings (E : Type 0) : Type 0 where
  pub find_mastodon_ids : List ProviderKey → Outcome (List (ProviderKey × ℤ)) E
  pub map_posts : List PostMapping → Result (List (ProviderKey × ℤ)) E

-- `serde_json::to_value` of a post is a parameter.
mapping_of : (Post → Json) → String → Post → Option ProviderKey → Option PostMapping
mapping_of to_value instance_domain p none = none
mapping_of to_value instance_domain p (some (domain, remote_id)) =
    if str_eq domain instance_domain
    then none
    else some (record {
      provider_domain = domain;
      remote_id = remote_id;
      post_url = (body p).url;
      post_uri = Option.get_or (body p).uri (body p).url;
      post_data = to_value p;
    })

pub post_mappings : (Post → Json) → String → List Post → List PostMapping
unfolding mapping_of
post_mappings to_value instance_domain [] = []
post_mappings to_value instance_domain (p ∷ ps) =
    keep_some (mapping_of to_value instance_domain p (provider_key p))
      (post_mappings to_value instance_domain ps)

-- `unwrap_or_else`: a failed query maps nothing.
abbrev pub mapped_rows : {E : Type 0} → Result (List (ProviderKey × ℤ)) E → List (ProviderKey × ℤ)
mapped_rows (ok rows) = rows
mapped_rows (err e) = []

unfoldable pub status_id : String → List (ProviderKey × ℤ) → Content → Option ProviderKey → Text
status_id instance_domain id_map p none = codes p.url
status_id instance_domain id_map p (some (domain, id)) =
    if str_eq domain instance_domain
    then to_text id
    else Option.get_or (Option.map to_text (find_key (domain, id) id_map)) (codes p.url)

-- `enum ItemRef`
pub data ItemRef : Type 0 where
  local_ref : ℤ → ItemRef
  remote_ref : ℕ → ItemRef

-- `refs`, `local_ids` and `remote_posts`
pub record Refs : Type 0 where
  pub refs : List ItemRef
  pub local_ids : List ℤ
  pub remote_posts : List Post

push_local : ℤ → Refs → Refs
push_local id r = record r {
  refs = r.refs ++ local_ref id ∷ [];
  local_ids = r.local_ids ++ id ∷ [];
}

push_remote : Post → Refs → Refs
push_remote p r = record r {
  refs = r.refs ++ remote_ref (length r.remote_posts) ∷ [];
  remote_posts = r.remote_posts ++ p ∷ [];
}

abbrev pub promoted : List (ProviderKey × ℤ) → Option ProviderKey → Option ℤ
promoted resolved none = none
promoted resolved (some key) = find_key key resolved

push_post : Option ℤ → Post → Refs → Refs
unfolding push_local push_remote
push_post (some mastodon_id) p r = push_local mastodon_id r
push_post none p r = push_remote p r

refs_of : List (ProviderKey × ℤ) → Refs → List FeedItem → Refs
unfolding push_post push_local
refs_of resolved r [] = r
refs_of resolved r (local id ∷ items) = refs_of resolved (push_local id r) items
refs_of resolved r (remote p ∷ items) =
    refs_of resolved (push_post (promoted resolved (provider_key p)) p r) items

abbrev pub provider_pairs : List FeedItem → List ProviderKey
provider_pairs [] = []
provider_pairs (local id ∷ items) = provider_pairs items
provider_pairs (remote p ∷ items) = keep_some (provider_key p) (provider_pairs items)

-- `into_iter().enumerate().collect()`: the keys are distinct.
abbrev pub enumerated {ℓ} : {A : Type ℓ} → ℕ → List A → Map ℕ A
enumerated n [] = []
enumerated n (a ∷ as_) = (n, a) ∷ enumerated (suc n) as_

module _ {F : Type 0} where
  -- The last loop: a status that was not found is left out, and a remote one is taken out of the map.
  statuses_of : Map ℤ (Status F) → Map ℕ (Status F) → List ItemRef → List (Status F)
  statuses_of local_by_id remote_by_idx [] = []
  statuses_of local_by_id remote_by_idx (local_ref id ∷ refs) =
      keep_some (get id local_by_id) (statuses_of local_by_id remote_by_idx refs)
  statuses_of local_by_id remote_by_idx (remote_ref idx ∷ refs) =
      keep_some (get idx remote_by_idx) (statuses_of local_by_id (remove idx remote_by_idx) refs)

module _ {E F : Type 0} ⦃fl : Float F⦄ (db : Mappings E) (cleaner : Cleaner)
    (to_value : Post → Json) (instance_domain : String) where
  unfoldable pub from_posts : List Post → List (Status F)
  unfolding post_mappings status_id
  from_posts posts =
      let id_map = mapped_rows (db.map_posts (post_mappings to_value instance_domain posts)) in
      map (λ p. from_post cleaner p (status_id instance_domain id_map (body p) (provider_key p)))
        posts

  -- `fetch` is `fetch_by_ids` for the instance and the viewer.
  unfoldable pub to_statuses :
      (List ℤ → Outcome (List (Status F)) E) → List FeedItem → Outcome (List (Status F)) E
  unfolding refs_of statuses_of
  to_statuses fetch items = db.find_mastodon_ids (provider_pairs items) >>= λ resolved.
      let r = refs_of resolved (record { refs = []; local_ids = []; remote_posts = [] }) items in
      fetch r.local_ids >>= λ local_statuses. done (
        statuses_of (collect_rows [] (keyed local_statuses))
          (enumerated 0 (from_posts r.remote_posts)) r.refs)
