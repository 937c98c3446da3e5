-- ===== src/Tests/Timelines.antt =====
-- A trend feed whose pages are followed, and the two timelines of a viewer who blocks an account.
use fediway.Prelude.{ℕ, zero, suc, ◌<◌, ◌≡◌, refl, [], ◌∷◌, none, some, String, arith}
use fediway.Prelude.Int.{pos}
use fediway.Prelude.Signed.{codes}
use fediway.Prelude.Map
use fediway.Common.Types.{Post}
use fediway.Feed.Pipeline.{Source}
use fediway.State.Cache.{get, set, in_memory}
use fediway.State.Cache.Store.{InMemory, cache_store, cache_store-IsStore}
use fediway.Sources.CommonFeed.Types.{no_filters}
use fediway.Sources.CommonFeed.Fetch.{network_error}
use fediway.Server.Trends.{TrendFeed}
use fediway.Server.Trends.Follow.{follow, follow-serve_page}
use fediway.Server.Timelines.{Inputs, timeline_policy, link_timeline, tag_timeline}
use fediway.Server.Timelines.Allowed.{IsAllowed, collect-timelines}
use fediway.Tests.Scores.{hundredths}
use fediway.Tests.Texts.{texts, texts-RoundTrips}
use fediway.Tests.Caching.{down, fresh}
use fediway.Tests.Home.{note, candidate}

program : Unit {0}
unfolding get set Map.get in_memory
program = tt

abbrev tags : TrendFeed String String
tags = record {
  cache_key = "trends:tags:*";
  path = codes "/api/v1/trends/tags";
  collect = some ("a" ∷ "b" ∷ "c" ∷ []);
  rebuild = some ("d" ∷ []);
  map = λ names. names;
}

-- The client asks for one item, and then for the default of 20.
abbrev limits : ℕ → ℕ
limits zero = 1
limits (suc n) = 20

limits_positive : (n : ℕ) → 0 < limits n
limits_positive zero = omega arith
limits_positive (suc n) = omega arith

follow-serve_page_example :
    follow (cache_store down) texts tags 4 none limits fresh ≡ some ("a" ∷ "b" ∷ "c" ∷ [])
unfolding program
follow-serve_page_example =
    follow-serve_page (cache_store down) texts tags (InMemory down) (cache_store-IsStore down) fresh
      ("a" ∷ "b" ∷ "c" ∷ []) limits ([], refl) (texts-RoundTrips ("a" ∷ "b" ∷ "c" ∷ [])) refl refl
      limits_positive (omega arith)

abbrev posts : Source Post ℕ
posts = record {
  name = "mastodon/native_tag";
  collect = λ limit. candidate (note "1" "bob@b.net") ∷ candidate (note "2" "eve@b.net") ∷ [];
}

abbrev viewed : Inputs ℕ
viewed = record {
  viewer = some (record {
    id = pos 7;
    policy =
        some
          (record { blocked_handles = "eve@b.net" ∷ []; muted_handles = []; blocked_domains = [] });
  });
  bound = none;
  send = λ _. network_error;
}

collect-timelines_example :
    IsAllowed (timeline_policy viewed.viewer) (link_timeline viewed no_filters "https://b.net")
    × IsAllowed (timeline_policy viewed.viewer) (tag_timeline viewed posts posts no_filters "rust")
collect-timelines_example = collect-timelines viewed posts posts no_filters "https://b.net" "rust"
