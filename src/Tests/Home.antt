-- ===== src/Tests/Home.antt =====
-- The home feed of one user over the memory cache, with posts from the network.
use mathlib.Core.Option
use fediway.Prelude.{
  ◌⊎◌, ℕ, ◌≡◌, ◌≤◌, refl, true, false, none, some, inl, String, List, [], ◌∷◌, map, length, take,
  contains, All, arith,
}
use fediway.Prelude.Int.{pos}
use fediway.Prelude.Map
use fediway.Prelude.Perms.{Holds, AtMostOne}
use fediway.Prelude.Sort.{sort_by}
use fediway.Prelude.Maxima.{enumerate_from, max_by}
use fediway.Common.Types.{Post, post, no_post, Author}
use fediway.Feed.Candidate.{Candidate}
use fediway.Feed.Filter.{dedup}
use fediway.Feed.Pipeline.{execute}
use fediway.Feed.Sampler.{sample}
use fediway.State.Cache.{Codec, in_memory, Session, get, set}
use fediway.State.Cache.Store.{cache_store, cache_store-IsStore}
use fediway.State.Policy.{UserPolicy, row_handle}
use fediway.State.Policy
use fediway.Sources.PolicyFilter
use fediway.Sources.PolicyFilter.{PolicyFilter, allows, apply, trim_ats, last_part, has_at}
use fediway.Sources.PolicyFilter.Blocks.{kept, allows-load}
use fediway.Server.Seen.{load, extend, cap}
use fediway.Server.Seen.Newest.{load-extend}
use fediway.Server.Home.{Inputs, HomeFeed, pool_size, policy_of}
use fediway.Server.Home
use fediway.Server.Home.Ranked.{home_policy, has_identity, collect-new}
use fediway.Server.Home.Serve.{TimelineParams, Entry, Rendering, choose, serve}
use fediway.Server.Home.Steps.{Unseen}
use fediway.Server.Home.Pages.{serve-choose-Unseen}
use fediway.State.Detail.Fetch.{done}
use fediway.Server.Home.Total.{IsSome, FailsToRender, serve-new_total}
use fediway.Tests.Scores.{hundredths}
use fediway.Tests.Texts.{texts, texts-RoundTrips, write_texts, read_texts}
use fediway.Tests.Caching.{down}

abbrev author : String → Author
author handle = record {
  handle = handle;
  display_name = handle;
  url = "";
  avatar_url = none;
  header_url = none;
  emojis = [];
}

abbrev pub note : String → String → Post
note uri handle =
    post
      (record {
        provider_id = none;
        provider_domain = none;
        url = "";
        uri = some uri;
        content = "";
        text = "";
        author = author handle;
        published_at = pos 0;
        language = none;
        sensitive = false;
        content_warning = none;
        media = [];
        engagement = record { replies = 0; reposts = 0; likes = 0 };
        link = none;
        tags = [];
        emojis = [];
      })
      no_post no_post

abbrev pub candidate : Post → Candidate Post ℕ
candidate p = record { item = p; score = 100; source = "db"; group = "network" }

abbrev spam : PolicyFilter
spam = record {
  policy = record {
    blocked_handles = [];
    muted_handles = "eve@b.net" ∷ [];
    blocked_domains = "c.org" ∷ [];
  };
  apply_mutes = true;
}

arrivals : List (Candidate Post ℕ)
arrivals =
    candidate (note "1" "bob@b.net")
    ∷ candidate (note "2" "@eve@b.net")
    ∷ candidate (note "3" "dan@c.org")
    ∷ candidate (note "1" "bob@b.net")
    ∷ []

program : Unit {0}
unfolding arrivals get set in_memory Map.get Map.insert allows apply PolicyFilter.new contains
    has_at trim_ats Policy.load load extend choose serve Home.new Home.collect execute sample
    sort_by dedup enumerate_from max_by write_texts read_texts
program = tt

allows_run : map (λ c. allows spam c.item) arrivals ≡ true ∷ false ∷ false ∷ true ∷ []
unfolding program
allows_run = refl

abbrev loaded : UserPolicy
loaded = record {
  blocked_handles = "bob@a.com" ∷ [];
  muted_handles = "eve@b.net" ∷ [];
  blocked_domains = [];
}

allows-load_example : allows (PolicyFilter.new loaded) (note "2" "@bob@a.com") ≡ false
unfolding program
allows-load_example =
    allows-load (("bob", none) ∷ []) (("eve", some "b.net") ∷ []) [] "a.com" loaded
      (note "2" "@bob@a.com") "bob" none refl (inl (inl refl)) refl (1, refl)

abbrev start : Session ℕ
start = record { cache = in_memory; world = 0 }

load-extend_example :
    (contains
        (load
          (cache_store down)
          texts
          (pos 7)
          (extend (cache_store down) texts (pos 7) ("x" ∷ "y" ∷ []) start)).0
        "y"
      ≡ true)
    × (length
          (load
            (cache_store down)
            texts
            (pos 7)
            (extend (cache_store down) texts (pos 7) ("x" ∷ "y" ∷ []) start)).0
        ≤ cap)
unfolding program
load-extend_example =
    load-extend (cache_store down) texts (cache_store-IsStore down) texts-RoundTrips (pos 7)
      ("x" ∷ "y" ∷ []) "y" start ([], refl) refl (omega arith) refl

-- The rows of the pool are not cached: the pool is ranked anew for each page.
abbrev uncached : Codec (List Entry)
uncached = record { to_string = λ _. none; from_str = λ _. none }

abbrev inputs : Inputs ℕ
inputs = record {
  account = record { id = pos 7 };
  has_vector = false;
  policy = some spam.policy;
  network = record {
    name = "network";
    collect = λ limit. take limit (candidate (note "4" "ann@b.net") ∷ arrivals);
  };
  trending = none;
  recommended = none;
}

abbrev feed : HomeFeed ℕ
feed = Home.new inputs

pool_run : Option.map (map (λ c. Home.identity c.item)) (Home.collect feed) ≡ some ("1" ∷ "4" ∷ [])
unfolding program
pool_run = refl

collect-new_example :
    (items : List (Candidate Post ℕ)) × (Home.collect feed ≡ some items)
    × (length items ≤ pool_size)
    × ((k : String) → AtMostOne (has_identity inputs k) items)
    × Holds (kept (home_policy inputs)) items
collect-new_example = collect-new inputs

abbrev one : TimelineParams
one = record { limit = 1; max_id = none; min_id = none; since_id = none }

abbrev more : TimelineParams
more = record one { max_id = some "9" }

-- Every item is rendered as the text of its place.
abbrev plainly : Rendering String String
plainly = record {
  to_statuses = λ items _. done (map (λ _. "status") items);
  status_id = λ s. s;
  header_value = λ v. some v;
}

first_page : IsSome (choose (cache_store down) uncached "a.com" texts feed one start)
unfolding program
first_page = (_, refl)

first_served : IsSome (serve (cache_store down) uncached "a.com" texts plainly feed one start)
unfolding program
first_served = (_, refl)

second_page : IsSome (choose (cache_store down) uncached "a.com" texts feed more first_served.0.1)
unfolding program first_served
second_page = (_, refl)

pages_run :
    (map (λ e. e.uri) first_page.0.0 ≡ "1" ∷ []) × (map (λ e. e.uri) second_page.0.0 ≡ "4" ∷ [])
unfolding program first_page first_served second_page
pages_run = (refl, refl)

serve-choose-Unseen_example : All (Unseen (map (λ e. e.uri) first_page.0.0)) second_page.0.0
unfolding program
serve-choose-Unseen_example =
    serve-choose-Unseen (cache_store down) uncached "a.com" texts (cache_store-IsStore down)
      texts-RoundTrips plainly feed feed one more start first_page.0.1 first_served.0.1
      second_page.0.1 first_page.0.0 second_page.0.0 first_served.0.0 ([], refl) refl first_page.1
      first_served.1 second_page.1 refl

serve-new_total_example :
    IsSome (choose (cache_store down) uncached "a.com" texts feed one start)
    × (IsSome (serve (cache_store down) uncached "a.com" texts plainly feed one start)
        ⊎ FailsToRender (cache_store down) uncached "a.com" texts plainly inputs one start)
serve-new_total_example =
    serve-new_total (cache_store down) uncached "a.com" texts plainly inputs one start
