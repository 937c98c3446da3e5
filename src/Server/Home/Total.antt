-- ===== src/Server/Home/Total.antt =====
-- The results of `serve` in apps/server/src/feeds/home.rs.
use fediway.Prelude.{
  ◌≡◌, refl, Option, none, some, String, List, [], ◌∷◌, ◌>>=◌, map, inl, inr, ◌⊎◌,
}
use fediway.Prelude.Float.{Float}
use fediway.State.Cache.{Codec}
use fediway.State.Cache.Store.{Store}
use fediway.State.Detail.Fetch.{Outcome, done, failed, panicked}
use fediway.Server.Seen.{load}
use fediway.Server.Home.{Inputs, HomeFeed, new, collect}
use fediway.Server.Home.Ranked.{collect-new}
use fediway.Server.Home.Serve.{
  TimelineParams, Entry, Rendering, select, cache_key, rebuild_pool, use_pool, load_pool,
  choose_again, choose, serve,
}

-- A result is there.
abbrev pub IsSome {ℓ} : {A : Type ℓ} → Option A → Type ℓ
IsSome {A} o = (a : A) × (o ≡ some a)

bind_total {ℓ κ} :
    {A : Type ℓ} {B : Type κ} (o : Option A) (f : A → Option B)
    → IsSome o
    → ((a : A) → IsSome (f a))
    → IsSome (o >>= f)
bind_total o f (a, e) h = rw e (h a)

module _ {S F : Type 0} (st : Store S) (pool_codec : Codec (List Entry)) (instance_domain : String)
    (home : HomeFeed F) (ranks : IsSome (collect home)) where
  rebuild_pool_total : (s : S) → IsSome (rebuild_pool st pool_codec instance_domain home s)
  unfolding rebuild_pool
  rebuild_pool_total s = bind_total (collect home) _ ranks (λ items. (_, refl))

  use_pool_total :
      (cached : Option (List Entry)) (s : S)
      → IsSome (use_pool st pool_codec instance_domain cached home s)
  unfolding use_pool
  use_pool_total none s = rebuild_pool_total s
  use_pool_total (some []) s = rebuild_pool_total s
  use_pool_total (some (e ∷ es)) s = (_, refl)

  choose_again_total :
      (params : TimelineParams) (seen_set : List String) (first : List Entry) (s : S)
      → IsSome (choose_again st pool_codec instance_domain home params seen_set first s)
  unfolding choose_again
  choose_again_total params seen_set [] s =
      bind_total (rebuild_pool st pool_codec instance_domain home s) _ (rebuild_pool_total s)
        (λ _. (_, refl))
  choose_again_total params seen_set (e ∷ es) s = (_, refl)

  choose_total :
      (seen_codec : Codec (List String)) (params : TimelineParams) (s : S)
      → IsSome (choose st pool_codec instance_domain seen_codec home params s)
  unfolding choose load_pool
  choose_total seen_codec params s =
      bind_total _ _
        (use_pool_total (st.get pool_codec (cache_key home.user_id) s).0
          (st.get pool_codec (cache_key home.user_id) s).1)
        (λ p.
          choose_again_total params (load st seen_codec home.user_id p.1).0
            (select params (load st seen_codec home.user_id p.1).0 p.0)
            (load st seen_codec home.user_id p.1).1)

module _ {S F Status E : Type 0} ⦃fl : Float F⦄ (st : Store S) (pool_codec : Codec (List Entry))
    (instance_domain : String) (seen_codec : Codec (List String)) (rendering : Rendering Status E)
    (i : Inputs F) (params : TimelineParams) (s : S) where
  -- The entries of the page are chosen, and their rendering panics.
  abbrev pub FailsToRender : Type 0
  FailsToRender =
      (chosen : List Entry) × (after : S) × (choose st pool_codec instance_domain seen_codec (new i)
          params s
        ≡ some (chosen, after))
      × (rendering.to_statuses (map (λ e. e.item) chosen) (new i).user_id ≡ panicked)

  serve_rendered :
      (chosen : List Entry) (after : S) (outcome : Outcome (List Status) E)
      → choose st pool_codec instance_domain seen_codec (new i) params s ≡ some (chosen, after)
      → rendering.to_statuses (map (λ e. e.item) chosen) (new i).user_id ≡ outcome
      → IsSome (serve st pool_codec instance_domain seen_codec rendering (new i) params s)
        ⊎ FailsToRender
  unfolding serve
  serve_rendered chosen after (done statuses) run e = inl (rw (run, e) (_, refl))
  serve_rendered chosen after (failed x) run e = inl (rw (run, e) (_, refl))
  serve_rendered chosen after panicked run e = inr (chosen, after, run, e)

  -- A request for a page of the home feed chooses the entries of the page in every state of the cache
  -- and whatever the sources yield, and is answered unless the rendering of these entries panics.
  pub serve-new_total :
      IsSome (choose st pool_codec instance_domain seen_codec (new i) params s)
      × (IsSome (serve st pool_codec instance_domain seen_codec rendering (new i) params s)
          ⊎ FailsToRender)
  serve-new_total =
      let ranked = collect-new i in
      let ((chosen, after), run) =
        choose_total st pool_codec instance_domain (new i) (ranked.0, ranked.1) seen_codec params
          s in
      (((chosen, after), run), serve_rendered chosen after _ run refl)
