-- ===== src/Server/Home/Pages.antt =====
-- The pages of apps/server/src/feeds/home.rs against the user's seen set.
use mathlib.Core.Path.{subst}
use fediway.Prelude.{
  ◌≡◌, ◌≤◌, refl, ap, sym, ◌∙◌, Bool, true, false, some, String, List, map, contains,
  contains-empty, length-map, Bool-cases, inl, inr, length, is_empty, arith, All, All-map,
  >>=-eq-some,
}
use fediway.State.Cache.{Codec}
use fediway.State.Cache.Store.{Store, IsStore, RoundTrips}
use fediway.Server.Seen.{load, extend, cap}
use fediway.Server.Seen.Newest.{load-extend, extend-Works}
use fediway.Server.Home.{HomeFeed}
use fediway.Server.Home.Serve.{
  TimelineParams, Entry, Rendering, Response, is_reload, select, load_pool, choose_again, choose,
  serve, rendered,
}
use fediway.Server.Home.Steps.{
  some-pair, Unseen, All-select, length-select, SameSeen, load-Works, load_pool-SameSeen,
  choose_again-select,
}

apart : (b : Bool) {c : Bool} → (b ≡ true → c ≡ true) → c ≡ false → b ≡ false
apart b h k = ground arith

module _ {S F : Type 0} (st : Store S) (pool_codec : Codec (List Entry)) (instance_domain : String)
    (seen_codec : Codec (List String)) {Works : S → Type 0} (laws : IsStore st Works)
    (trips : (urls : List String) → RoundTrips seen_codec urls) where
  -- What `choose` yields is a selection by the seen set that the state held.
  choose-select :
      (home : HomeFeed F) (params : TimelineParams) (s s' : S) (chosen : List Entry)
      → Works s
      → choose st pool_codec instance_domain seen_codec home params s ≡ some (chosen, s')
      → (pool : List Entry) × (chosen ≡ select params (load st seen_codec home.user_id s).0 pool)
        × SameSeen st seen_codec Works home.user_id s s'
  unfolding choose
  choose-select home params s s' chosen w h =
      let ((old, s1), loaded, again) =
        >>=-eq-some (load_pool st pool_codec instance_domain home s) _ h in
      let (w1, seen1) =
        load_pool-SameSeen st pool_codec instance_domain seen_codec laws home s s1 old w loaded in
      let seen_set = (load st seen_codec home.user_id s1).0 in
      let kept : (load st seen_codec home.user_id s1).1 ≡ s1 =
        load-Works st seen_codec Works laws home.user_id s1 w1 in
      let from : choose_again st pool_codec instance_domain home params seen_set
            (select params seen_set old) s1
          ≡ some (chosen, s') =
        ap
          (choose_again st pool_codec instance_domain home params seen_set
            (select params seen_set old))
          (sym kept)
        ∙ again in
      let (pool, e, kept2) =
        choose_again-select st pool_codec instance_domain seen_codec laws home params seen_set _ old
          s1 s' chosen w1 refl from in
      (pool, e ∙ ap (λ u. select params u pool) seen1, (kept2.0, kept2.1 ∙ seen1))

  length-choose :
      (home : HomeFeed F) (params : TimelineParams) (s s' : S) (chosen : List Entry)
      → Works s
      → choose st pool_codec instance_domain seen_codec home params s ≡ some (chosen, s')
      → length chosen ≤ 40
  length-choose home params s s' chosen w h =
      let (pool, e, _) = choose-select home params s s' chosen w h in
      subst (λ es. length es ≤ 40) (sym e)
        (length-select params (load st seen_codec home.user_id s).0 pool)

  -- The page of a request for a next page (one with a `max_id`) has at most 40 entries, none of which
  -- is in the user's seen set.
  choose-Unseen :
      (home : HomeFeed F) (params : TimelineParams) (s s' : S) (chosen : List Entry)
      → Works s
      → is_reload params ≡ false
      → choose st pool_codec instance_domain seen_codec home params s ≡ some (chosen, s')
      → (length chosen ≤ 40) × All (Unseen (load st seen_codec home.user_id s).0) chosen
  choose-Unseen home params s s' chosen w next h =
      let seen_set = (load st seen_codec home.user_id s).0 in
      let (pool, e, _) = choose-select home params s s' chosen w h in
      (
        length-choose home params s s' chosen w h,
        subst (All (Unseen seen_set)) (sym e) (All-select params seen_set pool next),
      )

  module _ {Status E : Type 0} (rendering : Rendering Status E) where
    serve-extend :
        (home : HomeFeed F) (params : TimelineParams) (s s1 s' : S) (chosen : List Entry)
        (r : Response Status)
        → choose st pool_codec instance_domain seen_codec home params s ≡ some (chosen, s1)
        → serve st pool_codec instance_domain seen_codec rendering home params s ≡ some (r, s')
        → extend st seen_codec home.user_id (map (λ e. e.uri) chosen) s1 ≡ s'
    unfolding serve
    serve-extend home params s s1 s' chosen r c h =
        let ((picked, s0), c', e) =
          >>=-eq-some (choose st pool_codec instance_domain seen_codec home params s) _ h in
        let (same, same_state) = some-pair (sym c ∙ c') in
        let (_, _, rest) =
          >>=-eq-some (rendered (rendering.to_statuses (map (λ e. e.item) picked) home.user_id)) _
            e in
        ap (λ es. extend st seen_codec home.user_id (map (λ e. e.uri) es) s1) same
        ∙ ap (extend st seen_codec home.user_id (map (λ e. e.uri) picked)) same_state
        ∙ (some-pair rest).1

    -- Two pages in a row never show the same post: after a page was served, whether or not it could be
    -- rendered, the entries of the user's next page have none of its identities, unless the next request
    -- is a reload. Other requests of the user in between are not considered.
    pub serve-choose-Unseen :
        (home next : HomeFeed F) (params params' : TimelineParams) (s s1 s2 s3 : S)
        (page page' : List Entry) (r : Response Status)
        → Works s
        → next.user_id ≡ home.user_id
        → choose st pool_codec instance_domain seen_codec home params s ≡ some (page, s1)
        → serve st pool_codec instance_domain seen_codec rendering home params s ≡ some (r, s2)
        → choose st pool_codec instance_domain seen_codec next params' s2 ≡ some (page', s3)
        → is_reload params' ≡ false
        → All (Unseen (map (λ e. e.uri) page)) page'
    serve-choose-Unseen home next params params' s s1 s2 s3 page page' r w u c1 v c2 n =
        let uris = map (λ e. e.uri) page in
        let extended = serve-extend home params s s1 s2 page r c1 v in
        let (_, _, after) = choose-select home params s s1 page w c1 in
        let w2 : Works s2 =
          subst Works extended
            (extend-Works st seen_codec laws trips home.user_id uris s1 after.0) in
        let unseen = (choose-Unseen next params' s2 s3 page' w2 n c2).1 in
        let short : length uris ≤ cap =
          omega (arith, length-map (λ e. e.uri) page, length-choose home params s s1 page w c1) in
        elim (Bool-cases (is_empty uris)) [
          | inl e ↦ All-map (λ x _. contains-empty uris x.uri e) page' unseen
          | inr e ↦
              let there : (x : String)
                  → contains uris x ≡ true
                  → contains (load st seen_codec next.user_id s2).0 x ≡ true =
                λ x k.
                  ap (λ i. contains (load st seen_codec i s2).0 x) u
                  ∙ ap (λ t. contains (load st seen_codec home.user_id t).0 x) (sym extended)
                  ∙ (load-extend st seen_codec laws trips home.user_id uris x s1 after.0 e short
                      k).0 in
              All-map (λ x k. apart (contains uris x.uri) (there x.uri) k) page' unseen
        ]
