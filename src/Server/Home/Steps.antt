-- ===== src/Server/Home/Steps.antt =====
-- The selection of a page in apps/server/src/feeds/home.rs, and what the steps before it leave of the
-- cache.
use text.Mathlib.TextLemmas.{append_cancel_left, append_assoc, head-eq_of_cons-eq}
use Prim.Native.Char.{Char, char, code}
use Prim.Native.String.append
use mathlib.Core.Path.{subst}
use mathlib.Core.Option
use fediway.Prelude.{
  ℕ, zero, suc, ◌≡◌, ◌≢◌, ◌≤◌, refl, ap, sym, ◌∙◌, Bool, true, false, Option, none, some, String,
  ◌<>◌, display, List, [], ◌∷◌, take, filter, contains, length, length-take, arith, All, All-filter,
  All-map, >>=-eq-some,
}
use fediway.Prelude.Int.{ℤ}
use fediway.State.Cache.{Codec}
use fediway.State.Cache.Store.{Store, IsStore}
use fediway.Server.Seen.{seen_key, load}
use fediway.Server.Home.{HomeFeed, collect}
use fediway.Server.Home.Serve.{
  TimelineParams, Entry, cache_key, page_limit, is_reload, keep, select, rebuild_pool, use_pool,
  load_pool, choose_again,
}

abbrev colon : Char
colon = char 58 tt

abbrev underscore : Char
underscore = char 95 tt

cache_key-ne-seen_key : (u v : ℤ) → cache_key u ≢ seen_key v
unfolding cache_key seen_key
cache_key-ne-seen_key u v h =
    let tails : ":" <> display u ≡ "_seen:" <> display v =
      append_cancel_left "home" (":" <> display u) ("_seen:" <> display v) (
        sym (append_assoc "home" ":" (display u)) ∙ h ∙ append_assoc "home" "_seen:" (display v)) in
    let heads = head-eq_of_cons-eq (
      sym (append.cons colon String.[] (display u))
      ∙ tails
      ∙ append.cons underscore "seen:" (display v)) in
    let codes : ◌≡◌ {A = ℕ} 58 95 = ap code heads in omega arith

apart : (b : Bool) {c : Bool} → (b ≡ true → c ≡ true) → c ≡ false → b ≡ false
apart b h k = ground arith

pub some-pair :
    {A B : Type 0} {a c : A} {b d : B}
    → ◌≡◌ {A = Option (A × B)} (some (a, b)) (some (c, d))
    → (a ≡ c) × (b ≡ d)
some-pair {A} {B} {a} {c} {b} {d} h =
    let same : ◌≡◌ {A = A × B} (a, b) (c, d) = cc in (ap (λ p. p.0) same, ap (λ p. p.1) same)

All-take {ℓ κ} : {A : Type ℓ} (P : A → Type κ) (n : ℕ) (xs : List A) → All P xs → All P (take n xs)
All-take P zero xs h = tt
All-take P (suc n) [] h = tt
All-take P (suc n) (x ∷ xs) h = (h.0, All-take P n xs h.1)

All-true {ℓ} : {A : Type ℓ} (xs : List A) → All (λ _. Unit {0}) xs
All-true [] = tt
All-true (x ∷ xs) = (tt, All-true xs)

pub keep-unseen :
    (seen_set : List String) (e : Entry)
    → keep false seen_set e ≡ true
    → contains seen_set e.uri ≡ false
unfolding keep
keep-unseen seen_set e h = ground arith

abbrev pub Unseen : List String → Entry → Type 0
Unseen seen_set e = contains seen_set e.uri ≡ false

pub All-select :
    (params : TimelineParams) (seen_set : List String) (pool : List Entry)
    → is_reload params ≡ false
    → All (Unseen seen_set) (select params seen_set pool)
All-select params seen_set pool h =
    let kept = All-filter (λ _. Unit {0}) (keep (is_reload params) seen_set) pool (All-true pool) in
    All-take (Unseen seen_set) (page_limit params) _
      (All-map (λ e q. keep-unseen seen_set e (sym (ap (λ b. keep b seen_set e) h) ∙ q.1)) _ kept)

pub length-select :
    (params : TimelineParams) (seen_set : List String) (pool : List Entry)
    → length (select params seen_set pool) ≤ 40
length-select params seen_set pool =
    omega (arith, length-take (page_limit params) (filter (keep (is_reload params) seen_set) pool))

module _ {S : Type 0} (st : Store S) (seen_codec : Codec (List String)) (Works : S → Type 0) where
  -- A step on the cache that keeps it usable and leaves the seen set of one user as it is.
  abbrev pub SameSeen : ℤ → S → S → Type 0
  SameSeen user_id s s' =
      Works s' × ((load st seen_codec user_id s').0 ≡ (load st seen_codec user_id s).0)

  pub load-Works :
      IsStore st Works → (user_id : ℤ) (s : S) → Works s → (load st seen_codec user_id s).1 ≡ s
  unfolding load
  load-Works laws user_id s w = laws.get-Works seen_codec (seen_key user_id) s w

module _ {S F : Type 0} (st : Store S) (pool_codec : Codec (List Entry)) (instance_domain : String)
    (seen_codec : Codec (List String)) {Works : S → Type 0} (laws : IsStore st Works) where
  rebuild_pool-SameSeen :
      (home : HomeFeed F) (s s' : S) (pool : List Entry)
      → Works s
      → rebuild_pool st pool_codec instance_domain home s ≡ some (pool, s')
      → SameSeen st seen_codec Works home.user_id s s'
  unfolding rebuild_pool load
  rebuild_pool-SameSeen home s s' pool w h =
      let (items, _, e) = >>=-eq-some (collect home) _ h in
      let same : st.set pool_codec (cache_key home.user_id) _ _ s ≡ s' = (some-pair e).1 in
      subst (SameSeen st seen_codec Works home.user_id s) same (
        laws.set-Works pool_codec _ _ _ s w,
        ap (λ o. Option.get_or o [])
            (laws.get-set-other pool_codec seen_codec _ _ _ _ s w
              (cache_key-ne-seen_key home.user_id home.user_id)),
      )

  use_pool-SameSeen :
      (cached : Option (List Entry)) (home : HomeFeed F) (s s' : S) (pool : List Entry)
      → Works s
      → use_pool st pool_codec instance_domain cached home s ≡ some (pool, s')
      → SameSeen st seen_codec Works home.user_id s s'
  unfolding use_pool
  use_pool-SameSeen none home s s' pool w h = rebuild_pool-SameSeen home s s' pool w h
  use_pool-SameSeen (some []) home s s' pool w h = rebuild_pool-SameSeen home s s' pool w h
  use_pool-SameSeen (some (e ∷ es)) home s s' pool w h =
      let same : s ≡ s' = (some-pair h).1 in
      subst (SameSeen st seen_codec Works home.user_id s) same (w, refl)

  pub load_pool-SameSeen :
      (home : HomeFeed F) (s s' : S) (pool : List Entry)
      → Works s
      → load_pool st pool_codec instance_domain home s ≡ some (pool, s')
      → SameSeen st seen_codec Works home.user_id s s'
  unfolding load_pool
  load_pool-SameSeen home s s' pool w h =
      let same = laws.get-Works pool_codec (cache_key home.user_id) s w in
      use_pool-SameSeen (st.get pool_codec (cache_key home.user_id) s).0 home s s' pool w (
        ap
          (λ t.
            use_pool st pool_codec instance_domain (st.get pool_codec (cache_key home.user_id) s).0
              home t)
          (sym same)
        ∙ h)

  -- The page is a selection by the seen set, from the cached pool or from the one built again.
  pub choose_again-select :
      (home : HomeFeed F) (params : TimelineParams) (seen_set : List String)
      (first old : List Entry) (s s' : S) (chosen : List Entry)
      → Works s
      → first ≡ select params seen_set old
      → choose_again st pool_codec instance_domain home params seen_set first s ≡ some (chosen, s')
      → (pool : List Entry) × (chosen ≡ select params seen_set pool)
        × SameSeen st seen_codec Works home.user_id s s'
  unfolding choose_again
  choose_again-select home params seen_set [] old s s' chosen w _ h =
      let ((pool, after), built, e) =
        >>=-eq-some (rebuild_pool st pool_codec instance_domain home s) _ h in
      let (chose, left) = some-pair e in
      (
        pool,
        sym chose,
        rebuild_pool-SameSeen home s s' pool w (built ∙ ap (λ t. some (pool, t)) left),
      )
  choose_again-select home params seen_set (x ∷ xs) old s s' chosen w e h =
      let (chose, left) = some-pair h in
      (old, sym chose ∙ e, subst (SameSeen st seen_codec Works home.user_id s) left (w, refl))
