-- ===== src/Server/Seen/Newest.antt =====
-- What apps/server/src/feeds/seen.rs keeps.
use fediway.Prelude.{
  ℕ, zero, suc, ◌-◌, ◌≡◌, ◌≤◌, ap, sym, ◌∙◌, inl, inr, true, false, String, List, [], ◌∷◌, ◌++◌,
  length, drop, ltb, contains, is_empty, arith, Bool-cases, length-append, length-drop,
}
use mathlib.Core.Path.{subst}
use mathlib.Core.Option
use fediway.Prelude.Int.{ℤ}
use fediway.State.Cache.{Codec}
use fediway.State.Cache.Store.{Store, IsStore, RoundTrips}
use fediway.Server.Seen.{cap, seen_ttl, seen_key, keep_newest, load, extend}

length-keep_newest : (urls : List String) → length (keep_newest urls) ≤ cap
length-keep_newest urls = ground (arith, length-drop (length urls - cap) urls)

contains-append :
    (xs ys : List String) (u : String) → contains ys u ≡ true → contains (xs ++ ys) u ≡ true
unfolding contains
contains-append [] ys u h = h
contains-append (x ∷ xs) ys u h = rw (contains-append xs ys u h) ground arith

contains-drop :
    (n : ℕ) (xs ys : List String) (u : String)
    → n ≤ length xs
    → contains ys u ≡ true
    → contains (drop n (xs ++ ys)) u ≡ true
unfolding contains
contains-drop zero xs ys u h k = contains-append xs ys u k
contains-drop (suc n) [] ys u h k = elim h [ ]
contains-drop (suc n) (x ∷ xs) ys u h k = contains-drop n xs ys u (omega arith) k

-- What was appended stays, if it is within the capacity.
contains-keep_newest :
    (old new : List String) (u : String)
    → length new ≤ cap
    → contains new u ≡ true
    → contains (keep_newest (old ++ new)) u ≡ true
contains-keep_newest old new u h k = elim (Bool-cases (ltb cap (length (old ++ new)))) [
  | inl e ↦
      rw e (
        contains-drop (length (old ++ new) - cap) old new u (omega (arith, length-append old new))
          k)
  | inr e ↦ rw e (contains-append old new u k)
]

module _ {S : Type 0} (st : Store S) (codec : Codec (List String)) {Works : S → Type 0}
    (laws : IsStore st Works) (trips : (urls : List String) → RoundTrips codec urls) where
  load-extend_nonempty :
      (user_id : ℤ) (new : List String) (s : S)
      → Works s
      → is_empty new ≡ false
      → (load st codec user_id (extend st codec user_id new s)).0
        ≡ keep_newest ((load st codec user_id s).0 ++ new)
  unfolding load extend
  load-extend_nonempty user_id new s w h =
      let key = seen_key user_id in
      let after = (st.get codec key s).1 in
      let urls = keep_newest (Option.get_or (st.get codec key s).0 [] ++ new) in
      let works : Works after = subst Works (sym (laws.get-Works codec key s w)) w in
      rw h (
        ap (λ o. Option.get_or o [])
          (laws.get-set codec key urls seen_ttl after works (trips urls)))

  -- Over a cache that keeps its laws (one that neither fails nor drops the entry meanwhile) and where
  -- serde reads a set back as it was written: after a page is recorded every identifier on it is in the
  -- set, if the page is within the capacity of 500, however full the set was; and the set then holds at
  -- most 500 identifiers.
  pub load-extend :
      (user_id : ℤ) (new : List String) (u : String) (s : S)
      → Works s
      → is_empty new ≡ false
      → length new ≤ cap
      → contains new u ≡ true
      → (contains (load st codec user_id (extend st codec user_id new s)).0 u ≡ true)
        × (length (load st codec user_id (extend st codec user_id new s)).0 ≤ cap)
  load-extend user_id new u s w h n k =
      let old = (load st codec user_id s).0 in
      let e = load-extend_nonempty user_id new s w h in
      (
        ap (λ urls. contains urls u) e ∙ contains-keep_newest old new u n k,
        subst (λ urls. length urls ≤ cap) (sym e) (length-keep_newest (old ++ new)),
      )

  -- Recording nothing changes nothing, and recording keeps the cache usable.
  pub extend-Works :
      (user_id : ℤ) (new : List String) (s : S) → Works s → Works (extend st codec user_id new s)
  unfolding extend
  extend-Works user_id new s w =
      let key = seen_key user_id in
      let after = (st.get codec key s).1 in
      let works : Works after = subst Works (sym (laws.get-Works codec key s w)) w in
      elim (Bool-cases (is_empty new)) [
        | inl e ↦ rw e w
        | inr e ↦ rw e (laws.set-Works codec key _ seen_ttl after works)
      ]
