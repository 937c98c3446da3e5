-- ===== src/Server/Api/Engage/Answers.antt =====
-- What apps/server/src/routes/mastodon/engagements.rs answers, and what becomes of it in
-- apps/server/src/middleware/mastodon_fallback.rs.
use mathlib.Core.Option
use fediway.Prelude.{
  ◌≡◌, refl, ap, sym, ◌∙◌, Bool, true, false, not, ◌||◌, ◌&&◌, Option, none, some, String, str_eq,
  str_eq_iff, display, ◌>>=◌, Bool-cases, Option-cases, inl, inr, if◌then◌else◌,
}
use fediway.Prelude.Int.{ℤ}
use fediway.Server.Api.Json.{Json, text, get, as_str, get-update}
use fediway.Server.Api.Errors.{Response}
use fediway.Server.Api.Engage.{StatusAction, Body, Outside, is_about, pin, apply}
use fediway.Server.Api.Final.{fallback}

none_about :
    (forwarded : String) (found : Option Json)
    → found ≡ none
    → Option.get_or (Option.map (str_eq forwarded) (found >>= as_str)) false ≡ true
    → ⊥
none_about forwarded none e h = cc
none_about forwarded (some w) e h = cc

no_change {ℓ} : {A : Type ℓ} (b : Bool) (x y : A) → y ≡ (if b && false then x else y)
no_change true x y = refl
no_change false x y = refl

named :
    (k : String) (t v w : Json)
    → get "id" v ≡ some w
    → (if str_eq "id" k then Option.map (λ _. t) (get k v) else get k v)
      ≡ (if str_eq "id" k && true then some t else get k v)
named k t v w h = elim (Bool-cases (str_eq "id" k)) [
  | inl e ↦
      let found : get k v ≡ some w = ap (λ j. get j v) (sym ((str_eq_iff "id" k).0 e)) ∙ h in
      rw (e, found) refl
  | inr e ↦ rw e refl
]

is_about-get :
    (forwarded : String) (v : Json)
    → is_about forwarded v ≡ true
    → (w : Json) × (get "id" v ≡ some w)
is_about-get forwarded v h = elim (Option-cases (get "id" v)) [
  | inl e ↦ absurd (none_about forwarded (get "id" v) e h)
  | inr found ↦ found
]

same_either {ℓ} : {A : Type ℓ} (b : Bool) (x : A) → (if b then x else x) ≡ x
same_either true x = refl
same_either false x = refl

-- After a success the answer about the forwarded status names the caller's snowflake; no other field
-- changes, and neither does an answer about another status, as that of a new reblog.
get-pin :
    (snowflake : ℤ) (forwarded : String) (v : Json) (k : String)
    → get k (pin (some snowflake) forwarded v)
      ≡ (if str_eq "id" k && is_about forwarded v then some (text (display snowflake)) else get k v)
unfolding pin
get-pin snowflake forwarded v k = elim (Bool-cases (is_about forwarded v)) [
  | inl e ↦
      let (w, found) = is_about-get forwarded v e in
      rw (e, get-update "id" k (λ _. text (display snowflake)) v)
        (named k (text (display snowflake)) v w found)
  | inr e ↦ rw e (no_change (str_eq "id" k) _ (get k v))
]

module _ {W Bytes : Type 0} (o : Outside W Bytes) where
  -- An action on a status is carried out once: whatever its response is, 404 and 405 included, the
  -- fallback middleware returns it as it is and does not forward the request again.
  pub fallback-apply :
      (action : StatusAction) (id : String) (proxy : W → Response (Body Bytes) × W)
      (has_base has_path : Bool) (w : W)
      → fallback (apply o action id) proxy has_base has_path false true w ≡ apply o action id w
  unfolding fallback apply
  fallback-apply action id proxy has_base has_path w =
      same_either (not has_base || not has_path) (apply o action id w)
