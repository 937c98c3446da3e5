-- ===== src/Server/Api/Translate/Members.antt =====
-- The members of a status under apps/server/src/mastodon/translate.rs.
use mathlib.Core.Option
use fediway.Prelude.{
  ℕ, suc, ◌≡◌, refl, Bool, true, false, ◌||◌, String, str_eq, str_eq_iff, arith, if◌then◌else◌,
}
use fediway.Prelude.Int.{ℤ}
use fediway.Prelude.Map.{Map}
use fediway.Server.Api.Json.{Json, get, update, get-update}
use fediway.Server.Api.Translate.{rewritten, rewrite_field, unless_null, apply_map}

-- No name is two of the three.
apart : (a b k : String) → str_eq a b ≡ false → str_eq a k ≡ true → str_eq b k ≡ false
apart a b k h e = ground (arith, str_eq_iff a k, str_eq_iff b k, str_eq_iff a b)

rearrange {ℓ} :
    {A : Type ℓ} (r i j : Bool) (f g : A → A) (o : A)
    → (r ≡ true → i ≡ false)
    → (r ≡ true → j ≡ false)
    → (i ≡ true → j ≡ false)
    → (let inner = if i then g o else o in
        let outer = if j then g inner else inner in if r then f outer else outer)
      ≡ (if r then f o else if i || j then g o else o)
rearrange true i j f g o a b c = rw (a refl, b refl) refl
rearrange false true j f g o a b c = rw (c refl) refl
rearrange false false true f g o a b c = refl
rearrange false false false f g o a b c = refl

-- Of the members of a status the identifiers `id` and `in_reply_to_id` are rewritten by the map, the
-- same translation goes on in a reblog that is not null, and all others but the quote stay.
pub get-apply_map :
    (n : ℕ) (m : Map ℤ ℤ) (v : Json) (k : String)
    → str_eq "quote" k ≡ false
    → get k (apply_map (suc n) m v) ≡ (
        if str_eq "reblog" k
        then Option.map (unless_null (apply_map n m)) (get k v)
        else if str_eq "id" k || str_eq "in_reply_to_id" k
        then Option.map (rewritten m) (get k v)
        else get k v)
unfolding apply_map rewrite_field
get-apply_map n m v k q =
    let first = rewrite_field "id" m v in
    let second = rewrite_field "in_reply_to_id" m first in
    let third = update "reblog" (unless_null (apply_map n m)) second in
    rw
      (
        get-update "quote" k (update "quoted_status" (unless_null (apply_map n m))) third,
        q,
        get-update "reblog" k (unless_null (apply_map n m)) second,
        get-update "in_reply_to_id" k (rewritten m) first,
        get-update "id" k (rewritten m) v,
      )
      (rearrange (str_eq "reblog" k) (str_eq "id" k) (str_eq "in_reply_to_id" k)
        (Option.map (unless_null (apply_map n m))) (Option.map (rewritten m)) (get k v)
        (apart "reblog" "id" k refl) (apart "reblog" "in_reply_to_id" k refl)
        (apart "id" "in_reply_to_id" k refl))
