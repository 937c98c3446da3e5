-- ===== src/Server/Api/Translate.antt =====
-- apps/server/src/mastodon/translate.rs. The resolver and the query `reverse_map` are arguments; the
-- recursion is on fuel, of which one more than the height of the value is enough.
pub mod Members
pub mod Named
use fediway.Prelude.{
  ℕ, zero, suc, Bool, true, false, Option, none, some, String, display, List, [], ◌∷◌, ◌++◌,
  is_empty, ◌>>=◌, if◌then◌else◌,
}
use mathlib.Core.Option
use fediway.Prelude.Int.{ℤ}
use fediway.Prelude.Map
use fediway.Prelude.Map.{Map, ℤ_eq}
use fediway.Prelude.Result.{Result, ok, err}
use fediway.Prelude.Signed.{codes, parse_i64}
use fediway.Server.Resolver.{ResolveError, not_found}
use fediway.Server.Api.Json.{Json, null, text, get, update, as_str, height}

-- A text that is an `i64`.
unfoldable pub numeric : String → Option ℤ
unfolding parse_i64
numeric s = parse_i64 (codes s)

-- What `translate_request_id` makes of the resolver's answer.
unfoldable pub request_id : String → Result ℤ ResolveError → Result String ResolveError
unfolding display
request_id id (ok mastodon_id) = ok (display mastodon_id)
request_id id (err not_found) = ok id
request_id id (err e) = err e

-- `translate_request_id`: an identifier that is no number is not looked up.
unfoldable pub translate_request_id :
    {W : Type 0} → (ℤ → W → Result ℤ ResolveError × W) → String → W → Result String ResolveError × W
unfolding request_id numeric
translate_request_id resolve id w = elim (numeric id) [
  | none ↦ (ok id, w)
  | some snowflake ↦ let (r, after) = resolve snowflake w in (request_id id r, after)
]

unfoldable pub push_numeric : Option Json → List ℤ
unfolding numeric
push_numeric field = elim (field >>= as_str >>= numeric) [ none ↦ [] | some n ↦ n ∷ [] ]

-- The value of a `reblog` or a quoted status, if it is there and not null.
abbrev not_null : Option Json → Option Json
not_null none = none
not_null (some null) = none
not_null (some v) = some v

abbrev pub reblog_of : Json → Option Json
reblog_of v = not_null (get "reblog" v)

abbrev pub quoted_of : Json → Option Json
quoted_of v = not_null (get "quote" v >>= get "quoted_status")

-- In the order in which `collect_ids` pushes them.
unfoldable pub collect_ids : ℕ → Json → List ℤ
unfolding push_numeric
collect_ids zero v = []
collect_ids (suc fuel) v =
    push_numeric (get "id" v)
    ++ (push_numeric (get "in_reply_to_id" v)
        ++ (Option.get_or (Option.map (collect_ids fuel) (reblog_of v)) []
            ++ Option.get_or (Option.map (collect_ids fuel) (quoted_of v)) []))

-- The new value of a field: a numeric text that has a mapping becomes the snowflake.
unfoldable pub rewritten : Map ℤ ℤ → Json → Json
unfolding display numeric
rewritten m v =
    Option.get_or
      (Option.map (λ snowflake. text (display snowflake))
        (as_str v >>= numeric >>= λ n. Map.get n m))
      v

unfoldable pub rewrite_field : String → Map ℤ ℤ → Json → Json
unfolding rewritten
rewrite_field key m v = update key (rewritten m) v

-- A step under `!is_null()`.
abbrev pub unless_null : (Json → Json) → Json → Json
unless_null f null = null
unless_null f v = f v

unfoldable pub apply_map : ℕ → Map ℤ ℤ → Json → Json
unfolding rewrite_field
apply_map zero m v = v
apply_map (suc fuel) m v =
    update "quote" (update "quoted_status" (unless_null (apply_map fuel m))) (
      update "reblog" (unless_null (apply_map fuel m))
        (rewrite_field "in_reply_to_id" m (rewrite_field "id" m v)))

abbrev pub enough : Json → ℕ
enough v = suc (height v)

-- `translate_response` on the answer of `reverse_map`, which is only asked if there are identifiers;
-- `none` is its failure.
unfoldable pub translate_response : (List ℤ → Option (Map ℤ ℤ)) → Json → Option Json
unfolding collect_ids apply_map
translate_response reverse_map v =
    let ids = collect_ids (enough v) v in
    let asked =
      reverse_map ids >>= λ m. some (if is_empty m then v else apply_map (enough v) m v) in
    if is_empty ids then some v else asked
