-- ===== src/Tests/Api.antt =====
-- The actions on a status, the translation of identifiers and the fallback on concrete answers.
use mathlib.Core.Option
use fediway.Prelude.{
  ◌↔◌, Among, ℕ, ◌+◌, ◌≡◌, refl, true, false, ◌||◌, none, some, String, str_eq, [], ◌∷◌,
  if◌then◌else◌,
}
use fediway.Prelude.Int.{ℤ, pos}
use fediway.Prelude.Map
use fediway.Prelude.Map.{Map, ℤ_eq}
use fediway.Prelude.Decimal.{parse_usize}
use fediway.Prelude.Result.{err}
use fediway.Server.Resolver
use fediway.Server.Resolver.{ResolveError, is_success, answer, resolve}
use fediway.Server.Api.Json.{Json, null, text, object, end, field, get}
use fediway.Server.Api.Errors
use fediway.Server.Api.Errors.{from_resolve, into_response, bare}
use fediway.Server.Api.Translate.{
  enough, numeric, collect_ids, rewritten, unless_null, apply_map, translate_response,
  translate_request_id,
}
use fediway.Server.Api.Translate.Members.{get-apply_map}
use fediway.Server.Api.Translate.Named.{Named, collect_ids-Named}
use fediway.Server.Api.Engage.{favourite, bytes, Outside, pin, apply}
use fediway.Server.Api.Engage.Answers.{fallback-apply}
use fediway.Server.Api.Final.{fallback}

program : Unit {0}
unfolding Errors.metric_outcome Resolver.metric_outcome from_resolve resolve parse_usize numeric
    collect_ids apply_map translate_response pin apply fallback translate_request_id Map.get
program = tt

-- A reblog of status 77, which quotes nothing.
abbrev original : Json
original = object (field "id" (text "77") (field "reblog" null end))

abbrev wrapper : Json
wrapper =
    object (field "id" (text "80") (field "content" (text "77") (field "reblog" original end)))

abbrev mapping : Map ℤ ℤ
mapping = (pos 77, pos 5) ∷ []

collected_run : collect_ids 3 wrapper ≡ pos 80 ∷ pos 77 ∷ []
unfolding program
collected_run = refl

collect_ids-Named_example :
    Among (pos 77) (collect_ids (enough wrapper) wrapper) ↔ Named wrapper (pos 77)
collect_ids-Named_example = collect_ids-Named wrapper (pos 77)

get-apply_map_example : get "content" (apply_map 3 mapping wrapper) ≡ (
    if str_eq "reblog" "content"
    then Option.map (unless_null (apply_map 2 mapping)) (get "content" wrapper)
    else if str_eq "id" "content" || str_eq "in_reply_to_id" "content"
    then Option.map (rewritten mapping) (get "content" wrapper)
    else get "content" wrapper)
get-apply_map_example = get-apply_map 2 mapping wrapper "content" refl

-- The Mastodon instance knows nothing, and the resolver is limited.
abbrev limited : Outside ℕ String
limited = record {
  resolve = λ _ w. (err (ResolveError.rate_limited none), w);
  mastodon_api_url = some "http://web";
  send = λ _ w. (some (record { status = 404; body = "{}" }), w + 1);
  from_slice = λ _. none;
  reverse_map = λ _ _. some [];
}

fallback-apply_example :
    fallback (apply limited favourite "abc") (λ w. (bare 200, w)) true true false true 0
    ≡ apply limited favourite "abc" 0
fallback-apply_example = fallback-apply limited favourite "abc" (λ w. (bare 200, w)) true true 0

native_run :
    apply limited favourite "abc" 0
    ≡ (record { status = 404; retry_after = none; body = some (bytes "{}"); no_fallback = true }, 1)
unfolding program
native_run = refl
