-- ===== src/Server/Api/Engage.antt =====
-- apps/server/src/routes/mastodon/engagements.rs, with `forward` of apps/server/src/mastodon/forward.rs.
-- The HTTP client, the reading of JSON and the database are parameters; headers and the request's body
-- are passed on unchanged, and left out.
pub mod Answers
use fediway.Prelude.{
  ℕ, Bool, true, false, ◌&&◌, Option, none, some, String, ◌<>◌, str_eq, display, List, ◌>>=◌,
  if◌then◌else◌,
}
use mathlib.Core.Option
use fediway.Prelude.Int.{ℤ}
use fediway.Prelude.Map.{Map}
use fediway.Prelude.Result.{Result, ok, err}
use fediway.Server.Resolver.{ResolveError, is_success}
use fediway.Server.Api.Json.{Json, text, get, update, as_str}
use fediway.Server.Api.Errors.{
  EngagementError, unreachable, bad_body, db, from_resolve, Response, into_response,
}
use fediway.Server.Api.Translate.{numeric, translate_response}

pub data StatusAction : Type 0 where
  favourite : StatusAction
  unfavourite : StatusAction
  reblog : StatusAction
  unreblog : StatusAction
  bookmark : StatusAction
  unbookmark : StatusAction

unfoldable pub segment : StatusAction → String
segment favourite = "favourite"
segment unfavourite = "unfavourite"
segment reblog = "reblog"
segment unreblog = "unreblog"
segment bookmark = "bookmark"
segment unbookmark = "unbookmark"

-- `ForwardResponse`; its content type is left out.
pub record ForwardResponse (Bytes : Type 0) : Type 0 where
  pub status : ℕ
  pub body : Bytes

-- A body is JSON, or the bytes that the Mastodon instance sent.
pub data Body (Bytes : Type 0) : Type 0 where
  json : Json → Body Bytes
  bytes : Bytes → Body Bytes

-- What a handler uses. `send` posts to a URL, and `none` is a failure of the request or of the body;
-- `reverse_map` reads the database, and `none` is its failure.
pub record Outside (W Bytes : Type 0) : Type 0 where
  pub resolve : ℤ → W → Result ℤ ResolveError × W
  pub mastodon_api_url : Option String
  pub send : String → W → Option (ForwardResponse Bytes) × W
  pub from_slice : Bytes → Option Json
  pub reverse_map : List ℤ → W → Option (Map ℤ ℤ)

-- `id_field.as_str() == Some(forward_id)`
abbrev pub is_about : String → Json → Bool
is_about forward_id v = Option.get_or (Option.map (str_eq forward_id) (get "id" v >>= as_str)) false

-- The top-level `id` becomes the snowflake if it is the identifier that was forwarded.
unfoldable pub pin : Option ℤ → String → Json → Json
unfolding display
pin none forward_id v = v
pin (some snowflake) forward_id v =
    if is_about forward_id v then update "id" (λ _. text (display snowflake)) v else v

module _ {W Bytes : Type 0} (o : Outside W Bytes) where
  -- `forward`
  unfoldable pub forward : String → String → W → Option (ForwardResponse Bytes) × W
  forward base_url path w = o.send (base_url <> path) w

  -- The identifier to forward, and the snowflake that it stands for.
  unfoldable pub forward_id :
      String → Result ℤ ResolveError → ℤ → Result (String × Option ℤ) EngagementError
  unfolding from_resolve display
  forward_id id (ok mastodon_id) snowflake = ok (display mastodon_id, some snowflake)
  forward_id id (err ResolveError.not_found) snowflake = ok (id, none)
  forward_id id (err e) snowflake = err (from_resolve e)

  unfoldable pub identify : String → Option ℤ → W → Result (String × Option ℤ) EngagementError × W
  unfolding forward_id
  identify id none w = (ok (id, none), w)
  identify id (some snowflake) w =
      let (r, after) = o.resolve snowflake w in (forward_id id r snowflake, after)

  abbrev answer : ℕ → Body Bytes → Response (Body Bytes)
  answer status body = record {
    status = status;
    retry_after = none;
    body = some body;
    no_fallback = false;
  }

  -- The answer of a success, from the JSON that was read.
  unfoldable pub translated :
      String → Option ℤ → Option Json → Result (Response (Body Bytes)) EngagementError
  unfolding pin
  translated id hint none = err db
  translated id hint (some v) = ok (answer 200 (json (pin hint id v)))

  unfoldable pub read_body :
      String → Option ℤ → Option Json → W → Result (Response (Body Bytes)) EngagementError
  unfolding translated translate_response
  read_body id hint none w = err bad_body
  read_body id hint (some v) w =
      translated id hint (translate_response (λ ids. o.reverse_map ids w) v)

  unfoldable pub finish :
      String
      → Option ℤ
      → Option (ForwardResponse Bytes)
      → W
      → Result (Response (Body Bytes)) EngagementError
  unfolding read_body
  finish id hint none w = err unreachable
  finish id hint (some f) w =
      if is_success f.status
      then read_body id hint (o.from_slice f.body) w
      else ok (answer f.status (bytes f.body))

  -- The request to the Mastodon instance, if there is one.
  unfoldable pub act :
      StatusAction
      → Option String
      → Result (String × Option ℤ) EngagementError × W
      → Result (Response (Body Bytes)) EngagementError × W
  unfolding forward finish segment
  act action base (err e, w) = (err e, w)
  act action none (ok (id, hint), w) = (err unreachable, w)
  act action (some base) (ok (id, hint), w) =
      let (sent, after) = forward base ("/api/v1/statuses/" <> (id <> ("/" <> segment action))) w in
      (finish id hint sent after, after)

  abbrev respond : Result (Response (Body Bytes)) EngagementError → Response (Body Bytes)
  respond (ok r) = r
  respond (err e) = into_response e

  -- `apply`: every response is marked as final.
  unfoldable pub apply : StatusAction → String → W → Response (Body Bytes) × W
  unfolding identify act numeric into_response
  apply action id w =
      let (result, after) = act action o.mastodon_api_url (identify id (numeric id) w) in
      (record (respond result) { no_fallback = true }, after)
