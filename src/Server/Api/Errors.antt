-- ===== src/Server/Api/Errors.antt =====
-- apps/server/src/routes/mastodon/error.rs. A status is its code; the log lines are left out.
pub mod Status
use fediway.Prelude.{ℕ, Bool, false, Option, none, some, String, display}
use fediway.Prelude.Int.{pos}
use mathlib.Core.Option
use fediway.Server.Resolver.{ResolveError}
use fediway.Server.Resolver

pub data EngagementError : Type 0 where
  not_found : EngagementError
  unresolvable : EngagementError
  forbidden : EngagementError
  blocked : EngagementError
  rate_limited : Option ℕ → EngagementError
  upstream : ℕ → EngagementError
  unreachable : EngagementError
  bad_body : EngagementError
  db : EngagementError

unfoldable pub metric_outcome : EngagementError → String
metric_outcome not_found = "not_found"
metric_outcome unresolvable = "unresolvable"
metric_outcome forbidden = "forbidden"
metric_outcome blocked = "blocked"
metric_outcome (rate_limited _) = "rate_limited"
metric_outcome (upstream _) = "upstream"
metric_outcome unreachable = "unreachable"
metric_outcome bad_body = "bad_body"
metric_outcome db = "db"

-- `impl From<ResolveError> for EngagementError`
unfoldable pub from_resolve : ResolveError → EngagementError
from_resolve ResolveError.not_found = not_found
from_resolve ResolveError.unresolvable = unresolvable
from_resolve ResolveError.forbidden = forbidden
from_resolve ResolveError.blocked = blocked
from_resolve ResolveError.unreachable = unreachable
from_resolve (ResolveError.rate_limited retry_after) = rate_limited retry_after
from_resolve (ResolveError.upstream s) = upstream s
from_resolve ResolveError.db = db

-- An answer to the client: its status, the header `Retry-After`, its body, and the mark `NoFallback`.
pub record Response (Body : Type 0) : Type 0 where
  pub status : ℕ
  pub retry_after : Option String
  pub body : Option Body
  pub no_fallback : Bool

module _ {Body : Type 0} where
  abbrev pub bare : ℕ → Response Body
  bare status = record { status = status; retry_after = none; body = none; no_fallback = false }

  -- `impl IntoResponse`. The digits of a number are always a valid header value.
  unfoldable pub into_response : EngagementError → Response Body
  unfolding display
  into_response not_found = bare 404
  into_response unresolvable = bare 404
  into_response forbidden = bare 403
  into_response blocked = bare 403
  into_response unreachable = bare 502
  into_response bad_body = bare 502
  into_response db = bare 500
  into_response (upstream s) = bare s
  into_response (rate_limited retry_after) = record (bare 429) {
    retry_after = Option.map (λ secs. display (pos secs)) retry_after;
  }
