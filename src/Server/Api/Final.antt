-- ===== src/Server/Api/Final.antt =====
-- apps/server/src/middleware/mastodon_fallback.rs. The inner router and the proxy request are
-- arguments; `body_fits` says whether the body could be buffered within the limit.
use fediway.Prelude.{Bool, not, ◌&&◌, ◌||◌, ◌==◌, if◌then◌else◌}
use fediway.Server.Api.Errors.{Response, bare}

module _ {W B : Type 0} (next proxy : W → Response B × W) where
  -- From the response of the inner router on.
  unfoldable pub settle : Response B × W → Response B × W
  settle (response, w) =
      if response.no_fallback
      then (response, w)
      else if not (response.status == 404) && not (response.status == 405)
      then (response, w)
      else proxy w

  -- `fallback`: without a Mastodon URL or a path the router's response stands.
  unfoldable pub fallback : Bool → Bool → Bool → Bool → W → Response B × W
  unfolding settle
  fallback has_base has_path is_get body_fits w =
      if not has_base || not has_path
      then next w
      else if is_get || body_fits
      then settle (next w)
      else (bare 413, w)
