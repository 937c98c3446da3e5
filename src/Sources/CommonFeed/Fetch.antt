-- ===== src/Sources/CommonFeed/Fetch.antt =====
-- crates/sources/src/commonfeed/mod.rs: a request to a provider. The HTTP client is a parameter, with
-- the decoding of its answer; metrics and logs are left out.
pub mod Supported
use fediway.Prelude.{
  ℕ, Bool, not, ◌&&◌, List, [], ◌∷◌, Option, none, some, String, ◌<>◌, display, leb, ltb, min,
  if◌then◌else◌,
}
use fediway.Prelude.Int.{pos}
use fediway.Server.Api.Json.{
  Json, null, number, text, array, object, Items, no_items, item, Fields, end, field,
}
use fediway.Sources.CommonFeed.Types.{QueryFilters, for_provider}

-- `Provider` of crates/common/src/types.rs
pub record Provider : Type 0 where
  pub domain : String
  pub base_url : String
  pub api_key : String
  pub max_results : ℕ
  pub supported_filters : List String

pub record Request : Type 0 where
  pub url : String
  pub bearer_auth : String
  pub body : Json

-- What comes back: no response, or a status with the body as the wanted type, if it is one.
pub data Answer (T : Type 0) : Type 0 where
  network_error : Answer T
  response : ℕ → Option T → Answer T

abbrev pub strings : List String → Items
strings [] = no_items
strings (s ∷ ss) = item (text s) (strings ss)

abbrev optional_field : String → Option String → Fields → Fields
optional_field k none rest = rest
optional_field k (some s) rest = field k (text s) rest

abbrev list_field : String → List String → Fields → Fields
list_field k [] rest = rest
list_field k (s ∷ ss) rest = field k (array (strings (s ∷ ss))) rest

-- The derived `Serialize` of `QueryFilters`: what is empty is left out.
abbrev pub filters_value : QueryFilters → Fields
filters_value f =
    list_field "language" f.language (optional_field "tag" f.tag (optional_field "link" f.link end))

abbrev pub filters_field : Fields → Fields
filters_field end = end
filters_field (field k v fs) = field "filters" (object (field k v fs)) end

abbrev pub embedding_field : Option Json → Fields → Fields
embedding_field none rest = rest
embedding_field (some v) rest = field "embedding" v rest

-- `embedding` is the value that the derived `Serialize` gives for it.
unfoldable pub request : Provider → String → String → QueryFilters → Option Json → ℕ → Request
request provider resource algorithm filters embedding limit =
    let request_limit = min limit provider.max_results in
    record {
      url = provider.base_url <> ("/" <> (resource <> ("/" <> algorithm)));
      bearer_auth = provider.api_key;
      body = object (
          field "limit" (number (display (pos request_limit))) (
            field "cursor" null (
              embedding_field embedding (
                filters_field (filters_value (for_provider filters provider.supported_filters))))));
    }

-- `StatusCode::is_success`
abbrev pub is_success : ℕ → Bool
is_success status = leb 200 status && ltb status 300

abbrev pub decoded : {T : Type 0} → Answer T → Option T
decoded network_error = none
decoded (response status body) = if not (is_success status) then none else body

unfoldable pub fetch_json :
    {T : Type 0}
    → (Request → Answer T)
    → Provider
    → String
    → String
    → QueryFilters
    → Option Json
    → ℕ
    → Option T
unfolding request
fetch_json send provider resource algorithm filters embedding limit =
    decoded (send (request provider resource algorithm filters embedding limit))
