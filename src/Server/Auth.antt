-- ===== src/Server/Auth.antt =====
-- apps/server/src/auth.rs: the account of a request. The query is a parameter; metrics and logs are left
-- out. A status of HTTP is its number.
pub mod Agree
use mathlib.Core.Option
use fediway.Prelude.{
  ℕ, Bool, ◌||◌, ◌&&◌, List, [], ◌∷◌, ◌++◌, Option, none, some, ◌>>=◌, leb, ◌==◌, is_empty, length,
  drop, if◌then◌else◌,
}
use mathlib.Core.List.{reverse}
use fediway.Prelude.Int.{ℤ}
use fediway.Prelude.Signed.{codes}
use fediway.Prelude.Result.{Result, ok, err}
use fediway.Format.Characters.{Text, starts_with}

-- `char::is_whitespace`
abbrev is_whitespace : ℕ → Bool
is_whitespace c =
    (leb 9 c && leb c 13)
    || c == 32
    || c == 133
    || c == 160
    || c == 5760
    || (leb 8192 c && leb c 8202)
    || c == 8232
    || c == 8233
    || c == 8239
    || c == 8287
    || c == 12288

abbrev trim_front : Text → Text
trim_front [] = []
trim_front (c ∷ s) = if is_whitespace c then trim_front s else c ∷ s

-- `str::trim`
unfoldable pub trim : Text → Text
trim s = reverse (trim_front (reverse (trim_front s)))

-- `str::strip_prefix`
abbrev pub strip_prefix : Text → Text → Option Text
strip_prefix prefix s = if starts_with prefix s then some (drop (length prefix) s) else none

-- The `authorization` header, if it is there and readable as text.
unfoldable pub extract_token : Option Text → Option Text
unfolding trim
extract_token header = header >>= strip_prefix (codes "Bearer ") >>= λ rest.
    let token = trim rest in if is_empty token then none else some token

pub record Account : Type 0 where
  pub id : ℤ
  pub username : Text
  pub chosen_languages : List Text
  pub token : Text

pub record TokenRow : Type 0 where
  pub account_id : ℤ
  pub username : Text
  pub chosen_languages : Option (List Text)
  pub locale : Option Text

abbrev pub list_of : Option Text → List Text
list_of none = []
list_of (some locale) = locale ∷ []

-- The chosen languages, else the locale.
unfoldable pub languages_of : Option (List Text) → Option Text → List Text
languages_of none locale = list_of locale
languages_of (some []) locale = list_of locale
languages_of (some (l ∷ ls)) locale = l ∷ ls

account_of : Text → Option TokenRow → Option Account
account_of token none = none
account_of token (some row) = some (record {
  id = row.account_id;
  username = row.username;
  chosen_languages = languages_of row.chosen_languages row.locale;
  token = token;
})

abbrev pub unauthorized : ℕ
unauthorized = 401

abbrev pub internal_server_error : ℕ
internal_server_error = 500

module _ {E : Type 0} (query : Text → Result (Option TokenRow) E) where
  resolved : Text → Result (Option TokenRow) E → Result (Option Account) E
  resolved token (ok row) = ok (account_of token row)
  resolved token (err e) = err e

  unfoldable pub resolve_account : Text → Result (Option Account) E
  unfolding resolved account_of
  resolve_account token = resolved token (query token)

  required : Result (Option Account) E → Result Account ℕ
  required (ok (some account)) = ok account
  required (ok none) = err unauthorized
  required (err e) = err internal_server_error

  required_token : Option Text → Result Account ℕ
  unfolding required
  required_token none = err unauthorized
  required_token (some token) = required (resolve_account token)

  -- `FromRequestParts`: the route needs an account.
  unfoldable pub account_required : Option Text → Result Account ℕ
  unfolding required_token
  account_required header = required_token (extract_token header)

  optional : Result (Option Account) E → Result (Option Account) ℕ
  optional (ok account) = ok account
  optional (err e) = err internal_server_error

  optional_token : Option Text → Result (Option Account) ℕ
  unfolding optional
  optional_token none = ok none
  optional_token (some token) = optional (resolve_account token)

  -- `OptionalFromRequestParts`: a request may be anonymous.
  unfoldable pub account_optional : Option Text → Result (Option Account) ℕ
  unfolding optional_token
  account_optional header = optional_token (extract_token header)
