-- ===== src/Server/Auth/Agree.antt =====
-- The two extractors side by side, and whose account a request is given.
use fediway.Prelude.{ℕ, ◌≡◌, refl, Option, none, some}
use fediway.Prelude.Result.{Result, ok, err}
use fediway.Format.Characters.{Text}
use fediway.Server.Auth.{
  Account, TokenRow, languages_of, account_of, extract_token, unauthorized, internal_server_error,
  resolved, required, required_token, optional, optional_token, resolve_account, account_required,
  account_optional,
}

-- What the required extractor makes of the optional one's answer.
abbrev pub demanded : Result (Option Account) ℕ → Result Account ℕ
demanded (ok (some account)) = ok account
demanded (ok none) = err unauthorized
demanded (err status) = err status

-- Whose account it is: that of the row that the database has for the token of the header.
abbrev pub IsOwn :
    {E : Type 0} → (Text → Result (Option TokenRow) E) → Option Text → Account → Type 0
IsOwn query header account =
    (row : TokenRow) × (extract_token header ≡ some account.token)
    × (query account.token ≡ ok (some row))
    × (account.id ≡ row.account_id)
    × (account.username ≡ row.username)
    × (account.chosen_languages ≡ languages_of row.chosen_languages row.locale)

abbrev pub Owns :
    {E : Type 0}
    → (Text → Result (Option TokenRow) E)
    → Option Text
    → Result (Option Account) ℕ
    → Type 0
Owns query header (ok (some account)) = IsOwn query header account
Owns query header (ok none) = Unit
Owns query header (err status) = status ≡ internal_server_error

module _ {E : Type 0} (query : Text → Result (Option TokenRow) E) where
  required-optional :
      (answer : Result (Option Account) E)
      → required query answer ≡ demanded (optional query answer)
  unfolding required optional
  required-optional (ok (some account)) = refl
  required-optional (ok none) = refl
  required-optional (err e) = refl

  resolved-Owns :
      (header : Option Text) (token : Text) (answer : Result (Option TokenRow) E)
      → extract_token header ≡ some token
      → query token ≡ answer
      → Owns query header (optional query (resolved query token answer))
  unfolding optional resolved account_of
  resolved-Owns header token (ok (some row)) e f = (row, e, f, refl, refl, refl)
  resolved-Owns header token (ok none) e f = tt
  resolved-Owns header token (err x) e f = refl

  optional_token-Owns :
      (header token : Option Text)
      → extract_token header ≡ token
      → Owns query header (optional_token query token)
  unfolding optional_token resolve_account
  optional_token-Owns header none e = tt
  optional_token-Owns header (some token) e = resolved-Owns header token (query token) e refl

  required_token-optional_token :
      (token : Option Text) → required_token query token ≡ demanded (optional_token query token)
  unfolding required_token optional_token
  required_token-optional_token none = refl
  required_token-optional_token (some token) = required-optional (resolve_account query token)

  -- A route that needs an account gives the same account as one that does not, refuses an anonymous
  -- request by 401, and both fail by 500; an account is that of the row that the database has for the
  -- header's token, with its chosen languages, else its locale.
  pub account_required-account_optional :
      (header : Option Text)
      → (account_required query header ≡ demanded (account_optional query header))
        × Owns query header (account_optional query header)
  unfolding account_required account_optional
  account_required-account_optional header = (
    required_token-optional_token (extract_token header),
    optional_token-Owns header (extract_token header) refl,
  )
