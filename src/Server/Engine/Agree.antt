-- ===== src/Server/Engine/Agree.antt =====
-- The pagination of the trend feeds against the offset cursor of crates/feed/src/cursor.rs.
use fediway.Prelude.{ℕ, ◌+◌, ◌-◌, ◌<◌, min, ◌≡◌, refl, Option, List, length, arith}
use fediway.Prelude.Decimal.{Text, usize_values}
use fediway.Feed.Cursor
use fediway.Feed.Cursor.{wrapping_add, wrapping_sub}
use fediway.Server.Engine.{paginate, offset_of, saturating_add}

module _ {ℓ} {A : Type ℓ} where
  -- The two paginations return the same page, from the same cursor text, as long as the offset and
  -- the limit have a sum that a `usize` holds.
  pub paginate-eq-paginate :
      (items : List A) (cursor : Option Text) (limit : ℕ)
      → length items < usize_values
      → offset_of cursor (length items) + limit < usize_values
      → Cursor.paginate (Cursor.parse cursor) items limit ≡ paginate items cursor limit
  unfolding paginate Cursor.paginate Cursor.parse
  paginate-eq-paginate items cursor limit h k =
      let len : ℕ = length items in
      let from : ℕ = offset_of cursor len in
      let end : ℕ = min (saturating_add from limit) len in
      let sum : wrapping_add from limit ≡ saturating_add from limit = omega arith in
      let difference : wrapping_sub end from ≡ end - from = omega arith in rw (sum, difference) refl
