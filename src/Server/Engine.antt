-- ===== src/Server/Engine.antt =====
-- apps/server/src/feeds/engine.rs: the pagination of the trend feeds.
pub mod Walk
pub mod Agree
use fediway.Prelude.{
  ℕ, ◌+◌, ◌-◌, min, Bool, Option, none, some, List, length, take, drop, ltb, ◌>>=◌, if◌then◌else◌,
}
use mathlib.Core.Option
use fediway.Prelude.Decimal.{Text, usize_values, to_string, parse_usize}
use fediway.Feed.Cursor.{Page}

abbrev pub saturating_add : ℕ → ℕ → ℕ
saturating_add a b = min (a + b) (usize_values - 1)

-- The offset that a cursor stands for, within a list of `total` items.
abbrev pub offset_of : Option Text → ℕ → ℕ
offset_of cursor total = min (Option.get_or (cursor >>= parse_usize) 0) total

module _ {ℓ} {A : Type ℓ} where
  unfoldable pub paginate : List A → Option Text → ℕ → Page A
  paginate items cursor limit =
      let total = length items in
      let offset = offset_of cursor total in
      let end = min (saturating_add offset limit) total in
      let has_more = ltb end total in
      record {
        items = take (end - offset) (drop offset items);
        cursor = if has_more then some (to_string end) else none;
        has_more = has_more;
      }
