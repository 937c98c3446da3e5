-- ===== src/Feed/Cursor.antt =====
-- crates/feed/src/cursor.rs and the page of crates/feed/src/pipeline.rs. The sums and differences are
-- those of a release build, which wrap around; a debug build panics where they do.
use fediway.Prelude.{
  ℕ, ◌+◌, ◌-◌, ◌%◌, min, Bool, Option, none, some, List, length, take, drop, ltb, ◌>>=◌,
  if◌then◌else◌,
}
use mathlib.Core.Option
use fediway.Prelude.Decimal.{Text, usize_values, to_string, parse_usize}

pub record Page {ℓ} (A : Type ℓ) : Type ℓ where
  pub items : List A
  pub cursor : Option Text
  pub has_more : Bool

pub record Offset : Type 0 where
  pub offset : ℕ

-- `Offset::parse`: no cursor and an unreadable one both start at the beginning.
unfoldable pub parse : Option Text → Offset
parse raw = record { offset = Option.get_or (raw >>= parse_usize) 0 }

abbrev pub wrapping_add : ℕ → ℕ → ℕ
wrapping_add a b = (a + b) % usize_values

abbrev pub wrapping_sub : ℕ → ℕ → ℕ
wrapping_sub a b = (a + usize_values - b) % usize_values

module _ {ℓ} {A : Type ℓ} where
  -- `impl Cursor for Offset`
  unfoldable pub paginate : Offset → List A → ℕ → Page A
  paginate cursor items limit =
      let len = length items in
      let start = min cursor.offset len in
      let end = min (wrapping_add start limit) len in
      let has_more = ltb end len in
      record {
        items = take (wrapping_sub end start) (drop start items);
        cursor = if has_more then some (to_string end) else none;
        has_more = has_more;
      }
