-- ===== src/Format/Remote.antt =====
-- `format_remote` of crates/mastodon/src/formatter.rs. The sanitizer of crates/mastodon/src/sanitize.rs
-- is a configuration of the library ammonia, and the two heading patterns are the regex library's, so
-- that all four are parameters.
use fediway.Prelude.Signed.{codes}
use fediway.Format.Characters.{Text, replace_text}

pub record Cleaner : Type 0 where
  pub sanitize_html : Text → Text
  pub sanitize_text : Text → Text
  pub replace_open_headings : Text → Text
  pub replace_close_headings : Text → Text

unfoldable pub format_remote : Cleaner → Text → Text
format_remote cleaner html =
    replace_text (codes "<a ") (codes "<a target=\"_blank\" ")
      (cleaner.sanitize_html (cleaner.replace_close_headings (cleaner.replace_open_headings html)))
