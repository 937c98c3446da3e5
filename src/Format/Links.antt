-- ===== src/Format/Links.antt =====
-- The anchors of crates/mastodon/src/formatter.rs, and the entities of mention.rs and tag.rs that
-- they are made of.
pub mod Shortened
use fediway.Prelude.{
  ℕ, ◌+◌, ◌≡◌, List, [], ◌∷◌, ◌++◌, Option, none, some, ◌>>=◌, ltb, if◌then◌else◌,
}
use fediway.Prelude.Signed.{codes}
use fediway.Format.Characters.{Text, size, slice_to, slice_from, starts_with, find}
use fediway.Format.Escape.{escape_text, escape_attr}
use fediway.Format.Matches.{found}

pub record Mention : Type 0 where
  pub id : Text
  pub username : Text
  pub url : Text
  pub acct : Text

pub record TagHistory : Type 0 where
  pub day : Text
  pub uses : Text
  pub accounts : Text

pub record Tag : Type 0 where
  pub name : Text
  pub url : Text
  pub history : List TagHistory

abbrev pub link_display_max : ℕ
link_display_max = 30

abbrev pub Parts : Type 0
Parts = Text × Text × Text

-- `(display, suffix, class)`, `none` where a slice panics.
shorten : Text → Option Parts
shorten rest =
    if ltb link_display_max (size rest)
    then (slice_to link_display_max rest >>= λ display.
        slice_from link_display_max rest >>= λ suffix. some (display, suffix, codes "ellipsis"))
    else some (rest, [], [])

abbrev pub link_html : Text → Text → Parts → Text
link_html url prefix (display, suffix, class) =
    codes "<a href=\""
    ++ (escape_attr url
        ++ (codes
              "\" target=\"_blank\" rel=\"nofollow noopener noreferrer\" translate=\"no\"><span class=\"invisible\">"
            ++ (escape_text prefix
                ++ (codes "</span><span class=\""
                    ++ (class
                        ++ (codes "\">"
                            ++ (escape_text display
                                ++ (codes "</span><span class=\"invisible\">"
                                    ++ (escape_text suffix ++ codes "</span></a>")))))))))

-- `(prefix, rest)`
link_parts : Text → Option (Text × Text)
link_parts url =
    let scheme_end = found (find (codes "://") url) 0 (λ i. i + 3) in
    slice_from scheme_end url >>= λ after_scheme.
    let www = if starts_with (codes "www.") after_scheme then 4 else 0 in
    slice_to (scheme_end + www) url >>= λ prefix.
    slice_from (scheme_end + www) url >>= λ rest. some (prefix, rest)

unfoldable pub shortened_link : Text → Option Text
unfolding link_parts shorten
shortened_link url =
    link_parts url >>= λ cut. shorten cut.1 >>= λ parts. some (link_html url cut.0 parts)

unfoldable pub mention_html : Mention → Text
mention_html m =
    codes "<span class=\"h-card\" translate=\"no\"><a href=\""
    ++ (escape_attr m.url
        ++ (codes "\" class=\"u-url mention\">@<span>"
            ++ (escape_text m.acct ++ codes "</span></a></span>")))

unfoldable pub tag_html : Tag → Text → Text
tag_html t instance_domain =
    codes "<a href=\"https://"
    ++ (instance_domain
        ++ (codes "/tags/"
            ++ (escape_attr t.name
                ++ (codes "\" class=\"mention hashtag\" rel=\"tag\">#<span>"
                    ++ (escape_text t.name ++ codes "</span></a>")))))
