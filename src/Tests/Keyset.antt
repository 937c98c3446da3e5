-- ===== src/Tests/Keyset.antt =====
-- Pages of statuses by their identifiers.
use fediway.Prelude.{◌≡◌, refl, none, some, String, List, [], ◌∷◌, ◌++◌, take}
use fediway.Prelude.Int.{pos}
use fediway.Server.Keyset.{snowflake, paginate}
use fediway.Server.Keyset.Continue.{Descending, paginate-max_id}

program : Unit {0}
unfolding paginate snowflake
program = tt

-- A status is its identifier here.
abbrev same : String → String
same s = s

abbrev before : List String
before = "50" ∷ "40" ∷ []

abbrev after : List String
after = "20" ∷ "10" ∷ []

all-Descending : Descending same (before ++ "30" ∷ after)
unfolding program
all-Descending = (
  (
    pos 50,
    refl,
    (
      (pos 40, refl, refl),
      ((pos 30, refl, refl), ((pos 20, refl, refl), ((pos 10, refl, refl), tt))),
    ),
  ),
  (
    (pos 40, refl, ((pos 30, refl, refl), ((pos 20, refl, refl), ((pos 10, refl, refl), tt)))),
    (
      (pos 30, refl, ((pos 20, refl, refl), ((pos 10, refl, refl), tt))),
      ((pos 20, refl, ((pos 10, refl, refl), tt)), ((pos 10, refl, tt), tt)),
    ),
  ),
)

paginate-max_id_example :
    (paginate same (before ++ "30" ∷ after) 1 (some "30") none none (λ v. some v) "a.com" "/t").0
    ≡ take 1 after
paginate-max_id_example =
    paginate-max_id same before "30" after 1 (λ v. some v) "a.com" "/t" all-Descending

urls_run :
    (paginate same
      ("https://b.net/1" ∷ "50" ∷ "40" ∷ [])
      3
      (some "45")
      none
      none
      (λ v. some v)
      "a.com"
      "/t").0
    ≡ "40" ∷ []
unfolding program
urls_run = refl
