-- ===== src/Tests/Paging.antt =====
-- Decimal texts and pages on concrete data.
use fediway.Prelude.{ℕ, suc, ◌≡◌, refl, true, false, none, some, List, [], ◌∷◌, length, arith}
use fediway.Prelude.Decimal.{to_string, parse_usize, parse_usize-to_string}
use fediway.Feed.Cursor
use fediway.Feed.Cursor.{Page}
use fediway.Server.Engine.{paginate}
use fediway.Server.Engine.Walk.{walk, walk_all}
use fediway.Server.Engine.Agree.{paginate-eq-paginate}

abbrev ten : List ℕ
ten = 1 ∷ 2 ∷ 3 ∷ 4 ∷ 5 ∷ 6 ∷ 7 ∷ 8 ∷ 9 ∷ 10 ∷ []

second_page :
    paginate ten (some (to_string 4)) 4
    ≡ record { items = 5 ∷ 6 ∷ 7 ∷ 8 ∷ []; cursor = some (b'8' ∷ []); has_more = true }
unfolding paginate to_string parse_usize
second_page = refl

last_page :
    paginate ten (some (b'8' ∷ [])) 4
    ≡ record { items = 9 ∷ 10 ∷ []; cursor = none; has_more = false }
unfolding paginate to_string parse_usize
last_page = refl

invalid_cursor : (paginate ten (some (b'x' ∷ [])) 4).items ≡ 1 ∷ 2 ∷ 3 ∷ 4 ∷ []
unfolding paginate to_string parse_usize
invalid_cursor = refl

parse_usize-to_string_example : parse_usize (to_string 2048) ≡ some 2048
parse_usize-to_string_example = parse_usize-to_string 2048 (omega arith)

walk_all_example : walk (suc (length ten)) ten none (λ _. 4) ≡ ten
walk_all_example = walk_all ten (λ _. 4) (λ _. omega arith) (omega arith)

paginate-eq-paginate_example :
    Cursor.paginate (Cursor.parse (some (b'4' ∷ []))) ten 4 ≡ paginate ten (some (b'4' ∷ [])) 4
unfolding parse_usize
paginate-eq-paginate_example =
    paginate-eq-paginate ten (some (b'4' ∷ [])) 4 (omega arith) (omega arith)
