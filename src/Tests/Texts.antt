-- ===== src/Tests/Texts.antt =====
-- A codec for lists of texts that reads back whatever it wrote, in the place of serde.
use Prim.Native.Char.{Char, char, code}
use fediway.Prelude.{◌≡◌, refl, ap, ◌∙◌, some, String, List, [], ◌∷◌, ◌==◌, if◌then◌else◌}
use fediway.State.Cache.{Codec}
use fediway.State.Cache.Store.{RoundTrips}

abbrev stop : Char
stop = char 59 tt

abbrev more : Char
more = char 120 tt

-- Each character follows an `x`; a `;` ends a text.
unfoldable pub write_text : String → String → String
write_text String.[] rest = String.◌∷◌ stop rest
write_text (String.◌∷◌ c s) rest = String.◌∷◌ more (String.◌∷◌ c (write_text s rest))

unfoldable pub write_texts : List String → String
unfolding write_text
write_texts [] = ""
write_texts (s ∷ ss) = write_text s (write_texts ss)

abbrev prepend : Char → List String → List String
prepend c [] = []
prepend c (s ∷ ss) = String.◌∷◌ c s ∷ ss

unfoldable pub read_texts : String → List String
read_texts String.[] = []
read_texts (String.◌∷◌ m String.[]) = if code m == code stop then "" ∷ [] else []
read_texts (String.◌∷◌ m (String.◌∷◌ c rest)) =
    let texts = read_texts (String.◌∷◌ c rest) in
    let same = read_texts rest in if code m == code stop then "" ∷ texts else prepend c same

read_texts-stop : (k : String) → read_texts (String.◌∷◌ stop k) ≡ "" ∷ read_texts k
unfolding read_texts
read_texts-stop String.[] = refl
read_texts-stop (String.◌∷◌ c k) = refl

read_texts-write_text : (s k : String) → read_texts (write_text s k) ≡ s ∷ read_texts k
unfolding read_texts write_text
read_texts-write_text String.[] k = read_texts-stop k
read_texts-write_text (String.◌∷◌ c s) k = ap (prepend c) (read_texts-write_text s k)

read_texts-write_texts : (ss : List String) → read_texts (write_texts ss) ≡ ss
unfolding read_texts write_texts
read_texts-write_texts [] = refl
read_texts-write_texts (s ∷ ss) =
    read_texts-write_text s (write_texts ss) ∙ ap (◌∷◌ s) (read_texts-write_texts ss)

abbrev pub texts : Codec (List String)
texts = record { to_string = λ ss. some (write_texts ss); from_str = λ s. some (read_texts s) }

pub texts-RoundTrips : (ss : List String) → RoundTrips texts ss
texts-RoundTrips ss = (write_texts ss, refl, ap some (read_texts-write_texts ss))
