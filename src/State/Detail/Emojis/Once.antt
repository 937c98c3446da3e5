-- ===== src/State/Detail/Emojis/Once.antt =====
-- The emojis of some texts as a list of their distinct shortcodes, in the order they first appear.
use fediway.Prelude.{◌≡◌, ◌⊎◌, true, List, [], ◌∷◌, Option, none, some, if◌then◌else◌}
use fediway.Prelude.Map.{Map}
use fediway.Common.Paperclip.{MediaConfig}
use fediway.Format.Characters.{Text}
use fediway.State.Detail.Row.{EmojiRow}
use fediway.State.Detail.Emojis.{holds, emoji_of}

-- The elements without those that came before, or that are among `seen`.
abbrev pub distinct_from : List Text → List Text → List Text
distinct_from seen [] = []
distinct_from seen (c ∷ cs) =
    let rest = distinct_from (if holds seen c then seen else c ∷ seen) cs in
    if holds seen c then rest else c ∷ rest

abbrev collected {ℓ} : {A : Type ℓ} → Option A → List A → List A
collected none xs = xs
collected (some x) xs = x ∷ xs

abbrev pub collect {ℓ κ} : {A : Type ℓ} {B : Type κ} → (A → Option B) → List A → List B
collect f [] = []
collect f (x ∷ xs) = collected (f x) (collect f xs)

module _ (emojis : Map Text EmojiRow) (media : MediaConfig) where
  -- Every pushed shortcode was seen, and what was seen was pushed or has no emoji.
  abbrev Agrees : List Text → List Text → Type 0
  Agrees used seen =
      ((c : Text) → holds used c ≡ true → holds seen c ≡ true)
      × ((c : Text)
          → holds seen c ≡ true
          → (holds used c ≡ true) ⊎ (emoji_of emojis media c ≡ none))
