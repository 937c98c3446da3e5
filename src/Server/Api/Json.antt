-- ===== src/Server/Api/Json.antt =====
-- The JSON values of serde_json that apps/server/src/mastodon/translate.rs walks. A number is its text.
-- The keys of an object are distinct, as in a `serde_json::Map`, so that the first field of a name is
-- the only one.
use mathlib.Core.Path.{subst}
use mathlib.Core.Option
use fediway.Prelude.{
  ℕ, suc, max, ◌≡◌, ◌<◌, ◌≤◌, Bool, Option, none, some, String, str_eq, str_eq_iff, arith,
  Bool-cases, inl, inr, if◌then◌else◌,
}

mutual
  pub data Json : Type 0 where
    null : Json
    bool : Bool → Json
    number : String → Json
    text : String → Json
    array : Items → Json
    object : Fields → Json

  pub data Items : Type 0 where
    no_items : Items
    item : Json → Items → Items

  pub data Fields : Type 0 where
    end : Fields
    field : String → Json → Fields → Fields

abbrev pub get_field : String → Fields → Option Json
get_field k end = none
get_field k (field j v fs) = if str_eq j k then some v else get_field k fs

abbrev pub set_field : String → (Json → Json) → Fields → Fields
set_field k f end = end
set_field k f (field j v fs) =
    let rest = set_field k f fs in if str_eq j k then field j (f v) fs else field j v rest

-- `Value::get`
abbrev pub get : String → Json → Option Json
get k (object fs) = get_field k fs
get k null = none
get k (bool _) = none
get k (number _) = none
get k (text _) = none
get k (array _) = none

-- An assignment through `Value::get_mut`, which does nothing where there is no such field.
abbrev pub update : String → (Json → Json) → Json → Json
update k f (object fs) = object (set_field k f fs)
update k f null = null
update k f (bool b) = bool b
update k f (number n) = number n
update k f (text s) = text s
update k f (array vs) = array vs

-- `Value::as_str`
abbrev pub as_str : Json → Option String
as_str (text s) = some s
as_str null = none
as_str (bool _) = none
as_str (number _) = none
as_str (array _) = none
as_str (object _) = none

-- How deep objects stand in objects.
abbrev mutual
  pub height : Json → ℕ
  height (object fs) = suc (height_fields fs)
  height null = 0
  height (bool _) = 0
  height (number _) = 0
  height (text _) = 0
  height (array _) = 0

  pub height_fields : Fields → ℕ
  height_fields end = 0
  height_fields (field k v fs) = max (height v) (height_fields fs)

height-get_field :
    (k : String) (fs : Fields) (w : Json) → get_field k fs ≡ some w → height w ≤ height_fields fs
height-get_field k end w h = cc
height-get_field k (field j v fs) w h = elim (Bool-cases (str_eq j k)) [
  | inl e ↦
      let found : some v ≡ some w = rw e at h in
      let same : v ≡ w = cc in
      let le : height v ≤ height_fields (field j v fs) = omega arith in
      subst (λ x. height x ≤ height_fields (field j v fs)) same le
  | inr e ↦ let below = height-get_field k fs w (rw e at h) in omega (arith, below)
]

-- A member of an object is less deep than the object.
pub height-get : (k : String) (v w : Json) → get k v ≡ some w → height w < height v
height-get k (object fs) w h = let le = height-get_field k fs w h in omega (arith, le)
height-get k null w h = cc
height-get k (bool _) w h = cc
height-get k (number _) w h = cc
height-get k (text _) w h = cc
height-get k (array _) w h = cc

get-set_field :
    (k j : String) (f : Json → Json) (fs : Fields)
    → get_field j (set_field k f fs)
      ≡ (if str_eq k j then Option.map f (get_field j fs) else get_field j fs)
get-set_field k j f end = ground arith
get-set_field k j f (field i v fs) =
    ground (arith, str_eq_iff k j, str_eq_iff i k, str_eq_iff i j, get-set_field k j f fs)

-- An assignment changes the field that it names, if there is one, and no other.
pub get-update :
    (k j : String) (f : Json → Json) (v : Json)
    → get j (update k f v) ≡ (if str_eq k j then Option.map f (get j v) else get j v)
get-update k j f (object fs) = get-set_field k j f fs
get-update k j f null = ground arith
get-update k j f (bool _) = ground arith
get-update k j f (number _) = ground arith
get-update k j f (text _) = ground arith
get-update k j f (array _) = ground arith
