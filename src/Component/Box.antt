-- ===== src/Component/Box.antt =====
-- src/as-component-box.c: the component box, an array of components with distinct data ids.
pub mod Distinct
mod Tests
use appstream.Base.{
  ℕ, Bool, true, false, not, ◌||◌, Option, none, some, List, [], ◌∷◌, ◌++◌, if◌then◌else◌, Bytes,
  str_equal, ltb,
}
use appstream.Component.Search.Terms.{flags_contain}

-- `AS_COMPONENT_BOX_FLAG_NO_CHECKS`
abbrev pub no_checks : ℕ
no_checks = 1

pub data ErrorKind : Type 0 where
  exists : ErrorKind

-- Components, of which the box reads the data id alone.
module _ {ℓ} {A : Type ℓ} (data_id : A → Bytes) where
  pub is_member : Bytes → List A → Bool
  is_member id [] = false
  is_member id (c ∷ cs) = str_equal (data_id c) id || is_member id cs

-- `AsComponentBox`: `cpt_map` is a hash table from data ids to components, NULL without checks.
pub record Box {ℓ} (A : Type ℓ) : Type ℓ where
  pub flags : ℕ
  pub cpts : List A
  pub cpt_map : Option (List A)

module _ {ℓ} {A : Type ℓ} where
  -- `as_component_box_new`
  pub box_new : ℕ → Box A
  box_new flags = record {
    flags = flags;
    cpts = [];
    cpt_map = if flags_contain flags no_checks then none else some [];
  }

  -- `as_component_box_get_size`
  pub get_size : Box A → ℕ
  get_size b = count b.cpts
    where
      count : List A → ℕ
      count [] = 0
      count (c ∷ cs) = ℕ.suc (count cs)

  -- `as_component_box_is_empty`
  pub box_is_empty : Box A → Bool
  box_is_empty b = elim b.cpts [ [] ↦ true | c ∷ cs ↦ false ]

  -- `as_component_box_index_safe`
  pub index_safe : Box A → ℕ → Option A
  index_safe b index = nth b.cpts index
    where
      nth : List A → ℕ → Option A
      nth [] index = none
      nth (c ∷ cs) ℕ.zero = some c
      nth (c ∷ cs) (ℕ.suc index) = nth cs index

  -- The hash table with one more component.
  pub map_insert : A → Option (List A) → Option (List A)
  map_insert c none = none
  map_insert c (some m) = some (m ++ c ∷ [])

module _ {ℓ} {A : Type ℓ} (data_id : A → Bytes) where
  pub map_holds : Bytes → Option (List A) → Bool
  map_holds id none = false
  map_holds id (some m) = is_member data_id id m

  -- `as_component_box_add`; an error is G_IO_ERROR_EXISTS.
  pub box_add : Box A → A → Box A × Option ErrorKind
  box_add b cpt =
      if not (flags_contain b.flags no_checks)
      then (if map_holds (data_id cpt) b.cpt_map
          then (b, some exists)
          else (record b { cpts = b.cpts ++ cpt ∷ []; cpt_map = map_insert cpt b.cpt_map }, none))
      else (record b { cpts = b.cpts ++ cpt ∷ [] }, none)
