-- ===== src/Relation.antt =====
-- src/as-relation.c: relations between components and their environment, with their values.
pub mod Kinds
mod Tests
pub mod Check
pub mod Kernel
pub mod Amounts
pub mod Controls
pub mod Satisfied
pub mod Version
pub mod Score
use appstream.Base.{
  ℕ, ◌≡◌, Bool, true, false, not, ◌&&◌, ◌||◌, Option, none, some, ◌==◌, if◌then◌else◌, Bytes, ℤ,
  pos, negsuc,
}
use appstream.Relation.Kinds.{
  RelationKind, ItemKind, Compare, ControlKind, DisplaySideKind, InternetKind,
}
use appstream.Vercmp.{Sign, less, same, more, Outcome, value, vercmp_simple, outcome_map}

-- The `GVariant` of a relation: a string or an int32. GLib answers a read of the other type with
-- NULL or 0.
pub data Value : Type 0 where
  text : Bytes → Value
  int32 : ℤ → Value

-- `AsRelationPrivate`
pub record Relation : Type 0 where
  pub kind : RelationKind
  pub item_kind : ItemKind
  pub compare : Compare
  pub value : Option Value
  pub version : Option Bytes
  pub display_side_kind : DisplaySideKind
  pub bandwidth_mbitps : ℕ

-- `as_relation_new`: zeroed memory, and the comparison of `as_relation_init`.
abbrev pub new : Relation
new = record {
  kind = RelationKind.unknown;
  item_kind = ItemKind.unknown;
  compare = Compare.ge;
  value = none;
  version = none;
  display_side_kind = DisplaySideKind.unknown;
  bandwidth_mbitps = 0;
}

-- Only these two kinds of items have a plain number.
abbrev has_number : ItemKind → Bool
has_number ItemKind.memory = true
has_number ItemKind.display_length = true
has_number _ = false

pub get_value_str : Relation → Option Bytes
get_value_str r = elim r.value [ some (text s) ↦ some s | some (int32 n) ↦ none | none ↦ none ]

set_value_str : Bytes → Relation → Relation
set_value_str s r = if has_number r.item_kind then r else record r { value = some (text s) }

-- `g_variant_get_int32`
abbrev variant_int32 : Value → ℤ
variant_int32 (text s) = pos 0
variant_int32 (int32 n) = n

pub get_value_int : Relation → ℤ
get_value_int r = elim r.value [
  | none ↦ pos 0
  | some v ↦ if not (has_number r.item_kind) then pos 0 else variant_int32 v
]

set_value_int : ℤ → Relation → Relation
set_value_int n r = if not (has_number r.item_kind) then r else record r { value = some (int32 n) }

-- The kind with a given number. Numbers of no kind are read as the unknown kind, to which the
-- library answers alike.
unfoldable pub control_of_int : ℤ → ControlKind
control_of_int (negsuc n) = ControlKind.unknown
control_of_int (pos n) =
    if n == 1
    then ControlKind.pointing
    else if n == 2
    then ControlKind.keyboard
    else if n == 3
    then ControlKind.console
    else if n == 4
    then ControlKind.touch
    else if n == 5
    then ControlKind.gamepad
    else if n == 6
    then ControlKind.voice
    else if n == 7
    then ControlKind.vision
    else if n == 8
    then ControlKind.tv_remote
    else if n == 9
    then ControlKind.tablet
    else ControlKind.unknown

abbrev is_control : ItemKind → Bool
is_control ItemKind.control = true
is_control _ = false

abbrev is_display_length : ItemKind → Bool
is_display_length ItemKind.display_length = true
is_display_length _ = false

unfoldable pub get_value_control_kind : Relation → ControlKind
get_value_control_kind r =
    if not (is_control r.item_kind)
    then ControlKind.unknown
    else elim r.value [ none ↦ ControlKind.unknown | some v ↦ control_of_int (variant_int32 v) ]

unfoldable pub get_value_px : Relation → ℤ
get_value_px r =
    if not (is_display_length r.item_kind)
    then negsuc 0
    else elim r.value [ none ↦ negsuc 0 | some v ↦ variant_int32 v ]

unfoldable pub set_value_px : ℤ → Relation → Relation
set_value_px n r =
    if not (is_display_length r.item_kind) then r else record r { value = some (int32 n) }

-- The results that fulfil a comparison in `as_relation_version_compare`, where the relation's own
-- version stands first.
pub fulfils : Compare → Sign → Bool
fulfils Compare.unknown s = false
fulfils Compare.eq s = elim s [ same ↦ true | _ ↦ false ]
fulfils Compare.ne s = elim s [ same ↦ false | _ ↦ true ]
fulfils Compare.lt s = elim s [ more ↦ true | _ ↦ false ]
fulfils Compare.gt s = elim s [ less ↦ true | _ ↦ false ]
fulfils Compare.le s = elim s [ less ↦ false | _ ↦ true ]
fulfils Compare.ge s = elim s [ more ↦ false | _ ↦ true ]

abbrev pub version_compare_by : Compare → Option Bytes → Option Bytes → Outcome Bool
version_compare_by Compare.unknown own version = value false
version_compare_by c own version = outcome_map (fulfils c) (vercmp_simple own version)

-- `as_relation_version_compare`
pub version_compare : Relation → Option Bytes → Outcome Bool
version_compare r version = elim r.version [
  | none ↦ value true
  | some own ↦ version_compare_by r.compare (some own) version
]
