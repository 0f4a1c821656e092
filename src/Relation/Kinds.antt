-- ===== src/Relation/Kinds.antt =====
-- src/as-relation.c and src/as-relation.h: the enumerations of relations and their texts.
pub mod RoundTrip
use appstream.Base.{
  Option, none, some, ◌≡◌, refl, Bytes, codes, str_equal, if◌then◌else◌, Bool, false,
}

-- `AsRelationKind`
pub data RelationKind : Type 0 where
  unknown requires recommends supports : RelationKind

-- `AsRelationItemKind`
pub data ItemKind : Type 0 where
  unknown id modalias kernel memory firmware control display_length hardware internet : ItemKind

-- `AsRelationCompare`
pub data Compare : Type 0 where
  unknown eq ne lt gt le ge : Compare

-- `AsControlKind`
pub data ControlKind : Type 0 where
  unknown pointing keyboard console touch gamepad voice vision tv_remote tablet : ControlKind

-- `AsDisplaySideKind`
pub data DisplaySideKind : Type 0 where
  unknown shortest longest : DisplaySideKind

-- `AsInternetKind`
pub data InternetKind : Type 0 where
  unknown always offline_only first_run : InternetKind

-- `g_strcmp0 (s, literal) == 0`; NULL differs from every literal.
abbrev pub is_text : Option Bytes → Bytes → Bool
is_text none t = false
is_text (some s) t = str_equal s t

pub relation_kind_to_string : RelationKind → Bytes
relation_kind_to_string requires = codes "requires"
relation_kind_to_string recommends = codes "recommends"
relation_kind_to_string supports = codes "supports"
relation_kind_to_string unknown = codes "unknown"

pub relation_kind_from_string : Option Bytes → RelationKind
relation_kind_from_string s =
    if is_text s (codes "requires")
    then requires
    else if is_text s (codes "recommends")
    then recommends
    else if is_text s (codes "supports")
    then supports
    else unknown

pub item_kind_to_string : ItemKind → Bytes
item_kind_to_string id = codes "id"
item_kind_to_string modalias = codes "modalias"
item_kind_to_string kernel = codes "kernel"
item_kind_to_string memory = codes "memory"
item_kind_to_string firmware = codes "firmware"
item_kind_to_string control = codes "control"
item_kind_to_string display_length = codes "display_length"
item_kind_to_string hardware = codes "hardware"
item_kind_to_string internet = codes "internet"
item_kind_to_string unknown = codes "unknown"

unfoldable pub item_kind_from_string : Option Bytes → ItemKind
item_kind_from_string s =
    if is_text s (codes "id")
    then id
    else if is_text s (codes "modalias")
    then modalias
    else if is_text s (codes "kernel")
    then kernel
    else if is_text s (codes "memory")
    then memory
    else if is_text s (codes "firmware")
    then firmware
    else if is_text s (codes "control")
    then control
    else if is_text s (codes "display_length")
    then display_length
    else if is_text s (codes "hardware")
    then hardware
    else if is_text s (codes "internet")
    then internet
    else unknown

-- The names, then the symbols of YAML, then NULL.
unfoldable pub compare_from_string : Option Bytes → Compare
compare_from_string none = ge
compare_from_string (some s) =
    if str_equal s (codes "eq")
    then eq
    else if str_equal s (codes "ne")
    then ne
    else if str_equal s (codes "gt")
    then gt
    else if str_equal s (codes "lt")
    then lt
    else if str_equal s (codes "ge")
    then ge
    else if str_equal s (codes "le")
    then le
    else if str_equal s (codes "==")
    then eq
    else if str_equal s (codes "!=")
    then ne
    else if str_equal s (codes ">>")
    then gt
    else if str_equal s (codes "<<")
    then lt
    else if str_equal s (codes ">=")
    then ge
    else if str_equal s (codes "<=")
    then le
    else unknown

pub compare_to_string : Compare → Option Bytes
compare_to_string eq = some (codes "eq")
compare_to_string ne = some (codes "ne")
compare_to_string gt = some (codes "gt")
compare_to_string lt = some (codes "lt")
compare_to_string ge = some (codes "ge")
compare_to_string le = some (codes "le")
compare_to_string unknown = none

pub compare_to_symbols_string : Compare → Option Bytes
compare_to_symbols_string eq = some (codes "==")
compare_to_symbols_string ne = some (codes "!=")
compare_to_symbols_string gt = some (codes ">>")
compare_to_symbols_string lt = some (codes "<<")
compare_to_symbols_string ge = some (codes ">=")
compare_to_symbols_string le = some (codes "<=")
compare_to_symbols_string unknown = none

pub control_kind_to_string : ControlKind → Bytes
control_kind_to_string pointing = codes "pointing"
control_kind_to_string keyboard = codes "keyboard"
control_kind_to_string console = codes "console"
control_kind_to_string touch = codes "touch"
control_kind_to_string gamepad = codes "gamepad"
control_kind_to_string voice = codes "voice"
control_kind_to_string vision = codes "vision"
control_kind_to_string tv_remote = codes "tv-remote"
control_kind_to_string tablet = codes "tablet"
control_kind_to_string unknown = codes "unknown"

pub control_kind_from_string : Option Bytes → ControlKind
control_kind_from_string s =
    if is_text s (codes "pointing")
    then pointing
    else if is_text s (codes "keyboard")
    then keyboard
    else if is_text s (codes "console")
    then console
    else if is_text s (codes "touch")
    then touch
    else if is_text s (codes "gamepad")
    then gamepad
    else if is_text s (codes "voice")
    then voice
    else if is_text s (codes "vision")
    then vision
    else if is_text s (codes "tv-remote")
    then tv_remote
    else if is_text s (codes "tablet")
    then tablet
    else unknown

pub display_side_kind_to_string : DisplaySideKind → Bytes
display_side_kind_to_string shortest = codes "shortest"
display_side_kind_to_string longest = codes "longest"
display_side_kind_to_string unknown = codes "unknown"

pub display_side_kind_from_string : Option Bytes → DisplaySideKind
display_side_kind_from_string none = shortest
display_side_kind_from_string (some s) =
    if str_equal s (codes "shortest")
    then shortest
    else if str_equal s (codes "longest")
    then longest
    else unknown

pub internet_kind_to_string : InternetKind → Bytes
internet_kind_to_string always = codes "always"
internet_kind_to_string offline_only = codes "offline-only"
internet_kind_to_string first_run = codes "first-run"
internet_kind_to_string unknown = codes "unknown"

pub internet_kind_from_string : Option Bytes → InternetKind
internet_kind_from_string s =
    if is_text s (codes "always")
    then always
    else if is_text s (codes "offline-only")
    then offline_only
    else if is_text s (codes "first-run")
    then first_run
    else unknown
