-- ===== src/SystemInfo.antt =====
-- src/as-system-info.c: what is known of the running system. The first use of a value reads it from
-- the host, and a setter overrides it.
pub mod Controls
pub mod Display
pub mod Template
mod Tests
use appstream.Base.{
  ℕ, Bool, true, false, not, ◌||◌, Option, none, some, List, [], ◌∷◌, ◌==◌, if◌then◌else◌, Bytes,
  codes, str_equal, str_rchr, length, ◌-◌, take,
}
use appstream.Relation.Kinds.{ControlKind, DisplaySideKind}

-- `AsCheckResult`
pub data CheckResult : Type 0 where
  error unknown no_match found : CheckResult

-- What the library asks of the operating system, udev and GLib: `uname` with its system and release,
-- the physical memory in MiB, the modaliases under /sys, the device names of the hardware
-- database, a device with a udev property of the value "1", and `g_pattern_match_simple`, which
-- takes the pattern first.
pub record Host : Type 0 where
  pub uname : Option (Bytes × Bytes)
  pub physical_memory : ℕ
  pub sys_modaliases : List Bytes
  pub device_name : Bytes → Option Bytes
  pub has_device_with_property : Bytes → CheckResult
  pub pattern_match_simple : Bytes → Bytes → Bool

-- `AsSystemInfoPrivate`, less the fields of the os-release file. The two flag words are sets.
pub record SystemInfo : Type 0 where
  pub kernel_name : Option Bytes
  pub kernel_version : Option Bytes
  pub memory_total : ℕ
  pub modaliases : List Bytes
  pub inputs_scanned : Bool
  pub input_controls : ControlKind → Bool
  pub tested_input_controls : ControlKind → Bool
  pub has_gui : Bool
  pub display_length_shortest : ℕ
  pub display_length_longest : ℕ

-- `as_system_info_init` on zeroed memory.
abbrev pub initial : SystemInfo
initial = record {
  kernel_name = none;
  kernel_version = none;
  memory_total = 0;
  modaliases = [];
  inputs_scanned = false;
  input_controls = λ k. false;
  tested_input_controls = λ k. false;
  has_gui = true;
  display_length_shortest = 0;
  display_length_longest = 0;
}

-- `as_system_info_read_kernel_details`: the release is cut at its last dash.
pub read_kernel_details : Host → SystemInfo → SystemInfo
read_kernel_details h s = elim s.kernel_name [
  | some name ↦ s
  | none ↦ elim h.uname [
    | none ↦ s
    | some (sysname, release) ↦ record s {
      kernel_name = some sysname;
      kernel_version = some (elim (str_rchr release b'-') [
        | none ↦ release
        | some t ↦ take (length release - length t) release
      ]);
    }
  ]
]

pub get_kernel_name : Host → SystemInfo → SystemInfo × Option Bytes
get_kernel_name h s = let s' = read_kernel_details h s in (s', s'.kernel_name)

pub get_kernel_version : Host → SystemInfo → SystemInfo × Option Bytes
get_kernel_version h s = let s' = read_kernel_details h s in (s', s'.kernel_version)

set_kernel : Option Bytes → Option Bytes → SystemInfo → SystemInfo
set_kernel name version s = record s { kernel_name = name; kernel_version = version }

-- The total is read again as long as it is 0.
pub get_memory_total : Host → SystemInfo → SystemInfo × ℕ
get_memory_total h s =
    let s' = if s.memory_total == 0 then record s { memory_total = h.physical_memory } else s in
    (s', s'.memory_total)

unfoldable pub set_memory_total : ℕ → SystemInfo → SystemInfo
set_memory_total mib s = record s { memory_total = mib }

-- The walk of /sys/devices is the host's list.
populate_modaliases : Host → SystemInfo → SystemInfo
populate_modaliases h s = elim s.modaliases [
  | [] ↦ record s { modaliases = h.sys_modaliases }
  | m ∷ ms ↦ s
]

-- The loop over the modaliases. The modalias is handed over as the pattern.
any_modalias_matches : Host → Bytes → List Bytes → Bool
any_modalias_matches h glob [] = false
any_modalias_matches h glob (m ∷ ms) =
    str_equal m glob || (h.pattern_match_simple m glob || any_modalias_matches h glob ms)

pub has_device_matching_modalias : Host → Bytes → SystemInfo → SystemInfo × Bool
has_device_matching_modalias h glob s =
    let s' = populate_modaliases h s in (s', any_modalias_matches h glob s'.modaliases)

-- The value of a kind in the enumeration.
abbrev pub control_index : ControlKind → ℕ
control_index ControlKind.unknown = 0
control_index ControlKind.pointing = 1
control_index ControlKind.keyboard = 2
control_index ControlKind.console = 3
control_index ControlKind.touch = 4
control_index ControlKind.gamepad = 5
control_index ControlKind.voice = 6
control_index ControlKind.vision = 7
control_index ControlKind.tv_remote = 8
control_index ControlKind.tablet = 9

-- `as_flags_add (flags, 1 << kind)`
abbrev flags_add : ControlKind → (ControlKind → Bool) → ControlKind → Bool
flags_add k flags j = control_index j == control_index k || flags j

-- `as_system_info_mark_input_control_status`
unfoldable pub mark_input_control_status : ControlKind → Bool → SystemInfo → SystemInfo
mark_input_control_status k is_found s = record s {
  tested_input_controls = flags_add k s.tested_input_controls;
  input_controls = if is_found then flags_add k s.input_controls else s.input_controls;
}

abbrev pub is_found : CheckResult → Bool
is_found found = true
is_found _ = false

-- What goes on unless the check failed.
abbrev pub unless_error {ℓ} : {A : Type ℓ} → CheckResult → A → A → A
unless_error error failed going = failed
unless_error _ failed going = going

-- One probe of the scan: on an error the scan stops with FALSE.
pub probe :
    Host
    → Bytes
    → ControlKind
    → (CheckResult → SystemInfo → SystemInfo × Bool)
    → SystemInfo
    → SystemInfo × Bool
probe h key k next s =
    let res = h.has_device_with_property key in
    unless_error res (s, false) (next res (mark_input_control_status k (is_found res) s))

-- The last three probes.
pub scan_rest : Host → SystemInfo → SystemInfo × Bool
scan_rest h = probe h (codes "ID_INPUT_JOYSTICK") ControlKind.gamepad (λ _.
    probe h (codes "ID_INPUT_TABLET") ControlKind.tablet
      (λ _. probe h (codes "ID_INPUT_TOUCHSCREEN") ControlKind.touch (λ _ s. (s, true))))

-- A touchpad counts as a pointing device where there is no mouse.
pub scan_pointing : Host → SystemInfo → SystemInfo × Bool
scan_pointing h = probe h (codes "ID_INPUT_MOUSE") ControlKind.pointing (λ res s.
    if not (is_found res)
    then probe h (codes "ID_INPUT_TOUCHPAD") ControlKind.pointing (λ _. scan_rest h) s
    else scan_rest h s)

-- `as_system_info_find_input_controls`; the flag says that no probe failed.
unfoldable pub find_input_controls : Host → SystemInfo → SystemInfo × Bool
find_input_controls h s =
    let console = mark_input_control_status ControlKind.console true s in
    let scan =
      probe h (codes "ID_INPUT_KEYBOARD") ControlKind.keyboard (λ _. scan_pointing h)
        (record console { inputs_scanned = true }) in
    if s.inputs_scanned then (s, true) else scan

-- The answer of `as_system_info_has_input_control` from the flags.
unfoldable pub input_control_answer : ControlKind → SystemInfo → CheckResult
input_control_answer k s =
    if s.input_controls k
    then found
    else if not (s.tested_input_controls k)
    then unknown
    else no_match

-- `as_system_info_has_input_control`
unfoldable pub has_input_control : Host → ControlKind → SystemInfo → SystemInfo × CheckResult
has_input_control h ControlKind.unknown s = (s, unknown)
has_input_control h k s =
    let (s', fine) = find_input_controls h s in
    (s', if fine then input_control_answer k s' else error)

-- `as_system_info_set_input_control`
pub set_input_control : Host → ControlKind → Bool → SystemInfo → SystemInfo
set_input_control h ControlKind.unknown f s = s
set_input_control h k f s = mark_input_control_status k f (find_input_controls h s).0

unfoldable pub set_gui_available : Bool → SystemInfo → SystemInfo
set_gui_available available s = record s { has_gui = available }

unfoldable pub get_display_length : DisplaySideKind → SystemInfo → ℕ
get_display_length DisplaySideKind.unknown s = 0
get_display_length DisplaySideKind.longest s = s.display_length_longest
get_display_length DisplaySideKind.shortest s = s.display_length_shortest

-- `as_system_info_set_display_length`; the store of the shortest side is made for both sides.
unfoldable pub set_display_length : DisplaySideKind → ℕ → SystemInfo → SystemInfo
set_display_length DisplaySideKind.unknown dip s = s
set_display_length DisplaySideKind.longest dip s = record s {
  display_length_longest = dip;
  display_length_shortest = dip;
}
set_display_length DisplaySideKind.shortest dip s = record s { display_length_shortest = dip }
