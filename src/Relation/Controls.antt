-- ===== src/Relation/Controls.antt =====
-- src/as-relation.c: the messages on input controls, and the check of a control.
use Prim.Native.String.{String}
use appstream.Base.{Bool, true, false, ◌||◌, Option, none, some, [], ◌∷◌, if◌then◌else◌}
use appstream.Relation.Kinds.{RelationKind, ControlKind}
use appstream.Relation.{Relation, get_value_control_kind}
use appstream.Relation.Check.{
  unknown, not_satisfied, satisfied, system, control, Message, Verdict, fails, settled, Checks,
  finish,
}
use appstream.SystemInfo.{Host, CheckResult, is_found, has_input_control}

-- The device names of `_as_get_control_missing_message`, and those of its last part.
unfoldable pub control_name : ControlKind → Option String
control_name ControlKind.pointing = some "pointing device (e.g. a mouse)"
control_name ControlKind.keyboard = some "keyboard"
control_name ControlKind.gamepad = some "gamepad"
control_name ControlKind.tv_remote = some "tv remote"
control_name ControlKind.tablet = some "graphics tablet"
control_name _ = none

unfoldable pub control_name_plural : ControlKind → Option String
control_name_plural ControlKind.pointing = some "pointing devices (e.g. mice)"
control_name_plural ControlKind.keyboard = some "keyboards"
control_name_plural ControlKind.gamepad = some "gamepads"
control_name_plural ControlKind.tv_remote = some "tv remotes"
control_name_plural ControlKind.tablet = some "graphics tablets"
control_name_plural _ = none

-- A message of the control functions: a format, and the device name for its placeholder.
abbrev ControlText : Type 0
ControlText = Option (String × Option String)

-- The messages on the kinds that have no device name.
abbrev by_sense : ControlKind → String → String → String → String → ControlText
by_sense ControlKind.touch touch voice vision console = some (touch, none)
by_sense ControlKind.voice touch voice vision console = some (voice, none)
by_sense ControlKind.vision touch voice vision console = some (vision, none)
by_sense ControlKind.console touch voice vision console = some (console, none)
by_sense _ touch voice vision console = none

-- `_as_get_control_missing_message`
unfoldable pub get_control_missing_message : ControlKind → RelationKind → ControlText
get_control_missing_message c RelationKind.requires = elim (control_name c) [
  | some name ↦ some ("This software requires a %s for input.", some name)
  | none ↦
      by_sense c "This software requires a touch input device."
        "This software requires a microphone to be controlled via voice input."
        "This software requires a camera for input control."
        "This software requires a method for console input."
]
get_control_missing_message c RelationKind.recommends = elim (control_name c) [
  | some name ↦ some ("This software recommends a %s for input.", some name)
  | none ↦
      by_sense c "This software recommends a touch input device."
        "This software recommends a microphone to be controlled via voice input."
        "This software recommends a camera for input control."
        "This software recommends a method for console input."
]
get_control_missing_message c RelationKind.supports = elim (control_name_plural c) [
  | some name ↦ some ("This software supports %s.", some name)
  | none ↦
      by_sense c "This software supports touch input."
        "This software can be controlled via voice input."
        "This software can be controlled via a camera."
        "This software supports operation via console commands."
]
get_control_missing_message c RelationKind.unknown = none

-- `_as_get_control_found_message`
unfoldable pub get_control_found_message : ControlKind → Option String
get_control_found_message ControlKind.pointing =
    some "Pointing device (e.g. a mouse or touchpad) found."
get_control_found_message ControlKind.keyboard = some "Physical keyboard found."
get_control_found_message ControlKind.gamepad = some "Gamepad found."
get_control_found_message ControlKind.tv_remote = some "TV remote found."
get_control_found_message ControlKind.tablet = some "Graphics tablet found."
get_control_found_message ControlKind.touch = some "Touch input device found."
get_control_found_message ControlKind.voice = some "Microphone for voice input control found."
get_control_found_message ControlKind.vision = some "Camera for input control found."
get_control_found_message ControlKind.console = some "Console interface available."
get_control_found_message ControlKind.unknown = none

abbrev is_no_match : CheckResult → Bool
is_no_match CheckResult.no_match = true
is_no_match _ = false

abbrev is_supports : RelationKind → Bool
is_supports RelationKind.supports = true
is_supports _ = false

-- `set_message (rcres, "%s", text)`, where the text has its own placeholder filled in.
abbrev pub control_message : ControlText → Option Message
control_message t = some (record { format = "%s"; args = control t ∷ [] })

-- The two settings of status and message: the second overwrites the first.
unfoldable pub control_verdict : Relation → ControlKind → CheckResult → Verdict
control_verdict r c CheckResult.error = fails system
control_verdict r c res =
    let missing = control_message (get_control_missing_message c r.kind) in
    let present =
      control_message
        (elim (get_control_found_message c) [ none ↦ none | some t ↦ some (t, none) ]) in
    let first =
      if is_no_match res || is_supports r.kind
      then settled r not_satisfied missing
      else settled r unknown none in
    if is_found res then settled r satisfied present else first

-- User input controls
unfoldable pub check_control : Host → Relation → Checks
check_control h r s =
    let c = get_value_control_kind r in
    let (s', res) = has_input_control h c s in finish (control_verdict r c res) s'
