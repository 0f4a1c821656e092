-- ===== src/SystemInfo/Template.antt =====
-- src/as-system-info.c: as_system_info_new_template_for_chassis.
use appstream.Base.{true, false, Option, none, some}
use appstream.Relation.Kinds.{ControlKind, DisplaySideKind}
use appstream.SystemInfo.{
  SystemInfo, initial, set_display_length, mark_input_control_status, set_gui_available,
  set_memory_total,
}

-- `AsChassisKind`
pub data ChassisKind : Type 0 where
  unknown desktop laptop server tablet handset : ChassisKind

-- The state that `as_system_info_new_template_for_chassis` starts from.
abbrev template_base : SystemInfo
template_base = record initial {
  inputs_scanned = true;
  tested_input_controls = λ k. true;
  memory_total = 8192;
}

-- The template of a desktop or a laptop.
unfoldable pub desktop_template : SystemInfo
unfolding set_display_length mark_input_control_status
desktop_template = mark_input_control_status ControlKind.console true (
    mark_input_control_status ControlKind.keyboard true (
      mark_input_control_status ControlKind.pointing true (
        set_display_length DisplaySideKind.longest 1280
          (set_display_length DisplaySideKind.shortest 800 template_base))))

unfoldable pub new_template_for_chassis : ChassisKind → Option SystemInfo
unfolding set_display_length mark_input_control_status set_gui_available set_memory_total
new_template_for_chassis ChassisKind.desktop = some desktop_template
new_template_for_chassis ChassisKind.laptop = some desktop_template
new_template_for_chassis ChassisKind.server = some (
    set_gui_available false (
      mark_input_control_status ControlKind.console true
        (mark_input_control_status ControlKind.keyboard true template_base)))
new_template_for_chassis ChassisKind.tablet = some (
    mark_input_control_status ControlKind.touch true (
      set_display_length DisplaySideKind.longest 1024
        (set_display_length DisplaySideKind.shortest 600 (set_memory_total 4096 template_base))))
new_template_for_chassis ChassisKind.handset = some (
    mark_input_control_status ControlKind.touch true (
      set_display_length DisplaySideKind.longest 480
        (set_display_length DisplaySideKind.shortest 320 (set_memory_total 4096 template_base))))
new_template_for_chassis ChassisKind.unknown = none
