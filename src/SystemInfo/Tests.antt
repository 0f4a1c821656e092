-- ===== src/SystemInfo/Tests.antt =====
-- Runs of the system information, and its theorems at concrete systems.
use appstream.Base.{false, none, some, ◌≡◌, refl, codes, [], str_equal, if◌then◌else◌}
use appstream.Relation.Kinds.{ControlKind}
use appstream.SystemInfo.{
  Host, initial, found, no_match, get_kernel_version, find_input_controls, has_input_control,
  input_control_answer, read_kernel_details, probe, scan_pointing, scan_rest,
  mark_input_control_status,
}

-- A machine with a keyboard and a touchpad.
abbrev laptop_host : Host
laptop_host = record {
  uname = some (codes "Linux", codes "6.1.0-13");
  physical_memory = 16000;
  sys_modaliases = [];
  device_name = λ m. none;
  has_device_with_property = λ key.
      if str_equal key (codes "ID_INPUT_KEYBOARD")
      then found
      else if str_equal key (codes "ID_INPUT_TOUCHPAD")
      then found
      else no_match;
  pattern_match_simple = λ p s. false;
}

kernel_version_cut : (get_kernel_version laptop_host initial).1 ≡ some (codes "6.1.0")
unfolding get_kernel_version read_kernel_details
kernel_version_cut = refl

touchpad_points : (has_input_control laptop_host ControlKind.pointing initial).1 ≡ found
unfolding has_input_control find_input_controls probe scan_pointing scan_rest input_control_answer
    mark_input_control_status
touchpad_points = refl
