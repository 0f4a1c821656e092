-- ===== src/Component/Relations/Tests.antt =====
-- Runs of the component routines, and their theorems at concrete components.
use appstream.Base.{true, false, none, some, [], ◌∷◌, pos, ◌≡◌, refl, List}
use appstream.Component.Relations.{
  Reported, set_value_control_kind, check_relations_internal, no_relations,
  get_system_compatibility_score, report,
}
use appstream.Component.Relations.Results.{kept, relations_checked, check_relations-kept}
use appstream.Component.Relations.Templates.{template_score}
use appstream.Relation.Kinds.{RelationKind, ItemKind, ControlKind}
use appstream.Relation.{Relation, new, get_value_control_kind, control_of_int}
use appstream.Relation.Satisfied.{is_satisfied}
use appstream.Relation.Controls.{
  control_message, check_control, control_verdict, get_control_found_message,
  get_control_missing_message,
}
use appstream.Relation.Check.{Status, Error}
use appstream.SystemInfo.{
  Host, no_match, set_display_length, has_input_control, find_input_controls, input_control_answer,
  mark_input_control_status,
}
use appstream.SystemInfo.Template.{ChassisKind, desktop_template, new_template_for_chassis}
use appstream.Vercmp.{value}

abbrev bare_host : Host
bare_host = record {
  uname = none;
  physical_memory = 2048;
  sys_modaliases = [];
  device_name = λ m. none;
  has_device_with_property = λ key. no_match;
  pattern_match_simple = λ p s. false;
}

abbrev keyboard_relation : Relation
keyboard_relation =
    set_value_control_kind ControlKind.keyboard
      (record new { kind = RelationKind.requires; item_kind = ItemKind.control })

abbrev firmware_relation : Relation
firmware_relation = record new { kind = RelationKind.requires; item_kind = ItemKind.firmware }

-- The firmware check is not implemented, the template has a keyboard.
abbrev two_results : List Reported
two_results =
    (record {
      check = record { relation = some firmware_relation; status = Status.error; message = none };
      error_code = some Error.not_implemented;
    })
    ∷ (record {
      check = record {
        relation = some keyboard_relation;
        status = Status.satisfied;
        message = control_message (some ("Physical keyboard found.", none));
      };
      error_code = none;
    })
    ∷ []

check_relations-kept_example :
    relations_checked two_results ≡ kept false (firmware_relation ∷ keyboard_relation ∷ [])
unfolding check_relations_internal report is_satisfied check_control get_value_control_kind
    control_of_int set_value_control_kind control_verdict get_control_found_message
    has_input_control find_input_controls input_control_answer desktop_template set_display_length
    mark_input_control_status get_control_missing_message
check_relations-kept_example =
    check_relations-kept bare_host none false (firmware_relation ∷ keyboard_relation ∷ [])
      desktop_template two_results refl

template_score_example :
    (rs : List Reported) × ((get_system_compatibility_score bare_host true no_relations
        desktop_template).1
      ≡ value (pos 100, rs))
unfolding new_template_for_chassis
template_score_example = template_score bare_host true ChassisKind.desktop desktop_template refl
