-- ===== src/Component/Relations/Templates.antt =====
-- The score of a component without relations on the templates.
use mathlib.Core.Path.{subst}
use appstream.Base.{Bool, true, false, some, if◌then◌else◌, ℤ, pos, ◌≡◌, refl, List}
use appstream.Relation.{set_value_px, get_value_px, get_value_control_kind, control_of_int}
use appstream.Relation.Check.{compare_int_match}
use appstream.Relation.Amounts.{check_display_length, display_verdict}
use appstream.Relation.Controls.{check_control, control_verdict}
use appstream.Relation.Satisfied.{is_satisfied}
use appstream.Relation.Score.{
  get_compatibility_score, tally_requires, tally_result, tally_all, final_score,
}
use appstream.SystemInfo.{
  Host, SystemInfo, get_display_length, has_input_control, find_input_controls,
  input_control_answer, set_display_length, mark_input_control_status,
}
use appstream.SystemInfo.Template.{ChassisKind, desktop_template, new_template_for_chassis}
use appstream.Vercmp.{value}
use appstream.Component.Relations.{
  no_relations, add_relation, implicit_display, implicit_control, set_value_control_kind,
  has_relations, make_implicit_relations_explicit, is_left_out, Reported, report,
  check_relations_internal, check_more, check_all, checks_of, get_system_compatibility_score,
}

abbrev is_desktop : ChassisKind → Bool
is_desktop ChassisKind.desktop = true
is_desktop ChassisKind.laptop = true
is_desktop _ = false

-- The score comes out, with some list of results.
abbrev Scores : Host → Bool → SystemInfo → ℤ → Type 0
Scores h b s n =
    (rs : List Reported) × ((get_system_compatibility_score h b no_relations s).1 ≡ value (n, rs))

some_inj : {s t : SystemInfo} → some s ≡ some t → s ≡ t
some_inj e = cc

-- A component without relations scores 100 on the template of a desktop or a laptop, and 0 on the
-- other templates, on every host, with and without the treatment of templates: it is taken to
-- require a display, a keyboard and a pointing device.
pub template_score :
    (h : Host) (b : Bool) (c : ChassisKind) (s : SystemInfo)
    → new_template_for_chassis c ≡ some s
    → (rs : List Reported) × ((get_system_compatibility_score h b no_relations s).1
        ≡ value (if is_desktop c then pos 100 else pos 0, rs))
unfolding get_system_compatibility_score check_all check_more check_relations_internal
    make_implicit_relations_explicit add_relation implicit_display implicit_control
    set_value_control_kind has_relations is_left_out report checks_of is_satisfied get_value_px
    set_value_px get_value_control_kind control_of_int compare_int_match check_display_length
    display_verdict check_control control_verdict get_compatibility_score tally_requires
    tally_result tally_all final_score get_display_length has_input_control find_input_controls
    input_control_answer desktop_template set_display_length mark_input_control_status
    new_template_for_chassis
template_score h true ChassisKind.desktop s e =
    subst (λ s. Scores h true s (pos 100)) (some_inj e) (_, refl)
template_score h false ChassisKind.desktop s e =
    subst (λ s. Scores h false s (pos 100)) (some_inj e) (_, refl)
template_score h true ChassisKind.laptop s e =
    subst (λ s. Scores h true s (pos 100)) (some_inj e) (_, refl)
template_score h false ChassisKind.laptop s e =
    subst (λ s. Scores h false s (pos 100)) (some_inj e) (_, refl)
template_score h true ChassisKind.server s e =
    subst (λ s. Scores h true s (pos 0)) (some_inj e) (_, refl)
template_score h false ChassisKind.server s e =
    subst (λ s. Scores h false s (pos 0)) (some_inj e) (_, refl)
template_score h true ChassisKind.tablet s e =
    subst (λ s. Scores h true s (pos 0)) (some_inj e) (_, refl)
template_score h false ChassisKind.tablet s e =
    subst (λ s. Scores h false s (pos 0)) (some_inj e) (_, refl)
template_score h true ChassisKind.handset s e =
    subst (λ s. Scores h true s (pos 0)) (some_inj e) (_, refl)
template_score h false ChassisKind.handset s e =
    subst (λ s. Scores h false s (pos 0)) (some_inj e) (_, refl)
template_score h b ChassisKind.unknown s e = absurd (cc)
