-- ===== src/Validator/Tests.antt =====
-- Runs of the validator, and its theorems at a concrete file.
use appstream.Base.{pos, true, false, Option, none, some, [], ◌∷◌, Bytes, codes, ◌≡◌, ◌↔◌, refl}
use appstream.Spdx.{Tables}
use appstream.Spdx.Expression.{is_metadata_license}
use appstream.Validator.Issues.{Severity, Printf, Issue}
use appstream.Validator.Tags.{validator_issue_tag_list}
use appstream.Validator.{
  Component, Node, Validator, new, add_issue, make_issue, check_success, find_tag, has_duplicate,
  is_fatal,
}
use appstream.Validator.Override.{
  is_in, add_override, apply_override, add_overrides, IsFailing, InvalidOverride,
}
use appstream.Validator.Success.{add_overrides-check_success}
use appstream.Validator.ComponentId.{Library, component_id_issues}
use appstream.Validator.ComponentId.Clean.{StartsWell, IsClean, component_id_issues-IsClean}
use appstream.Validator.License.{
  metadata_license_issues, project_license_issues, update_contact_issues,
}
use appstream.Validator.License.Metadata.{metadata_license_issues-is_metadata_license}
use appstream.Validator.Markup.{NodeType, Tree, Forest}
use appstream.Validator.Description.{DescriptionTag, FormatStyle, description_issues}
use appstream.Validator.Registered.{AreRegistered}
use appstream.Validator.Registered.Markup.{checks-AreRegistered}

abbrev plain_printf : Printf
plain_printf = record { vprintf = λ format args. format; print_long = λ n. codes "3" }

abbrev plain_node : Bytes → Option Bytes → Node
plain_node name text = record {
  name = name;
  line = pos 3;
  value = text;
  value_raw = text;
  lang = none;
}

abbrev an_app : Component
an_app = record {
  id = some (codes "org.example.App");
  name = some (codes "App");
  project_group = none;
  is_merge = false;
  is_desktop_app = true;
}

abbrev small_library : Library
small_library = record { tld_list = some (codes "\ncom\norg\n"); utf8_substring = λ s i j. s }

abbrev small_tables : Tables
small_tables = record {
  license_ids = codes "MIT" ∷ [];
  exception_ids = [];
  replace_once = λ find replace s. s;
}

-- No tag is registered twice, so the warning of `as_validator_init` is never given.
no_tag_twice : has_duplicate validator_issue_tag_list ≡ false
unfolding has_duplicate find_tag validator_issue_tag_list
no_tag_twice = refl

-- The error for a component id may not be made an info.
id_stays_an_error :
    (add_override (codes "cid-is-not-rdns") (some Severity.info) validator_issue_tag_list).1
    ≡ some InvalidOverride.downgrade_not_allowed
unfolding add_override apply_override find_tag validator_issue_tag_list is_fatal is_in
id_stays_an_error = refl

id-IsFailing : IsFailing validator_issue_tag_list (codes "cid-is-not-rdns")
unfolding find_tag validator_issue_tag_list is_fatal
id-IsFailing = record {
  row = record {
    tag = codes "cid-is-not-rdns";
    severity = Severity.error;
    explanation =
        "The component ID is required to follow a reverse domain-name scheme for its name. See the AppStream specification for details.";
  };
  found = refl;
  failing = refl;
}

add_overrides-check_success_example :
    check_success (
      add_issue plain_printf
        (add_overrides
          ((codes "cid-is-not-rdns", some Severity.info) ∷ [])
          validator_issue_tag_list)
        none
        (codes "cid-is-not-rdns")
        none
        new)
    ≡ false
unfolding is_in
add_overrides-check_success_example =
    add_overrides-check_success plain_printf validator_issue_tag_list
      ((codes "cid-is-not-rdns", some Severity.info) ∷ []) none (codes "cid-is-not-rdns") none new
      refl id-IsFailing

abbrev one_issue : Validator
one_issue = add_issue plain_printf validator_issue_tag_list none (codes "tag-empty") none new

abbrev second_issue : Issue
second_issue =
    make_issue plain_printf validator_issue_tag_list none (codes "tag-empty")
      (some (codes "%s", codes "id" ∷ [])) one_issue

component_id_issues-IsClean_example :
    (component_id_issues small_library
        (plain_node (codes "id") none)
        an_app
        (codes "org.example.app")
      ≡ [])
    ↔ (StartsWell (codes "org.example.app")
        × (an_app.is_merge ≡ false → IsClean small_library an_app (codes "org.example.app")))
component_id_issues-IsClean_example =
    component_id_issues-IsClean small_library (plain_node (codes "id") none) an_app
      (codes "org.example.app")

metadata_license_issues-is_metadata_license_example :
    (metadata_license_issues small_tables
        (plain_node (codes "metadata_license") (some (codes "MIT")))
      ≡ [])
    ↔ (is_metadata_license small_tables (some (codes "MIT")) ≡ true)
metadata_license_issues-is_metadata_license_example =
    metadata_license_issues-is_metadata_license small_tables
      (plain_node (codes "metadata_license") (some (codes "MIT")))

abbrev a_description : DescriptionTag
a_description = record {
  node = plain_node (codes "description") none;
  mode = FormatStyle.metainfo;
  main_description = true;
  name = some (codes "App");
  strip = λ s. s;
}

abbrev one_paragraph : Forest
one_paragraph =
    Forest.child
      (Tree.tree NodeType.element (plain_node (codes "p") (some (codes "an app"))) Forest.end)
      Forest.end

checks-AreRegistered_example :
    AreRegistered
      (component_id_issues small_library (plain_node (codes "id") none) an_app (codes "1-A"))
    × AreRegistered (project_license_issues small_tables (λ s. s) (plain_node (codes "id") none))
    × AreRegistered (metadata_license_issues small_tables (plain_node (codes "id") none))
    × AreRegistered (update_contact_issues (plain_node (codes "id") none))
    × AreRegistered (description_issues a_description one_paragraph)
checks-AreRegistered_example =
    checks-AreRegistered small_library small_tables (λ s. s) (plain_node (codes "id") none) an_app
      (codes "1-A") a_description one_paragraph
