-- ===== src/Validator/Tags/Urls.antt =====
-- src/as-validator-issue-tag.h: the third rows of the table `as_validator_issue_tag_list`.
use appstream.Base.{List, [], ◌∷◌, codes}
use appstream.Validator.Issues.{Severity, TagData}

abbrev pub urls_tags : List TagData
urls_tags =
    (record {
      tag = codes "relation-item-no-value";
      severity = Severity.error;
      explanation =
          "A `requires` or `recommends` item requires a value to denote a valid relation.";
    })
    ∷ (record {
      tag = codes "relation-item-has-version";
      severity = Severity.warning;
      explanation =
          "Found `version` property on required/recommended item of a type that should not have or require a version.";
    })
    ∷ (record {
      tag = codes "relation-item-missing-compare";
      severity = Severity.info;
      explanation =
          "Found `version` property on this required/recommended item, but not `compare` property. It is recommended to explicitly define a comparison operation.";
    })
    ∷ (record {
      tag = codes "relation-item-invalid-vercmp";
      severity = Severity.error;
      explanation =
          "Invalid comparison operation on relation item. Only one of `eq/ne/lt/gt/le/ge` is permitted.";
    })
    ∷ (record {
      tag = codes "relation-item-has-vercmp";
      severity = Severity.info;
      explanation =
          "The relation item has a comparison operation set, but does not support any comparisons.";
    })
    ∷ (record {
      tag = codes "relation-item-redefined";
      severity = Severity.warning;
      explanation =
          "This relation item has already been defined once for this or a different relation type. Please do not redefine relations.";
    })
    ∷ (record {
      tag = codes "relation-memory-in-requires";
      severity = Severity.info;
      explanation =
          "Found a memory size relation in a `requires` tag. This means users will not be able to even install the component without having enough RAM. This is usually not intended and you want to use `memory` in the `recommends` tag instead.";
    })
    ∷ (record {
      tag = codes "relation-control-in-requires";
      severity = Severity.info;
      explanation =
          "Found a user input control relation in a `requires` tag. This means users will not be able to even install the component without having the defined input control available on the system. This is usually not intended and you want to use `control` in the `recommends` tag instead.";
    })
    ∷ (record {
      tag = codes "relation-control-value-invalid";
      severity = Severity.warning;
      explanation =
          "This `control` item defines an unknown input method and is invalid. Check the specification for a list of permitted values.";
    })
    ∷ (record {
      tag = codes "relation-display-length-value-invalid";
      severity = Severity.warning;
      explanation =
          "This `display_length` item contains an invalid display length. Its value must either be a shorthand string, or positive integer value denoting logical pixels. Please refer to the AppStream specification for more information on this tag.";
    })
    ∷ (record {
      tag = codes "relation-display-length-side-property-invalid";
      severity = Severity.warning;
      explanation =
          "This `side` property of this `display_length` item contains an invalid value. It must either be `shortest` or `longest`, or unset to imply `shortest` to make the item value refer to either the shortest or longest side of the display.";
    })
    ∷ (record {
      tag = codes "relation-hardware-value-invalid";
      severity = Severity.warning;
      explanation =
          "This `hardware` item contains an invalid value. It should be a Computer Hardware ID (CHID) UUID without braces.";
    })
    ∷ (record {
      tag = codes "relation-memory-value-invalid";
      severity = Severity.warning;
      explanation =
          "A `memory` item must only contain a non-zero integer value, depicting a system memory size in mebibyte (MiB)";
    })
    ∷ (record {
      tag = codes "relation-internet-value-invalid";
      severity = Severity.warning;
      explanation = "The set tag value is not valid for an `internet` relation.";
    })
    ∷ (record {
      tag = codes "relation-internet-bandwidth-offline";
      severity = Severity.warning;
      explanation =
          "The `bandwidth_mbitps` property is not allowed when using `offline-only` as value.";
    })
    ∷ (record {
      tag = codes "relation-internet-bandwidth-value-invalid";
      severity = Severity.warning;
      explanation =
          "The value of this property must be a positive integer value, describing the minimum required bandwidth in mbit/s.";
    })
    ∷ (record {
      tag = codes "component-type-invalid";
      severity = Severity.error;
      explanation = "The set component type is not a recognized, valid AppStream component type.";
    })
    ∷ (record {
      tag = codes "component-priority-in-metainfo";
      severity = Severity.warning;
      explanation =
          "The component has a priority value set. This is not allowed in metainfo files.";
    })
    ∷ (record {
      tag = codes "component-merge-in-metainfo";
      severity = Severity.warning;
      explanation =
          "The component has a `merge` method defined. This is not allowed in metainfo files.";
    })
    ∷ (record {
      tag = codes "component-id-missing";
      severity = Severity.error;
      explanation = "The component is missing an ID (<id/> tag).";
    })
    ∷ (record {
      tag = codes "component-name-missing";
      severity = Severity.error;
      explanation = "The component is missing a name (<name/> tag).";
    })
    ∷ (record {
      tag = codes "component-summary-missing";
      severity = Severity.error;
      explanation = "The component is missing a summary (<summary/> tag).";
    })
    ∷ (record {
      tag = codes "id-tag-has-type";
      severity = Severity.info;
      explanation =
          "The <id/> tag still contains a `type` property, probably from an old conversion to the recent metainfo format.";
    })
    ∷ (record {
      tag = codes "multiple-pkgname";
      severity = Severity.pedantic;
      explanation =
          "The `pkgname` tag appears multiple times. You should evaluate creating a metapackage containing the metainfo and .desktop files in order to avoid defining multiple package names per component.";
    })
    ∷ (record {
      tag = codes "name-has-dot-suffix";
      severity = Severity.pedantic;
      explanation = "The component name should (likely) not end with a dot (`.`).";
    })
    ∷ (record {
      tag = codes "summary-has-dot-suffix";
      severity = Severity.info;
      explanation = "The component summary should not end with a dot (`.`).";
    })
    ∷ []
