-- ===== src/Validator/Tags/Custom.antt =====
-- src/as-validator-issue-tag.h: the last rows of the table `as_validator_issue_tag_list`.
use appstream.Base.{List, [], ◌∷◌, codes}
use appstream.Validator.Issues.{Severity, TagData}

abbrev pub custom_tags : List TagData
custom_tags =
    (record {
      tag = codes "custom-key-missing";
      severity = Severity.error;
      explanation = "This `custom` tag value is missing a `key` attribute.";
    })
    ∷ (record {
      tag = codes "custom-key-duplicated";
      severity = Severity.error;
      explanation = "A key can only be used once.";
    })
    ∷ (record {
      tag = codes "custom-value-empty";
      severity = Severity.info;
      explanation = "This custom value is empty.";
    })
    ∷ (record {
      tag = codes "metainfo-localized-keywords-tag";
      severity = Severity.error;
      explanation =
          "A `keywords` tag must not be localized in metainfo files (upstream metadata). Localize the individual keyword entries instead.";
    })
    ∷ []
