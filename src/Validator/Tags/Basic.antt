-- ===== src/Validator/Tags/Basic.antt =====
-- src/as-validator-issue-tag.h: the first rows of the table `as_validator_issue_tag_list`.
use appstream.Base.{List, [], ◌∷◌, codes}
use appstream.Validator.Issues.{Severity, TagData}

abbrev pub basic_tags : List TagData
basic_tags =
    (record {
      tag = codes "type-property-required";
      severity = Severity.error;
      explanation = "This tag requires a type property.";
    })
    ∷ (record {
      tag = codes "invalid-child-tag-name";
      severity = Severity.info;
      explanation = "Tags of this name are not permitted in this section.";
    })
    ∷ (record {
      tag = codes "metainfo-localized-description-tag";
      severity = Severity.error;
      explanation =
          "A <description/> tag must not be localized in metainfo files (upstream metadata). Localize the individual paragraphs instead.";
    })
    ∷ (record {
      tag = codes "catalog-localized-description-section";
      severity = Severity.error;
      explanation =
          "This element (paragraph, list, etc.) of a <description/> tag must not be localized individually in catalog metadata. Localize the whole <description/> tag instead. The AppStream metadata catalog generator (e.g. `appstream-generator`) will already do the right thing when compiling the data.";
    })
    ∷ (record {
      tag = codes "description-markup-invalid";
      severity = Severity.error;
      explanation =
          "AppStream descriptions support only a limited set of tags to format text: Paragraphs (<p/>) and lists (<ul/>, <ol/>). This description markup contains an invalid XML tag that would not be rendered correctly in applications supporting the metainfo specification.";
    })
    ∷ (record {
      tag = codes "description-para-markup-invalid";
      severity = Severity.error;
      explanation =
          "This description paragraph contains invalid markup. Currently, only <em/> and <code/> are permitted.";
    })
    ∷ (record {
      tag = codes "description-enum-item-invalid";
      severity = Severity.error;
      explanation = "Enumerations must only have list items (<li/>) as children.";
    })
    ∷ (record {
      tag = codes "description-first-para-too-short";
      severity = Severity.info;
      explanation =
          "The first `description/p` paragraph of this component might be too short (< 80 characters). Please consider starting with a longer paragraph to improve how the description looks like in software centers and to provide more detailed information on this component immediately in the first paragraph.";
    })
    ∷ (record {
      tag = codes "description-first-word-not-capitalized";
      severity = Severity.info;
      explanation =
          "The description line does not start with a capitalized word, project name or number.";
    })
    ∷ (record {
      tag = codes "description-has-plaintext-url";
      severity = Severity.warning;
      explanation =
          "The description contains a web URL in plain text. This is not allowed, please use the <url/> tag instead to share links.";
    })
    ∷ (record {
      tag = codes "tag-not-translatable";
      severity = Severity.error;
      explanation = "This tag is not translatable.";
    })
    ∷ (record {
      tag = codes "tag-duplicated";
      severity = Severity.error;
      explanation =
          "This tag must only appear once in this context. Having multiple tags of this kind is not valid.";
    })
    ∷ (record {
      tag = codes "tag-empty";
      severity = Severity.warning;
      explanation =
          "The mentioned tag is empty, which is highly likely not intended as it should have content.";
    })
    ∷ (record {
      tag = codes "tag-invalid-text-content";
      severity = Severity.error;
      explanation = "The mentioned tag has text content, even though it must not contain text.";
    })
    ∷ (record {
      tag = codes "cid-is-not-rdns";
      severity = Severity.error;
      explanation =
          "The component ID is required to follow a reverse domain-name scheme for its name. See the AppStream specification for details.";
    })
    ∷ (record {
      tag = codes "cid-desktopapp-is-not-rdns";
      severity = Severity.warning;
      explanation =
          "The component ID is not a reverse domain-name. Please update the ID to avoid future issues and be compatible with all AppStream implementations.\nYou may also consider to update the name of the accompanying .desktop file to follow the latest version of the Desktop-Entry specification and use a rDNS name for it as well. In any case, do not forget to mention the new desktop-entry in a <launchable/> tag for this component to keep the application launchable from software centers and the .desktop file data associated with the metainfo data.";
    })
    ∷ (record {
      tag = codes "cid-maybe-not-rdns";
      severity = Severity.info;
      explanation =
          "The component ID might not follow the reverse domain-name schema (the TLD used by it is not known to the validator).";
    })
    ∷ (record {
      tag = codes "cid-invalid-character";
      severity = Severity.error;
      explanation =
          "The component ID contains an invalid character. Only ASCII characters, dots and numbers are permitted.";
    })
    ∷ (record {
      tag = codes "cid-punctuation-prefix";
      severity = Severity.error;
      explanation = "The component ID starts with punctuation. This is not allowed.";
    })
    ∷ (record {
      tag = codes "cid-contains-hyphen";
      severity = Severity.info;
      explanation =
          "The component ID contains a hyphen/minus. Using a hyphen is strongly discouraged, to improve interoperability with other tools such as D-Bus. A good option is to replace any hyphens with underscores (`_`).";
    })
    ∷ (record {
      tag = codes "cid-has-number-prefix";
      severity = Severity.info;
      explanation =
          "The component ID contains a segment starting with a number. Starting a segment of the reverse-DNS ID with a number is strongly discouraged, to keep interoperability with other tools such as D-Bus. Ideally, prefix these segments with an underscore.";
    })
    ∷ (record {
      tag = codes "cid-contains-uppercase-letter";
      severity = Severity.pedantic;
      explanation = "The component ID should only contain lowercase characters.";
    })
    ∷ (record {
      tag = codes "cid-domain-not-lowercase";
      severity = Severity.error;
      explanation =
          "The domain part of the rDNS component ID (first two parts) must only contain lowercase characters.";
    })
    ∷ (record {
      tag = codes "cid-missing-affiliation-freedesktop";
      severity = Severity.warning;
      explanation =
          "The component is part of the Freedesktop project, but its ID does not start with fd.o's reverse-DNS name (\"org.freedesktop\").";
    })
    ∷ (record {
      tag = codes "cid-missing-affiliation-kde";
      severity = Severity.warning;
      explanation =
          "The component is part of the KDE project, but its ID does not start with KDEs reverse-DNS name (\"org.kde\").";
    })
    ∷ (record {
      tag = codes "cid-missing-affiliation-gnome";
      severity = Severity.info;
      explanation =
          "The component is part of the GNOME project, but its ID does not start with GNOMEs reverse-DNS name (\"org.gnome\").";
    })
    ∷ (record {
      tag = codes "spdx-expression-invalid";
      severity = Severity.error;
      explanation = "The SPDX license expression is invalid and could not be parsed.";
    })
    ∷ []
