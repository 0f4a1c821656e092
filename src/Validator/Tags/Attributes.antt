-- ===== src/Validator/Tags/Attributes.antt =====
-- src/as-validator-issue-tag.h: the seventh rows of the table `as_validator_issue_tag_list`.
use appstream.Base.{List, [], ◌∷◌, codes}
use appstream.Validator.Issues.{Severity, TagData}

abbrev pub attributes_tags : List TagData
attributes_tags =
    (record {
      tag = codes "release-issue-type-invalid";
      severity = Severity.error;
      explanation = "The value set as release issue type is invalid.";
    })
    ∷ (record {
      tag = codes "release-issue-is-cve-but-no-cve-id";
      severity = Severity.warning;
      explanation =
          "The issue is tagged at security vulnerability with a CVE number, but its value does not look like a valid CVE identifier.";
    })
    ∷ (record {
      tag = codes "releases-info-missing";
      severity = Severity.pedantic;
      explanation =
          "This component is missing information about releases. Consider adding a `releases` tag to describe releases and their changes.";
    })
    ∷ (record {
      tag = codes "invalid-iso8601-date";
      severity = Severity.warning;
      explanation =
          "The AppStream specification requires a complete, ISO 8601 date string with at least day-granularity to denote dates. Please ensure the date string is valid.";
    })
    ∷ (record {
      tag = codes "circular-component-relation";
      severity = Severity.warning;
      explanation =
          "This component extends, provides, requires or recommends itself, which is certainly not intended and may confuse users or machines dealing with this metadata.";
    })
    ∷ (record {
      tag = codes "runtime-project-license-no-ref";
      severity = Severity.info;
      explanation =
          "Licenses for `runtime` components are usually too complex to reflect them in a simple SPDX expression. Consider using a `LicenseRef` and a web URL as value for this component's `project_license`. E.g. `LicenseRef-free=https://example.com/licenses.html`";
    })
    ∷ (record {
      tag = codes "runtime-no-provides";
      severity = Severity.pedantic;
      explanation =
          "Since a `runtime` component is comprised of multiple other software components, their component-IDs may be listed in a `<provides/>` section for this runtime.";
    })
    ∷ (record {
      tag = codes "unknown-provides-item-type";
      severity = Severity.info;
      explanation = "The type of the item that the component provides is not known to AppStream.";
    })
    ∷ (record {
      tag = codes "mimetypes-tag-deprecated";
      severity = Severity.warning;
      explanation =
          "The toplevel `mimetypes` tag is deprecated. Please use `mediatype` tags in a `provides` block instead to indicate that your software provides a media handler for the given types.";
    })
    ∷ (record {
      tag = codes "content-rating-missing";
      severity = Severity.info;
      explanation =
          "This component has no `content_rating` tag to provide age rating information. You can generate the tag data online by answering a few questions at https://hughsie.github.io/oars/";
    })
    ∷ (record {
      tag = codes "content-rating-type-missing";
      severity = Severity.error;
      explanation = "The  `type` attribute of this `content_rating` element is missing or empty.";
    })
    ∷ (record {
      tag = codes "content-rating-type-invalid";
      severity = Severity.error;
      explanation = "The  `type` attribute of the `content_rating` element has a invalid value.";
    })
    ∷ (record {
      tag = codes "content-rating-invalid-tag";
      severity = Severity.error;
      explanation = "The `content_rating` tag can only contain `content_attribute` children.";
    })
    ∷ (record {
      tag = codes "content-attribute-id-missing";
      severity = Severity.error;
      explanation = "The  `id` attribute of the `content_attribute` element is missing or empty.";
    })
    ∷ (record {
      tag = codes "content-attribute-id-invalid";
      severity = Severity.error;
      explanation = "The  `id` attribute of the `content_attribute` element has a invalid value.";
    })
    ∷ (record {
      tag = codes "content-attribute-value-empty";
      severity = Severity.error;
      explanation = "The `content_attribute` tag needs a value.";
    })
    ∷ (record {
      tag = codes "content-attribute-value-unknown";
      severity = Severity.error;
      explanation = "The `content_attribute` tag value is unknown.";
    })
    ∷ (record {
      tag = codes "content-attribute-value-invalid";
      severity = Severity.error;
      explanation = "The `content_attribute` tag value is invalid for the given id.";
    })
    ∷ (record {
      tag = codes "content-attribute-id-duplicated";
      severity = Severity.error;
      explanation = "A `content_attribute` tag with this ID has already been defined.";
    })
    ∷ (record {
      tag = codes "component-tag-missing-namespace";
      severity = Severity.error;
      explanation = "This `tag` is missing a `namespace` attribute.";
    })
    ∷ (record {
      tag = codes "component-tag-invalid";
      severity = Severity.error;
      explanation =
          "This tag or its namespace contains invalid characters. Only lower-cased ASCII letters, numbers, dots, hyphens and underscores are permitted.";
    })
    ∷ (record {
      tag = codes "branding-color-type-invalid";
      severity = Severity.error;
      explanation = "The type of this color is not valid.";
    })
    ∷ (record {
      tag = codes "branding-color-scheme-type-invalid";
      severity = Severity.error;
      explanation = "The value of this color scheme preference is not valid.";
    })
    ∷ (record {
      tag = codes "branding-color-invalid";
      severity = Severity.error;
      explanation = "This color is not a valid HTML color code.";
    })
    ∷ (record {
      tag = codes "custom-invalid-tag";
      severity = Severity.error;
      explanation = "The `custom` tag can only contain `value` children.";
    })
    ∷ []
