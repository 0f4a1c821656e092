-- ===== src/Validator/Tags/Bundles.antt =====
-- src/as-validator-issue-tag.h: the fifth rows of the table `as_validator_issue_tag_list`.
use appstream.Base.{List, [], ◌∷◌, codes}
use appstream.Validator.Issues.{Severity, TagData}

abbrev pub bundles_tags : List TagData
bundles_tags =
    (record {
      tag = codes "desktop-app-launchable-missing";
      severity = Severity.error;
      explanation =
          "This `desktop-application` component is missing a `desktop-id` launchable tag. This means that this application can not be launched and has no association with its desktop-entry file. It also means no icon data or category information from the desktop-entry file will be available, which will result in this application being ignored entirely.";
    })
    ∷ (record {
      tag = codes "desktop-app-launchable-omitted";
      severity = Severity.info;
      explanation =
          "This `desktop-application` component has no `desktop-id` launchable tag, however it contains all the necessary information to display the application. The omission of the launchable entry means that this application can not be launched directly from installers or software centers. If this is intended, this information can be ignored, otherwise it is strongly recommended to add a launchable tag as well.";
    })
    ∷ (record {
      tag = codes "console-app-no-binary";
      severity = Severity.warning;
      explanation =
          "Type `console-application` component, but no information about binaries in $PATH was provided via a `provides/binary` tag.";
    })
    ∷ (record {
      tag = codes "web-app-no-url-launchable";
      severity = Severity.error;
      explanation = "This `web-application` component is missing a `launchable` tag of type `url`.";
    })
    ∷ (record {
      tag = codes "web-app-no-icon";
      severity = Severity.error;
      explanation =
          "This `web-application` component is missing a `icon` tag to specify a valid icon.";
    })
    ∷ (record {
      tag = codes "web-app-no-category";
      severity = Severity.warning;
      explanation =
          "This `web-application` component is missing categorizations. A `categories` block is likely missing.";
    })
    ∷ (record {
      tag = codes "font-no-font-data";
      severity = Severity.error;
      explanation =
          "Type `font` component, but no font information was provided via a `provides/font` tag.";
    })
    ∷ (record {
      tag = codes "driver-no-modalias";
      severity = Severity.warning;
      explanation =
          "Type `driver` component, but no modalias information was provided via a `provides/modalias` tag.";
    })
    ∷ (record {
      tag = codes "extends-not-allowed";
      severity = Severity.error;
      explanation =
          "An `extends` tag is specified, but the component is not of type `addon`, `localization` or `repository`.";
    })
    ∷ (record {
      tag = codes "addon-extends-missing";
      severity = Severity.error;
      explanation = "The component is an addon, but no `extends` tag was specified.";
    })
    ∷ (record {
      tag = codes "localization-extends-missing";
      severity = Severity.info;
      explanation =
          "This `localization` component is missing an `extends` tag, to specify the components it adds localization to.";
    })
    ∷ (record {
      tag = codes "localization-no-languages";
      severity = Severity.error;
      explanation =
          "This `localization` component does not define any languages this localization is for.";
    })
    ∷ (record {
      tag = codes "service-no-service-launchable";
      severity = Severity.error;
      explanation = "This `service` component is missing a `launchable` tag of type `service`.";
    })
    ∷ (record {
      tag = codes "metainfo-suggestion-type-invalid";
      severity = Severity.warning;
      explanation =
          "Suggestions of any type other than `upstream` are not allowed in metainfo files.";
    })
    ∷ (record {
      tag = codes "category-invalid";
      severity = Severity.warning;
      explanation =
          "The category name is not valid. Refer to the XDG Menu Specification for a list of valid category names.";
    })
    ∷ (record {
      tag = codes "app-categories-missing";
      severity = Severity.error;
      explanation =
          "This component is in no valid categories, even though it should be. Please check its metainfo file and desktop-entry file.";
    })
    ∷ (record {
      tag = codes "screenshot-caption-too-long";
      severity = Severity.pedantic;
      explanation = "The screenshot caption is too long (should be <= 100 characters)";
    })
    ∷ (record {
      tag = codes "file-read-failed";
      severity = Severity.error;
      explanation = "Unable to read file.";
    })
    ∷ (record {
      tag = codes "xml-markup-invalid";
      severity = Severity.error;
      explanation = "The XML of this file is malformed.";
    })
    ∷ (record {
      tag = codes "component-catalog-tag-invalid";
      severity = Severity.error;
      explanation = "Invalid tag found in catalog metadata. Only `component` tags are permitted.";
    })
    ∷ (record {
      tag = codes "metainfo-ancient";
      severity = Severity.error;
      explanation =
          "The metainfo file uses an ancient version of the AppStream specification, which can not be validated. Please migrate it to version 0.6 (or higher).";
    })
    ∷ (record {
      tag = codes "root-tag-unknown";
      severity = Severity.error;
      explanation =
          "This XML document has an unknown root tag. Maybe this file is not a metainfo document?";
    })
    ∷ (record {
      tag = codes "metainfo-filename-cid-mismatch";
      severity = Severity.warning;
      explanation = "The metainfo filename does not match the component ID.";
    })
    ∷ (record {
      tag = codes "desktop-file-load-failed";
      severity = Severity.error;
      explanation = "Unable to load the desktop-entry file associated with this component.";
    })
    ∷ (record {
      tag = codes "desktop-file-not-found";
      severity = Severity.warning;
      explanation = "This component metadata refers to a non-existing .desktop file.";
    })
    ∷ []
