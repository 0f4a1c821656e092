-- ===== src/Validator/Tags/Content.antt =====
-- src/as-validator-issue-tag.h: the fourth rows of the table `as_validator_issue_tag_list`.
use appstream.Base.{List, [], ◌∷◌, codes}
use appstream.Validator.Issues.{Severity, TagData}

abbrev pub content_tags : List TagData
content_tags =
    (record {
      tag = codes "summary-has-tabs-or-linebreaks";
      severity = Severity.error;
      explanation = "The component summary must not contain tabs or linebreaks.";
    })
    ∷ (record {
      tag = codes "summary-has-url";
      severity = Severity.error;
      explanation = "The summary must not contain any URL. Use the `<url/>` tags for links.";
    })
    ∷ (record {
      tag = codes "summary-first-word-not-capitalized";
      severity = Severity.info;
      explanation =
          "The summary text does not start with a capitalized word, project name or number.";
    })
    ∷ (record {
      tag = codes "icon-stock-cached-has-url";
      severity = Severity.error;
      explanation =
          "Icons of type `stock` or `cached` must not contain an URL, a full or an relative path to the icon. Only file basenames or stock names are allowed.";
    })
    ∷ (record {
      tag = codes "icon-remote-no-url";
      severity = Severity.error;
      explanation = "Icons of type `remote` must contain an URL to the referenced icon.";
    })
    ∷ (record {
      tag = codes "icon-remote-not-found";
      severity = Severity.warning;
      explanation = "Unable to reach remote icon at the given web location - does it exist?";
    })
    ∷ (record {
      tag = codes "icon-remote-not-secure";
      severity = Severity.info;
      explanation = "Consider using a secure (HTTPS) URL for the remote icon link.";
    })
    ∷ (record {
      tag = codes "metainfo-invalid-icon-type";
      severity = Severity.error;
      explanation =
          "Metainfo files may only contain icons of type `stock` or `remote`, the set type is not allowed.";
    })
    ∷ (record {
      tag = codes "url-invalid-type";
      severity = Severity.warning;
      explanation =
          "Invalid `type` property for this `url` tag. URLs of this type are not known in the AppStream specification.";
    })
    ∷ (record {
      tag = codes "url-not-reachable";
      severity = Severity.warning;
      explanation = "Unable to reach remote location that this URL references - does it exist?";
    })
    ∷ (record {
      tag = codes "url-not-secure";
      severity = Severity.info;
      explanation = "Consider using a secure (HTTPS) URL for this web link.";
    })
    ∷ (record {
      tag = codes "web-url-expected";
      severity = Severity.error;
      explanation = "A web URL was expected for this value.";
    })
    ∷ (record {
      tag = codes "url-uses-ftp";
      severity = Severity.warning;
      explanation = "This web link uses the FTP protocol. Consider switching to HTTP(S) instead.";
    })
    ∷ (record {
      tag = codes "url-redefined";
      severity = Severity.warning;
      explanation = "An URL of this type has already been defined.";
    })
    ∷ (record {
      tag = codes "developer-name-has-url";
      severity = Severity.warning;
      explanation = "The <developer_name/> can not contain a hyperlink.";
    })
    ∷ (record {
      tag = codes "unknown-desktop-id";
      severity = Severity.error;
      explanation =
          "The set value is not an identifier for a desktop environment as registered with Freedesktop.org.";
    })
    ∷ (record {
      tag = codes "launchable-unknown-type";
      severity = Severity.error;
      explanation = "This `launchable` tag has an unknown type and can not be used.";
    })
    ∷ (record {
      tag = codes "bundle-unknown-type";
      severity = Severity.error;
      explanation = "This `bundle` tag has an unknown type and can not be used.";
    })
    ∷ (record {
      tag = codes "update-contact-in-catalog-data";
      severity = Severity.warning;
      explanation = "The `update_contact` tag should not be included in catalog AppStream XML.";
    })
    ∷ (record {
      tag = codes "nonstandard-gnome-extension";
      severity = Severity.info;
      explanation =
          "This tag is a GNOME-specific extension to AppStream and not part of the official specification. Do not expect it to work in all implementations and in all software centers.";
    })
    ∷ (record {
      tag = codes "unknown-tag";
      severity = Severity.info;
      explanation =
          "Found invalid tag. Non-standard tags should be prefixed with `x-`. AppStream also provides the <custom/> tag to add arbitrary custom data to metainfo files. This tag is read by AppStream libraries and may be useful instead of defining new custom toplevel or `x-`-prefixed tags if you just want to add custom data to a metainfo file.";
    })
    ∷ (record {
      tag = codes "metadata-license-missing";
      severity = Severity.error;
      explanation =
          "The essential tag `metadata_license` is missing. A license for the metadata itself always has to be defined.";
    })
    ∷ (record {
      tag = codes "app-description-required";
      severity = Severity.error;
      explanation =
          "The component is missing a long description. Components of this type must have a long description.";
    })
    ∷ (record {
      tag = codes "font-description-missing";
      severity = Severity.info;
      explanation =
          "It would be useful to add a long description to this font to present it better to users.";
    })
    ∷ (record {
      tag = codes "driver-firmware-description-missing";
      severity = Severity.info;
      explanation =
          "It is recommended to add a long description to this component to present it better to users.";
    })
    ∷ (record {
      tag = codes "generic-description-missing";
      severity = Severity.pedantic;
      explanation =
          "This generic component is missing a long description. It may be useful to add one.";
    })
    ∷ []
