-- ===== src/Validator/Tags/Relations.antt =====
-- src/as-validator-issue-tag.h: the sixth rows of the table `as_validator_issue_tag_list`.
use appstream.Base.{List, [], ◌∷◌, codes}
use appstream.Validator.Issues.{Severity, TagData}

abbrev pub relations_tags : List TagData
relations_tags =
    (record {
      tag = codes "desktop-entry-category-invalid";
      severity = Severity.warning;
      explanation =
          "A category defined in the desktop-entry file is not valid. Refer to the XDG Menu Specification for a list of valid categories.";
    })
    ∷ (record {
      tag = codes "desktop-entry-bad-data";
      severity = Severity.warning;
      explanation = "Error while reading some data from the desktop-entry file.";
    })
    ∷ (record {
      tag = codes "desktop-entry-value-invalid-chars";
      severity = Severity.warning;
      explanation =
          "The value of this desktop-entry field contains invalid or non-printable UTF-8 characters, which can not be displayed properly.";
    })
    ∷ (record {
      tag = codes "desktop-entry-value-quoted";
      severity = Severity.warning;
      explanation = "This desktop-entry field value is quoted, which is likely unintentional.";
    })
    ∷ (record {
      tag = codes "desktop-entry-hidden-set";
      severity = Severity.warning;
      explanation =
          "This desktop-entry file has the 'Hidden' property set. This is wrong for vendor-installed .desktop files, and nullifies all effects this .desktop file has (including MIME associations), which most certainly is not intentional.";
    })
    ∷ (record {
      tag = codes "desktop-entry-empty-onlyshowin";
      severity = Severity.warning;
      explanation =
          "This desktop-entry file has the 'OnlyShowIn' property set with an empty value. This might not be intended, as this will hide the application from all desktops. If you do want to hide the application from all desktops, using 'NoDisplay=true' is more explicit.";
    })
    ∷ (record {
      tag = codes "dir-no-metadata-found";
      severity = Severity.info;
      explanation = "No AppStream metadata was found in this directory or directory tree.";
    })
    ∷ (record {
      tag = codes "dir-applications-not-found";
      severity = Severity.pedantic;
      explanation = "No XDG applications directory found.";
    })
    ∷ (record {
      tag = codes "metainfo-legacy-path";
      severity = Severity.warning;
      explanation =
          "The metainfo file is stored in a legacy path. Please place it in `/usr/share/metainfo/`.";
    })
    ∷ (record {
      tag = codes "metainfo-multiple-components";
      severity = Severity.warning;
      explanation = "The metainfo file specifies multiple components. This is not allowed.";
    })
    ∷ (record {
      tag = codes "releases-not-in-order";
      severity = Severity.warning;
      explanation =
          "The releases are not sorted in a latest to oldest version order. This is required as some tools will assume that the latest version is always at the top. Sorting releases also increases overall readability of the metainfo file.";
    })
    ∷ (record {
      tag = codes "releases-type-invalid";
      severity = Severity.error;
      explanation =
          "The type of the releases block is invalid. It needs to either `embedded` (the default) or `external`.";
    })
    ∷ (record {
      tag = codes "releases-url-insecure";
      severity = Severity.error;
      explanation =
          "The URL to an external release metadata file is insecure. This is not allowed, please use HTTPS URLs only.";
    })
    ∷ (record {
      tag = codes "releases-download-failed";
      severity = Severity.error;
      explanation = "Failed to download release metadata.";
    })
    ∷ (record {
      tag = codes "releases-external-not-found";
      severity = Severity.warning;
      explanation =
          "A local release metadata file was not found. It is strongly recommended to validate this metadata together with the main MetaInfo file.";
    })
    ∷ (record {
      tag = codes "release-urgency-invalid";
      severity = Severity.warning;
      explanation = "The value set as release urgency is not a known urgency value.";
    })
    ∷ (record {
      tag = codes "release-type-invalid";
      severity = Severity.warning;
      explanation = "The value set as release type is invalid.";
    })
    ∷ (record {
      tag = codes "release-version-missing";
      severity = Severity.error;
      explanation = "The release is missing the `version` property.";
    })
    ∷ (record {
      tag = codes "release-time-missing";
      severity = Severity.error;
      explanation =
          "The release is missing either the `date` (preferred) or the `timestamp` property.";
    })
    ∷ (record {
      tag = codes "release-timestamp-invalid";
      severity = Severity.error;
      explanation = "The release timestamp is invalid.";
    })
    ∷ (record {
      tag = codes "release-description-outside-tag";
      severity = Severity.error;
      explanation = "The release description must be put inside a `description` tag";
    })
    ∷ (record {
      tag = codes "artifact-type-invalid";
      severity = Severity.error;
      explanation =
          "The value set as artifact type is invalid. Must be either `source` or `binary`.";
    })
    ∷ (record {
      tag = codes "artifact-bundle-type-invalid";
      severity = Severity.warning;
      explanation = "The value set as artifact bundle type is invalid.";
    })
    ∷ (record {
      tag = codes "artifact-invalid-platform-triplet";
      severity = Severity.warning;
      explanation =
          "The platform triplet for this release is invalid. It must be in the form of `architecture-oskernel-osenv` - refer to the AppStream documentation or information on normalized GNU triplets for more information and valid fields.";
    })
    ∷ (record {
      tag = codes "artifact-checksum-type-invalid";
      severity = Severity.error;
      explanation = "The selected checksumming algorithm is unsupported or unknown.";
    })
    ∷ (record {
      tag = codes "artifact-size-type-invalid";
      severity = Severity.error;
      explanation = "The size type is unknown. Must be `download` or `installed`.";
    })
    ∷ (record {
      tag = codes "artifact-filename-not-basename";
      severity = Severity.error;
      explanation =
          "The artifact filename must be a file basename, not a (relative or absolute) path.";
    })
    ∷ []
