-- ===== src/Validator/Tags/Identity.antt =====
-- src/as-validator-issue-tag.h: the second rows of the table `as_validator_issue_tag_list`.
use appstream.Base.{List, [], ◌∷◌, codes}
use appstream.Validator.Issues.{Severity, TagData}

abbrev pub identity_tags : List TagData
identity_tags =
    (record {
      tag = codes "spdx-license-unknown";
      severity = Severity.warning;
      explanation =
          "The license ID was not found in the SPDX database. Please check that the license ID is written in an SPDX-conformant way and is a valid free software license.";
    })
    ∷ (record {
      tag = codes "metadata-license-too-complex";
      severity = Severity.error;
      explanation =
          "The metadata itself seems to be licensed under a complex collection of licenses. Please license the data under a simple permissive license, like FSFAP, MIT or CC0-1.0 to allow distributors to include it in mixed data collections without the risk of license violations due to mutually incompatible licenses.";
    })
    ∷ (record {
      tag = codes "metadata-license-invalid";
      severity = Severity.error;
      explanation =
          "The metadata itself does not seem to be licensed under a permissive license. Please license the data under a permissive license, like FSFAP, CC0-1.0 or 0BSD to allow distributors to include it in mixed data collections without the risk of license violations due to mutually incompatible licenses.";
    })
    ∷ (record {
      tag = codes "update-contact-no-mail";
      severity = Severity.warning;
      explanation =
          "The update-contact does not appear to be a valid email address (escaping of `@` is only allowed as `_at_` or `_AT_`).";
    })
    ∷ (record {
      tag = codes "screenshot-invalid-env-style";
      severity = Severity.warning;
      explanation =
          "The `environment` property is set to an unrecognized graphical environment/style combination.";
    })
    ∷ (record {
      tag = codes "screenshot-invalid-width";
      severity = Severity.warning;
      explanation = "The `width` property must be a positive integer.";
    })
    ∷ (record {
      tag = codes "screenshot-invalid-height";
      severity = Severity.warning;
      explanation = "The `height` property must be a positive integer.";
    })
    ∷ (record {
      tag = codes "screenshot-image-invalid-type";
      severity = Severity.error;
      explanation = "The image type must be either `source` or `thumbnail`.";
    })
    ∷ (record {
      tag = codes "screenshot-image-missing-width";
      severity = Severity.warning;
      explanation = "The `width` property must be present if the image type is `thumbnail`.";
    })
    ∷ (record {
      tag = codes "screenshot-image-missing-height";
      severity = Severity.warning;
      explanation = "The `height` property must be present if the image type is `thumbnail`.";
    })
    ∷ (record {
      tag = codes "screenshot-image-source-duplicated";
      severity = Severity.error;
      explanation = "There can only be one `source` image per screenshot and language.";
    })
    ∷ (record {
      tag = codes "screenshot-image-source-missing";
      severity = Severity.error;
      explanation = "A screenshot must have at least one image of type `source`.";
    })
    ∷ (record {
      tag = codes "screenshot-image-not-found";
      severity = Severity.warning;
      explanation =
          "Unable to reach the screenshot image on its remote location - does the image exist?";
    })
    ∷ (record {
      tag = codes "screenshot-video-not-found";
      severity = Severity.warning;
      explanation =
          "Unable to reach the screenshot video on its remote location - does the video file exist?";
    })
    ∷ (record {
      tag = codes "screenshot-media-url-not-secure";
      severity = Severity.info;
      explanation =
          "Consider using a secure (HTTPS) URL to reference this screenshot image or video.";
    })
    ∷ (record {
      tag = codes "screenshot-no-media";
      severity = Severity.error;
      explanation =
          "A screenshot must contain at least one image or video in order to be useful. Please add an <image/> to it.";
    })
    ∷ (record {
      tag = codes "screenshot-mixed-images-videos";
      severity = Severity.error;
      explanation =
          "A screenshot must contain either images or videos, but not both at the same time. Please use this screenshot exclusively for either static images or for videos.";
    })
    ∷ (record {
      tag = codes "screenshot-no-caption";
      severity = Severity.pedantic;
      explanation = "The screenshot does not have a caption text. Consider adding one.";
    })
    ∷ (record {
      tag = codes "screenshot-video-codec-missing";
      severity = Severity.info;
      explanation =
          "The screenshot video does not specify which video codec was used in a `codec` property.";
    })
    ∷ (record {
      tag = codes "screenshot-video-container-missing";
      severity = Severity.pedantic;
      explanation =
          "The screenshot video does not specify which container format was used in a `container` property.";
    })
    ∷ (record {
      tag = codes "screenshot-video-codec-invalid";
      severity = Severity.warning;
      explanation =
          "The selected video codec is not supported by AppStream and software centers may not be able to play the video. Only the AV1 and VP9 codecs are currently supported, using `av1` and `vp9` as values for the `codec` property.";
    })
    ∷ (record {
      tag = codes "screenshot-video-container-invalid";
      severity = Severity.warning;
      explanation =
          "The selected video container format is not supported by AppStream and software centers may not be able to play the video. Only the WebM and Matroska video containers are currently supported, using `webm` and `mkv` as values for the `container` property.";
    })
    ∷ (record {
      tag = codes "screenshot-video-file-wrong-container";
      severity = Severity.warning;
      explanation =
          "For videos, only the WebM and Matroska (.mkv) container formats are currently supported. The file extension of the referenced video does not belong to either of these formats.";
    })
    ∷ (record {
      tag = codes "screenshot-default-contains-video";
      severity = Severity.error;
      explanation =
          "The default screenshot of a software component must not be a video. Use a static image as default screenshot and set the video as a secondary screenshot.";
    })
    ∷ (record {
      tag = codes "screenshot-default-missing";
      severity = Severity.warning;
      explanation = "No screenshot is marked as default.";
    })
    ∷ (record {
      tag = codes "relation-invalid-tag";
      severity = Severity.warning;
      explanation =
          "Found an unknown tag in a requires/recommends group. This is likely an error, because a component relation of this type is unknown.";
    })
    ∷ []
