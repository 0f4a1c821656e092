-- ===== src/Validator/Tags.antt =====
-- src/as-validator-issue-tag.h: the registry of issue tags.
mod Basic
mod Identity
mod Urls
mod Content
mod Bundles
mod Relations
mod Attributes
mod Custom
use appstream.Base.{List, ◌++◌}
use appstream.Validator.Issues.{TagData}
use appstream.Validator.Tags.Basic.{basic_tags}
use appstream.Validator.Tags.Identity.{identity_tags}
use appstream.Validator.Tags.Urls.{urls_tags}
use appstream.Validator.Tags.Content.{content_tags}
use appstream.Validator.Tags.Bundles.{bundles_tags}
use appstream.Validator.Tags.Relations.{relations_tags}
use appstream.Validator.Tags.Attributes.{attributes_tags}
use appstream.Validator.Tags.Custom.{custom_tags}

-- `as_validator_issue_tag_list`
unfoldable pub validator_issue_tag_list : List TagData
validator_issue_tag_list =
    basic_tags ++ identity_tags ++ urls_tags ++ content_tags ++ bundles_tags ++ relations_tags
    ++ attributes_tags ++ custom_tags
