-- ===== src/Validator/Description.antt =====
-- src/as-validator.c: the checks of a description with its paragraphs and lists.
use appstream.Base.{
  ℕ, Bool, true, false, not, ◌&&◌, ◌||◌, Option, none, some, List, [], ◌∷◌, ◌++◌, if◌then◌else◌,
  Bytes, codes, str_equal, ltb, length,
}
use appstream.Validator.Issues.{Printf, TagData}
use appstream.Validator.{Validator, Node, Emission, add_issues}
use appstream.Validator.Text.{has_hyperlink, first_word_capitalized}
use appstream.Validator.ComponentId.{when}
use appstream.Validator.License.{as_format}
use appstream.Validator.Markup.{
  NodeType, Tree, Forest, named, has_lang, check_content_empty, check_nolocalized,
  check_description_paragraph, check_description_enumeration,
}

-- `AsFormatStyle`, of the two that a file can have
pub data FormatStyle : Type 0 where
  metainfo : FormatStyle
  catalog : FormatStyle

pub is_metainfo : FormatStyle → Bool
is_metainfo FormatStyle.metainfo = true
is_metainfo FormatStyle.catalog = false

-- What a description is checked with: its node, the style, whether it is the one of a component, the
-- name of the current component, and `g_strstrip`.
pub record DescriptionTag : Type 0 where
  pub node : Node
  pub mode : FormatStyle
  pub main_description : Bool
  pub name : Option Bytes
  pub strip : Bytes → Bytes

-- `node_content`, which is stripped in place for a paragraph of the main description.
pub content_of : DescriptionTag → Node → Option Bytes
content_of d c =
    if str_equal c.name (codes "p") && d.main_description
    then (elim c.value_raw [ none ↦ none | some s ↦ some (d.strip s) ])
    else c.value_raw

-- `strlen`; libxml2 gives no NULL for the text of an element.
pub strlen : Option Bytes → ℕ
strlen none = 0
strlen (some s) = length s

unfoldable pub too_short : DescriptionTag → Node → Emission
too_short d c = record {
  at = some c;
  tag = codes "description-first-para-too-short";
  format = as_format (content_of d c);
}

unfoldable pub not_capitalized : DescriptionTag → Emission
not_capitalized d = record {
  at = some d.node;
  tag = codes "description-first-word-not-capitalized";
  format = none;
}

-- The branch for `p`, with `first_paragraph` and `is_localized`.
unfoldable pub paragraph_issues : DescriptionTag → Bool → Bool → Node → Forest → List Emission
paragraph_issues d first_paragraph is_localized c cs =
    (if is_metainfo d.mode
      then []
      else check_nolocalized c (codes "catalog-localized-description-section")
          (codes "description/p"))
    ++ when (d.main_description && first_paragraph && ltb (strlen (content_of d c)) 80)
        (too_short d c)
    ++ when
        (not is_localized && not (first_word_capitalized d.name c.value (not d.main_description)))
        (not_capitalized d)
    ++ check_description_paragraph cs

-- The branches for `ul` and `ol`.
unfoldable pub list_issues : DescriptionTag → Bytes → Node → Forest → List Emission
list_issues d where_found c cs =
    (if is_metainfo d.mode
      then []
      else check_nolocalized c (codes "catalog-localized-description-section") where_found)
    ++ check_description_enumeration c cs

pub is_list : Bytes → Bool
is_list name = str_equal name (codes "ul") || str_equal name (codes "ol")

-- One round of the loop of `as_validator_check_description_tag`.
unfoldable pub block_issues : DescriptionTag → Bool → Bool → Node → Forest → List Emission
block_issues d first_paragraph is_localized c cs =
    (if is_list c.name then [] else check_content_empty c c.name)
    ++ (if str_equal c.name (codes "p")
        then paragraph_issues d first_paragraph is_localized c cs
        else if str_equal c.name (codes "ul")
        then list_issues d (codes "description/ul") c cs
        else if str_equal c.name (codes "ol")
        then list_issues d (codes "description/ol") c cs
        else named c (codes "description-markup-invalid") c.name ∷ [])
    ++ when (has_hyperlink (content_of d c))
        (named c (codes "description-has-plaintext-url") c.name)

-- In a metainfo file, a paragraph says for itself whether it is localized.
pub localized_at : DescriptionTag → Bool → Node → Bool
localized_at d is_localized c =
    if str_equal c.name (codes "p") && is_metainfo d.mode then has_lang c else is_localized

unfoldable pub description_loop : DescriptionTag → Bool → Bool → Forest → List Emission
description_loop d first_paragraph is_localized Forest.end = []
description_loop d first_paragraph is_localized
      (Forest.child (Tree.tree NodeType.element c cs) rest) =
    block_issues d first_paragraph (localized_at d is_localized c) c cs
    ++ description_loop d (first_paragraph && not (str_equal c.name (codes "p")))
        (localized_at d is_localized c) rest
description_loop d first_paragraph is_localized (Forest.child t rest) =
    description_loop d first_paragraph is_localized rest

unfoldable pub description_issues : DescriptionTag → Forest → List Emission
description_issues d cs =
    (if is_metainfo d.mode
      then check_nolocalized d.node (codes "metainfo-localized-description-tag") d.node.name
      else [])
    ++ description_loop d true (not (is_metainfo d.mode) && has_lang d.node) cs

-- `as_validator_check_description_tag`
check_description_tag : Printf → List TagData → DescriptionTag → Forest → Validator → Validator
check_description_tag p tags d cs v = add_issues p tags (description_issues d cs) v
