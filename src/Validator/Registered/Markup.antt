-- ===== src/Validator/Registered/Markup.antt =====
-- src/as-validator.c: the tags that the checks of descriptions use are registered.
use appstream.Base.{
  if◌then◌else◌, true, Bool, not, ◌&&◌, [], ◌∷◌, Bytes, codes, str_equal, refl, ◌≡◌, Option-cases,
  inl, inr,
}
use appstream.Spdx.{Tables}
use appstream.Validator.Tags.{validator_issue_tag_list}
use appstream.Validator.{Node, Component, find_tag}
use appstream.Validator.ComponentId.{Library, component_id_issues}
use appstream.Validator.License.{
  project_license_issues, metadata_license_issues, update_contact_issues,
}
use appstream.Validator.Markup.{
  NodeType, Tree, Forest, named, check_content_empty, check_nolocalized, has_lang,
  check_description_paragraph, check_description_enumeration,
}
use appstream.Validator.Description.{
  DescriptionTag, is_metainfo, too_short, not_capitalized, paragraph_issues, list_issues,
  block_issues, localized_at, description_loop, description_issues,
}
use appstream.Validator.Registered.{
  is_present, AreRegistered, when-AreRegistered, if-AreRegistered, join, none-AreRegistered, single,
  component_id-AreRegistered, project_license-AreRegistered, metadata_license-AreRegistered,
  update_contact-AreRegistered,
}

named-AreRegistered :
    (n : Node) (tag format : Bytes)
    → is_present (find_tag validator_issue_tag_list tag) ≡ true
    → AreRegistered (named n tag format ∷ [])
unfolding named
named-AreRegistered n tag format known = single _ known

empty-AreRegistered : (n : Node) (path : Bytes) → AreRegistered (check_content_empty n path)
unfolding check_content_empty named find_tag validator_issue_tag_list
empty-AreRegistered n path = when-AreRegistered _ _ refl

localized-AreRegistered :
    (n : Node) (tag format : Bytes)
    → is_present (find_tag validator_issue_tag_list tag) ≡ true
    → AreRegistered (check_nolocalized n tag format)
unfolding check_nolocalized
localized-AreRegistered n tag format known = elim (Option-cases n.lang) [
  | inl e ↦ rw (e, check_nolocalized) none-AreRegistered
  | inr (l, e) ↦ rw (e, check_nolocalized) (named-AreRegistered n tag format known)
]

paragraph-AreRegistered : (cs : Forest) → AreRegistered (check_description_paragraph cs)
unfolding check_description_paragraph named find_tag validator_issue_tag_list
paragraph-AreRegistered Forest.end = none-AreRegistered
paragraph-AreRegistered (Forest.child (Tree.tree NodeType.element c cs) rest) =
    join _ _ (when-AreRegistered _ _ refl) (paragraph-AreRegistered rest)
paragraph-AreRegistered (Forest.child (Tree.tree NodeType.text c cs) rest) =
    paragraph-AreRegistered rest
paragraph-AreRegistered (Forest.child (Tree.tree NodeType.other c cs) rest) =
    paragraph-AreRegistered rest

enumeration-AreRegistered :
    (n : Node) (cs : Forest) → AreRegistered (check_description_enumeration n cs)
unfolding check_description_enumeration find_tag validator_issue_tag_list
enumeration-AreRegistered n Forest.end = none-AreRegistered
enumeration-AreRegistered n (Forest.child (Tree.tree NodeType.element c cs) rest) =
    join _ _
      (if-AreRegistered _ _ _ (join _ _ (empty-AreRegistered c _) (paragraph-AreRegistered cs))
        (named-AreRegistered c (codes "description-enum-item-invalid") c.name refl))
      (enumeration-AreRegistered n rest)
enumeration-AreRegistered n (Forest.child (Tree.tree NodeType.text c cs) rest) =
    enumeration-AreRegistered n rest
enumeration-AreRegistered n (Forest.child (Tree.tree NodeType.other c cs) rest) =
    enumeration-AreRegistered n rest

section-AreRegistered :
    (d : DescriptionTag) (c : Node) (format : Bytes)
    → AreRegistered (
        if is_metainfo d.mode
        then []
        else check_nolocalized c (codes "catalog-localized-description-section") format)
unfolding find_tag validator_issue_tag_list
section-AreRegistered d c format =
    if-AreRegistered _ _ _ none-AreRegistered
      (localized-AreRegistered c (codes "catalog-localized-description-section") format refl)

block_paragraph-AreRegistered :
    (d : DescriptionTag) (first localized : Bool) (c : Node) (cs : Forest)
    → AreRegistered (paragraph_issues d first localized c cs)
unfolding paragraph_issues too_short not_capitalized find_tag validator_issue_tag_list
block_paragraph-AreRegistered d first localized c cs =
    join _ _
      (join _ _
        (join _ _ (section-AreRegistered d c (codes "description/p"))
          (when-AreRegistered _ (too_short d c) refl))
        (when-AreRegistered _ (not_capitalized d) refl))
      (paragraph-AreRegistered cs)

list-AreRegistered :
    (d : DescriptionTag) (path : Bytes) (c : Node) (cs : Forest)
    → AreRegistered (list_issues d path c cs)
unfolding list_issues
list-AreRegistered d path c cs =
    join _ _ (section-AreRegistered d c path) (enumeration-AreRegistered c cs)

block-AreRegistered :
    (d : DescriptionTag) (first localized : Bool) (c : Node) (cs : Forest)
    → AreRegistered (block_issues d first localized c cs)
unfolding block_issues named find_tag validator_issue_tag_list
block-AreRegistered d first localized c cs =
    join _ _
      (join _ _ (if-AreRegistered _ _ _ none-AreRegistered (empty-AreRegistered c c.name)) (
        if-AreRegistered _ _ _ (block_paragraph-AreRegistered d first localized c cs) (
          if-AreRegistered _ _ _ (list-AreRegistered d (codes "description/ul") c cs) (
            if-AreRegistered _ _ _ (list-AreRegistered d (codes "description/ol") c cs)
              (single _ refl)))))
      (when-AreRegistered _ _ refl)

loop-AreRegistered :
    (d : DescriptionTag) (first localized : Bool) (cs : Forest)
    → AreRegistered (description_loop d first localized cs)
unfolding description_loop
loop-AreRegistered d first localized Forest.end = none-AreRegistered
loop-AreRegistered d first localized (Forest.child (Tree.tree NodeType.element c cs) rest) =
    join _ _ (block-AreRegistered d first (localized_at d localized c) c cs) (
      loop-AreRegistered d (first && not (str_equal c.name (codes "p")))
        (localized_at d localized c) rest)
loop-AreRegistered d first localized (Forest.child (Tree.tree NodeType.text c cs) rest) =
    loop-AreRegistered d first localized rest
loop-AreRegistered d first localized (Forest.child (Tree.tree NodeType.other c cs) rest) =
    loop-AreRegistered d first localized rest

description-AreRegistered :
    (d : DescriptionTag) (cs : Forest) → AreRegistered (description_issues d cs)
unfolding description_issues find_tag validator_issue_tag_list
description-AreRegistered d cs =
    join _ _
      (if-AreRegistered _ _ _
        (localized-AreRegistered d.node (codes "metainfo-localized-description-tag") d.node.name
          refl)
        none-AreRegistered)
      (loop-AreRegistered d true (not (is_metainfo d.mode) && has_lang d.node) cs)

-- The checks of component ids, of both licenses, of the contact for updates and of descriptions only
-- make issues with tags that the registry has, on whatever file: none of these issues is the one about
-- an unknown tag.
pub checks-AreRegistered :
    (l : Library) (t : Tables) (strip : Bytes → Bytes) (n : Node) (cpt : Component) (cid : Bytes)
    → (d : DescriptionTag) (cs : Forest)
    → AreRegistered (component_id_issues l n cpt cid)
      × AreRegistered (project_license_issues t strip n)
      × AreRegistered (metadata_license_issues t n)
      × AreRegistered (update_contact_issues n)
      × AreRegistered (description_issues d cs)
checks-AreRegistered l t strip n cpt cid d cs = (
  component_id-AreRegistered l n cpt cid,
  project_license-AreRegistered t strip n,
  metadata_license-AreRegistered t n,
  update_contact-AreRegistered n,
  description-AreRegistered d cs,
)
