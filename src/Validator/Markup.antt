-- ===== src/Validator/Markup.antt =====
-- src/as-validator.c: the checks of the elements of a file, down to the markup of descriptions.
use appstream.Base.{
  Bool, true, false, not, ◌&&◌, ◌||◌, Option, none, some, List, [], ◌∷◌, ◌++◌, if◌then◌else◌, Bytes,
  codes, str_equal,
}
use appstream.Validator.{Node, Emission, hint_text}
use appstream.Validator.Text.{is_empty_string}
use appstream.Validator.ComponentId.{when}

-- What a node of the tree of libxml2 is; `text` stands for CDATA sections too.
pub data NodeType : Type 0 where
  element : NodeType
  text : NodeType
  other : NodeType

mutual
  -- A node with its children.
  pub data Tree : Type 0 where
    tree : NodeType → Node → Forest → Tree

  pub data Forest : Type 0 where
    end : Forest
    child : Tree → Forest → Forest

-- An issue whose format is a text of the program, the name of an element or a path of names.
unfoldable pub named : Node → Bytes → Bytes → Emission
named n tag format = record { at = some n; tag = tag; format = some (format, []) }

-- `as_validator_check_type_property`, with the value of `type`: the issue and the value it gives.
check_type_property : Node → Option Bytes → List Emission × Option Bytes
check_type_property n none = (
  record {
    at = some n;
    tag = codes "type-property-required";
    format = some (codes "%s (%s)", n.name ∷ hint_text n.value_raw ∷ []);
  }
      ∷ [],
  none,
)
check_type_property n (some prop) = ([], some prop)

-- `as_validator_check_content_empty`
unfoldable pub check_content_empty : Node → Bytes → List Emission
check_content_empty n tag_path =
    when (is_empty_string n.value) (named n (codes "tag-empty") tag_path)

-- `xmlNodeIsText`
is_text_node : NodeType → Bool
is_text_node NodeType.text = true
is_text_node t = false

first_is_text : Forest → Bool
first_is_text Forest.end = false
first_is_text (Forest.child (Tree.tree t n cs) rest) = is_text_node t

-- `as_validator_ensure_node_no_text`
ensure_node_no_text : Tree → List Emission
ensure_node_no_text (Tree.tree t n cs) =
    when (is_text_node t || first_is_text cs) (named n (codes "tag-invalid-text-content") n.name)

-- `as_validator_check_nolocalized`
unfoldable pub check_nolocalized : Node → Bytes → Bytes → List Emission
check_nolocalized n tag format = elim n.lang [ none ↦ [] | some l ↦ named n tag format ∷ [] ]

-- `g_strdup_printf ("%s/%s", a, b)`
pub path_of : Bytes → Bytes → Bytes
path_of a b = a ++ codes "/" ++ b

-- The loop of `as_validator_check_children_quick`.
children_quick_loop : Node → Bytes → Bool → Forest → List Emission
children_quick_loop n allowed allow_empty Forest.end = []
children_quick_loop n allowed allow_empty (Forest.child (Tree.tree NodeType.element c cs) rest) =
    (if str_equal c.name allowed
      then (if allow_empty then [] else check_content_empty c (path_of n.name c.name))
      else record {
        at = some n;
        tag = codes "invalid-child-tag-name";
        format = some (codes "Found: %s - Allowed: %s", c.name ∷ allowed ∷ []);
      }
        ∷ [])
    ++ children_quick_loop n allowed allow_empty rest
children_quick_loop n allowed allow_empty (Forest.child t rest) =
    children_quick_loop n allowed allow_empty rest

-- `as_validator_check_children_quick`
check_children_quick : Tree → Bytes → Bool → List Emission
check_children_quick (Tree.tree t n cs) allowed allow_empty =
    ensure_node_no_text (Tree.tree t n cs) ++ children_quick_loop n allowed allow_empty cs

-- `as_validator_check_description_paragraph`
unfoldable pub check_description_paragraph : Forest → List Emission
check_description_paragraph Forest.end = []
check_description_paragraph (Forest.child (Tree.tree NodeType.element c cs) rest) =
    when (not (str_equal c.name (codes "em") || str_equal c.name (codes "code")))
      (named c (codes "description-para-markup-invalid") c.name)
    ++ check_description_paragraph rest
check_description_paragraph (Forest.child t rest) = check_description_paragraph rest

-- `as_validator_check_description_enumeration`
unfoldable pub check_description_enumeration : Node → Forest → List Emission
check_description_enumeration n Forest.end = []
check_description_enumeration n (Forest.child (Tree.tree NodeType.element c cs) rest) =
    (if str_equal c.name (codes "li")
      then check_content_empty c (path_of n.name c.name) ++ check_description_paragraph cs
      else named c (codes "description-enum-item-invalid") c.name ∷ [])
    ++ check_description_enumeration n rest
check_description_enumeration n (Forest.child t rest) = check_description_enumeration n rest

pub has_lang : Node → Bool
has_lang n = elim n.lang [ none ↦ false | some l ↦ true ]

-- A localized tag that may be is another one in each language.
tag_id_of : Node → Bool → Bytes
tag_id_of n translatable = elim n.lang [
  | none ↦ n.name
  | some l ↦ if translatable then n.name ++ codes " (lang=" ++ l ++ codes ")" else n.name
]

is_known_tag : List Bytes → Bytes → Bool
is_known_tag [] tag_id = false
is_known_tag (t ∷ ts) tag_id = str_equal t tag_id || is_known_tag ts tag_id

-- `as_validator_check_appear_once`: the issues, and the set of tags with that of the node.
check_appear_once : Node → Bool → List Bytes → List Emission × List Bytes
check_appear_once n translatable known_tags =
    let tag_id = tag_id_of n translatable in
    (
      when (has_lang n && not translatable) (named n (codes "tag-not-translatable") n.name)
          ++ when (is_known_tag known_tags tag_id) (named n (codes "tag-duplicated") tag_id),
      if is_known_tag known_tags tag_id then known_tags else known_tags ++ tag_id ∷ [],
    )
