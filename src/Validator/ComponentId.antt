-- ===== src/Validator/ComponentId.antt =====
-- src/as-validator.c: as_validator_validate_component_id.
pub mod Clean
use appstream.Base.{
  ℕ, Bool, true, false, not, ◌&&◌, ◌||◌, Option, none, some, List, [], ◌∷◌, ◌++◌, ◌==◌, ◌+◌,
  if◌then◌else◌, Bytes, codes, str_equal, str_has_prefix, str_str, str_split, is_alpha, is_upper,
  is_digit, is_punct,
}
use appstream.Validator.Issues.{Printf, TagData}
use appstream.Validator.{Validator, Component, Node, Emission, add_issues}
use appstream.Validator.Text.{string_lowercase, is_id_char, equals_name}

-- What is not under src/: the resource with the top-level domains, none if it is missing, and
-- `g_utf8_substring`.
pub record Library : Type 0 where
  pub tld_list : Option Bytes
  pub utf8_substring : Bytes → ℕ → ℕ → Bytes

-- `as_utils_is_tld`
pub is_tld : Option Bytes → Bytes → Bool
is_tld none tld = false
is_tld (some text) tld = elim (str_str text (codes "\n" ++ tld ++ codes "\n")) [
  | none ↦ false
  | some t ↦ true
]

-- An issue about the id with the id itself as format.
unfoldable pub about : Node → Bytes → Bytes → Emission
about n tag cid = record { at = some n; tag = tag; format = some (cid, []) }

unfoldable pub when : Bool → Emission → List Emission
when true e = e ∷ []
when false e = []

unfoldable pub prefix_issues : Node → Bytes → List Emission
prefix_issues n [] = []
prefix_issues n (c ∷ s) = when (is_punct c) (about n (codes "cid-punctuation-prefix") (c ∷ s))

-- On an id of three parts or more, the first two; the others do not matter.
unfoldable pub domain_issues : Library → Node → Component → Bytes → List Bytes → List Emission
domain_issues l n cpt cid (a ∷ b ∷ c ∷ parts) =
    when (not (is_tld l.tld_list a)) (about n (codes "cid-maybe-not-rdns") cid)
    ++ when (not (string_lowercase a)) (about n (codes "cid-domain-not-lowercase") cid)
    ++ when (not (string_lowercase b)) (about n (codes "cid-domain-not-lowercase") cid)
    ++ []
domain_issues l n cpt cid parts =
    about n
      (if cpt.is_desktop_app then codes "cid-desktopapp-is-not-rdns" else codes "cid-is-not-rdns")
      cid
    ∷ []

unfoldable pub invalid_character : Library → Node → Bytes → ℕ → Emission
invalid_character l n cid i = record {
  at = some n;
  tag = codes "cid-invalid-character";
  format = some (codes "%s: '%s'", cid ∷ l.utf8_substring cid i (i + 1) ∷ []);
}

-- The loop on the bytes of the id, from index `i` on.
unfoldable pub char_issues : Library → Node → Bytes → ℕ → Bool → Bytes → List Emission
char_issues l n cid i hyphen_found [] = []
char_issues l n cid i hyphen_found (c ∷ s) =
    when (not (is_id_char c)) (invalid_character l n cid i)
    ++ when (not hyphen_found && c == b'-') (about n (codes "cid-contains-hyphen") cid)
    ++ when (is_alpha c && is_upper c) (about n (codes "cid-contains-uppercase-letter") cid)
    ++ char_issues l n cid (i + 1) (hyphen_found || c == b'-') s

pub has_number_prefix : Bytes → Bool
has_number_prefix [] = false
has_number_prefix (c ∷ s) = is_digit c

-- "%s: %s → _%s"
abbrev number_format : Bytes
number_format = codes "%s: %s " ++ 226 ∷ 134 ∷ 146 ∷ codes " _%s"

unfoldable pub number_prefix : Node → Bytes → Bytes → Emission
number_prefix n cid p = record {
  at = some n;
  tag = codes "cid-has-number-prefix";
  format = some (number_format, cid ∷ p ∷ p ∷ []);
}

-- The first segment that starts with a number.
unfoldable pub segment_issues : Node → Bytes → List Bytes → List Emission
segment_issues n cid [] = []
segment_issues n cid (p ∷ ps) =
    let rest = segment_issues n cid ps in
    if has_number_prefix p then number_prefix n cid p ∷ [] else rest

-- What a project group asks for at the start of the id, and the tag for an id without it.
unfoldable pub group_prefix : Option Bytes → Option (Bytes × Bytes)
group_prefix g =
    if equals_name (codes "Freedesktop") g || equals_name (codes "FreeDesktop") g
    then some (codes "org.freedesktop.", codes "cid-missing-affiliation-freedesktop")
    else if equals_name (codes "KDE") g
    then some (codes "org.kde.", codes "cid-missing-affiliation-kde")
    else if equals_name (codes "GNOME") g
    then some (codes "org.gnome.", codes "cid-missing-affiliation-gnome")
    else none

unfoldable pub group_issues : Node → Component → Bytes → List Emission
group_issues n cpt cid = elim (group_prefix cpt.project_group) [
  | none ↦ []
  | some (start, tag) ↦ when (not (str_has_prefix cid start)) (about n tag cid)
]

-- The issues of an id that is not for merging.
unfoldable pub full_id_issues : Library → Node → Component → Bytes → List Emission
full_id_issues l n cpt cid =
    domain_issues l n cpt cid (str_split b'.' cid)
    ++ char_issues l n cid 0 false cid
    ++ segment_issues n cid (str_split b'.' cid)
    ++ group_issues n cpt cid

-- The issues of `as_validator_validate_component_id`, in their order.
unfoldable pub component_id_issues : Library → Node → Component → Bytes → List Emission
component_id_issues l n cpt cid =
    prefix_issues n cid ++ (if cpt.is_merge then [] else full_id_issues l n cpt cid)

-- `as_validator_validate_component_id`
validate_component_id : Printf → List TagData → Library → Node → Component → Validator → Validator
validate_component_id p tags l n cpt v = elim n.value_raw [
  | none ↦ v
  | some cid ↦ add_issues p tags (component_id_issues l n cpt cid) v
]
