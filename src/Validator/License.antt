-- ===== src/Validator/License.antt =====
-- src/as-validator.c: the checks of the licenses and of the contact for updates.
pub mod Metadata
use appstream.Base.{
  ℕ, suc, Bool, true, false, not, ◌&&◌, ◌||◌, Option, none, some, List, [], ◌∷◌, ◌==◌,
  if◌then◌else◌, Bytes, codes, str_equal, str_str, drop, deref, ltb,
}
use appstream.Spdx.{Tables, tokenize, is_spdx_license_id, is_spdx_license_exception_id}
use appstream.Spdx.Expression.{is_metadata_license_id}
use appstream.Validator.Issues.{Printf, TagData}
use appstream.Validator.{Validator, Node, Format, Emission, add_issues}

-- A text that is given as the format, which may be NULL.
pub as_format : Option Bytes → Option Format
as_format none = none
as_format (some s) = some (s, [])

unfoldable pub issue_at : Node → Bytes → Option Bytes → List Emission
issue_at n tag text = record { at = some n; tag = tag; format = as_format text } ∷ []

is_license_operator : Bytes → Bool
is_license_operator s =
    str_equal s (codes "&")
    || str_equal s (codes "|")
    || str_equal s (codes "+")
    || str_equal s (codes "(")
    || str_equal s (codes ")")
    || str_equal s (codes "^")

-- A token that the loop of `as_validator_validate_project_license` passes over.
pub is_passed : Tables → Bytes → Bool
is_passed t s =
    if is_license_operator s
    then true
    else if not (deref s == b'@')
    then is_spdx_license_id t (some (drop 1 s)) || is_spdx_license_exception_id t (some (drop 1 s))
    else true

-- The loop; `strip` is `g_strstrip`.
unfoldable pub license_loop : Tables → (Bytes → Bytes) → Node → List Bytes → List Emission
license_loop t strip n [] = []
license_loop t strip n (s ∷ ss) =
    let rest = license_loop t strip n ss in
    if is_passed t (strip s)
    then rest
    else issue_at n (codes "spdx-license-unknown") (some (strip s))

unfoldable pub project_license_issues : Tables → (Bytes → Bytes) → Node → List Emission
project_license_issues t strip n = elim (tokenize t n.value_raw) [
  | none ↦ issue_at n (codes "spdx-expression-invalid") n.value_raw
  | some ss ↦ license_loop t strip n ss
]

-- `as_validator_validate_project_license`
validate_project_license :
    Printf → List TagData → Tables → (Bytes → Bytes) → Node → Validator → Validator
validate_project_license p tags t strip n v = add_issues p tags (project_license_issues t strip n) v

pub is_complex : List Bytes → Bool
is_complex [] = false
is_complex (s ∷ ss) = str_equal s (codes "(") || str_equal s (codes ")") || is_complex ss

-- The variables of the loop of `as_validator_validate_metadata_license`: whether all tokens are
-- required, the count of bad licenses and that of good ones.
abbrev pub Found : Type 0
Found = Bool × ℕ × ℕ

pub metadata_token : Bytes → Found → Found
metadata_token s (all, bad, good) =
    if str_equal s (codes "+")
    then (all, bad, good)
    else if str_equal s (codes "|")
    then (false, bad, good)
    else if str_equal s (codes "&")
    then (true, bad, good)
    else if is_metadata_license_id s
    then (all, bad, suc good)
    else (all, suc bad, good)

pub metadata_loop : List Bytes → Found → Found
metadata_loop [] f = f
metadata_loop (s ∷ ss) f = metadata_loop ss (metadata_token s f)

-- The two tests behind the loop: whether the license is fine.
pub is_fine : Found → Bool
is_fine (all, bad, good) = if not all && ltb 0 good then true else all && bad == 0

unfoldable pub metadata_license_issues : Tables → Node → List Emission
metadata_license_issues t n = elim (tokenize t n.value_raw) [
  | none ↦ issue_at n (codes "spdx-expression-invalid") n.value_raw
  | some ss ↦
      if is_complex ss
      then issue_at n (codes "metadata-license-too-complex") n.value_raw
      else if is_fine (metadata_loop ss (true, 0, 0))
      then []
      else issue_at n (codes "metadata-license-invalid") n.value_raw
]

-- `as_validator_validate_metadata_license`
validate_metadata_license : Printf → List TagData → Tables → Node → Validator → Validator
validate_metadata_license p tags t n v = add_issues p tags (metadata_license_issues t n) v

-- `g_strstr_len (s, -1, p) != NULL`, which is false of a NULL text
pub has_part : Option Bytes → Bytes → Bool
has_part none p = false
has_part (some s) p = elim (str_str s p) [ none ↦ false | some t ↦ true ]

unfoldable pub update_contact_issues : Node → List Emission
update_contact_issues n =
    if not (has_part n.value_raw (codes "@"))
      && not (has_part n.value_raw (codes "_at_"))
      && not (has_part n.value_raw (codes "_AT_"))
    then (if has_part n.value_raw (codes ".")
        then []
        else issue_at n (codes "update-contact-no-mail") n.value_raw)
    else []

-- `as_validator_validate_update_contact`
validate_update_contact : Printf → List TagData → Node → Validator → Validator
validate_update_contact p tags n v = add_issues p tags (update_contact_issues n) v
