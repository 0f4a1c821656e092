-- ===== src/Validator/Registered.antt =====
-- src/as-validator.c and src/as-validator-issue-tag.h: the tags that the checks use are registered.
pub mod Markup
use appstream.Base.{
  ℕ, Bool, true, false, not, ◌&&◌, ◌||◌, Option, none, some, List, [], ◌∷◌, ◌++◌, ◌==◌,
  if◌then◌else◌, Bytes, codes, ◌≡◌, refl, All, All-append, arith, Option-cases, inl, inr, ◌+◌,
  str_split, str_has_prefix,
}
use appstream.Spdx.{Tables, tokenize}
use appstream.Validator.Tags.{validator_issue_tag_list}
use appstream.Validator.{Emission, Component, Node, find_tag}
use appstream.Validator.ComponentId.{
  Library, about, when, prefix_issues, domain_issues, char_issues, invalid_character,
  segment_issues, number_prefix, group_prefix, group_issues, full_id_issues, component_id_issues,
}
use appstream.Validator.License.{
  issue_at, license_loop, project_license_issues, metadata_license_issues, update_contact_issues,
}

abbrev pub is_present {ℓ} : {A : Type ℓ} → Option A → Bool
is_present none = false
is_present (some x) = true

-- The tag of the issue is in the registry.
abbrev pub IsRegistered : Emission → Type 0
IsRegistered e = is_present (find_tag validator_issue_tag_list e.tag) ≡ true

pub AreRegistered : List Emission → Type 0
AreRegistered es = All IsRegistered es

pub when-AreRegistered : (b : Bool) (e : Emission) → IsRegistered e → AreRegistered (when b e)
unfolding when AreRegistered
when-AreRegistered true e known = (known, _)
when-AreRegistered false e known = _

pub if-AreRegistered :
    (b : Bool) (xs ys : List Emission)
    → AreRegistered xs
    → AreRegistered ys
    → AreRegistered (if b then xs else ys)
if-AreRegistered true xs ys h h' = h
if-AreRegistered false xs ys h h' = h'

pub join : (xs ys : List Emission) → AreRegistered xs → AreRegistered ys → AreRegistered (xs ++ ys)
unfolding AreRegistered
join xs ys h h' = All-append IsRegistered xs ys h h'

pub none-AreRegistered : AreRegistered []
unfolding AreRegistered
none-AreRegistered = _

pub single : (e : Emission) → IsRegistered e → AreRegistered (e ∷ [])
unfolding AreRegistered
single e known = (known, _)

issue_at-AreRegistered :
    (n : Node) (tag : Bytes) (text : Option Bytes)
    → is_present (find_tag validator_issue_tag_list tag) ≡ true
    → AreRegistered (issue_at n tag text)
unfolding issue_at
issue_at-AreRegistered n tag text known = single _ known

prefix-AreRegistered : (n : Node) (cid : Bytes) → AreRegistered (prefix_issues n cid)
unfolding prefix_issues about find_tag validator_issue_tag_list
prefix-AreRegistered n [] = none-AreRegistered
prefix-AreRegistered n (c ∷ s) = when-AreRegistered _ _ refl

rdns-IsRegistered :
    (b : Bool) (n : Node) (cid : Bytes)
    → IsRegistered
        (about n (if b then codes "cid-desktopapp-is-not-rdns" else codes "cid-is-not-rdns") cid)
unfolding about find_tag validator_issue_tag_list
rdns-IsRegistered true n cid = refl
rdns-IsRegistered false n cid = refl

domain-AreRegistered :
    (l : Library) (n : Node) (cpt : Component) (cid : Bytes) (ps : List Bytes)
    → AreRegistered (domain_issues l n cpt cid ps)
unfolding domain_issues about find_tag validator_issue_tag_list
domain-AreRegistered l n cpt cid [] = single _ (rdns-IsRegistered cpt.is_desktop_app n cid)
domain-AreRegistered l n cpt cid (a ∷ []) = single _ (rdns-IsRegistered cpt.is_desktop_app n cid)
domain-AreRegistered l n cpt cid (a ∷ b ∷ []) =
    single _ (rdns-IsRegistered cpt.is_desktop_app n cid)
domain-AreRegistered l n cpt cid (a ∷ b ∷ c ∷ ps) =
    let three =
      join _ _ (join _ _ (when-AreRegistered _ _ refl) (when-AreRegistered _ _ refl))
        (when-AreRegistered _ _ refl) in
    join _ _ three none-AreRegistered

char-AreRegistered :
    (l : Library) (n : Node) (cid : Bytes) (i : ℕ) (h : Bool) (s : Bytes)
    → AreRegistered (char_issues l n cid i h s)
unfolding char_issues invalid_character about find_tag validator_issue_tag_list
char-AreRegistered l n cid i h [] = none-AreRegistered
char-AreRegistered l n cid i h (c ∷ s) =
    join _ _
      (join _ _ (join _ _ (when-AreRegistered _ _ refl) (when-AreRegistered _ _ refl))
        (when-AreRegistered _ _ refl))
      (char-AreRegistered l n cid (i + 1) (h || c == b'-') s)

segment-AreRegistered :
    (n : Node) (cid : Bytes) (ps : List Bytes) → AreRegistered (segment_issues n cid ps)
unfolding segment_issues number_prefix find_tag validator_issue_tag_list
segment-AreRegistered n cid [] = none-AreRegistered
segment-AreRegistered n cid (p ∷ ps) =
    if-AreRegistered _ _ _ (single (number_prefix n cid p) refl) (segment-AreRegistered n cid ps)

-- A tag for a project group is registered.
IsGroup : Option (Bytes × Bytes) → Type 0
IsGroup none = Unit
IsGroup (some (start, tag)) = is_present (find_tag validator_issue_tag_list tag) ≡ true

if-IsGroup :
    (b : Bool) (x y : Option (Bytes × Bytes)) → IsGroup x → IsGroup y → IsGroup (if b then x else y)
if-IsGroup true x y h h' = h
if-IsGroup false x y h h' = h'

some-IsGroup :
    (start tag : Bytes)
    → is_present (find_tag validator_issue_tag_list tag) ≡ true
    → IsGroup (some (start, tag))
unfolding IsGroup
some-IsGroup start tag known = known

none-IsGroup : IsGroup none
unfolding IsGroup
none-IsGroup = _

group_prefix-IsGroup : (g : Option Bytes) → IsGroup (group_prefix g)
unfolding group_prefix find_tag validator_issue_tag_list
group_prefix-IsGroup g =
    if-IsGroup _ _ _
      (some-IsGroup (codes "org.freedesktop.") (codes "cid-missing-affiliation-freedesktop") refl)
      (if-IsGroup _ _ _ (some-IsGroup (codes "org.kde.") (codes "cid-missing-affiliation-kde") refl)
        (if-IsGroup _ _ _
          (some-IsGroup (codes "org.gnome.") (codes "cid-missing-affiliation-gnome") refl)
          none-IsGroup))

group-AreRegistered :
    (n : Node) (cpt : Component) (cid : Bytes) → AreRegistered (group_issues n cpt cid)
unfolding IsGroup group_issues about
group-AreRegistered n cpt cid = of_group (group_prefix cpt.project_group) (group_prefix-IsGroup _)
  where
    of_group :
        (g : Option (Bytes × Bytes))
        → IsGroup g
        → AreRegistered (elim g [
          | none ↦ []
          | some (start, tag) ↦ when (not (str_has_prefix cid start)) (about n tag cid)
        ])
    of_group none _ = none-AreRegistered
    of_group (some (start, tag)) h = when-AreRegistered _ _ h

pub component_id-AreRegistered :
    (l : Library) (n : Node) (cpt : Component) (cid : Bytes)
    → AreRegistered (component_id_issues l n cpt cid)
unfolding component_id_issues full_id_issues
component_id-AreRegistered l n cpt cid = join _ _ (prefix-AreRegistered n cid) (
    if-AreRegistered cpt.is_merge [] _ none-AreRegistered (
      join _ _
        (join _ _
          (join _ _ (domain-AreRegistered l n cpt cid (str_split b'.' cid))
            (char-AreRegistered l n cid 0 false cid))
          (segment-AreRegistered n cid (str_split b'.' cid)))
        (group-AreRegistered n cpt cid)))

license_loop-AreRegistered :
    (t : Tables) (strip : Bytes → Bytes) (n : Node) (ss : List Bytes)
    → AreRegistered (license_loop t strip n ss)
unfolding license_loop find_tag validator_issue_tag_list
license_loop-AreRegistered t strip n [] = none-AreRegistered
license_loop-AreRegistered t strip n (s ∷ ss) =
    if-AreRegistered _ _ _ (license_loop-AreRegistered t strip n ss)
      (issue_at-AreRegistered n (codes "spdx-license-unknown") (some (strip s)) refl)

pub project_license-AreRegistered :
    (t : Tables) (strip : Bytes → Bytes) (n : Node)
    → AreRegistered (project_license_issues t strip n)
unfolding project_license_issues find_tag validator_issue_tag_list
project_license-AreRegistered t strip n = elim (Option-cases (tokenize t n.value_raw)) [
  | inl e ↦
      rw (e, project_license_issues)
        (issue_at-AreRegistered n (codes "spdx-expression-invalid") n.value_raw refl)
  | inr (ss, e) ↦ rw (e, project_license_issues) (license_loop-AreRegistered t strip n ss)
]

pub metadata_license-AreRegistered :
    (t : Tables) (n : Node) → AreRegistered (metadata_license_issues t n)
unfolding metadata_license_issues find_tag validator_issue_tag_list
metadata_license-AreRegistered t n = elim (Option-cases (tokenize t n.value_raw)) [
  | inl e ↦
      rw (e, metadata_license_issues)
        (issue_at-AreRegistered n (codes "spdx-expression-invalid") n.value_raw refl)
  | inr (ss, e) ↦
      rw (e, metadata_license_issues)
        (if-AreRegistered _ _ _
          (issue_at-AreRegistered n (codes "metadata-license-too-complex") n.value_raw refl)
          (if-AreRegistered _ _ _ none-AreRegistered
            (issue_at-AreRegistered n (codes "metadata-license-invalid") n.value_raw refl)))
]

pub update_contact-AreRegistered : (n : Node) → AreRegistered (update_contact_issues n)
unfolding update_contact_issues find_tag validator_issue_tag_list
update_contact-AreRegistered n =
    if-AreRegistered _ _ _
      (if-AreRegistered _ _ _ none-AreRegistered
        (issue_at-AreRegistered n (codes "update-contact-no-mail") n.value_raw refl))
      none-AreRegistered
