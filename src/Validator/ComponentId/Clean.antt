-- ===== src/Validator/ComponentId/Clean.antt =====
-- src/as-validator.c: the component ids that pass without an issue.
use appstream.Base.{
  ℕ, Bool, true, false, not, ◌&&◌, ◌||◌, Option, none, some, List, [], ◌∷◌, ◌++◌, ◌==◌, ◌+◌, leb,
  if◌then◌else◌, Bytes, codes, str_has_prefix, str_split, is_alpha, is_upper, split_rest, is_digit,
  is_punct, ◌≡◌, ◌↔◌, ap, sym, ◌∙◌, refl, arith, All,
}
use appstream.Validator.{Component, Node, Emission}
use appstream.Validator.Text.{string_lowercase, string_lowercase-All, is_id_char}
use appstream.Validator.ComponentId.{
  Library, is_tld, about, when, prefix_issues, domain_issues, char_issues, invalid_character,
  has_number_prefix, segment_issues, group_prefix, group_issues, full_id_issues,
  component_id_issues,
}

-- A small letter, a digit, a dot or an underscore.
abbrev is_clean_char : ℕ → Bool
is_clean_char c = leb b'a' c && leb c b'z' || is_digit c || c == b'.' || c == b'_'

abbrev pub StartsWell : Bytes → Type 0
StartsWell [] = Unit
StartsWell (c ∷ s) = is_punct c ≡ false

abbrev HasDomain : Library → List Bytes → Type 0
HasDomain l (a ∷ b ∷ c ∷ parts) = is_tld l.tld_list a ≡ true
HasDomain l parts = ⊥

abbrev IsAffiliated : Option (Bytes × Bytes) → Bytes → Type 0
IsAffiliated none cid = Unit
IsAffiliated (some (start, tag)) cid = str_has_prefix cid start ≡ true

-- At least three parts behind a top-level domain, of clean characters alone, none of them starting with
-- a number, with the start that the project group asks for.
pub record IsClean (l : Library) (cpt : Component) (cid : Bytes) : Type 0 where
  pub domain : HasDomain l (str_split b'.' cid)
  pub characters : All (λ c. is_clean_char c ≡ true) cid
  pub segments : All (λ p. has_number_prefix p ≡ false) (str_split b'.' cid)
  pub affiliated : IsAffiliated (group_prefix cpt.project_group) cid

append-empty : (xs ys : List Emission) → (xs ++ ys ≡ []) ↔ ((xs ≡ []) × (ys ≡ []))
append-empty [] ys = ground arith
append-empty (x ∷ xs) ys = ground arith

when-empty : (b : Bool) (e : Emission) → (when b e ≡ []) ↔ (b ≡ false)
unfolding when
when-empty true e = ground arith
when-empty false e = ground arith

prefix_issues-StartsWell : (n : Node) (cid : Bytes) → (prefix_issues n cid ≡ []) ↔ StartsWell cid
unfolding prefix_issues
prefix_issues-StartsWell n [] = ground arith
prefix_issues-StartsWell n (c ∷ s) = when-empty (is_punct c) _

three_empty :
    (a b c : Bool) (e f g : Emission) (xs : List Emission)
    → (when a e ++ when b f ++ when c g ++ xs ≡ [])
      ↔ ((a ≡ false) × (b ≡ false) × (c ≡ false) × (xs ≡ []))
unfolding when
three_empty true b c e f g xs = ground arith
three_empty false true c e f g xs = ground arith
three_empty false false true e f g xs = ground arith
three_empty false false false e f g xs = ground arith

-- The three tests of a character, of which the one for a hyphen is made until the first one.
clean_char :
    (c : ℕ)
    → (is_clean_char c ≡ true) ↔ (
        (not (is_id_char c) ≡ false) × ((c == b'-') ≡ false) × ((is_alpha c && is_upper c) ≡ false))
clean_char c = ground arith

char_issues-clean :
    (l : Library) (n : Node) (cid : Bytes) (i : ℕ) (s : Bytes)
    → (char_issues l n cid i false s ≡ []) ↔ All (λ c. is_clean_char c ≡ true) s
unfolding char_issues
char_issues-clean l n cid i [] = ground arith
char_issues-clean l n cid i (c ∷ s) =
    let invalid = invalid_character l n cid i in
    let hyphen = about n (codes "cid-contains-hyphen") cid in
    let upper = about n (codes "cid-contains-uppercase-letter") cid in
    let (split, join) =
      three_empty (not (is_id_char c)) (c == b'-') (is_alpha c && is_upper c) invalid hyphen upper
        (char_issues l n cid (i + 1) (c == b'-') s) in
    let (clean_only, clean) = clean_char c in
    let (rest_only, rest) = char_issues-clean l n cid (i + 1) s in
    (
      λ e.
          let (a, b, u, none_left) = split e in
          (
            clean (a, b, u),
            rest_only (ap (λ h. char_issues l n cid (i + 1) h s) (sym b) ∙ none_left),
          ),
      λ (here, behind).
          let (a, b, u) = clean_only here in
          join (a, b, u, ap (λ h. char_issues l n cid (i + 1) h s) b ∙ rest behind),
    )

segment_issues-All :
    (n : Node) (cid : Bytes) (ps : List Bytes)
    → (segment_issues n cid ps ≡ []) ↔ All (λ p. has_number_prefix p ≡ false) ps
unfolding segment_issues
segment_issues-All n cid [] = ground arith
segment_issues-All n cid (p ∷ ps) = ground (arith, segment_issues-All n cid ps)

group_issues-IsAffiliated :
    (n : Node) (cpt : Component) (cid : Bytes)
    → (group_issues n cpt cid ≡ []) ↔ IsAffiliated (group_prefix cpt.project_group) cid
unfolding group_issues
group_issues-IsAffiliated n cpt cid = of_group (group_prefix cpt.project_group)
  where
    of_group :
        (g : Option (Bytes × Bytes))
        → ((elim g [
          | none ↦ []
          | some (start, tag) ↦ when (not (str_has_prefix cid start)) (about n tag cid)
        ])
            ≡ [])
          ↔ IsAffiliated g cid
    of_group none = ground arith
    of_group (some (start, tag)) =
        ground (arith, when-empty (not (str_has_prefix cid start)) (about n tag cid))

All-grow :
    (P : ℕ → Type 0) (c : ℕ) (b : Bool) (ws : List Bytes)
    → P c
    → All (All P) ws
    → All (All P) (if b then [] ∷ ws else elim ws [ [] ↦ (c ∷ []) ∷ [] | w ∷ ws ↦ (c ∷ w) ∷ ws ])
All-grow P c true ws here all = (_, all)
All-grow P c false [] here all = ((here, _), _)
All-grow P c false (w ∷ ws) here (first, all) = ((here, first), all)

All-split_rest : (P : ℕ → Type 0) (k : ℕ) (s : Bytes) → All P s → All (All P) (split_rest k s)
All-split_rest P k [] _ = (_, _)
All-split_rest P k (c ∷ s) (here, behind) =
    All-grow P c (c == k) (split_rest k s) here (All-split_rest P k s behind)

All-split : (P : ℕ → Type 0) (k : ℕ) (s : Bytes) → All P s → All (All P) (str_split k s)
All-split P k [] _ = _
All-split P k (c ∷ s) all = All-split_rest P k (c ∷ s) all

parts_lowercase :
    (ps : List Bytes)
    → All (All (λ c. is_upper c ≡ false)) ps
    → All (λ p. string_lowercase p ≡ true) ps
parts_lowercase [] _ = _
parts_lowercase (p ∷ ps) (here, behind) = (string_lowercase-All p here, parts_lowercase ps behind)

-- With clean characters alone, no part has a capital.
clean_is_lower : (s : Bytes) → All (λ c. is_clean_char c ≡ true) s → All (λ c. is_upper c ≡ false) s
clean_is_lower [] _ = _
clean_is_lower (c ∷ s) (here, behind) = (ground (arith, here), clean_is_lower s behind)

domain_issues-HasDomain :
    (l : Library) (n : Node) (cpt : Component) (cid : Bytes) (ps : List Bytes)
    → All (λ p. string_lowercase p ≡ true) ps
    → (domain_issues l n cpt cid ps ≡ []) ↔ HasDomain l ps
unfolding domain_issues
domain_issues-HasDomain l n cpt cid [] _ = ground arith
domain_issues-HasDomain l n cpt cid (a ∷ []) _ = ground arith
domain_issues-HasDomain l n cpt cid (a ∷ b ∷ []) _ = ground arith
domain_issues-HasDomain l n cpt cid (a ∷ b ∷ c ∷ ps) (la, (lb, rest)) =
    let (split, join) =
      three_empty (not (is_tld l.tld_list a)) (not (string_lowercase a)) (not (string_lowercase b))
        (about n (codes "cid-maybe-not-rdns") cid) (about n (codes "cid-domain-not-lowercase") cid)
        (about n (codes "cid-domain-not-lowercase") cid) [] in
    (
      λ e. ground (arith, (split e).0),
      λ t. join (ground (arith, t), ground (arith, la), ground (arith, lb), refl),
    )

full_id_issues-IsClean :
    (l : Library) (n : Node) (cpt : Component) (cid : Bytes)
    → (full_id_issues l n cpt cid ≡ []) ↔ IsClean l cpt cid
unfolding full_id_issues
full_id_issues-IsClean l n cpt cid =
    let parts = str_split b'.' cid in
    let groups = group_issues n cpt cid in
    let segments = segment_issues n cid parts in
    let characters = char_issues l n cid 0 false cid in
    let domain = λ (clean : All (λ c. is_clean_char c ≡ true) cid).
      domain_issues-HasDomain l n cpt cid parts (
        parts_lowercase parts
          (All-split (λ c. is_upper c ≡ false) b'.' cid (clean_is_lower cid clean))) in
    let domains = domain_issues l n cpt cid parts in
    let three = append-empty (domains ++ characters ++ segments) groups in
    let two = append-empty (domains ++ characters) segments in
    let one = append-empty domains characters in
    let char_iff = char_issues-clean l n cid 0 cid in
    let segment_iff = segment_issues-All n cid parts in
    let group_iff = group_issues-IsAffiliated n cpt cid in
    (
      λ e.
          let (e2, g) = three.0 e in
          let (e1, s) = two.0 e2 in
          let (d, c) = one.0 e1 in
          record {
            domain = (domain (char_iff.0 c)).0 d;
            characters = char_iff.0 c;
            segments = segment_iff.0 s;
            affiliated = group_iff.0 g;
          },
      λ i. three.1 (
        two.1 (
          one.1 ((domain i.characters).1 i.domain, char_iff.1 i.characters),
          segment_iff.1 i.segments,
        ),
        group_iff.1 i.affiliated,
      ),
    )

if-empty : (b : Bool) (xs : List Emission) → ((if b then [] else xs) ≡ []) ↔ (b ≡ false → xs ≡ [])
if-empty true xs = ground arith
if-empty false xs = (λ e _. e, λ h. h refl)

-- A component id passes without an issue exactly if it does not start with punctuation and, unless the
-- component is for merging, it has at least three parts behind a known top-level domain, is made of
-- small letters, digits, dots and underscores alone, has no part that starts with a number, and has the
-- start that its project group asks for.
pub component_id_issues-IsClean :
    (l : Library) (n : Node) (cpt : Component) (cid : Bytes)
    → (component_id_issues l n cpt cid ≡ [])
      ↔ (StartsWell cid × (cpt.is_merge ≡ false → IsClean l cpt cid))
unfolding component_id_issues
component_id_issues-IsClean l n cpt cid =
    let rest = if cpt.is_merge then [] else full_id_issues l n cpt cid in
    let two = append-empty (prefix_issues n cid) rest in
    let start = prefix_issues-StartsWell n cid in
    let full = if-empty cpt.is_merge (full_id_issues l n cpt cid) in
    let clean = full_id_issues-IsClean l n cpt cid in
    (
      λ e. let (p, r) = two.0 e in (start.0 p, λ k. clean.0 (full.0 r k)),
      λ (w, h). two.1 (start.1 w, full.1 (λ k. clean.1 (h k))),
    )
