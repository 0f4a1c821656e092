-- ===== src/DataId/Sections.antt =====
-- The sections of a data id.
use appstream.Base.{
  ℕ, zero, suc, ◌+◌, true, false, Option, none, some, List, [], ◌∷◌, ◌==◌, if◌then◌else◌, Bytes,
  length, ◌≡◌, refl, ◌↔◌, arith, All, ◌++◌,
}
use appstream.DataId.{
  count_sections, data_id_valid, find_part, behind_part, split_at_most, cons_first,
}

-- All sections: the parts between the slashes.
abbrev pub sections : Bytes → List Bytes
sections [] = [] ∷ []
sections (c ∷ s) = if c == b'/' then [] ∷ sections s else cons_first c (sections s)

abbrev pub sections_behind : Option Bytes → List Bytes
sections_behind none = []
sections_behind (some s) = sections s

pub sections-find_part : (s : Bytes) → sections s ≡ find_part s ∷ sections_behind (behind_part s)
unfolding find_part behind_part
sections-find_part [] = refl
sections-find_part (c ∷ s) = ground (arith, sections-find_part s)

count_sections-length : (s : Bytes) (n : ℕ) → suc (count_sections s n) ≡ n + length (sections s)
unfolding count_sections
count_sections-length [] n = omega arith
count_sections-length (c ∷ s) n =
    ground (arith, sections-find_part s, count_sections-length s n, count_sections-length s (suc n))

data_id_valid-length : (s : Bytes) → (data_id_valid (some s) ≡ true) ↔ (length (sections s) ≡ 5)
unfolding data_id_valid
data_id_valid-length s = ground (arith, count_sections-length s 1)

pub valid-length : (s : Bytes) → data_id_valid (some s) ≡ true → length (sections s) ≡ 5
valid-length s = (data_id_valid-length s).0

pub length-valid : (s : Bytes) → length (sections s) ≡ 5 → data_id_valid (some s) ≡ true
length-valid s = (data_id_valid-length s).1

-- No byte is a slash.
abbrev pub IsPart : Bytes → Type 0
IsPart s = All (λ c. (c == b'/') ≡ false) s

pub sections-part : (p : Bytes) → IsPart p → sections p ≡ p ∷ []
sections-part [] _ = refl
sections-part (c ∷ p) (l, ls) = ground (arith, l, sections-part p ls)

pub sections-slash : (p s : Bytes) → IsPart p → sections (p ++ b'/' ∷ s) ≡ p ∷ sections s
sections-slash [] s _ = refl
sections-slash (c ∷ p) s (l, ls) = ground (arith, l, sections-slash p s ls)

pub split_at_most-sections :
    (n : ℕ) (s : Bytes) → length (sections s) ≡ suc n → split_at_most n s ≡ sections s
unfolding split_at_most
split_at_most-sections zero [] e = refl
split_at_most-sections (suc n) [] e = refl
split_at_most-sections zero (c ∷ s) e =
    ground (arith, e, sections-find_part s, split_at_most-sections zero s)
split_at_most-sections (suc n) (c ∷ s) e =
    ground
      (arith, e, sections-find_part s, split_at_most-sections n s, split_at_most-sections (suc n) s)
