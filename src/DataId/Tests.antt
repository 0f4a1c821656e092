-- ===== src/DataId/Tests.antt =====
-- Runs of the data id routines, and their theorems at concrete data ids.
use appstream.Base.{Bool, true, false, some, Bytes, codes, ◌≡◌, ◌↔◌, refl}
use appstream.DataId.{
  data_id_valid, count_sections, data_id_get_cid, data_id_match, data_id_equal, data_id_hash,
  MatchFlags, flag_bits, split_at_most, fourth_of_five, find_part, behind_part, match_loop,
  part_matches, is_wildcard_part,
}
use appstream.DataId.Hash.{data_id_hash-equal}
use appstream.DataId.Match.{AllAgree, data_id_match-AllAgree}
use appstream.DataId.Sections.{sections}
use appstream.Vercmp.{value}

abbrev debian_editor : Bytes
debian_editor = codes "system/package/debian/org.example.Editor/stable"

abbrev any_editor : Bytes
any_editor = codes "system/*/*/org.example.Editor/*"

-- All sections but the branch.
abbrev not_branch : MatchFlags
not_branch = record { scope = true; bundle_kind = true; origin = true; id = true; branch = false }

data_id_match-AllAgree_example :
    (r : Bool) × (data_id_match (some debian_editor) (some any_editor) not_branch ≡ value r)
    × ((r ≡ true) ↔ AllAgree (flag_bits not_branch) (sections debian_editor) (sections any_editor))
unfolding data_id_valid count_sections
data_id_match-AllAgree_example =
    data_id_match-AllAgree debian_editor any_editor not_branch refl refl

data_id_hash-equal_example : data_id_hash (λ s. 0) debian_editor ≡ data_id_hash (λ s. 0) any_editor
unfolding data_id_valid count_sections data_id_get_cid split_at_most fourth_of_five data_id_equal
    data_id_match match_loop find_part behind_part part_matches is_wildcard_part
data_id_hash-equal_example =
    data_id_hash-equal (λ s. 0) debian_editor any_editor (codes "org.example.Editor")
      (codes "org.example.Editor") refl refl refl refl (λ e. absurd (cc)) (λ e. absurd (cc)) refl
