-- ===== src/ContentRating/Description/Lookup.antt =====
-- src/as-content-rating.c: as_content_rating_attribute_get_description and
-- as_content_rating_id_is_valid.
use Prim.Native.String.{String}
use appstream.Base.{
  Bool, true, false, Option, none, some, List, [], ◌∷◌, ◌++◌, if◌then◌else◌, Bytes, str_equal, ◌≡◌,
  ◌≢◌, refl, arith, ◌∙◌, sym, ap, leb, str_equal_iff,
}
use appstream.ContentRating.{
  Value, none_given, mild, moderate, intense, Mapping, oars_to_csm_mappings, find_mapping,
  is_oars_key, v1_1, version_rank,
}
use appstream.ContentRating.Ages.{version_in_range}
use appstream.ContentRating.Description.{Description}
use appstream.ContentRating.Description.First.{first_descriptions}
use appstream.ContentRating.Description.Second.{second_descriptions}

abbrev oars_descriptions : List Description
oars_descriptions = first_descriptions ++ second_descriptions

abbrev or_lower : Option String → Option String → Option String
or_lower none d = d
or_lower (some s) d = some s

-- The most intense description that is given, up to a value.
pub describe : Description → Value → Option String
describe d Value.unknown = none
describe d none_given = some d.desc_none
describe d mild = or_lower d.desc_mild (some d.desc_none)
describe d moderate = or_lower d.desc_moderate (or_lower d.desc_mild (some d.desc_none))
describe d intense =
    or_lower d.desc_intense (or_lower d.desc_moderate (or_lower d.desc_mild (some d.desc_none)))

find_description : List Description → Bytes → Option Description
find_description [] id = none
find_description (d ∷ ds) id = if str_equal d.id id then some d else find_description ds id

-- `as_content_rating_attribute_get_description`, before translation.
attribute_get_description : Bytes → Value → Option String
attribute_get_description id Value.unknown = none
attribute_get_description id v = elim (find_description oars_descriptions id) [
  | none ↦ none
  | some d ↦ describe d v
]

abbrev is_given : Option String → Bool
is_given none = false
is_given (some s) = true

has_description : Description → Value → Bool
has_description d Value.unknown = false
has_description d none_given = true
has_description d mild = is_given d.desc_mild
has_description d moderate = is_given d.desc_moderate
has_description d intense = is_given d.desc_intense

-- `as_content_rating_id_is_valid`
id_is_valid : Bytes → Value → Bool
id_is_valid id v = elim (find_description oars_descriptions id) [
  | none ↦ false
  | some d ↦ has_description d v
]

-- The two tables list the same ids in the same order.
abbrev SameIds : List Description → List Mapping → Type 0
SameIds [] [] = Unit
SameIds [] (m ∷ ms) = ⊥
SameIds (d ∷ ds) [] = ⊥
SameIds (d ∷ ds) (m ∷ ms) = (d.id ≡ m.id) × SameIds ds ms

tables-SameIds : SameIds oars_descriptions oars_to_csm_mappings
tables-SameIds = ground arith

abbrev has_row : Option Mapping → Bool
has_row o = elim o [ none ↦ false | some m ↦ leb (version_rank m.oars_version) 2 ]

abbrev is_described : Option Description → Bool
is_described none = false
is_described (some d) = true

find_description-find_mapping :
    (ds : List Description) (ms : List Mapping) (id : Bytes)
    → SameIds ds ms
    → is_described (find_description ds id) ≡ has_row (find_mapping ms id)
unfolding find_description find_mapping
find_description-find_mapping [] [] id _ = refl
find_description-find_mapping [] (m ∷ ms) id h = absurd h
find_description-find_mapping (d ∷ ds) [] id h = absurd h
find_description-find_mapping (d ∷ ds) (m ∷ ms) id (e, h) = ground (
  arith,
  e,
  str_equal_iff d.id id,
  str_equal_iff id m.id,
  version_in_range m.oars_version,
  find_description-find_mapping ds ms id h,
)

described-describe :
    (o : Option Description) (v : Value)
    → v ≢ Value.unknown
    → is_given (elim o [ none ↦ none | some d ↦ describe d v ]) ≡ is_described o
unfolding describe
described-describe none v known = refl
described-describe (some d) v known = ground (arith, known)

attribute_get_description-known :
    (id : Bytes) (v : Value)
    → v ≢ Value.unknown
    → attribute_get_description id v
      ≡ elim (find_description oars_descriptions id) [ none ↦ none | some d ↦ describe d v ]
unfolding attribute_get_description
attribute_get_description-known id Value.unknown known = absurd (known refl)
attribute_get_description-known id none_given known = refl
attribute_get_description-known id mild known = refl
attribute_get_description-known id moderate known = refl
attribute_get_description-known id intense known = refl

described_of :
    (o : Option Description) (v : Value)
    → elim o [ none ↦ false | some d ↦ has_description d v ] ≡ true
    → is_described o ≡ true
described_of none v e = absurd (cc)
described_of (some d) v e = refl

-- The ids with descriptions are the ids of OARS 1.1, and each has a description for every known
-- value; an id that is valid for a value is one of them.
description_known :
    (id : Bytes) (v : Value)
    → v ≢ Value.unknown
    → (is_given (attribute_get_description id v) ≡ is_oars_key id v1_1)
      × (id_is_valid id v ≡ true → is_oars_key id v1_1 ≡ true)
unfolding is_oars_key id_is_valid
description_known id v known =
    let same =
      find_description-find_mapping oars_descriptions oars_to_csm_mappings id tables-SameIds in
    (
      ap is_given (attribute_get_description-known id v known)
          ∙ described-describe (find_description oars_descriptions id) v known
          ∙ same,
      λ valid. sym same ∙ described_of (find_description oars_descriptions id) v valid,
    )
