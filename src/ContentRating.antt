-- ===== src/ContentRating.antt =====
-- src/as-content-rating.c: content ratings, and the ages that belong to them.
pub mod Ages
pub mod System
pub mod Description
pub mod Values
mod Tests
use Prim.Native.String.{String}
use appstream.Base.{
  ℕ, Bool, false, not, ◌&&◌, ◌||◌, Option, none, some, List, [], ◌∷◌, ◌++◌, if◌then◌else◌, Bytes,
  codes, str_equal, ltb, leb,
}
use appstream.Relation.Kinds.{is_text}
use appstream.Vercmp.{Outcome, value, over_read}

-- `AsContentRatingValue`, less its end mark.
pub data Value : Type 0 where
  unknown none_given mild moderate intense : Value

pub data OarsVersion : Type 0 where
  unknown v1_0 v1_1 : OarsVersion

-- The number of an enumerator.
abbrev pub rank : Value → ℕ
rank Value.unknown = 0
rank none_given = 1
rank mild = 2
rank moderate = 3
rank intense = 4

abbrev pub version_rank : OarsVersion → ℕ
version_rank OarsVersion.unknown = 0
version_rank v1_0 = 1
version_rank v1_1 = 2

-- A row of `oars_to_csm_mappings`.
pub record Mapping : Type 0 where
  pub id : Bytes
  pub oars_version : OarsVersion
  pub csm_age_none : ℕ
  pub csm_age_mild : ℕ
  pub csm_age_moderate : ℕ
  pub csm_age_intense : ℕ

abbrev mapping : String → OarsVersion → ℕ → ℕ → ℕ → ℕ → Mapping
mapping id version a b c d = record {
  id = codes id;
  oars_version = version;
  csm_age_none = a;
  csm_age_mild = b;
  csm_age_moderate = c;
  csm_age_intense = d;
}

abbrev pub oars_to_csm_mappings : List Mapping
oars_to_csm_mappings =
    mapping "violence-cartoon" v1_0 0 3 4 6
    ∷ mapping "violence-fantasy" v1_0 0 3 7 8
    ∷ mapping "violence-realistic" v1_0 0 4 9 14
    ∷ mapping "violence-bloodshed" v1_0 0 9 11 18
    ∷ mapping "violence-sexual" v1_0 0 18 18 18
    ∷ mapping "drugs-alcohol" v1_0 0 11 13 16
    ∷ mapping "drugs-narcotics" v1_0 0 12 14 17
    ∷ mapping "drugs-tobacco" v1_0 0 10 13 13
    ∷ mapping "sex-nudity" v1_0 0 12 14 14
    ∷ mapping "sex-themes" v1_0 0 13 14 15
    ∷ mapping "language-profanity" v1_0 0 8 11 14
    ∷ mapping "language-humor" v1_0 0 3 8 14
    ∷ mapping "language-discrimination" v1_0 0 9 10 11
    ∷ mapping "money-advertising" v1_0 0 7 8 10
    ∷ mapping "money-gambling" v1_0 0 7 10 18
    ∷ mapping "money-purchasing" v1_0 0 12 14 15
    ∷ mapping "social-chat" v1_0 0 4 10 13
    ∷ mapping "social-audio" v1_0 0 15 15 15
    ∷ mapping "social-contacts" v1_0 0 12 12 12
    ∷ mapping "social-info" v1_0 0 0 13 13
    ∷ mapping "social-location" v1_0 0 13 13 13
    ∷ mapping "sex-homosexuality" v1_1 0 13 14 15
    ∷ mapping "sex-prostitution" v1_1 0 12 14 18
    ∷ mapping "sex-adultery" v1_1 0 8 10 18
    ∷ mapping "sex-appearance" v1_1 0 10 10 15
    ∷ mapping "violence-worship" v1_1 0 13 15 18
    ∷ mapping "violence-desecration" v1_1 0 13 15 18
    ∷ mapping "violence-slavery" v1_1 0 13 15 18
    ∷ []

-- The row with an id.
pub find_mapping : List Mapping → Bytes → Option Mapping
find_mapping [] id = none
find_mapping (m ∷ ms) id = if str_equal id m.id then some m else find_mapping ms id

-- `as_is_oars_key`
pub is_oars_key : Bytes → OarsVersion → Bool
is_oars_key id version = elim (find_mapping oars_to_csm_mappings id) [
  | none ↦ false
  | some m ↦ leb (version_rank m.oars_version) (version_rank version)
]

-- The column of a value.
pub age_of : Mapping → Value → ℕ
age_of m Value.unknown = 0
age_of m none_given = m.csm_age_none
age_of m mild = m.csm_age_mild
age_of m moderate = m.csm_age_moderate
age_of m intense = m.csm_age_intense

-- `as_content_rating_attribute_to_csm_age`
pub attribute_to_csm_age : Bytes → Value → ℕ
attribute_to_csm_age id Value.unknown = 0
attribute_to_csm_age id v = elim (find_mapping oars_to_csm_mappings id) [
  | none ↦ 0
  | some m ↦ age_of m v
]

-- The value that a row allows at an age.
pub value_at : Mapping → ℕ → Value
value_at m age =
    if leb m.csm_age_intense age
    then intense
    else if leb m.csm_age_moderate age
    then moderate
    else if leb m.csm_age_mild age
    then mild
    else if leb m.csm_age_none age
    then none_given
    else Value.unknown

-- The loop of `as_content_rating_attribute_from_csm_age`. Its condition is the number of rows, which
-- is never 0, so behind the last row it reads on.
pub from_csm_age_loop : List Mapping → Bytes → ℕ → Outcome Value
from_csm_age_loop [] id age = over_read
from_csm_age_loop (m ∷ ms) id age =
    if str_equal id m.id then value (value_at m age) else from_csm_age_loop ms id age

pub attribute_from_csm_age : Bytes → ℕ → Outcome Value
attribute_from_csm_age id age = from_csm_age_loop oars_to_csm_mappings id age

pub record Key : Type 0 where
  pub id : Bytes
  pub value : Value

-- `AsContentRatingPrivate`
pub record ContentRating : Type 0 where
  pub kind : Option Bytes
  pub keys : List Key

abbrev pub new : ContentRating
new = record { kind = none; keys = [] }

set_kind : Option Bytes → ContentRating → ContentRating
set_kind kind r = record r { kind = kind }

-- `as_content_rating_set_value`, and `as_content_rating_add_attribute`, which has the same body.
pub set_value : Bytes → Value → ContentRating → ContentRating
set_value id Value.unknown r = r
set_value id v r = record r { keys = r.keys ++ (record { id = id; value = v }) ∷ [] }

pub find_key : List Key → Bytes → Option Value
find_key [] id = none
find_key (k ∷ ks) id = if str_equal k.id id then some k.value else find_key ks id

-- The value of an id that is not set.
default_value : Option Bytes → Bytes → Value
default_value kind id =
    if is_text kind (codes "oars-1.0") && is_oars_key id v1_0
      || is_text kind (codes "oars-1.1") && is_oars_key id v1_1
    then none_given
    else Value.unknown

-- `as_content_rating_get_value`
pub get_value : ContentRating → Bytes → Value
get_value r id = elim (find_key r.keys id) [ none ↦ default_value r.kind id | some v ↦ v ]

-- The loop of `as_content_rating_get_minimum_age`.
pub minimum_age_loop : List Key → ℕ → ℕ
minimum_age_loop [] csm_age = csm_age
minimum_age_loop (k ∷ ks) csm_age =
    let csm_tmp = attribute_to_csm_age k.id k.value in
    minimum_age_loop ks (if ltb 0 csm_tmp && ltb csm_age csm_tmp then csm_tmp else csm_age)

-- `as_content_rating_get_minimum_age`; `none` is G_MAXUINT.
pub get_minimum_age : ContentRating → Option ℕ
get_minimum_age r =
    if not (is_text r.kind (codes "oars-1.0")) && not (is_text r.kind (codes "oars-1.1"))
    then none
    else some (minimum_age_loop r.keys 0)

pub value_to_string : Value → Bytes
value_to_string none_given = codes "none"
value_to_string mild = codes "mild"
value_to_string moderate = codes "moderate"
value_to_string intense = codes "intense"
value_to_string Value.unknown = codes "unknown"

pub value_from_string : Option Bytes → Value
value_from_string s =
    if is_text s (codes "none")
    then none_given
    else if is_text s (codes "mild")
    then mild
    else if is_text s (codes "moderate")
    then moderate
    else if is_text s (codes "intense")
    then intense
    else Value.unknown

oars_version_from_string : Option Bytes → OarsVersion
oars_version_from_string s =
    if is_text s (codes "oars-1.0")
    then v1_0
    else if is_text s (codes "oars-1.1")
    then v1_1
    else OarsVersion.unknown
