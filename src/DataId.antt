-- ===== src/DataId.antt =====
-- src/as-utils.c: the data ids, which name one dataset of a component by five sections.
pub mod Kinds
pub mod Sections
pub mod Match
pub mod Hash
pub mod Build
mod Tests
use appstream.Base.{
  ℕ, zero, suc, ◌+◌, ◌*◌, ◌%◌, Bool, true, false, not, ◌&&◌, Option, none, some, List, [], ◌∷◌,
  ◌++◌, ◌==◌, if◌then◌else◌, Bytes, codes, str_equal, leb, ltb, length,
}
use appstream.DataId.Kinds.{Scope, scope_to_string, BundleKind, bundle_kind_to_string}
use appstream.Vercmp.{Outcome, value, over_read}

-- `_as_fix_data_id_part`
pub fix_data_id_part : Option Bytes → Bytes
fix_data_id_part none = codes "*"
fix_data_id_part (some []) = codes "*"
fix_data_id_part (some (c ∷ s)) = c ∷ s

-- A package of the system has the origin "os".
pub fix_origin : Scope → BundleKind → Option Bytes → Option Bytes
fix_origin Scope.system BundleKind.package_kind origin = some (codes "os")
fix_origin scope kind origin = origin

pub scope_part : Scope → Option Bytes
scope_part Scope.unknown = none
scope_part scope = some (scope_to_string scope)

pub bundle_part : BundleKind → Option Bytes
bundle_part BundleKind.unknown = none
bundle_part kind = some (bundle_kind_to_string kind)

-- `as_utils_build_data_id`: origin, component id and branch.
pub build_data_id : Scope → BundleKind → Option Bytes → Option Bytes → Option Bytes → Bytes
build_data_id scope kind origin cid branch =
    fix_data_id_part (scope_part scope)
    ++ b'/'
      ∷ (fix_data_id_part (bundle_part kind)
          ++ b'/'
            ∷ (fix_data_id_part (fix_origin scope kind origin)
                ++ b'/' ∷ (fix_data_id_part cid ++ b'/' ∷ fix_data_id_part branch)))

pub count_sections : Bytes → ℕ → ℕ
count_sections [] sections = sections
count_sections (c ∷ s) sections = count_sections s (if c == b'/' then suc sections else sections)

-- `as_utils_data_id_valid`
pub data_id_valid : Option Bytes → Bool
data_id_valid none = false
data_id_valid (some s) = count_sections s 1 == 5

abbrev pub cons_first : ℕ → List Bytes → List Bytes
cons_first c [] = (c ∷ []) ∷ []
cons_first c (w ∷ ws) = (c ∷ w) ∷ ws

-- `g_strsplit (s, "/", n + 1)` of a string that is not empty.
pub split_at_most : ℕ → Bytes → List Bytes
split_at_most zero s = s ∷ []
split_at_most (suc n) [] = [] ∷ []
split_at_most (suc n) (c ∷ s) =
    if c == b'/' then [] ∷ split_at_most n s else cons_first c (split_at_most (suc n) s)

pub fourth_of_five : List Bytes → Option Bytes
fourth_of_five (a ∷ b ∷ c ∷ d ∷ e ∷ []) = some d
fourth_of_five _ = none

-- `as_utils_data_id_get_cid`
pub data_id_get_cid : Bytes → Option Bytes
data_id_get_cid [] = none
data_id_get_cid (c ∷ s) = fourth_of_five (split_at_most 4 (c ∷ s))

-- The bytes up to the next slash or the end: `_as_utils_data_id_find_part`.
pub find_part : Bytes → Bytes
find_part [] = []
find_part (c ∷ s) = if c == b'/' then [] else c ∷ find_part s

-- The pointer behind that place; `none` stands behind the terminating NUL.
pub behind_part : Bytes → Option Bytes
behind_part [] = none
behind_part (c ∷ s) = if c == b'/' then some s else behind_part s

pub is_wildcard_part : Bytes → Bool
is_wildcard_part s = str_equal s (codes "*")

-- `AsDataIdMatchFlags`, from the first section to the last.
pub record MatchFlags : Type 0 where
  pub scope : Bool
  pub bundle_kind : Bool
  pub origin : Bool
  pub id : Bool
  pub branch : Bool

abbrev pub flag_bits : MatchFlags → List Bool
flag_bits f = f.scope ∷ f.bundle_kind ∷ f.origin ∷ f.id ∷ f.branch ∷ []

abbrev pub all_flags : MatchFlags
all_flags = record { scope = true; bundle_kind = true; origin = true; id = true; branch = true }

-- The test of one section.
pub part_matches : Bool → Bytes → Bytes → Bool
part_matches flag p1 p2 =
    if flag && not (is_wildcard_part p1) && not (is_wildcard_part p2)
    then length p1 == length p2 && str_equal p1 p2
    else true

-- The loop of `as_utils_data_id_match`, over the bits of the flags.
pub match_loop : List Bool → Option Bytes → Option Bytes → Outcome Bool
match_loop [] d1 d2 = value true
match_loop (f ∷ fs) none d2 = over_read
match_loop (f ∷ fs) (some s1) none = over_read
match_loop (f ∷ fs) (some s1) (some s2) =
    let rest = match_loop fs (behind_part s1) (behind_part s2) in
    if part_matches f (find_part s1) (find_part s2) then rest else value false

-- `g_strcmp0 (a, b) == 0`
pub str_equal_0 : Option Bytes → Option Bytes → Bool
str_equal_0 none none = true
str_equal_0 none (some b) = false
str_equal_0 (some a) none = false
str_equal_0 (some a) (some b) = str_equal a b

-- `as_utils_data_id_match`. Two equal pointers are two equal strings, for which it returns TRUE too.
pub data_id_match : Option Bytes → Option Bytes → MatchFlags → Outcome Bool
data_id_match d1 d2 flags =
    if not (data_id_valid d1 && data_id_valid d2)
    then value (str_equal_0 d1 d2)
    else match_loop (flag_bits flags) d1 d2

-- `as_utils_data_id_equal`
pub data_id_equal : Option Bytes → Option Bytes → Outcome Bool
data_id_equal d1 d2 = data_id_match d1 d2 all_flags

-- `(guint) c` of a signed byte.
abbrev guint_of_char : ℕ → ℕ
guint_of_char c = if leb 128 c then c + 0xffff_ff00 else c

-- One round of the hash, in 32 bits.
abbrev pub hash_step : ℕ → ℕ → ℕ
hash_step hash c =
    ((((hash * 32) % 0x1_0000_0000 + hash) % 0x1_0000_0000) + guint_of_char c) % 0x1_0000_0000

-- The loop of `as_utils_data_id_hash`.
pub hash_loop : ℕ → ℕ → Bytes → ℕ
hash_loop section_cnt hash [] = hash
hash_loop section_cnt hash (c ∷ s) =
    let skipped = hash_loop (suc section_cnt) hash s in
    let ignored = hash_loop section_cnt hash s in
    let added = hash_loop section_cnt (hash_step hash c) s in
    if c == b'/'
    then (if ltb 3 (suc section_cnt) then hash else skipped)
    else if ltb section_cnt 3
    then ignored
    else added

-- `as_utils_data_id_hash`; the parameter is `g_str_hash`.
pub data_id_hash : (Bytes → ℕ) → Bytes → ℕ
data_id_hash str_hash s = if not (data_id_valid (some s)) then str_hash s else hash_loop 0 5381 s
