-- ===== src/Compose/Result.antt =====
-- compose/asc-result.c: the components, hints and global ids of one unit.
pub mod Hints
pub mod Registered
use appstream.Base.{
  ℕ, ◌+◌, Bool, true, false, not, ◌&&◌, ◌||◌, Option, none, some, List, [], ◌∷◌, ◌++◌, ◌==◌,
  if◌then◌else◌, Bytes, codes, str_equal, length, ltb,
}
use appstream.DataId.Kinds.{BundleKind}
use appstream.Validator.Issues.{Severity}
use appstream.Pool.Kinds.{ComponentKind, MergeKind}
use appstream.Pool.{Bundle}
use appstream.Stemmer.{until}
use appstream.Validator.ComponentId.{is_tld}

-- What the composer reads and writes of an `AsComponent`; an id of NULL is empty here.
pub record Component : Type 0 where
  pub id : Bytes
  pub kind : ComponentKind
  pub merge_kind : MergeKind
  pub pkgnames : List Bytes
  pub bundles : List Bundle

-- The components by their addresses.
abbrev pub Heap : Type 0
Heap = ℕ → Component

-- `AscHint`, with its replacements for the explanation
pub record Hint : Type 0 where
  pub tag : Bytes
  pub severity : Severity
  pub vars : List (Bytes × Bytes)

-- A hash table with strings as keys.
module _ {ℓ} {A : Type ℓ} where
  unfoldable pub find : List (Bytes × A) → Bytes → Option A
  find [] k = none
  find (e ∷ es) k = if str_equal e.0 k then some e.1 else find es k

  pub insert : Bytes → A → List (Bytes × A) → List (Bytes × A)
  insert k a [] = (k, a) ∷ []
  insert k a (e ∷ es) =
      let rest = insert k a es in if str_equal e.0 k then (e.0, a) ∷ es else e ∷ rest

  pub remove : Bytes → List (Bytes × A) → List (Bytes × A)
  remove k [] = []
  remove k (e ∷ es) = let rest = remove k es in if str_equal e.0 k then rest else e ∷ rest

-- `AscResultPrivate`; `mdata_hashes` has an address as key.
pub record Result : Type 0 where
  pub bundle_kind : BundleKind
  pub bundle_id : Bytes
  pub cpts : List (Bytes × ℕ)
  pub mdata_hashes : List (ℕ × Bytes)
  pub hints : List (Bytes × List Hint)
  pub gcids : List (Bytes × Option Bytes)

-- `asc_result_init`; a bundle id of NULL is empty.
unfoldable pub new : Result
new = record {
  bundle_kind = BundleKind.unknown;
  bundle_id = [];
  cpts = [];
  mdata_hashes = [];
  hints = [];
  gcids = [];
}

pub find_hash : List (ℕ × Bytes) → ℕ → Option Bytes
find_hash [] a = none
find_hash (e ∷ es) a = if e.0 == a then some e.1 else find_hash es a

pub insert_hash : ℕ → Bytes → List (ℕ × Bytes) → List (ℕ × Bytes)
insert_hash a h [] = (a, h) ∷ []
insert_hash a h (e ∷ es) =
    let rest = insert_hash a h es in if e.0 == a then (e.0, h) ∷ es else e ∷ rest

pub remove_hash : ℕ → List (ℕ × Bytes) → List (ℕ × Bytes)
remove_hash a [] = []
remove_hash a (e ∷ es) = let rest = remove_hash a es in if e.0 == a then rest else e ∷ rest

-- What is taken from elsewhere: the MD5 sum, `g_utf8_strdown` and `g_utf8_substring` of GLib, the resource
-- with the top-level domains, and the content of the registry of hint tags, which is filled when the
-- program starts: the severity of a tag, `none` where there is no usable one.
pub record Library : Type 0 where
  pub md5 : Bytes → Bytes
  pub utf8_strdown : Bytes → Bytes
  pub utf8_substring : Bytes → ℕ → ℕ → Bytes
  pub tld_list : Option Bytes
  pub hint_severity : Bytes → Option Severity

-- The string behind the first `k`.
pub behind : ℕ → Bytes → Option Bytes
behind k [] = none
behind k (c ∷ s) = if c == k then some s else behind k s

-- `g_strsplit (s, ".", 3)` where it gives three parts.
three_parts : Bytes → Option (Bytes × Bytes × Bytes)
three_parts s = elim (behind b'.' s) [
  | none ↦ none
  | some t ↦ elim (behind b'.' t) [ none ↦ none | some u ↦ some (until b'.' s, until b'.' t, u) ]
]

join_slash : Bytes → Bytes → Bytes → Bytes → Bytes
join_slash a b c d = a ++ b'/' ∷ (b ++ b'/' ∷ (c ++ b'/' ∷ d))

checksum_or_last : Option Bytes → Bytes
checksum_or_last none = codes "last"
checksum_or_last (some []) = codes "last"
checksum_or_last (some (c ∷ s)) = c ∷ s

-- The standard way: by the first letters.
gcid_by_letters : Library → Bytes → Bytes → Bytes
gcid_by_letters l cid checksum =
    let low = l.utf8_strdown cid in
    join_slash (l.utf8_substring low 0 1) (l.utf8_substring low 0 2) low checksum

-- `asc_build_component_global_id`
pub build_gcid : Library → Bytes → Option Bytes → Option Bytes
build_gcid l cid checksum =
    if ltb 2 (length cid)
    then elim (three_parts cid) [
      | none ↦ some (gcid_by_letters l cid (checksum_or_last checksum))
      | some (a, b, c) ↦
          if is_tld l.tld_list a
          then some (join_slash (l.utf8_strdown a) (l.utf8_strdown b) c (checksum_or_last checksum))
          else some (gcid_by_letters l cid (checksum_or_last checksum))
    ]
    else none

pub is_some {ℓ} : {A : Type ℓ} → Option A → Bool
is_some none = false
is_some (some a) = true

-- The text that the new hash is of: the old hash, if there is one, with the data.
pub hash_text : Option Bytes → Bytes → Bytes
hash_text none bytes = bytes
hash_text (some old) bytes = old ++ bytes

-- `asc_result_update_component_gcid`, with no data as an empty text
pub update_component_gcid : Library → Heap → ℕ → Bytes → Result → Result × Bool
update_component_gcid l h a bytes r =
    let cid = (h a).id in
    let hash = l.md5 (hash_text (find_hash r.mdata_hashes a) bytes) in
    if str_equal cid []
    then (record r { gcids = insert cid (build_gcid l cid none) r.gcids }, true)
    else if not (is_some (find r.cpts cid))
    then (r, false)
    else (
      record r {
        mdata_hashes = insert_hash a hash r.mdata_hashes;
        gcids = insert cid (build_gcid l cid (some hash)) r.gcids;
      },
      true,
    )

-- A kind of component that has a package or a bundle.
needs_bundle : Component → Bool
needs_bundle c = bundle_for c.kind c.merge_kind
  where
    bundle_for : ComponentKind → MergeKind → Bool
    bundle_for ComponentKind.web_app m = false
    bundle_for ComponentKind.operating_system m = false
    bundle_for k MergeKind.remove_component = false
    bundle_for k m = true

is_package : BundleKind → Bool
is_package BundleKind.package_kind = true
is_package k = false

-- What `asc_result_add_component` sets on the component. Its test for other bundles asks for a kind from
-- `AS_BUNDLE_KIND_LAST` on, which no kind is.
pub set_package : Result → Component → Component
set_package r c = if is_package r.bundle_kind then record c { pkgnames = r.bundle_id ∷ [] } else c

pub change : ℕ → Component → Heap → Heap
change a c h b = if b == a then c else h b

pub set_package_at : Heap → ℕ → Result → Heap
set_package_at h a r = if needs_bundle (h a) then change a (set_package r (h a)) h else h

-- `asc_result_add_component`: the components, the result, and whether it was added.
pub add_component : Library → Heap → ℕ → Bytes → Result → Heap × Result × Bool
add_component l h a bytes r =
    let h' = set_package_at h a r in
    let r' = record r { cpts = insert (h a).id a r.cpts } in
    if str_equal (h a).id []
    then (h, r, false)
    else (h', (update_component_gcid l h' a bytes r').0, true)

-- `asc_result_remove_component_full`
pub remove_component_full : Heap → ℕ → Bool → Result → Result × Bool
remove_component_full h a remove_gcid r = (
  record r {
    cpts = remove (h a).id r.cpts;
    gcids = if remove_gcid then remove (h a).id r.gcids else r.gcids;
    mdata_hashes = remove_hash a r.mdata_hashes;
  },
  is_some (find r.cpts (h a).id),
)

-- `asc_result_remove_component`
pub remove_component : Heap → ℕ → Result → Result × Bool
remove_component h a r = remove_component_full h a true r

-- `asc_result_remove_component_by_id`
pub remove_component_by_id : Heap → Bytes → Result → Result × Bool
remove_component_by_id h cid r = elim (find r.cpts cid) [
  | none ↦ (r, false)
  | some a ↦ remove_component h a r
]

-- `asc_result_remove_hints_for_cid`
remove_hints_for_cid : Bytes → Result → Result
remove_hints_for_cid cid r = record r { hints = remove cid r.hints }

pub any_tag : List Hint → Bytes → Bool
any_tag [] tag = false
any_tag (i ∷ is) tag = str_equal i.tag tag || any_tag is tag

pub hints_of : Result → Bytes → List Hint
hints_of r cid = elim (find r.hints cid) [ none ↦ [] | some is ↦ is ]

-- `asc_result_has_hint`
has_hint : Heap → Result → ℕ → Bytes → Bool
has_hint h r a tag = any_tag (hints_of r (h a).id) tag

-- `asc_result_is_ignored`
is_ignored : Heap → Result → ℕ → Bool
is_ignored h r a = not (is_some (find r.cpts (h a).id))

-- `asc_result_components_count`, `asc_result_hints_count` and `asc_result_unit_ignored`
components_count : Result → ℕ
components_count r = length r.cpts

count_hints : List (Bytes × List Hint) → ℕ
count_hints [] = 0
count_hints (e ∷ es) = length e.1 + count_hints es

hints_count : Result → ℕ
hints_count r = count_hints r.hints

unit_ignored : Result → Bool
unit_ignored r = length r.cpts == 0 && length r.hints == 0

-- Who a hint is about: a component, or an id.
pub data About : Type 0 where
  component : ℕ → About
  by_cid : Bytes → About

pub about_cid : Heap → About → Bytes
about_cid h (About.component a) = (h a).id
about_cid h (About.by_cid cid) = cid

-- `asc_hint_is_error`
pub is_error : Severity → Bool
is_error Severity.error = true
is_error s = false

pub remove_about : Heap → About → Result → Result
remove_about h (About.component a) r = (remove_component h a r).0
remove_about h (About.by_cid cid) r = (remove_component_by_id h cid r).0

-- The end of `asc_result_add_hint_va`, with the hint made.
pub put_hint : Heap → About → Hint → Result → Result × Bool
put_hint h about hint r =
    let cid = about_cid h about in
    let r' = if is_error hint.severity then remove_about h about r else r in
    (
      record r' { hints = insert cid (hints_of r cid ++ hint ∷ []) r'.hints },
      not (is_error hint.severity),
    )

-- `asc_result_add_hint_va` with its keys and values; `none` is the end of the program by `g_error`.
pub add_hint :
    Library → Heap → About → Bytes → List (Bytes × Bytes) → Result → Option (Result × Bool)
add_hint l h about tag vars r = elim (l.hint_severity tag) [
  | none ↦ none
  | some s ↦ some (put_hint h about (record { tag = tag; severity = s; vars = vars }) r)
]
