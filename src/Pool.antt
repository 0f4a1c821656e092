-- ===== src/Pool.antt =====
-- src/as-component.c, src/as-context.c, src/as-utils.c and src/as-pool.c: the data of a component that a
-- pool works with, and the registry of a pool.
pub mod Kinds
mod Tests
pub mod Merge
pub mod Add
use appstream.Base.{
  ℕ, ℤ, Bool, true, false, not, ◌&&◌, ◌||◌, Option, none, some, List, [], ◌∷◌, ◌++◌, ◌==◌,
  if◌then◌else◌, Bytes, codes, str_equal,
}
use appstream.DataId.Kinds.{Scope, BundleKind}
use appstream.DataId.{build_data_id, data_id_equal, data_id_hash}
use appstream.Stemmer.{locale_to_language}
use appstream.Vercmp.{Outcome, value, over_read, out_of_fuel}
use appstream.Pool.Kinds.{ComponentKind, MergeKind, OriginKind}

-- `AsBundle`
pub record Bundle : Type 0 where
  pub kind : BundleKind
  pub id : Option Bytes

-- A hash table from locales to texts.
abbrev pub Localized : Type 0
Localized = List (Bytes × Bytes)

-- What a pool reads and writes of `AsComponentPrivate`. `data_id` is the stored one, `none` for NULL,
-- an `id` of NULL is empty here, and `locale` and `origin` are those of the context where it has them. Icons, suggestions and provided
-- items are told apart by numbers, as they are only copied by reference.
pub record Component : Type 0 where
  pub kind : ComponentKind
  pub id : Bytes
  pub data_id : Option Bytes
  pub scope : Scope
  pub origin : Option Bytes
  pub branch : Option Bytes
  pub origin_kind : OriginKind
  pub merge_kind : MergeKind
  pub priority : ℤ
  pub ignored : Bool
  pub architecture : Option Bytes
  pub pkgnames : List Bytes
  pub bundles : List Bundle
  pub categories : List Bytes
  pub suggestions : List ℕ
  pub icons : List ℕ
  pub provided : List ℕ
  pub name : Localized
  pub summary : Localized
  pub description : Localized
  pub locale : Option Bytes
  pub no_translation_fallback : Bool

pub localized_lookup : Localized → Bytes → Option Bytes
localized_lookup [] l = none
localized_lookup (e ∷ es) l = if str_equal e.0 l then some e.1 else localized_lookup es l

pub locale_or_c : Option Bytes → Bytes
locale_or_c none = codes "C"
locale_or_c (some l) = l

-- `as_context_localized_ht_get`, without an override of the locale
pub localized_ht_get : Option Bytes → Bool → Localized → Option Bytes
localized_ht_get locale no_fallback lht = elim (localized_lookup lht (locale_or_c locale)) [
  | some msg ↦ some msg
  | none ↦
      if no_fallback
      then none
      else elim (localized_lookup lht (locale_to_language (locale_or_c locale))) [
        | some msg ↦ some msg
        | none ↦ localized_lookup lht (codes "C")
      ]
]

-- `as_is_empty`
pub is_empty_text : Option Bytes → Bool
is_empty_text none = true
is_empty_text (some []) = true
is_empty_text (some (c ∷ s)) = false

pub is_unknown : ComponentKind → Bool
is_unknown ComponentKind.unknown = true
is_unknown k = false

pub is_no_merge : MergeKind → Bool
is_no_merge MergeKind.no_merge = true
is_no_merge k = false

-- `as_component_is_valid`
pub is_valid : Component → Bool
is_valid c =
    if is_unknown c.kind
    then false
    else if not (is_no_merge c.merge_kind)
    then not (is_empty_text (some c.id))
    else not (is_empty_text (some c.id))
      && not (is_empty_text (localized_ht_get c.locale c.no_translation_fallback c.name))
      && not (is_empty_text (localized_ht_get c.locale c.no_translation_fallback c.summary))

is_operating_system : ComponentKind → Bool
is_operating_system ComponentKind.operating_system = true
is_operating_system k = false

-- `as_component_has_package` and `as_component_has_bundle`
pub has_package : Component → Bool
has_package c = elim c.pkgnames [ [] ↦ false | p ∷ ps ↦ true ]

pub has_bundle : Component → Bool
has_bundle c = elim c.bundles [ [] ↦ false | b ∷ bs ↦ true ]

-- The bundle kind ahead of the last test of `as_utils_get_component_bundle_kind`.
given_bundle_kind : Component → BundleKind
given_bundle_kind c = elim c.bundles [
  | b ∷ bs ↦ b.kind
  | [] ↦
      if has_package c || is_operating_system c.kind
      then BundleKind.package_kind
      else BundleKind.unknown
]

-- The kind for a component without one.
assumed_bundle_kind : Scope → OriginKind → BundleKind → BundleKind
assumed_bundle_kind Scope.system OriginKind.metainfo BundleKind.unknown = BundleKind.package_kind
assumed_bundle_kind scope origin kind = kind

-- `as_utils_get_component_bundle_kind`
component_bundle_kind : Component → BundleKind
component_bundle_kind c = assumed_bundle_kind c.scope c.origin_kind (given_bundle_kind c)

-- `as_utils_build_data_id_for_cpt`
build_data_id_for_cpt : Component → Bytes
build_data_id_for_cpt c =
    build_data_id c.scope (component_bundle_kind c) c.origin (some c.id) c.branch

-- `as_component_get_data_id`: the text, and the component that stores it.
pub get_data_id : Component → Bytes
get_data_id c = elim c.data_id [ none ↦ build_data_id_for_cpt c | some d ↦ d ]

pub store_data_id : Component → Component
store_data_id c = record c { data_id = some (get_data_id c) }

-- `as_component_set_bundles_array`
pub set_bundles_array : List Bundle → Component → Component
set_bundles_array bs c = record c { bundles = bs; data_id = none }

-- The components by their addresses.
abbrev pub Heap : Type 0
Heap = ℕ → Component

pub change : ℕ → (Component → Component) → Heap → Heap
change a f h b = if b == a then f (h b) else h b

-- `AsComponentRegistry`; `data_id_map` has the text of a key where the code keeps a pointer to the data
-- id of the component that was added with it.
pub record Registry : Type 0 where
  pub data_id_map : List (Bytes × ℕ)
  pub id_map : List (Bytes × List ℕ)

-- `as_component_registry_new`
registry_new : Registry
registry_new = record { data_id_map = []; id_map = [] }

-- Two keys are one for the hash table: the hashes agree, and `as_utils_data_id_equal` holds.
pub same_key : (Bytes → ℕ) → Bytes → Bytes → Bool
same_key str_hash a b =
    data_id_hash str_hash a == data_id_hash str_hash b && (elim (data_id_equal (some a) (some b)) [
      | value e ↦ e
      | over_read ↦ false
      | out_of_fuel ↦ false
    ])

module _ (str_hash : Bytes → ℕ) where
  -- The entry that a lookup finds; of several that fit, the first.
  pub map_lookup : List (Bytes × ℕ) → Bytes → Option ℕ
  map_lookup [] d = none
  map_lookup (e ∷ es) d = if same_key str_hash e.0 d then some e.1 else map_lookup es d

  -- `g_hash_table_insert`: a key that is there stays, with the new value.
  pub registry_insert : Bytes → ℕ → List (Bytes × ℕ) → List (Bytes × ℕ)
  registry_insert d a [] = (d, a) ∷ []
  registry_insert d a (e ∷ es) =
      let rest = registry_insert d a es in
      if same_key str_hash e.0 d then (e.0, a) ∷ es else e ∷ rest

  -- `g_hash_table_remove`
  pub map_remove : Bytes → List (Bytes × ℕ) → List (Bytes × ℕ)
  map_remove d [] = []
  map_remove d (e ∷ es) =
      let rest = map_remove d es in if same_key str_hash e.0 d then es else e ∷ rest

  -- `as_component_registry_lookup` and `as_component_registry_remove`
  pub registry_lookup : Registry → Bytes → Option ℕ
  registry_lookup r d = map_lookup r.data_id_map d

  pub registry_remove : Bytes → Registry → Registry
  registry_remove d r = record r { data_id_map = map_remove d r.data_id_map }

-- `as_component_registry_get_components_by_id`, and `as_component_registry_has_cid`
pub components_by_id : List (Bytes × List ℕ) → Bytes → Option (List ℕ)
components_by_id [] id = none
components_by_id (e ∷ es) id = if str_equal e.0 id then some e.1 else components_by_id es id

registry_has_cid : Registry → Bytes → Bool
registry_has_cid r id = elim (components_by_id r.id_map id) [ none ↦ false | some l ↦ true ]

-- Adds to the list of an id, which is made where there is none.
pub add_by_id : Bytes → ℕ → List (Bytes × List ℕ) → List (Bytes × List ℕ)
add_by_id id a [] = (id, a ∷ []) ∷ []
add_by_id id a (e ∷ es) =
    let rest = add_by_id id a es in if str_equal e.0 id then (e.0, e.1 ++ a ∷ []) ∷ es else e ∷ rest

-- `as_component_registry_get_contents`
map_values : List (Bytes × ℕ) → List ℕ
map_values [] = []
map_values (e ∷ es) = e.1 ∷ map_values es

registry_contents : Registry → List ℕ
registry_contents r = map_values r.data_id_map
