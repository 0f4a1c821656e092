-- ===== src/Pool/Add.antt =====
-- src/as-pool.c: as_pool_add_component_internal.
pub mod Refused
pub mod Priority
pub mod Kept
use appstream.Base.{
  ℕ, negsuc, Bool, true, false, not, ◌&&◌, Option, none, some, List, [], ◌∷◌, ◌++◌, if◌then◌else◌,
  Bytes, codes, ltb_ℤ, eqb_ℤ,
}
use appstream.DataId.{str_equal_0}
use appstream.Pool.Kinds.{MergeKind, OriginKind}
use appstream.Pool.{
  Component, Heap, change, Registry, get_data_id, store_data_id, is_valid, is_no_merge, has_bundle,
  set_bundles_array, registry_insert, add_by_id, registry_lookup, registry_remove, components_by_id,
}
use appstream.Pool.Merge.{merge, merge_with_mode}

-- `AsPoolError`, of the kinds that are set here
pub data PoolError : Type 0 where
  failed collision : PoolError

-- `g_str_hash`, the flag `AS_POOL_FLAG_PREFER_OS_METAINFO` and `priv->current_arch` of the pool.
pub record Settings : Type 0 where
  pub str_hash : Bytes → ℕ
  pub prefer_os_metainfo : Bool
  pub current_arch : Option Bytes

pub record World : Type 0 where
  pub heap : Heap
  pub registry : Registry

-- What the function returns, the error it sets, and the state it leaves.
pub record Added : Type 0 where
  pub ok : Bool
  pub error : Option PoolError
  pub world : World

pub change_at : ℕ → (Component → Component) → World → World
change_at a f w = record w { heap = change a f w.heap }

-- `as_component_registry_add`
pub registry_add : Settings → ℕ → World → World
registry_add x a w =
    let c = w.heap a in
    record {
      heap = change a store_data_id w.heap;
      registry = record {
        data_id_map = registry_insert x.str_hash (get_data_id c) a w.registry.data_id_map;
        id_map = add_by_id c.id a w.registry.id_map;
      };
    }

-- `return TRUE` behind `as_component_registry_add`
pub added : Settings → ℕ → World → Added
added x a w = record { ok = true; error = none; world = registry_add x a w }

pub refused : Option PoolError → World → Added
refused e w = record { ok = false; error = e; world = w }

pub done : World → Added
done w = record { ok = true; error = none; world = w }

-- `as_arch_compatible`
arch_compatible : Option Bytes → Option Bytes → Bool
arch_compatible a b =
    if str_equal_0 a b
    then true
    else if str_equal_0 a (some (codes "all"))
    then true
    else str_equal_0 b (some (codes "all"))

unfoldable pub is_desktop_entry : OriginKind → Bool
is_desktop_entry OriginKind.desktop_entry = true
is_desktop_entry k = false

pub is_metainfo : OriginKind → Bool
is_metainfo OriginKind.metainfo = true
is_metainfo k = false

pub is_catalog : OriginKind → Bool
is_catalog OriginKind.catalog = true
is_catalog k = false

is_removal : MergeKind → Bool
is_removal MergeKind.remove_component = true
is_removal k = false

-- One match of a merge component.
apply_merge : Settings → ℕ → ℕ → World → World
apply_merge x cpt match_cpt w =
    let source = w.heap cpt in
    let found = w.heap match_cpt in
    if is_removal source.merge_kind
    then (if ltb_ℤ found.priority source.priority
        then record {
          heap = change match_cpt store_data_id w.heap;
          registry = registry_remove x.str_hash (get_data_id found) w.registry;
        }
        else w)
    else change_at match_cpt (λ c. (merge c source).0) w

apply_merges : Settings → ℕ → List ℕ → World → World
apply_merges x cpt [] w = w
apply_merges x cpt (m ∷ ms) w = apply_merges x cpt ms (apply_merge x cpt m w)

-- The branch for merge components.
pub add_merge : Settings → ℕ → World → Added
add_merge x cpt w = elim (components_by_id w.registry.id_map (w.heap cpt).id) [
  | none ↦ done w
  | some ms ↦ done (apply_merges x cpt ms w)
]

-- The error for two components with one data id.
pub collide : Bool → ℕ → ℕ → World → Added
collide pedantic_noadd cpt existing w =
    if eqb_ℤ (w.heap existing).priority (w.heap cpt).priority
    then refused (some PoolError.collision) w
    else refused (if pedantic_noadd then some PoolError.collision else none) w

-- The part for a component that is for the current architecture, with that of the one that is there.
pub add_native : Settings → Bool → ℕ → ℕ → Option Bytes → World → Added
add_native x pedantic_noadd cpt existing none w = collide pedantic_noadd cpt existing w
add_native x pedantic_noadd cpt existing (some earch) w =
    if arch_compatible (some earch) x.current_arch then added x cpt w else refused none w

-- The part for several architectures, with the architecture of the new component.
pub add_for_arch : Settings → Bool → ℕ → ℕ → Option Bytes → World → Added
add_for_arch x pedantic_noadd cpt existing none w = collide pedantic_noadd cpt existing w
add_for_arch x pedantic_noadd cpt existing (some arch) w =
    if arch_compatible (some arch) x.current_arch
    then add_native x pedantic_noadd cpt existing (w.heap existing).architecture w
    else collide pedantic_noadd cpt existing w

-- The last part: the priorities decide.
pub add_by_priority : Settings → Bool → ℕ → ℕ → World → Added
add_by_priority x pedantic_noadd cpt existing w =
    if ltb_ℤ (w.heap existing).priority (w.heap cpt).priority
    then added x cpt w
    else if not (has_bundle (w.heap existing)) && has_bundle (w.heap cpt)
    then done (change_at existing (set_bundles_array (w.heap cpt).bundles) w)
    else add_for_arch x pedantic_noadd cpt existing (w.heap cpt).architecture w

-- The part on `AS_POOL_FLAG_PREFER_OS_METAINFO`.
pub add_preferred : Settings → Bool → ℕ → ℕ → World → Added
add_preferred x pedantic_noadd cpt existing w =
    if x.prefer_os_metainfo && is_metainfo (w.heap cpt).origin_kind
    then added x cpt (
        change_at cpt
          (λ c.
            set_bundles_array (w.heap existing).bundles
              (record c { pkgnames = (w.heap existing).pkgnames }))
          w)
    else add_by_priority x pedantic_noadd cpt existing w

-- The part on data of .desktop files that is new.
pub add_desktop_entry : Settings → Bool → ℕ → ℕ → World → Added
add_desktop_entry x pedantic_noadd cpt existing w =
    if is_desktop_entry (w.heap cpt).origin_kind && is_metainfo (w.heap existing).origin_kind
    then done (change_at existing (λ c. merge_with_mode c (w.heap cpt) MergeKind.append) w)
    else if is_desktop_entry (w.heap cpt).origin_kind && is_catalog (w.heap existing).origin_kind
    then refused none w
    else add_preferred x pedantic_noadd cpt existing w

-- The part on data of .desktop files that is there; -G_MAXINT is the priority it gets.
pub replace_desktop_entry : Settings → Bool → ℕ → ℕ → World → Added
replace_desktop_entry x pedantic_noadd cpt existing w =
    if is_desktop_entry (w.heap existing).origin_kind
    then (if is_metainfo (w.heap cpt).origin_kind
        then added x cpt (
            change_at existing store_data_id
              (change_at cpt (λ c. merge_with_mode c (w.heap existing) MergeKind.append) w))
        else add_desktop_entry x pedantic_noadd cpt existing
            (change_at existing (λ c. record c { priority = negsuc 2_147_483_646 }) w))
    else add_desktop_entry x pedantic_noadd cpt existing w

-- The part behind the merges, with what was found for the data id.
pub add_plain : Settings → Bool → ℕ → Option ℕ → World → Added
add_plain x pedantic_noadd cpt none w = added x cpt w
add_plain x pedantic_noadd cpt (some existing) w =
    if not (is_valid (w.heap existing))
    then added x cpt w
    else replace_desktop_entry x pedantic_noadd cpt existing w

-- The part behind the look at .desktop data.
pub add_found : Settings → Bool → ℕ → Option ℕ → World → Added
add_found x pedantic_noadd cpt existing w =
    if not (is_no_merge (w.heap cpt).merge_kind)
    then add_merge x cpt w
    else add_plain x pedantic_noadd cpt existing w

-- The lookup of a component for .desktop data: a second one has ".desktop" behind the data id.
unfoldable pub lookup_desktop : Settings → Registry → Bytes → Option ℕ
lookup_desktop x r cdid = elim (registry_lookup x.str_hash r cdid) [
  | some a ↦ some a
  | none ↦ registry_lookup x.str_hash r (cdid ++ codes ".desktop")
]

pub add_desktop_data : Settings → Bool → ℕ → Option ℕ → World → Added
add_desktop_data x pedantic_noadd cpt none w = add_found x pedantic_noadd cpt none w
add_desktop_data x pedantic_noadd cpt (some existing) w =
    if not (is_desktop_entry (w.heap existing).origin_kind)
    then refused none w
    else add_found x pedantic_noadd cpt (some existing) w

-- The part behind the test for ignored components.
pub add_not_ignored : Settings → Bool → ℕ → World → Added
add_not_ignored x pedantic_noadd cpt w =
    let cdid = get_data_id (w.heap cpt) in
    if is_desktop_entry (w.heap cpt).origin_kind
    then add_desktop_data x pedantic_noadd cpt (lookup_desktop x w.registry cdid) w
    else add_found x pedantic_noadd cpt (registry_lookup x.str_hash w.registry cdid) w

-- `as_pool_add_component_internal`; the first thing it does makes the component store its data id.
pub add_component_internal : Settings → Bool → ℕ → World → Added
add_component_internal x pedantic_noadd cpt w =
    if (w.heap cpt).ignored
    then refused (if pedantic_noadd then some PoolError.failed else none)
        (change_at cpt store_data_id w)
    else add_not_ignored x pedantic_noadd cpt (change_at cpt store_data_id w)
