-- ===== src/Pool/Tests.antt =====
-- Runs of the pool, and its theorems at a concrete pool.
use appstream.Base.{
  ℕ, pos, true, false, none, some, List, [], ◌∷◌, Bytes, codes, ◌≡◌, ◌||◌, refl, ◌==◌,
  if◌then◌else◌, ◌↔◌, ◌⊎◌, ◌≢◌,
}
use appstream.DataId.Kinds.{Scope}
use appstream.Pool.Kinds.{ComponentKind, MergeKind, OriginKind}
use appstream.Pool.{
  Component, registry_lookup, get_data_id, is_valid, is_no_merge, has_bundle, is_unknown,
  is_empty_text, localized_ht_get, localized_lookup, locale_or_c,
}
use appstream.Pool.Merge.{merge_with_mode, is_category}
use appstream.Pool.Merge.Laws.{IsCategorySet, merge_with_mode-laws}
use appstream.Pool.Add.{Settings, World, add_component_internal, is_desktop_entry, lookup_desktop}
use appstream.Pool.Add.Kept.{desktop_entry-kept}
use appstream.Pool.Add.Refused.{IsHonest, add_component_internal-IsHonest}
use appstream.Pool.Add.Priority.{
  registry_lookup-first, IsCatalogClash, IsDecided, add_component_internal-IsDecided,
}

abbrev some_settings : Settings
some_settings = record {
  str_hash = λ s. 0;
  prefer_os_metainfo = false;
  current_arch = some (codes "x86_64");
}

abbrev app_from : OriginKind → Component
app_from origin = record {
  kind = ComponentKind.desktop_app;
  id = codes "org.example.App";
  data_id = some (codes "app");
  scope = Scope.system;
  origin = none;
  branch = none;
  origin_kind = origin;
  merge_kind = MergeKind.no_merge;
  priority = pos 0;
  ignored = false;
  architecture = none;
  pkgnames = codes "app" ∷ [];
  bundles = [];
  categories = codes "Game" ∷ [];
  suggestions = [];
  icons = 1 ∷ [];
  provided = [];
  name = (codes "C", codes "App") ∷ [];
  summary = (codes "C", codes "An app") ∷ [];
  description = [];
  locale = none;
  no_translation_fallback = false;
}

abbrev app_ids : List (Bytes × List ℕ)
app_ids = (codes "org.example.App", 1 ∷ []) ∷ []

-- The component at 1 is in the registry, the one at 2 is new.
abbrev world_of : OriginKind → OriginKind → World
world_of old new = record {
  heap = λ a. if a == 2 then app_from new else app_from old;
  registry = record { data_id_map = (codes "app", 1) ∷ []; id_map = app_ids };
}

add_component_internal-IsHonest_example :
    IsHonest
      (world_of OriginKind.catalog OriginKind.catalog).registry
      (add_component_internal some_settings true 2 (world_of OriginKind.catalog OriginKind.catalog))
add_component_internal-IsHonest_example =
    add_component_internal-IsHonest some_settings true 2
      (world_of OriginKind.catalog OriginKind.catalog)

app_found :
    (old new : OriginKind)
    → registry_lookup some_settings.str_hash (world_of old new).registry (codes "app") ≡ some 1
app_found old new = registry_lookup-first some_settings.str_hash (codes "app") 1 [] app_ids

-- The data of a .desktop file meets that of the metainfo file.
app_found_for_desktop :
    lookup_desktop some_settings
      (world_of OriginKind.metainfo OriginKind.desktop_entry).registry
      (codes "app")
    ≡ some 1
unfolding lookup_desktop
app_found_for_desktop =
    rw (app_found OriginKind.metainfo OriginKind.desktop_entry, lookup_desktop) refl

desktop_entry-kept_example :
    (add_component_internal some_settings true 2
        (world_of OriginKind.metainfo OriginKind.desktop_entry)).world.heap
      1
    ≡ app_from OriginKind.metainfo
unfolding is_desktop_entry is_no_merge
desktop_entry-kept_example =
    desktop_entry-kept some_settings true 2 1
      (world_of OriginKind.metainfo OriginKind.desktop_entry) refl refl refl

catalog_clash : IsCatalogClash (world_of OriginKind.catalog OriginKind.catalog) 2 1
unfolding is_valid is_unknown is_no_merge is_empty_text localized_ht_get localized_lookup
    locale_or_c has_bundle
catalog_clash = record {
  new_catalog = refl;
  old_catalog = refl;
  plain = refl;
  old_valid = refl;
  no_bundle = refl;
  no_arch = refl;
}

add_component_internal-IsDecided_example :
    IsDecided some_settings true 2 1
      (world_of OriginKind.catalog OriginKind.catalog)
      (add_component_internal some_settings true 2 (world_of OriginKind.catalog OriginKind.catalog))
unfolding get_data_id
add_component_internal-IsDecided_example =
    add_component_internal-IsDecided some_settings true 2 1
      (world_of OriginKind.catalog OriginKind.catalog) catalog_clash refl
      (app_found OriginKind.catalog OriginKind.catalog)

abbrev from_catalog : Component
from_catalog = app_from OriginKind.catalog

abbrev from_metainfo : Component
from_metainfo = app_from OriginKind.metainfo

merge_with_mode-laws_example :
    (merge_with_mode
        (merge_with_mode from_catalog from_metainfo MergeKind.replace)
        from_metainfo
        MergeKind.replace
      ≡ merge_with_mode from_catalog from_metainfo MergeKind.replace)
    × (is_category
          (merge_with_mode from_catalog from_metainfo MergeKind.append).categories
          (codes "Game")
        ≡ (is_category (codes "Game" ∷ []) (codes "Game")
            || is_category (codes "Game" ∷ []) (codes "Game")))
    × (IsCategorySet (merge_with_mode from_catalog from_metainfo MergeKind.append).categories
        ↔ (IsCategorySet (codes "Game" ∷ []) ⊎ (codes "Game" ∷ [] ≢ [])))
    × (merge_with_mode from_catalog from_metainfo MergeKind.remove_component ≡ from_catalog)
merge_with_mode-laws_example = merge_with_mode-laws from_catalog from_metainfo (codes "Game")
