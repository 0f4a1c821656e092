-- ===== src/Pool/Add/Priority.antt =====
-- src/as-pool.c: which of two components with one data id stays in the pool.
use appstream.Base.{
  ℕ, ℤ, Bool, true, false, ◌||◌, none, some, List, [], ◌∷◌, if◌then◌else◌, Bytes, ◌==◌, ◌≡◌, refl,
  arith, ltb_ℤ, eqb_ℤ, ap, ◌∙◌,
}
use appstream.DataId.Match.{data_id_equal-same}
use appstream.Pool.Kinds.{MergeKind, OriginKind}
use appstream.Pool.{
  Component, Heap, change, same_key, map_lookup, registry_insert, registry_lookup, get_data_id,
  store_data_id, is_valid, is_no_merge, has_bundle,
}
use appstream.Pool.Add.{
  Settings, World, Added, PoolError, registry_add, added, refused, collide, add_for_arch,
  add_by_priority, add_preferred, add_desktop_entry, replace_desktop_entry, add_plain, add_found,
  add_not_ignored, add_component_internal, is_desktop_entry, is_metainfo, is_catalog, change_at,
}

same_key-same : (str_hash : Bytes → ℕ) (d : Bytes) → same_key str_hash d d ≡ true
unfolding same_key
same_key-same str_hash d = rw (data_id_equal-same d) (ground arith)

map_lookup-insert :
    (str_hash : Bytes → ℕ) (d : Bytes) (a : ℕ) (es : List (Bytes × ℕ))
    → map_lookup str_hash (registry_insert str_hash d a es) d ≡ some a
unfolding map_lookup registry_insert
map_lookup-insert str_hash d a [] = ground (arith, same_key-same str_hash d)
map_lookup-insert str_hash d a (e ∷ es) = ground (arith, map_lookup-insert str_hash d a es)

-- An entry is found by its own key.
pub registry_lookup-first :
    (str_hash : Bytes → ℕ) (d : Bytes) (a : ℕ) (es : List (Bytes × ℕ)) (ids : List (Bytes × List ℕ))
    → registry_lookup str_hash (record { data_id_map = (d, a) ∷ es; id_map = ids }) d ≡ some a
unfolding registry_lookup map_lookup
registry_lookup-first str_hash d a es ids = rw (same_key-same str_hash d) refl

-- A component keeps what a field holds when its data id is stored.
pub stored {ℓ} :
    {A : Type ℓ} (f : Component → A) (h : Heap) (a b : ℕ)
    → ((c : Component) → f (store_data_id c) ≡ f c)
    → f (change a store_data_id h b) ≡ f (h b)
unfolding change
stored f h a b same = of_test (b == a)
  where
    of_test : (t : Bool) → f (if t then store_data_id (h b) else h b) ≡ f (h b)
    of_test true = same (h b)
    of_test false = refl

get_data_id-stored : (c : Component) → get_data_id (store_data_id c) ≡ get_data_id c
unfolding get_data_id store_data_id
get_data_id-stored c = refl

is_valid-stored : (c : Component) → is_valid (store_data_id c) ≡ is_valid c
unfolding is_valid store_data_id
is_valid-stored c = refl

has_bundle-stored : (c : Component) → has_bundle (store_data_id c) ≡ has_bundle c
unfolding has_bundle store_data_id
has_bundle-stored c = refl

pub desktop_entry-stored :
    (h : Heap) (a b : ℕ)
    → is_desktop_entry (change a store_data_id h b).origin_kind ≡ is_desktop_entry (h b).origin_kind
unfolding store_data_id
desktop_entry-stored h a b = stored (λ c. is_desktop_entry c.origin_kind) h a b (λ c. refl)

-- What decides between two components that nothing else tells apart.
abbrev winner : Settings → Bool → ℕ → ℕ → World → Added
winner x pedantic_noadd cpt existing w =
    if ltb_ℤ (w.heap existing).priority (w.heap cpt).priority
    then added x cpt w
    else refused
        (if eqb_ℤ (w.heap existing).priority (w.heap cpt).priority || pedantic_noadd
          then some PoolError.collision
          else none)
        w

-- Two components of catalogs, of which the new one has no bundle and no architecture.
pub record IsCatalogClash (w : World) (cpt existing : ℕ) : Type 0 where
  pub new_catalog : (w.heap cpt).origin_kind ≡ OriginKind.catalog
  pub old_catalog : (w.heap existing).origin_kind ≡ OriginKind.catalog
  pub plain : (w.heap cpt).merge_kind ≡ MergeKind.no_merge
  pub old_valid : is_valid (w.heap existing) ≡ true
  pub no_bundle : has_bundle (w.heap cpt) ≡ false
  pub no_arch : (w.heap cpt).architecture ≡ none

by_priority-winner :
    (x : Settings) (p : Bool) (cpt existing : ℕ) (w : World)
    → IsCatalogClash w cpt existing
    → add_by_priority x p cpt existing w ≡ winner x p cpt existing w
unfolding add_by_priority add_for_arch collide
by_priority-winner x p cpt existing w c =
    rw (c.no_arch, add_by_priority) (ground (arith, c.no_bundle))

add_plain-winner :
    (x : Settings) (p : Bool) (cpt existing : ℕ) (w : World)
    → IsCatalogClash w cpt existing
    → add_plain x p cpt (some existing) w ≡ winner x p cpt existing w
unfolding add_plain replace_desktop_entry add_desktop_entry add_preferred is_desktop_entry
    is_metainfo is_catalog
add_plain-winner x p cpt existing w c =
    rw (c.old_valid, add_plain)
      (rw (c.old_catalog, replace_desktop_entry)
        (rw (c.new_catalog, add_desktop_entry)
          (ground (arith, by_priority-winner x p cpt existing w c))))

clash-stored :
    (w : World) (a cpt existing : ℕ)
    → IsCatalogClash w cpt existing
    → IsCatalogClash (change_at a store_data_id w) cpt existing
unfolding change_at store_data_id
clash-stored w a cpt existing c = record {
  new_catalog = stored (λ c. c.origin_kind) w.heap a cpt (λ c. refl) ∙ c.new_catalog;
  old_catalog = stored (λ c. c.origin_kind) w.heap a existing (λ c. refl) ∙ c.old_catalog;
  plain = stored (λ c. c.merge_kind) w.heap a cpt (λ c. refl) ∙ c.plain;
  old_valid = stored is_valid w.heap a existing is_valid-stored ∙ c.old_valid;
  no_bundle = stored has_bundle w.heap a cpt has_bundle-stored ∙ c.no_bundle;
  no_arch = stored (λ c. c.architecture) w.heap a cpt (λ c. refl) ∙ c.no_arch;
}

add_found-winner :
    (x : Settings) (p : Bool) (cpt existing : ℕ) (w : World)
    → IsCatalogClash w cpt existing
    → add_found x p cpt (some existing) w ≡ winner x p cpt existing w
unfolding add_found is_no_merge
add_found-winner x p cpt existing w c =
    rw (c.plain, add_found) (add_plain-winner x p cpt existing w c)

add_not_ignored-winner :
    (x : Settings) (p : Bool) (cpt existing : ℕ) (w : World)
    → IsCatalogClash w cpt existing
    → registry_lookup x.str_hash w.registry (get_data_id (w.heap cpt)) ≡ some existing
    → add_not_ignored x p cpt w ≡ winner x p cpt existing w
unfolding add_not_ignored is_desktop_entry
add_not_ignored-winner x p cpt existing w c found =
    rw (ap is_desktop_entry c.new_catalog, add_not_ignored)
      (rw found (add_found-winner x p cpt existing w c))

add_component_internal-winner :
    (x : Settings) (p : Bool) (cpt existing : ℕ) (w : World)
    → IsCatalogClash w cpt existing
    → (w.heap cpt).ignored ≡ false
    → registry_lookup x.str_hash w.registry (get_data_id (w.heap cpt)) ≡ some existing
    → add_component_internal x p cpt w ≡ winner x p cpt existing (change_at cpt store_data_id w)
unfolding add_component_internal change_at
add_component_internal-winner x p cpt existing w c kept found =
    let id = stored get_data_id w.heap cpt cpt get_data_id-stored in
    rw (kept, add_component_internal)
      (add_not_ignored-winner x p cpt existing (change_at cpt store_data_id w)
        (clash-stored w cpt cpt existing c) (ap (registry_lookup x.str_hash w.registry) id ∙ found))

added-lookup :
    (x : Settings) (cpt : ℕ) (w : World)
    → registry_lookup x.str_hash (added x cpt w).world.registry (get_data_id (w.heap cpt))
      ≡ some cpt
unfolding added registry_add registry_lookup
added-lookup x cpt w =
    map_lookup-insert x.str_hash (get_data_id (w.heap cpt)) cpt w.registry.data_id_map

-- What becomes of a clash of a new component with one that is there, by their two priorities and the
-- data id.
pub IsDecision : Settings → Bool → ℕ → ℕ → ℤ → ℤ → Bytes → Added → Type 0
IsDecision x pedantic_noadd cpt existing old new d a =
    (ltb_ℤ old new ≡ true
      → (a.ok ≡ true) × (registry_lookup x.str_hash a.world.registry d ≡ some cpt))
    × (ltb_ℤ old new ≡ false
        → (a.ok ≡ false)
          × (registry_lookup x.str_hash a.world.registry d ≡ some existing)
          × (a.error
              ≡ (if eqb_ℤ old new || pedantic_noadd then some PoolError.collision else none)))

abbrev pub IsDecided : Settings → Bool → ℕ → ℕ → World → Added → Type 0
IsDecided x pedantic_noadd cpt existing w a =
    IsDecision x pedantic_noadd cpt existing (w.heap existing).priority (w.heap cpt).priority
      (get_data_id (w.heap cpt)) a

winner-IsDecided :
    (x : Settings) (p : Bool) (cpt existing : ℕ) (w : World)
    → registry_lookup x.str_hash w.registry (get_data_id (w.heap cpt)) ≡ some existing
    → IsDecided x p cpt existing w (winner x p cpt existing w)
unfolding IsDecision refused added
winner-IsDecided x p cpt existing w found =
    (λ e. rw e (refl, added-lookup x cpt w), λ e. rw e (refl, found, refl))

IsDecided-stored :
    (x : Settings) (p : Bool) (cpt existing : ℕ) (w : World) (a : Added)
    → IsDecided x p cpt existing (change_at cpt store_data_id w) a
    → IsDecided x p cpt existing w a
unfolding change_at store_data_id
IsDecided-stored x p cpt existing w a d =
    let id = stored get_data_id w.heap cpt cpt get_data_id-stored in
    let new = stored (λ c. c.priority) w.heap cpt cpt (λ c. refl) in
    let old = stored (λ c. c.priority) w.heap cpt existing (λ c. refl) in
    rw old at (rw new at (rw id at d))

-- Of two components of catalogs with one data id, where the new one is not ignored, merges nothing, and
-- has no bundle and no architecture, and the old one is valid, the priority decides: with a higher one
-- the new component is found for the data id from then on, otherwise it is not added, the old one is
-- still found, and the error for a collision is set for equal priorities or where it is asked for.
pub add_component_internal-IsDecided :
    (x : Settings) (pedantic_noadd : Bool) (cpt existing : ℕ) (w : World)
    → IsCatalogClash w cpt existing
    → (w.heap cpt).ignored ≡ false
    → registry_lookup x.str_hash w.registry (get_data_id (w.heap cpt)) ≡ some existing
    → IsDecided x pedantic_noadd cpt existing w (add_component_internal x pedantic_noadd cpt w)
unfolding change_at
add_component_internal-IsDecided x p cpt existing w c kept found =
    let id = stored get_data_id w.heap cpt cpt get_data_id-stored in
    rw (add_component_internal-winner x p cpt existing w c kept found) (
      IsDecided-stored x p cpt existing w _ (
        winner-IsDecided x p cpt existing (change_at cpt store_data_id w)
          (ap (registry_lookup x.str_hash w.registry) id ∙ found)))
