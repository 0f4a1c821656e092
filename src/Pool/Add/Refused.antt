-- ===== src/Pool/Add/Refused.antt =====
-- src/as-pool.c: what is left when a component is not added.
use appstream.Base.{
  ℕ, Bool, Bytes, true, false, Option, none, some, if◌then◌else◌, ◌≡◌, refl, Option-cases, inl, inr,
}
use appstream.Pool.{Registry, store_data_id, components_by_id}
use appstream.Pool.Add.{
  Settings, World, Added, PoolError, added, refused, done, add_merge, collide, add_for_arch,
  add_native, add_by_priority, add_preferred, add_desktop_entry, replace_desktop_entry, add_plain,
  add_found, add_desktop_data, add_not_ignored, add_component_internal, change_at,
}

-- FALSE leaves the registry as it was, and TRUE goes without an error.
pub record IsHonest (r : Registry) (a : Added) : Type 0 where
  pub unchanged : a.ok ≡ false → a.world.registry ≡ r
  pub no_error : a.ok ≡ true → a.error ≡ none

added-IsHonest : (x : Settings) (cpt : ℕ) (w : World) (r : Registry) → IsHonest r (added x cpt w)
unfolding added
added-IsHonest x cpt w r = record { unchanged = λ e. absurd (cc); no_error = λ e. refl }

done-IsHonest : (w : World) (r : Registry) → IsHonest r (done w)
unfolding done
done-IsHonest w r = record { unchanged = λ e. absurd (cc); no_error = λ e. refl }

refused-IsHonest : (e : Option PoolError) (w : World) → IsHonest w.registry (refused e w)
unfolding refused
refused-IsHonest e w = record { unchanged = λ k. refl; no_error = λ k. absurd (cc) }

if-IsHonest :
    (r : Registry) (b : Bool) (x y : Added)
    → IsHonest r x
    → IsHonest r y
    → IsHonest r (if b then x else y)
if-IsHonest r true x y h h' = h
if-IsHonest r false x y h h' = h'

merge-IsHonest : (x : Settings) (cpt : ℕ) (w : World) → IsHonest w.registry (add_merge x cpt w)
unfolding add_merge
merge-IsHonest x cpt w = elim (Option-cases (components_by_id w.registry.id_map (w.heap cpt).id)) [
  | inl e ↦ rw (e, add_merge) (done-IsHonest w w.registry)
  | inr (ms, e) ↦ rw (e, add_merge) (done-IsHonest _ w.registry)
]

collide-IsHonest :
    (p : Bool) (cpt existing : ℕ) (w : World) → IsHonest w.registry (collide p cpt existing w)
unfolding collide
collide-IsHonest p cpt existing w =
    if-IsHonest w.registry _ _ _ (refused-IsHonest _ w) (refused-IsHonest _ w)

native-IsHonest :
    (x : Settings) (p : Bool) (cpt existing : ℕ) (earch : Option Bytes) (w : World)
    → IsHonest w.registry (add_native x p cpt existing earch w)
unfolding add_native
native-IsHonest x p cpt existing none w = collide-IsHonest p cpt existing w
native-IsHonest x p cpt existing (some earch) w =
    if-IsHonest w.registry _ _ _ (added-IsHonest x cpt w w.registry) (refused-IsHonest none w)

arch-IsHonest :
    (x : Settings) (p : Bool) (cpt existing : ℕ) (arch : Option Bytes) (w : World)
    → IsHonest w.registry (add_for_arch x p cpt existing arch w)
unfolding add_for_arch
arch-IsHonest x p cpt existing none w = collide-IsHonest p cpt existing w
arch-IsHonest x p cpt existing (some arch) w =
    if-IsHonest w.registry _ _ _ (native-IsHonest x p cpt existing (w.heap existing).architecture w)
      (collide-IsHonest p cpt existing w)

priority-IsHonest :
    (x : Settings) (p : Bool) (cpt existing : ℕ) (w : World)
    → IsHonest w.registry (add_by_priority x p cpt existing w)
unfolding add_by_priority
priority-IsHonest x p cpt existing w =
    if-IsHonest w.registry _ _ _ (added-IsHonest x cpt w w.registry) (
      if-IsHonest w.registry _ _ _ (done-IsHonest _ w.registry)
        (arch-IsHonest x p cpt existing (w.heap cpt).architecture w))

preferred-IsHonest :
    (x : Settings) (p : Bool) (cpt existing : ℕ) (w : World)
    → IsHonest w.registry (add_preferred x p cpt existing w)
unfolding add_preferred
preferred-IsHonest x p cpt existing w =
    if-IsHonest w.registry _ _ _ (added-IsHonest x cpt _ w.registry)
      (priority-IsHonest x p cpt existing w)

desktop_entry-IsHonest :
    (x : Settings) (p : Bool) (cpt existing : ℕ) (w : World)
    → IsHonest w.registry (add_desktop_entry x p cpt existing w)
unfolding add_desktop_entry
desktop_entry-IsHonest x p cpt existing w =
    if-IsHonest w.registry _ _ _ (done-IsHonest _ w.registry) (
      if-IsHonest w.registry _ _ _ (refused-IsHonest none w)
        (preferred-IsHonest x p cpt existing w))

replace-IsHonest :
    (x : Settings) (p : Bool) (cpt existing : ℕ) (w : World)
    → IsHonest w.registry (replace_desktop_entry x p cpt existing w)
unfolding replace_desktop_entry change_at
replace-IsHonest x p cpt existing w =
    if-IsHonest w.registry _ _ _
      (if-IsHonest w.registry _ _ _ (added-IsHonest x cpt _ w.registry)
        (desktop_entry-IsHonest x p cpt existing _))
      (desktop_entry-IsHonest x p cpt existing w)

plain-IsHonest :
    (x : Settings) (p : Bool) (cpt : ℕ) (existing : Option ℕ) (w : World)
    → IsHonest w.registry (add_plain x p cpt existing w)
unfolding add_plain
plain-IsHonest x p cpt none w = added-IsHonest x cpt w w.registry
plain-IsHonest x p cpt (some existing) w =
    if-IsHonest w.registry _ _ _ (added-IsHonest x cpt w w.registry)
      (replace-IsHonest x p cpt existing w)

found-IsHonest :
    (x : Settings) (p : Bool) (cpt : ℕ) (existing : Option ℕ) (w : World)
    → IsHonest w.registry (add_found x p cpt existing w)
unfolding add_found
found-IsHonest x p cpt existing w =
    if-IsHonest w.registry _ _ _ (merge-IsHonest x cpt w) (plain-IsHonest x p cpt existing w)

desktop_data-IsHonest :
    (x : Settings) (p : Bool) (cpt : ℕ) (existing : Option ℕ) (w : World)
    → IsHonest w.registry (add_desktop_data x p cpt existing w)
unfolding add_desktop_data
desktop_data-IsHonest x p cpt none w = found-IsHonest x p cpt none w
desktop_data-IsHonest x p cpt (some existing) w =
    if-IsHonest w.registry _ _ _ (refused-IsHonest none w)
      (found-IsHonest x p cpt (some existing) w)

not_ignored-IsHonest :
    (x : Settings) (p : Bool) (cpt : ℕ) (w : World)
    → IsHonest w.registry (add_not_ignored x p cpt w)
unfolding add_not_ignored
not_ignored-IsHonest x p cpt w =
    if-IsHonest w.registry _ _ _ (desktop_data-IsHonest x p cpt _ w) (found-IsHonest x p cpt _ w)

-- Whatever the pool holds, a component that is not added leaves the registry as it was, and one that is
-- added, merged or passed over with success leaves no error.
pub add_component_internal-IsHonest :
    (x : Settings) (pedantic_noadd : Bool) (cpt : ℕ) (w : World)
    → IsHonest w.registry (add_component_internal x pedantic_noadd cpt w)
unfolding add_component_internal change_at
add_component_internal-IsHonest x p cpt w =
    if-IsHonest w.registry _ _ _ (refused-IsHonest _ (change_at cpt store_data_id w))
      (not_ignored-IsHonest x p cpt (change_at cpt store_data_id w))
