-- ===== src/Pool/Add/Kept.antt =====
-- src/as-pool.c: which components are left as they are when one is added.
use appstream.Base.{
  ℕ, Bool, true, false, Option, none, some, if◌then◌else◌, Bytes, ◌==◌, ==_iff, ◌≡◌, refl, arith,
  ap, ◌∙◌, Bool-cases, inl, inr,
}
use appstream.Pool.{Component, change, get_data_id, store_data_id, is_no_merge}
use appstream.Pool.Add.{
  Settings, World, Added, PoolError, registry_add, added, refused, done, collide, add_for_arch,
  add_native, add_by_priority, add_preferred, add_desktop_entry, replace_desktop_entry, add_plain,
  add_found, add_desktop_data, add_not_ignored, add_component_internal, is_desktop_entry,
  lookup_desktop, change_at,
}
use appstream.Pool.Add.Priority.{stored, desktop_entry-stored}

-- The component at `b` is as it was in `w`.
record Keeps (b : ℕ) (w : World) (a : Added) : Type 0 where
  pub kept : a.world.heap b ≡ w.heap b

-- A start from another world that has the same component at `b`.
Keeps-from : (b : ℕ) (w w' : World) (a : Added) → w'.heap b ≡ w.heap b → Keeps b w' a → Keeps b w a
Keeps-from b w w' a e k = record { kept = k.kept ∙ e }

-- `b` is not the component that was found.
abbrev IsOther : ℕ → Option ℕ → Type 0
IsOther b none = Unit
IsOther b (some a) = (b == a) ≡ false

if-Keeps :
    (b : ℕ) (w : World) (t : Bool) (x y : Added)
    → Keeps b w x
    → Keeps b w y
    → Keeps b w (if t then x else y)
if-Keeps b w true x y k l = k
if-Keeps b w false x y k l = l

change_at-heap :
    (a b : ℕ) (f : Component → Component) (w : World)
    → (b == a) ≡ false
    → (change_at a f w).heap b ≡ w.heap b
unfolding change_at change
change_at-heap a b f w other = rw other refl

refused-Keeps : (b : ℕ) (e : Option PoolError) (w : World) → Keeps b w (refused e w)
unfolding refused
refused-Keeps b e w = record { kept = refl }

done-Keeps :
    (a b : ℕ) (f : Component → Component) (w : World)
    → (b == a) ≡ false
    → Keeps b w (done (change_at a f w))
unfolding done
done-Keeps a b f w other = record { kept = change_at-heap a b f w other }

added-Keeps :
    (x : Settings) (cpt b : ℕ) (w : World) → (b == cpt) ≡ false → Keeps b w (added x cpt w)
unfolding added registry_add change
added-Keeps x cpt b w new = record { kept = rw new refl }

module _ (x : Settings) (p : Bool) (cpt existing b : ℕ) (new : (b == cpt) ≡ false)
    (other : (b == existing) ≡ false) where
  collide-Keeps : (w : World) → Keeps b w (collide p cpt existing w)
  unfolding collide
  collide-Keeps w = if-Keeps b w _ _ _ (refused-Keeps b _ w) (refused-Keeps b _ w)

  native-Keeps :
      (earch : Option Bytes) (w : World) → Keeps b w (add_native x p cpt existing earch w)
  unfolding add_native
  native-Keeps none w = collide-Keeps w
  native-Keeps (some earch) w =
      if-Keeps b w _ _ _ (added-Keeps x cpt b w new) (refused-Keeps b none w)

  arch-Keeps : (arch : Option Bytes) (w : World) → Keeps b w (add_for_arch x p cpt existing arch w)
  unfolding add_for_arch
  arch-Keeps none w = collide-Keeps w
  arch-Keeps (some arch) w =
      if-Keeps b w _ _ _ (native-Keeps (w.heap existing).architecture w) (collide-Keeps w)

  priority-Keeps : (w : World) → Keeps b w (add_by_priority x p cpt existing w)
  unfolding add_by_priority
  priority-Keeps w = if-Keeps b w _ _ _ (added-Keeps x cpt b w new) (
      if-Keeps b w _ _ _ (done-Keeps existing b _ w other) (arch-Keeps (w.heap cpt).architecture w))

  preferred-Keeps : (w : World) → Keeps b w (add_preferred x p cpt existing w)
  unfolding add_preferred
  preferred-Keeps w =
      if-Keeps b w _ _ _
        (Keeps-from b w _ _ (change_at-heap cpt b _ w new) (added-Keeps x cpt b _ new))
        (priority-Keeps w)

  desktop_entry-Keeps : (w : World) → Keeps b w (add_desktop_entry x p cpt existing w)
  unfolding add_desktop_entry
  desktop_entry-Keeps w =
      if-Keeps b w _ _ _ (done-Keeps existing b _ w other)
        (if-Keeps b w _ _ _ (refused-Keeps b none w) (preferred-Keeps w))

  replace-Keeps : (w : World) → Keeps b w (replace_desktop_entry x p cpt existing w)
  unfolding replace_desktop_entry
  replace-Keeps w =
      if-Keeps b w _ _ _
        (if-Keeps b w _ _ _
          (Keeps-from b w _ _
            (change_at-heap existing b _ (change_at cpt _ w) other ∙ change_at-heap cpt b _ w new)
            (added-Keeps x cpt b _ new))
          (Keeps-from b w _ _ (change_at-heap existing b _ w other) (desktop_entry-Keeps _)))
        (desktop_entry-Keeps w)

-- Without a merge, nothing but the new component and the one that was found is changed.
found-Keeps :
    (x : Settings) (p : Bool) (cpt b : ℕ) (existing : Option ℕ) (w : World)
    → is_no_merge (w.heap cpt).merge_kind ≡ true
    → (b == cpt) ≡ false
    → IsOther b existing
    → Keeps b w (add_found x p cpt existing w)
unfolding add_found add_plain
found-Keeps x p cpt b none w plain new other = rw plain (added-Keeps x cpt b w new)
found-Keeps x p cpt b (some existing) w plain new other =
    rw plain (
      if-Keeps b w _ _ _ (added-Keeps x cpt b w new) (replace-Keeps x p cpt existing b new other w))

-- Two components of which one alone is data of a .desktop file.
apart :
    (w : World) (a b : ℕ)
    → is_desktop_entry (w.heap a).origin_kind ≡ true
    → is_desktop_entry (w.heap b).origin_kind ≡ false
    → (b == a) ≡ false
apart w a b desktop better = elim (Bool-cases (b == a)) [
  | inl same ↦ absurd (
      ground (
        arith,
        desktop,
        better,
        ap (λ k. is_desktop_entry (w.heap k).origin_kind) ((==_iff b a).0 same),
      ))
  | inr e ↦ e
]

desktop_data-Keeps :
    (x : Settings) (p : Bool) (cpt b : ℕ) (existing : Option ℕ) (w : World)
    → is_desktop_entry (w.heap cpt).origin_kind ≡ true
    → is_no_merge (w.heap cpt).merge_kind ≡ true
    → is_desktop_entry (w.heap b).origin_kind ≡ false
    → Keeps b w (add_desktop_data x p cpt existing w)
unfolding add_desktop_data
desktop_data-Keeps x p cpt b none w desktop plain better =
    found-Keeps x p cpt b none w plain (apart w cpt b desktop better) _
desktop_data-Keeps x p cpt b (some existing) w desktop plain better =
    elim (Bool-cases (is_desktop_entry (w.heap existing).origin_kind)) [
      | inl e ↦ rw e (
          found-Keeps x p cpt b (some existing) w plain (apart w cpt b desktop better)
            (apart w existing b e better))
      | inr e ↦ rw e (refused-Keeps b none w)
    ]

plain-stored :
    (w : World) (cpt : ℕ)
    → is_no_merge (change cpt store_data_id w.heap cpt).merge_kind
      ≡ is_no_merge (w.heap cpt).merge_kind
unfolding store_data_id
plain-stored w cpt = stored (λ c. is_no_merge c.merge_kind) w.heap cpt cpt (λ c. refl)

-- The data of a .desktop file never changes a component that comes from anything else: when it is
-- added without a merge kind, every such component is as it was, whatever the pool holds and whichever
-- components are found. So nothing of it is merged into data of a metainfo file, although the routine
-- has a branch for that.
pub desktop_entry-kept :
    (x : Settings) (pedantic_noadd : Bool) (cpt b : ℕ) (w : World)
    → is_desktop_entry (w.heap cpt).origin_kind ≡ true
    → is_no_merge (w.heap cpt).merge_kind ≡ true
    → is_desktop_entry (w.heap b).origin_kind ≡ false
    → (add_component_internal x pedantic_noadd cpt w).world.heap b ≡ w.heap b
unfolding add_component_internal add_not_ignored change_at
desktop_entry-kept x p cpt b w desktop plain better =
    let w' = change_at cpt store_data_id w in
    let desktop' = desktop_entry-stored w.heap cpt cpt ∙ desktop in
    let better' = desktop_entry-stored w.heap cpt b ∙ better in
    let k = if-Keeps b w' (w.heap cpt).ignored _ _ (refused-Keeps b _ w') (
      rw (desktop', add_not_ignored)
        (desktop_data-Keeps x p cpt b (lookup_desktop x w'.registry (get_data_id (w'.heap cpt))) w'
          desktop' (plain-stored w cpt ∙ plain) better')) in
    k.kept ∙ change_at-heap cpt b store_data_id w (apart w cpt b desktop better)
