-- ===== src/Compose/Result/Registered.antt =====
-- compose/asc-result.c: what a result knows of a component that is added.
use appstream.Base.{
  ℕ, Bool, true, false, not, some, [], if◌then◌else◌, Bytes, str_equal, str_equal_iff, ==_iff, ◌≡◌,
  refl, arith, ap, ◌∙◌, sym, Option, ltb, length, Bool-cases, inl, inr,
}
use appstream.Compose.Result.{
  Component, Heap, Result, Library, find, insert, is_some, find_hash, insert_hash, hash_text,
  build_gcid, update_component_gcid, add_component, set_package, set_package_at, change,
}
use appstream.Compose.Result.Hints.{
  find-insert, find_hash-insert, apart, build_gcid-is_some, IsRegistered, IsResult,
}

set_package-id : (r : Result) (c : Component) → (set_package r c).id ≡ c.id
unfolding set_package
set_package-id r c = ground arith

-- The ids are as they were when the component has its package set.
set_package_at-id : (h : Heap) (a : ℕ) (r : Result) (b : ℕ) → (set_package_at h a r b).id ≡ (h b).id
unfolding set_package_at change
set_package_at-id h a r b = ground (arith, set_package-id r (h a), ==_iff b a)

-- The result with the component in it, ahead of the global id.
entered : Heap → ℕ → Result → Result
entered h a r = record r { cpts = insert (h a).id a r.cpts }

entered-find : (h : Heap) (a : ℕ) (r : Result) → find (entered h a r).cpts (h a).id ≡ some a
unfolding entered
entered-find h a r =
    rw (find-insert (h a).id (h a).id a r.cpts) (rw ((str_equal_iff (h a).id (h a).id).1 refl) refl)

-- The sum of the data, with the old one ahead of it.
new_hash : Library → ℕ → Bytes → Result → Bytes
new_hash l a bytes r = l.md5 (hash_text (find_hash r.mdata_hashes a) bytes)

-- The result behind `asc_result_update_component_gcid`.
updated : Library → ℕ → Bytes → Bytes → Result → Result
updated l a cid bytes r = record r {
  mdata_hashes = insert_hash a (new_hash l a bytes r) r.mdata_hashes;
  gcids = insert cid (build_gcid l cid (some (new_hash l a bytes r))) r.gcids;
}

update_component_gcid-known :
    (l : Library) (h : Heap) (a b : ℕ) (bytes : Bytes) (r : Result)
    → str_equal (h a).id [] ≡ false
    → find r.cpts (h a).id ≡ some b
    → update_component_gcid l h a bytes r ≡ (updated l a (h a).id bytes r, true)
unfolding update_component_gcid is_some updated new_hash
update_component_gcid-known l h a b bytes r named found =
    rw (named, update_component_gcid) (rw found refl)

updated-IsRegistered :
    (l : Library) (h h' : Heap) (a b : ℕ) (bytes cid : Bytes) (r : Result)
    → ((k : ℕ) → (h' k).id ≡ (h k).id)
    → IsResult l h r
    → find (entered h a r).cpts cid ≡ some b
    → IsRegistered l h' (updated l a (h a).id bytes (entered h a r)) cid b
unfolding updated entered is_some
updated-IsRegistered l h h' a b bytes cid r ids result found =
    let hash = new_hash l a bytes (entered h a r) in
    let gcid = build_gcid l (h a).id (some hash) in
    let in_cpts = find-insert (h a).id cid a r.cpts in
    let in_gcids = find-insert (h a).id cid gcid r.gcids in
    let in_hashes = find_hash-insert a b hash r.mdata_hashes in
    elim (Bool-cases (str_equal (h a).id cid)) [
      | inl same ↦
          let here : a ≡ b = ground (arith, same, found, in_cpts) in
          record {
            own_id = ids b ∙ ap (λ k. (h k).id) (sym here) ∙ (str_equal_iff (h a).id cid).0 same;
            hash = hash;
            has_hash = ground (arith, here, in_hashes);
            has_gcid =
                in_gcids
                ∙ rw same (
                    ap (λ k. some (build_gcid l k (some hash)))
                      ((str_equal_iff (h a).id cid).0 same));
          }
      | inr other ↦
          let w = result cid b (ground (arith, other, found, in_cpts)) in
          record {
            own_id = ids b ∙ w.own_id;
            hash = w.hash;
            has_hash = in_hashes ∙ rw (apart h a b cid w.own_id other) w.has_hash;
            has_gcid = in_gcids ∙ rw other w.has_gcid;
          }
    ]

add_component-named :
    (l : Library) (h : Heap) (a : ℕ) (bytes : Bytes) (r : Result)
    → str_equal (h a).id [] ≡ false
    → add_component l h a bytes r
      ≡ (set_package_at h a r, updated l a (h a).id bytes (entered h a r), true)
unfolding add_component entered
add_component-named l h a bytes r named =
    let h' = set_package_at h a r in
    let id = set_package_at-id h a r a in
    let known =
      update_component_gcid-known l h' a a bytes (entered h a r)
        (ap (λ cid. str_equal cid []) id ∙ named)
        (ap (find (entered h a r).cpts) id ∙ entered-find h a r) in
    rw (named, add_component)
      (ap (λ (x : Result × Bool). (h', x.0, true)) known
        ∙ ap (λ cid. (h', updated l a cid bytes (entered h a r), true)) id)

-- What a result is when a component was given to it.
pub record IsAdded (l : Library) (h : Heap) (a : ℕ) (r : Result) (x : Heap × Result × Bool)
    : Type 0 where
  pub result : IsResult l x.0 x.1
  pub verdict : x.2 ≡ not (str_equal (h a).id [])
  pub found : find x.1.cpts (h a).id ≡ (if x.2 then some a else find r.cpts (h a).id)
  pub unchanged : x.2 ≡ false → x ≡ (h, r, false)

updated-IsAdded :
    (l : Library) (h : Heap) (a : ℕ) (bytes : Bytes) (r : Result)
    → IsResult l h r
    → str_equal (h a).id [] ≡ false
    → IsAdded l h a r (set_package_at h a r, updated l a (h a).id bytes (entered h a r), true)
unfolding updated
updated-IsAdded l h a bytes r result named = record {
  result = λ cid b e.
      updated-IsRegistered l h (set_package_at h a r) a b bytes cid r (set_package_at-id h a r)
        result e;
  verdict = ground (arith, named);
  found = entered-find h a r;
  unchanged = λ e. absurd (cc);
}

add_component-result :
    (l : Library) (h : Heap) (a : ℕ) (bytes : Bytes) (r : Result)
    → IsResult l h r
    → IsAdded l h a r (add_component l h a bytes r)
unfolding add_component
add_component-result l h a bytes r result = elim (Bool-cases (str_equal (h a).id [])) [
  | inl nameless ↦
      rw (nameless, add_component)
        (record {
          result = result;
          verdict = ground (arith, nameless);
          found = refl;
          unchanged = λ e. refl;
        })
  | inr named ↦
      rw (add_component-named l h a bytes r named) (updated-IsAdded l h a bytes r result named)
]

-- A component without an id is refused, and nothing changes. Any other is found under its id from then
-- on. If every component of the result stood under its own id, with a hash and with the global id that
-- `asc_build_component_global_id` makes of both, then every component still does, the new one included,
-- also where it took the place of another one. What that makes is NULL exactly for ids of up to two
-- bytes.
pub add_component-IsAdded :
    (l : Library) (h : Heap) (a : ℕ) (bytes : Bytes) (r : Result)
    → IsResult l h r
    → IsAdded l h a r (add_component l h a bytes r)
      × ((cid : Bytes) (hash : Option Bytes) → is_some (build_gcid l cid hash) ≡ ltb 2 (length cid))
add_component-IsAdded l h a bytes r result =
    (add_component-result l h a bytes r result, build_gcid-is_some l)
