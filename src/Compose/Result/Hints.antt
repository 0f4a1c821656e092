-- ===== src/Compose/Result/Hints.antt =====
-- compose/asc-result.c: what hints do to the components of a result.
use appstream.Base.{
  ℕ, Bool, true, false, not, ◌&&◌, none, some, List, [], ◌∷◌, ◌==◌, if◌then◌else◌, Bytes, str_equal,
  str_equal_iff, ◌≡◌, refl, arith, ap, ◌∙◌, Bool-cases, inl, inr, ==_iff, Option, ltb, length,
}
use appstream.Validator.Issues.{Severity}
use appstream.Compose.Result.{
  Heap, Result, Library, find, insert, remove, is_some, find_hash, insert_hash, any_tag, hints_of,
  build_gcid, is_error,
}

module _ {ℓ} {A : Type ℓ} where
  pub find-remove :
      (k other : Bytes) (es : List (Bytes × A))
      → find (remove k es) other ≡ (if str_equal k other then none else find es other)
  unfolding find remove
  find-remove k other [] = ground arith
  find-remove k other (e ∷ es) = ground (
    arith,
    find-remove k other es,
    str_equal_iff e.0 k,
    str_equal_iff e.0 other,
    str_equal_iff k other,
  )

  pub find-insert :
      (k other : Bytes) (a : A) (es : List (Bytes × A))
      → find (insert k a es) other ≡ (if str_equal k other then some a else find es other)
  unfolding find insert
  find-insert k other a [] = refl
  find-insert k other a (e ∷ es) = ground (
    arith,
    find-insert k other a es,
    str_equal_iff e.0 k,
    str_equal_iff e.0 other,
    str_equal_iff k other,
  )

pub find_hash-insert :
    (a b : ℕ) (h : Bytes) (es : List (ℕ × Bytes))
    → find_hash (insert_hash a h es) b ≡ (if a == b then some h else find_hash es b)
unfolding find_hash insert_hash
find_hash-insert a b h [] = refl
find_hash-insert a b h (e ∷ es) = ground (arith, find_hash-insert a b h es)

-- A component is registered by its own id, has a hash, and the global id that is built of both.
pub record IsRegistered (l : Library) (h : Heap) (r : Result) (cid : Bytes) (a : ℕ) : Type 0 where
  pub own_id : (h a).id ≡ cid
  pub hash : Bytes
  pub has_hash : find_hash r.mdata_hashes a ≡ some hash
  pub has_gcid : find r.gcids cid ≡ some (build_gcid l cid (some hash))

-- Every component of a result is registered so.
abbrev pub IsResult : Library → Heap → Result → Type 0
IsResult l h r = (cid : Bytes) (a : ℕ) → find r.cpts cid ≡ some a → IsRegistered l h r cid a

-- A global id is built, and not NULL, for ids of more than two bytes.
pub build_gcid-is_some :
    (l : Library) (cid : Bytes) (checksum : Option Bytes)
    → is_some (build_gcid l cid checksum) ≡ ltb 2 (length cid)
unfolding build_gcid is_some
build_gcid-is_some l cid checksum = ground arith

-- Another component has another id, so it has another address.
pub apart :
    (h : Heap) (a b : ℕ) (cid : Bytes)
    → (h b).id ≡ cid
    → str_equal (h a).id cid ≡ false
    → (a == b) ≡ false
apart h a b cid own other = elim (Bool-cases (a == b)) [
  | inl same ↦ absurd (
      ground
        (arith, other, str_equal_iff (h a).id cid, ap (λ k. (h k).id) ((==_iff a b).0 same) ∙ own))
  | inr e ↦ e
]

-- What a hint about an id does to a result: whether TRUE is returned, the hints of the id, the
-- components, and what holds of every result.
pub record IsHinted (l : Library) (h : Heap) (cid tag : Bytes) (s : Severity) (r : Result)
    (p : Result × Bool) : Type 0 where
  pub verdict : p.1 ≡ not (is_error s)
  pub noted : any_tag (hints_of p.0 cid) tag ≡ true
  pub components :
      (other : Bytes)
      → find p.0.cpts other
        ≡ (if is_error s && str_equal cid other then none else find r.cpts other)
  pub result : IsResult l h p.0
