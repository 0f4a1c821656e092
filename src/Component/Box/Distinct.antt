-- ===== src/Component/Box/Distinct.antt =====
-- The components that a box holds after a sequence of insertions.
use appstream.Base.{
  true, false, ◌||◌, none, some, List, [], ◌∷◌, ◌++◌, Bytes, str_equal, str_equal_iff, ◌≡◌, ◌↔◌,
  refl, sym, ◌∙◌, arith, Bool-cases, inl, inr,
}
use appstream.Component.Search.Terms.{flags_contain}
use appstream.Component.Box.{no_checks, exists, is_member, Box, map_insert, map_holds, box_add}

true-false : true ≡ false → ⊥
true-false e = cc

module _ {ℓ} {A : Type ℓ} (data_id : A → Bytes) where
  -- Every data id stands once.
  abbrev pub IsDistinct : List A → Type 0
  IsDistinct [] = Unit
  IsDistinct (c ∷ cs) = (is_member data_id (data_id c) cs ≡ false) × IsDistinct cs

  -- A box with checks has the components of its array in its hash table, each data id once.
  abbrev pub IsBox : Box A → Type ℓ
  IsBox b =
      (flags_contain b.flags no_checks ≡ false) → (b.cpt_map ≡ some b.cpts) × IsDistinct b.cpts

  is_member-append :
      (cs : List A) (c : A) (id : Bytes)
      → is_member data_id id (cs ++ c ∷ []) ≡ (is_member data_id id cs || str_equal (data_id c) id)
  unfolding is_member
  is_member-append [] c id = ground arith
  is_member-append (d ∷ cs) c id = ground (arith, is_member-append cs c id)

  append-IsDistinct :
      (cs : List A) (c : A)
      → is_member data_id (data_id c) cs ≡ false
      → IsDistinct cs
      → IsDistinct (cs ++ c ∷ [])
  unfolding is_member
  append-IsDistinct [] c new _ = (refl, _)
  append-IsDistinct (d ∷ cs) c new (first, distinct) = (
    ground (
      arith,
      new,
      first,
      is_member-append cs c (data_id d),
      str_equal_iff (data_id c) (data_id d),
      str_equal_iff (data_id d) (data_id c),
    ),
    append-IsDistinct cs c (ground (arith, new)) distinct,
  )

  add-free :
      (b : Box A) (c : A)
      → flags_contain b.flags no_checks ≡ true
      → box_add data_id b c ≡ (record b { cpts = b.cpts ++ c ∷ [] }, none)
  unfolding box_add
  add-free b c free = simp free refl

  add-refused :
      (b : Box A) (c : A)
      → flags_contain b.flags no_checks ≡ false
      → b.cpt_map ≡ some b.cpts
      → is_member data_id (data_id c) b.cpts ≡ true
      → box_add data_id b c ≡ (b, some exists)
  unfolding box_add map_holds
  add-refused b c checked map known = simp (checked, map, known) refl

  add-new :
      (b : Box A) (c : A)
      → flags_contain b.flags no_checks ≡ false
      → b.cpt_map ≡ some b.cpts
      → is_member data_id (data_id c) b.cpts ≡ false
      → box_add data_id b c
        ≡ (record b { cpts = b.cpts ++ c ∷ []; cpt_map = some (b.cpts ++ c ∷ []) }, none)
  unfolding box_add map_holds map_insert
  add-new b c checked map new = simp (checked, map, new) refl

  -- A box stays one by an insertion. Without checks every component is appended; with checks a component
  -- is refused, and the box left as it was, exactly if the box has one of its data id, and appended
  -- otherwise.
  pub box_add-IsBox :
      (b : Box A) (c : A)
      → IsBox b
      → IsBox (box_add data_id b c).0
        × (((box_add data_id b c).1 ≡ some exists) ↔ (
            (flags_contain b.flags no_checks ≡ false)
            × (is_member data_id (data_id c) b.cpts ≡ true)))
        × ((box_add data_id b c).0.cpts
            ≡ elim (box_add data_id b c).1 [ none ↦ b.cpts ++ c ∷ [] | some e ↦ b.cpts ])
  box_add-IsBox b c box = elim (Bool-cases (flags_contain b.flags no_checks)) [
    | inl free ↦ rw (add-free b c free) (
      (λ checked. absurd (true-false (sym free ∙ checked))),
      ((λ e. absurd (cc)), (λ h. absurd (true-false (sym free ∙ h.0)))),
      refl,
    )
    | inr checked ↦
        let (map, distinct) = box checked in
        elim (Bool-cases (is_member data_id (data_id c) b.cpts)) [
          | inl known ↦
              rw (add-refused b c checked map known)
                (box, ((λ _. (checked, known)), (λ _. refl)), refl)
          | inr new ↦ rw (add-new b c checked map new) (
            (λ _. (refl, append-IsDistinct b.cpts c new distinct)),
            ((λ e. absurd (cc)), (λ h. absurd (true-false (sym h.1 ∙ new)))),
            refl,
          )
        ]
  ]
