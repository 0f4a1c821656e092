-- ===== src/Relation/Kinds/RoundTrip.antt =====
-- The texts of the enumerations are read back, and only they are read as a known kind.
use appstream.Base.{
  some, ◌≡◌, ◌≢◌, refl, sym, ap, ◌⊎◌, inl, inr, Bytes, str_equal, str_equal_iff, Bool-cases,
  if◌then◌else◌,
}
use appstream.Relation.Kinds.{
  RelationKind, ItemKind, Compare, ControlKind, DisplaySideKind, InternetKind,
  relation_kind_to_string, relation_kind_from_string, item_kind_to_string, item_kind_from_string,
  compare_to_string, compare_to_symbols_string, compare_from_string, control_kind_to_string,
  control_kind_from_string, display_side_kind_to_string, display_side_kind_from_string,
  internet_kind_to_string, internet_kind_from_string,
}

relation_kind_back :
    (k : RelationKind) → relation_kind_from_string (some (relation_kind_to_string k)) ≡ k
unfolding relation_kind_from_string relation_kind_to_string
relation_kind_back RelationKind.unknown = refl
relation_kind_back _ = refl

item_kind_back : (k : ItemKind) → item_kind_from_string (some (item_kind_to_string k)) ≡ k
unfolding item_kind_from_string item_kind_to_string
item_kind_back ItemKind.unknown = refl
item_kind_back _ = refl

control_kind_back :
    (k : ControlKind) → control_kind_from_string (some (control_kind_to_string k)) ≡ k
unfolding control_kind_from_string control_kind_to_string
control_kind_back ControlKind.unknown = refl
control_kind_back _ = refl

display_side_kind_back :
    (k : DisplaySideKind) → display_side_kind_from_string (some (display_side_kind_to_string k)) ≡ k
unfolding display_side_kind_from_string display_side_kind_to_string
display_side_kind_back DisplaySideKind.unknown = refl
display_side_kind_back _ = refl

internet_kind_back :
    (k : InternetKind) → internet_kind_from_string (some (internet_kind_to_string k)) ≡ k
unfolding internet_kind_from_string internet_kind_to_string
internet_kind_back InternetKind.unknown = refl
internet_kind_back _ = refl

-- Reading the text of a kind gives the kind back, for relation kinds, item kinds, control kinds,
-- display sides and internet kinds.
kinds_from-to :
    ((k : RelationKind) → relation_kind_from_string (some (relation_kind_to_string k)) ≡ k)
    × ((k : ItemKind) → item_kind_from_string (some (item_kind_to_string k)) ≡ k)
    × ((k : ControlKind) → control_kind_from_string (some (control_kind_to_string k)) ≡ k)
    × ((k : DisplaySideKind)
        → display_side_kind_from_string (some (display_side_kind_to_string k)) ≡ k)
    × ((k : InternetKind) → internet_kind_from_string (some (internet_kind_to_string k)) ≡ k)
kinds_from-to = (
  relation_kind_back, item_kind_back, control_kind_back, display_side_kind_back, internet_kind_back,
)

-- Both the name and the symbols of a known comparison are read back as the comparison.
compare_from-to :
    (c : Compare)
    → c ≢ Compare.unknown
    → (compare_from_string (compare_to_string c) ≡ c)
      × (compare_from_string (compare_to_symbols_string c) ≡ c)
unfolding compare_from_string compare_to_string compare_to_symbols_string
compare_from-to Compare.unknown h = absurd (h refl)
compare_from-to _ h = (refl, refl)

-- One test of a chain of comparisons with literals.
if_text {ℓ} :
    {A : Type 0} (P : A → Type ℓ) (s t : Bytes) (x y : A)
    → (s ≡ t → P x)
    → P y
    → P (if str_equal s t then x else y)
if_text P s t x y f g = elim (Bool-cases (str_equal s t)) [
  | inl e ↦ rw e (f ((str_equal_iff s t).0 e))
  | inr e ↦ rw e g
]

-- A text that is read as a known item kind is the text of that kind.
item_kind_to-from :
    (s : Bytes)
    → item_kind_from_string (some s) ≢ ItemKind.unknown
    → item_kind_to_string (item_kind_from_string (some s)) ≡ s
unfolding item_kind_from_string item_kind_to_string
item_kind_to-from s =
    let P : ItemKind → Type 0 = λ k. k ≢ ItemKind.unknown → item_kind_to_string k ≡ s in
    if_text P s _ ItemKind.id _ (λ e _. sym e)
      (if_text P s _ ItemKind.modalias _ (λ e _. sym e)
        (if_text P s _ ItemKind.kernel _ (λ e _. sym e)
          (if_text P s _ ItemKind.memory _ (λ e _. sym e)
            (if_text P s _ ItemKind.firmware _ (λ e _. sym e)
              (if_text P s _ ItemKind.control _ (λ e _. sym e)
                (if_text P s _ ItemKind.display_length _ (λ e _. sym e)
                  (if_text P s _ ItemKind.hardware _ (λ e _. sym e)
                    (if_text P s _ ItemKind.internet _ (λ e _. sym e) (λ h. absurd (h refl))))))))))

-- A text that is read as a known comparison is its name or its symbols.
compare_to-from :
    (s : Bytes)
    → compare_from_string (some s) ≢ Compare.unknown
    → (compare_to_string (compare_from_string (some s)) ≡ some s)
      ⊎ (compare_to_symbols_string (compare_from_string (some s)) ≡ some s)
unfolding compare_from_string compare_to_string compare_to_symbols_string
compare_to-from s =
    let P : Compare → Type 0 = λ c.
      c ≢ Compare.unknown
      → (compare_to_string c ≡ some s) ⊎ (compare_to_symbols_string c ≡ some s) in
    if_text P s _ Compare.eq _ (λ e _. inl (ap some (sym e)))
      (if_text P s _ Compare.ne _ (λ e _. inl (ap some (sym e)))
        (if_text P s _ Compare.gt _ (λ e _. inl (ap some (sym e)))
          (if_text P s _ Compare.lt _ (λ e _. inl (ap some (sym e)))
            (if_text P s _ Compare.ge _ (λ e _. inl (ap some (sym e)))
              (if_text P s _ Compare.le _ (λ e _. inl (ap some (sym e)))
                (if_text P s _ Compare.eq _ (λ e _. inr (ap some (sym e)))
                  (if_text P s _ Compare.ne _ (λ e _. inr (ap some (sym e)))
                    (if_text P s _ Compare.gt _ (λ e _. inr (ap some (sym e)))
                      (if_text P s _ Compare.lt _ (λ e _. inr (ap some (sym e)))
                        (if_text P s _ Compare.ge _ (λ e _. inr (ap some (sym e)))
                          (if_text P s _ Compare.le _ (λ e _. inr (ap some (sym e)))
                            (λ h. absurd (h refl)))))))))))))
