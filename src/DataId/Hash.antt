-- ===== src/DataId/Hash.antt =====
-- as_utils_data_id_hash against as_utils_data_id_equal.
use appstream.Base.{
  ℕ, zero, suc, ◌+◌, ◌<◌, Bool, true, Option, none, some, List, [], ◌∷◌, Bytes, codes, ◌≡◌, ◌≢◌,
  ◌⊎◌, inl, inr, refl, sym, ◌∙◌, ap, arith,
}
use appstream.DataId.{
  data_id_valid, find_part, behind_part, fourth_of_five, data_id_get_cid, data_id_equal, hash_step,
  hash_loop, data_id_hash, all_flags, flag_bits,
}
use appstream.DataId.Sections.{
  sections, sections_behind, sections-find_part, valid-length, split_at_most-sections,
}
use appstream.DataId.Match.{AllAgree, data_id_match-AllAgree}
use appstream.Vercmp.{Outcome, value}

-- The hash of one string.
hash_part : ℕ → Bytes → ℕ
hash_part hash [] = hash
hash_part hash (c ∷ s) = hash_part (hash_step hash c) s

hash_loop-part : (hash : ℕ) (s : Bytes) → hash_loop 3 hash s ≡ hash_part hash (find_part s)
unfolding hash_loop hash_part find_part
hash_loop-part hash [] = refl
hash_loop-part hash (c ∷ s) = grind (arith, hash_loop-part (hash_step hash c) s)

the_three : (n : ℕ) → n + 0 ≡ 3 → n ≡ 3
the_three n e = omega (arith, e)

value_inj : {a b : Bool} → Outcome.value a ≡ Outcome.value b → a ≡ b
value_inj e = cc

some_inj : {p q : Bytes} → some p ≡ some q → p ≡ q
some_inj e = cc

hash_loop-skip :
    (n hash : ℕ) (s : Bytes)
    → n < 3
    → hash_loop n hash s ≡ elim (behind_part s) [ none ↦ hash | some r ↦ hash_loop (suc n) hash r ]
unfolding hash_loop behind_part
hash_loop-skip n hash [] l = refl
hash_loop-skip n hash (c ∷ s) l = ground (arith, l, hash_loop-skip n hash s l)

abbrev nth {ℓ} : {A : Type ℓ} → ℕ → List A → Option A
nth k [] = none
nth zero (w ∷ ws) = some w
nth (suc k) (w ∷ ws) = nth k ws

fourth_of_five-nth : (ws : List Bytes) (p : Bytes) → fourth_of_five ws ≡ some p → nth 3 ws ≡ some p
unfolding fourth_of_five
fourth_of_five-nth ws p e = ground (arith, e)

hash_behind :
    (k n hash : ℕ) (o : Option Bytes) (p : Bytes)
    → nth k (sections_behind o) ≡ some p
    → ((r : Bytes) → nth k (sections r) ≡ some p → hash_loop (suc n) hash r ≡ hash_part hash p)
    → elim o [ none ↦ hash | some r ↦ hash_loop (suc n) hash r ] ≡ hash_part hash p
hash_behind k n hash none p e ih = absurd (cc)
hash_behind k n hash (some r) p e ih = ih r e

hash_loop-nth :
    (k n hash : ℕ) (s p : Bytes)
    → n + k ≡ 3
    → nth k (sections s) ≡ some p
    → hash_loop n hash s ≡ hash_part hash p
hash_loop-nth zero n hash s p sum e = rw (the_three n sum) (
    hash_loop-part hash s
    ∙ ap (hash_part hash) (some_inj (ap (nth 0) (sym (sections-find_part s)) ∙ e)))
hash_loop-nth (suc k) n hash s p sum e =
    hash_loop-skip n hash s (omega (arith, sum))
    ∙ hash_behind k n hash (behind_part s) p (ap (nth (suc k)) (sym (sections-find_part s)) ∙ e)
        (λ r. hash_loop-nth k (suc n) hash r p (omega (arith, sum)))

data_id_get_cid-nth :
    (s p : Bytes)
    → data_id_valid (some s) ≡ true
    → data_id_get_cid s ≡ some p
    → nth 3 (sections s) ≡ some p
unfolding data_id_get_cid
data_id_get_cid-nth [] p v e = absurd (cc)
data_id_get_cid-nth (c ∷ s) p v e =
    fourth_of_five-nth (sections (c ∷ s)) p
      (ap fourth_of_five (sym (split_at_most-sections 4 (c ∷ s) (valid-length (c ∷ s) v))) ∙ e)

AllAgree-nth :
    (k : ℕ) (fs : List Bool) (ps qs : List Bytes) (p q : Bytes)
    → AllAgree fs ps qs
    → nth k fs ≡ some true
    → nth k ps ≡ some p
    → nth k qs ≡ some q
    → (p ≡ codes "*") ⊎ (q ≡ codes "*") ⊎ (p ≡ q)
AllAgree-nth k [] ps qs p q agree ef ep eq = absurd (cc)
AllAgree-nth k (f ∷ fs) [] qs p q agree ef ep eq = absurd (cc)
AllAgree-nth k (f ∷ fs) (x ∷ ps) [] p q agree ef ep eq = absurd (cc)
AllAgree-nth zero (f ∷ fs) (x ∷ ps) (y ∷ qs) p q agree ef ep eq =
    ground (arith, agree.0, ef, ep, eq)
AllAgree-nth (suc k) (f ∷ fs) (x ∷ ps) (y ∷ qs) p q agree ef ep eq =
    AllAgree-nth k fs ps qs p q agree.1 ef ep eq

-- Two valid data ids that are equal for `as_utils_data_id_equal` have the same hash, if the component
-- id of neither is the wildcard.
pub data_id_hash-equal :
    (str_hash : Bytes → ℕ) (s1 s2 p q : Bytes)
    → data_id_valid (some s1) ≡ true
    → data_id_valid (some s2) ≡ true
    → data_id_get_cid s1 ≡ some p
    → data_id_get_cid s2 ≡ some q
    → p ≢ codes "*"
    → q ≢ codes "*"
    → data_id_equal (some s1) (some s2) ≡ value true
    → data_id_hash str_hash s1 ≡ data_id_hash str_hash s2
unfolding data_id_equal data_id_hash
data_id_hash-equal str_hash s1 s2 p q v1 v2 e1 e2 np nq same =
    let (r, decided, agree) = data_id_match-AllAgree s1 s2 all_flags v1 v2 in
    let n1 = data_id_get_cid-nth s1 p v1 e1 in
    let n2 = data_id_get_cid-nth s2 q v2 e2 in
    let all = agree.0 (value_inj (sym decided ∙ same)) in
    let cids =
      AllAgree-nth 3 (flag_bits all_flags) (sections s1) (sections s2) p q all refl n1 n2 in
    rw v1 (
      rw v2 (
        hash_loop-nth 3 0 5381 s1 p refl n1
        ∙ elim cids [
          | inl w ↦ absurd (np w)
          | inr (inl w) ↦ absurd (nq w)
          | inr (inr e) ↦ ap (hash_part 5381) e
        ]
        ∙ sym (hash_loop-nth 3 0 5381 s2 q refl n2)))
