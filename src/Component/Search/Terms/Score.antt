-- ===== src/Component/Search/Terms/Score.antt =====
-- The score of a list of search terms, from the scores of the terms.
use Prim.Native.Nat.{bit_or}
use mathlib.Core.Path.{subst}
use appstream.Base.{
  ℕ, ◌≤◌, true, ◌==◌, Option, none, some, List, [], ◌∷◌, if◌then◌else◌, Bytes, ◌≡◌, ◌≢◌, ◌↔◌, refl,
  sym, ◌∙◌, ap, All, arith, Option-cases, inl, inr,
}
use appstream.Base.Bits.{bit_or-ge_left, bit_or-ge_right}
use appstream.Component.Search.{Texts}
use appstream.Component.Search.Terms.{
  Component, cache_matches, search_matches, match_terms, search_matches_all,
}
use appstream.Component.Search.Terms.Indexed.{create_token_cache-same}

-- The score of a list of terms, from the scores of the terms.
abbrev pub terms_score : (Bytes → ℕ) → List Bytes → ℕ → Option ℕ
terms_score f [] sum = some sum
terms_score f (term ∷ terms) sum =
    let rest = terms_score f terms (bit_or sum (f term)) in if f term == 0 then none else rest

pub terms_score-ext :
    (f g : Bytes → ℕ)
    → ((t : Bytes) → f t ≡ g t)
    → (terms : List Bytes) (sum : ℕ) → terms_score f terms sum ≡ terms_score g terms sum
terms_score-ext f g same [] sum = refl
terms_score-ext f g same (t ∷ ts) sum =
    ap (λ n. if n == 0 then none else terms_score f ts (bit_or sum n)) (same t)
    ∙ ap (λ o. if g t == 0 then none else o) (terms_score-ext f g same ts (bit_or sum (g t)))

-- A finished component gives the score of its cache.
match_terms-score :
    (x : Texts) (terms : List Bytes) (sum : ℕ) (c : Component)
    → c.token_cache_valid ≡ true
    → match_terms x terms sum c ≡ (c, terms_score (cache_matches c.token_cache) terms sum)
unfolding match_terms search_matches
match_terms-score x [] sum c valid = refl
match_terms-score x (t ∷ ts) sum c valid = rw (create_token_cache-same x c valid) (
    rw (match_terms-score x ts (bit_or sum (cache_matches c.token_cache t)) c valid) (ground arith))

-- The value of a score: 0 for a term that does not match.
abbrev pub score_of : Option ℕ → ℕ
score_of none = 0
score_of (some sum) = sum

pub search_matches_all-score :
    (x : Texts) (terms : List Bytes) (c : Component)
    → c.token_cache_valid ≡ true
    → (search_matches_all x c (some terms)).1
      ≡ score_of (terms_score (cache_matches c.token_cache) terms 0)
unfolding search_matches_all
search_matches_all-score x terms c valid =
    rw (match_terms-score x terms 0 (record c { sort_score = 0 }) valid, search_matches_all)
      (verdict _ (terms_score (cache_matches c.token_cache) terms 0))
  where
    verdict :
        (d : Component) (o : Option ℕ)
        → (elim o as (λ _. Component × ℕ) [
          | none ↦ (d, 0)
          | some sum ↦ (record d { sort_score = sum }, sum)
        ]).1
          ≡ score_of o
    verdict d none = refl
    verdict d (some sum) = refl

none-some : {n : ℕ} → Option.none ≡ some n → ⊥
none-some e = cc

All-map :
    (P Q : Bytes → Type 0) → ((t : Bytes) → P t → Q t) → (ts : List Bytes) → All P ts → All Q ts
All-map P Q f [] _ = _
All-map P Q f (t ∷ ts) (p, ps) = (f t p, All-map P Q f ts ps)

terms_score-All :
    (f : Bytes → ℕ) (terms : List Bytes) (sum n : ℕ)
    → terms_score f terms sum ≡ some n
    → (sum ≤ n) × All (λ t. (f t ≢ 0) × (f t ≤ n)) terms
terms_score-All f [] sum n e = ground (arith, e)
terms_score-All f (t ∷ ts) sum n e = ground (
  arith,
  e,
  terms_score-All f ts (bit_or sum (f t)) n,
  bit_or-ge_left sum (f t),
  bit_or-ge_right sum (f t),
)

All-terms_score :
    (f : Bytes → ℕ) (terms : List Bytes) (sum : ℕ)
    → All (λ t. f t ≢ 0) terms
    → (n : ℕ) × (terms_score f terms sum ≡ some n)
All-terms_score f [] sum _ = (sum, refl)
All-terms_score f (t ∷ ts) sum (found, rest) =
    let (n, e) = All-terms_score f ts (bit_or sum (f t)) rest in (n, ground (arith, found, e))

nonzero : (m n : ℕ) → m ≢ 0 → m ≤ n → n ≢ 0
nonzero m n given le = ground (arith, given)

-- What a score says of the scores of its terms.
abbrev IsSpread : (Bytes → ℕ) → List Bytes → ℕ → Type 0
IsSpread f ts n = ((n ≢ 0) ↔ All (λ u. f u ≢ 0) ts) × (n ≢ 0 → All (λ u. f u ≤ n) ts)

terms_score-IsSpread :
    (f : Bytes → ℕ) (t : Bytes) (ts : List Bytes)
    → IsSpread f (t ∷ ts) (score_of (terms_score f (t ∷ ts) 0))
terms_score-IsSpread f t ts = elim (Option-cases (terms_score f (t ∷ ts) 0)) [
  | inl e ↦ subst (IsSpread f (t ∷ ts)) (sym (ap score_of e)) (
    (
      (λ h. absurd (h refl)),
      (λ h. absurd (none-some (sym e ∙ (All-terms_score f (t ∷ ts) 0 h).1))),
    ),
    λ h. absurd (h refl),
  )
  | inr (n, e) ↦ subst (IsSpread f (t ∷ ts)) (sym (ap score_of e)) (
      let (_, spread) = terms_score-All f (t ∷ ts) 0 n e in
      let found =
        All-map (λ u. (f u ≢ 0) × (f u ≤ n)) (λ u. f u ≢ 0) (λ u h. h.0) (t ∷ ts) spread in
      (
        ((λ _. found), (λ _. nonzero (f t) n spread.0.0 spread.0.1)),
        λ _. All-map (λ u. (f u ≢ 0) × (f u ≤ n)) (λ u. f u ≤ n) (λ u h. h.1) (t ∷ ts) spread,
      ))
]

search_matches-cache :
    (x : Texts) (c : Component) (t : Bytes)
    → c.token_cache_valid ≡ true
    → cache_matches c.token_cache t ≡ (search_matches x c (some t)).1
unfolding search_matches
search_matches-cache x c t valid = rw (create_token_cache-same x c valid) refl

-- On a component whose token cache is finished, a list of terms has a score above 0 exactly if it is not
-- empty and each of its terms has one, and no term alone scores higher.
search_matches_all-All :
    (x : Texts) (c : Component) (term : Bytes) (terms : List Bytes)
    → c.token_cache_valid ≡ true
    → ((search_matches_all x c (some (term ∷ terms))).1 ≢ 0
        ↔ All (λ t. (search_matches x c (some t)).1 ≢ 0) (term ∷ terms))
      × ((search_matches_all x c (some (term ∷ terms))).1 ≢ 0
          → All
              (λ t.
                (search_matches x c (some t)).1 ≤ (search_matches_all x c (some (term ∷ terms))).1)
              (term ∷ terms))
      × ((search_matches_all x c (some [])).1 ≡ 0)
      × ((search_matches_all x c none).1 ≡ 1)
unfolding search_matches_all
search_matches_all-All x c term terms valid =
    let f = λ (t : Bytes). (search_matches x c (some t)).1 in
    let total =
      search_matches_all-score x (term ∷ terms) c valid
      ∙ ap score_of (
          terms_score-ext (cache_matches c.token_cache) f (λ t. search_matches-cache x c t valid)
            (term ∷ terms) 0) in
    let (found, each) =
      subst (IsSpread f (term ∷ terms)) (sym total) (terms_score-IsSpread f term terms) in
    (found, each, search_matches_all-score x [] c valid, refl)
