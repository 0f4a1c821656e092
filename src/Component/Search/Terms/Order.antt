-- ===== src/Component/Search/Terms/Order.antt =====
-- The order in which a hash table lists its keys, and the order of search terms.
use Prim.Native.Nat.{bit_or}
use mathlib.Core.List.{Perm, Permᴰ}
use mathlib.Core.Path.{subst, ap₂}
use mathlib.Core.Logic.{∥∥₁_elim}
use appstream.Base.{
  ℕ, true, ◌==◌, none, some, List, [], ◌∷◌, if◌then◌else◌, Bytes, str_equal, str_equal_iff, ◌≡◌,
  refl, sym, ◌∙◌, ap, arith,
}
use appstream.Base.Bits.{bit_or_comm, bit_or_assoc}
use appstream.Component.Search.{Entry, Cache, lookup, Texts}
use appstream.Component.Search.Index.{IsIndex}
use appstream.Component.Search.Terms.{Component, partial_flags, cache_matches, search_matches_all}
use appstream.Component.Search.Terms.Score.{
  terms_score, score_of, terms_score-ext, search_matches_all-score,
}

bit_or_swap : (r a b : ℕ) → bit_or (bit_or r a) b ≡ bit_or (bit_or r b) a
bit_or_swap r a b = bit_or_assoc r a b ∙ ap (bit_or r) (bit_or_comm a b) ∙ sym (bit_or_assoc r b a)

partial_flags_swap :
    (d e : Entry) (es : Cache) (term : Bytes) (r : ℕ)
    → partial_flags (d ∷ e ∷ es) term r ≡ partial_flags (e ∷ d ∷ es) term r
unfolding partial_flags
partial_flags_swap d e es term r = ground (arith, bit_or_swap r d.flags e.flags)

partial_flags-Permᴰ :
    {es fs : Cache}
    → Permᴰ es fs
    → (term : Bytes) (r : ℕ) → partial_flags es term r ≡ partial_flags fs term r
unfolding partial_flags
partial_flags-Permᴰ Permᴰ.nil term r = refl
partial_flags-Permᴰ (Permᴰ.cons {a} {b} {l₁} {l₂} e p) term r =
    ap (λ d. partial_flags (d ∷ l₁) term r) e ∙ partial_flags-Permᴰ p term _
partial_flags-Permᴰ (Permᴰ.swap {a} {b} {a'} {b'} {l} e f) term r =
    partial_flags_swap a b l term r ∙ ap₂ (λ d e. partial_flags (d ∷ e ∷ l) term r) f e
partial_flags-Permᴰ (Permᴰ.trans p q) term r =
    partial_flags-Permᴰ p term r ∙ partial_flags-Permᴰ q term r

-- Every key stands once.
abbrev IsDistinct : Cache → Type 0
IsDistinct [] = Unit
IsDistinct (e ∷ es) = (lookup es e.token ≡ none) × IsDistinct es

IsIndex-IsDistinct : (x : Texts) (es : Cache) → IsIndex x es → IsDistinct es
IsIndex-IsDistinct x [] _ = _
IsIndex-IsDistinct x (e ∷ es) (entry, new, index) = (new, IsIndex-IsDistinct x es index)

lookup-none-Permᴰ :
    {es fs : Cache} → Permᴰ es fs → (t : Bytes) → lookup es t ≡ none → lookup fs t ≡ none
unfolding lookup
lookup-none-Permᴰ Permᴰ.nil t n = n
lookup-none-Permᴰ (Permᴰ.cons {a} {b} {l₁} {l₂} e p) t n =
    subst (λ d. lookup (d ∷ l₂) t ≡ none) e (ground (arith, n, lookup-none-Permᴰ p t))
lookup-none-Permᴰ (Permᴰ.swap {a} {b} {a'} {b'} {l} e f) t n =
    ground (arith, n, ap (λ d. d.token) e, ap (λ d. d.token) f)
lookup-none-Permᴰ (Permᴰ.trans p q) t n = lookup-none-Permᴰ q t (lookup-none-Permᴰ p t n)

IsDistinct-Permᴰ : {es fs : Cache} → Permᴰ es fs → IsDistinct es → IsDistinct fs
unfolding lookup
IsDistinct-Permᴰ Permᴰ.nil d = d
IsDistinct-Permᴰ (Permᴰ.cons {a} {b} {l₁} {l₂} e p) (new, d) = (
  subst (λ t. lookup l₂ t.token ≡ none) e (lookup-none-Permᴰ p a.token new),
  IsDistinct-Permᴰ p d,
)
IsDistinct-Permᴰ (Permᴰ.swap {a} {b} {a'} {b'} {l} e f) (new, (new', d)) =
    subst (λ x. IsDistinct (x ∷ b' ∷ l)) f
      (subst (λ y. IsDistinct (b ∷ y ∷ l)) e
        (
          ground (arith, new, new', str_equal_iff a.token b.token, str_equal_iff b.token a.token),
          (ground (arith, new), d),
        ))
IsDistinct-Permᴰ (Permᴰ.trans p q) d = IsDistinct-Permᴰ q (IsDistinct-Permᴰ p d)

lookup-Permᴰ :
    {es fs : Cache} → Permᴰ es fs → IsDistinct es → (t : Bytes) → lookup es t ≡ lookup fs t
unfolding lookup
lookup-Permᴰ Permᴰ.nil d t = refl
lookup-Permᴰ (Permᴰ.cons {a} {b} {l₁} {l₂} e p) (new, d) t =
    ap (λ x. lookup (x ∷ l₁) t) e
    ∙ ap (λ o. if str_equal b.token t then some b.flags else o) (lookup-Permᴰ p d t)
lookup-Permᴰ (Permᴰ.swap {a} {b} {a'} {b'} {l} e f) (new, (new', d)) t =
    swapped ∙ ap₂ (λ x y. lookup (x ∷ y ∷ l) t) f e
  where
    swapped : lookup (a ∷ b ∷ l) t ≡ lookup (b ∷ a ∷ l) t
    swapped = ground (
      arith,
      new,
      str_equal_iff b.token a.token,
      str_equal_iff a.token t,
      str_equal_iff b.token t,
    )
lookup-Permᴰ (Permᴰ.trans p q) d t = lookup-Permᴰ p d t ∙ lookup-Permᴰ q (IsDistinct-Permᴰ p d) t

cache_matches-Permᴰ :
    {es fs : Cache}
    → Permᴰ es fs
    → IsDistinct es
    → (t : Bytes) → cache_matches es t ≡ cache_matches fs t
unfolding cache_matches
cache_matches-Permᴰ p d t = ground (arith, lookup-Permᴰ p d t, partial_flags-Permᴰ p t 0)

terms_score_swap :
    (f : Bytes → ℕ) (a b : Bytes) (terms : List Bytes) (sum : ℕ)
    → terms_score f (a ∷ b ∷ terms) sum ≡ terms_score f (b ∷ a ∷ terms) sum
terms_score_swap f a b terms sum = ground (arith, bit_or_swap sum (f a) (f b))

terms_score-Permᴰ :
    {ts us : List Bytes}
    → Permᴰ ts us
    → (f : Bytes → ℕ) (sum : ℕ) → terms_score f ts sum ≡ terms_score f us sum
terms_score-Permᴰ Permᴰ.nil f sum = refl
terms_score-Permᴰ (Permᴰ.cons {a} {b} {l₁} {l₂} e p) f sum =
    ap (λ t. terms_score f (t ∷ l₁) sum) e
    ∙ ap (λ o. if f b == 0 then none else o) (terms_score-Permᴰ p f (bit_or sum (f b)))
terms_score-Permᴰ (Permᴰ.swap {a} {b} {a'} {b'} {l} e e') f sum =
    terms_score_swap f a b l sum ∙ ap₂ (λ t u. terms_score f (t ∷ u ∷ l) sum) e' e
terms_score-Permᴰ (Permᴰ.trans p q) f sum = terms_score-Permᴰ p f sum ∙ terms_score-Permᴰ q f sum

ℕ-set : IsSet ℕ
ℕ-set = hlevel

-- On a component whose token cache is finished and an index, the score of a list of terms depends
-- neither on the order in which the hash table lists its keys nor on the order of the terms.
pub search_matches_all-Perm :
    (x : Texts) (c : Component) {es : Cache} {ts us : List Bytes}
    → c.token_cache_valid ≡ true
    → IsIndex x c.token_cache
    → Perm c.token_cache es
    → Perm ts us
    → (search_matches_all x c (some ts)).1
      ≡ (search_matches_all x (record c { token_cache = es }) (some us)).1
search_matches_all-Perm x c {es} {ts} {us} valid index keys terms = ∥∥₁_elim keys (ℕ-set _ _) (λ p.
    ∥∥₁_elim terms (ℕ-set _ _) (λ q.
      let distinct = IsIndex-IsDistinct x c.token_cache index in
      search_matches_all-score x ts c valid
      ∙ ap score_of (
          terms_score-Permᴰ q (cache_matches c.token_cache) 0
          ∙ terms_score-ext (cache_matches c.token_cache) (cache_matches es)
              (cache_matches-Permᴰ p distinct) us 0)
      ∙ sym (search_matches_all-score x us (record c { token_cache = es }) valid)))
