-- ===== src/Component/Search/Terms/Indexed.antt =====
-- The token cache that a search works on, and when a term matches nothing.
use Prim.Native.Nat.{bit_or}
use appstream.Base.{
  ℕ, ◌≤◌, ◌<◌, Bool, true, false, Option, none, some, List, [], ◌∷◌, if◌then◌else◌, Bytes,
  str_equal, str_equal_iff, str_has_prefix, ltb, ◌&&◌, ◌≡◌, ◌↔◌, refl, ap, All, arith, Bool-cases,
  Option-cases, inl, inr,
}
use appstream.Base.Bits.{bit_or-ge_right, bit_or-lt}
use appstream.Component.Search.{
  match_mediatype, match_pkgname, match_description, match_summary, match_keyword, match_name,
  match_id, Cache, lookup, Tokens, Texts, add_token, add_tokens,
}
use appstream.Component.Search.Index.{
  IsIndex, IsFlag, add_token-IsIndex, add_each-IsIndex, add_tokens-IsIndex, add_keywords-IsIndex,
}
use appstream.Component.Search.Terms.{
  Data, flags_contain, when_given, add_names, create_token_cache_target, add_donors, Component,
  all_matches, create_token_cache, generate_tokens_for, partial_flags, cache_matches,
  search_matches,
}

when_given-IsIndex :
    (x : Texts) (b : Bool) (o : Option Bytes) (step : Bytes → Tokens → Tokens) (t : Tokens)
    → ((v : Bytes) (t : Tokens) → IsIndex x t.cache → IsIndex x (step v t).cache)
    → IsIndex x t.cache
    → IsIndex x (when_given b o step t).cache
unfolding when_given
when_given-IsIndex x false o step t keeps index = index
when_given-IsIndex x true none step t keeps index = index
when_given-IsIndex x true (some v) step t keeps index = keeps v t index

if-IsIndex :
    (x : Texts) (b : Bool) (t t' : Tokens)
    → IsIndex x t'.cache
    → IsIndex x t.cache
    → IsIndex x (if b then t' else t).cache
if-IsIndex x true t t' index' index = index'
if-IsIndex x false t t' index' index = index

IsFlag-of : (f : ℕ) → (ltb 0 f && ltb f 256) ≡ true → IsFlag f
IsFlag-of f e = ground (arith, e)

add_names-IsIndex :
    (x : Texts) (name_c : Option Bytes) (name : Bytes) (t : Tokens)
    → IsIndex x t.cache
    → IsIndex x (add_names x name_c name t).cache
unfolding add_names
add_names-IsIndex x none name t index =
    add_tokens-IsIndex x name true match_name t (IsFlag-of _ refl) index
add_names-IsIndex x (some c) name t index =
    let once = add_tokens-IsIndex x name true match_name t (IsFlag-of _ refl) index in
    if-IsIndex x (str_equal name c) _ _ once
      (add_tokens-IsIndex x c true match_name _ (IsFlag-of _ refl) once)

target-IsIndex :
    (x : Texts) (cpt donor : Data) (flags : ℕ) (t : Tokens)
    → IsIndex x t.cache
    → IsIndex x (create_token_cache_target x cpt donor flags t).cache
unfolding create_token_cache_target
target-IsIndex x cpt donor flags t index =
    let i1 =
      when_given-IsIndex x (flags_contain flags match_id) donor.id
        (λ v. add_token x v false match_id) t
        (λ v t. add_token-IsIndex x v false match_id t (IsFlag-of _ refl)) index in
    let i2 =
      when_given-IsIndex x (flags_contain flags match_name) cpt.name (add_names x donor.name_c) _
        (λ v t. add_names-IsIndex x donor.name_c v t) i1 in
    let i3 =
      when_given-IsIndex x (flags_contain flags match_summary) cpt.summary
        (λ v. add_tokens x v true match_summary) _
        (λ v t. add_tokens-IsIndex x v true match_summary t (IsFlag-of _ refl)) i2 in
    let i4 =
      when_given-IsIndex x (flags_contain flags match_description) cpt.description
        (λ v. add_tokens x v true match_description) _
        (λ v t. add_tokens-IsIndex x v true match_description t (IsFlag-of _ refl)) i3 in
    let i5 =
      if-IsIndex x (flags_contain flags match_keyword) _ _
        (add_keywords-IsIndex x cpt.keywords _ i4) i4 in
    let i6 =
      if-IsIndex x (flags_contain flags match_mediatype) _ _
        (add_each-IsIndex x donor.mediatypes false match_mediatype _ (IsFlag-of _ refl) i5) i5 in
    if-IsIndex x (flags_contain flags match_pkgname) _ _
      (add_each-IsIndex x donor.pkgnames false match_pkgname _ (IsFlag-of _ refl) i6) i6

donors-IsIndex :
    (x : Texts) (cpt : Data) (ds : List Data) (flags : ℕ) (t : Tokens)
    → IsIndex x t.cache
    → IsIndex x (add_donors x cpt ds flags t).cache
unfolding add_donors
donors-IsIndex x cpt [] flags t index = index
donors-IsIndex x cpt (d ∷ ds) flags t index =
    donors-IsIndex x cpt ds flags (create_token_cache_target x cpt d flags t)
      (target-IsIndex x cpt d flags t index)

all_tokens-IsIndex :
    (x : Texts) (cpt : Data) (ds : List Data) (flags : ℕ) (t : Tokens)
    → IsIndex x t.cache
    → IsIndex x (add_donors x cpt ds flags (create_token_cache_target x cpt cpt flags t)).cache
all_tokens-IsIndex x cpt ds flags t index =
    donors-IsIndex x cpt ds flags _ (target-IsIndex x cpt cpt flags t index)

if-Component :
    (x : Texts) (b : Bool) (c c' : Component)
    → IsIndex x c.token_cache
    → IsIndex x c'.token_cache
    → IsIndex x (if b then c else c').token_cache
if-Component x true c c' index index' = index
if-Component x false c c' index index' = index'

create_token_cache-IsIndex :
    (x : Texts) (c : Component)
    → IsIndex x c.token_cache
    → IsIndex x (create_token_cache x c).token_cache
unfolding create_token_cache
create_token_cache-IsIndex x c index =
    if-Component x c.token_cache_valid c _ index
      (all_tokens-IsIndex x c.own c.addons all_matches _ index)

-- The token cache stays an index, whatever is searched or generated: each key stands once, is the stem of
-- a valid token, and has some of the eight flags.
pub search-IsIndex :
    (x : Texts) (c : Component) (kind : ℕ) (term : Option Bytes)
    → IsIndex x c.token_cache
    → IsIndex x (search_matches x c term).0.token_cache
      × IsIndex x (generate_tokens_for x kind c).0.token_cache
unfolding search_matches generate_tokens_for
search-IsIndex x c kind none index = (index, all_tokens-IsIndex x c.own c.addons kind _ index)
search-IsIndex x c kind (some term) index =
    (create_token_cache-IsIndex x c index, all_tokens-IsIndex x c.own c.addons kind _ index)

-- No key begins with a term.
abbrev pub HasNoMatch : Bytes → Cache → Type 0
HasNoMatch term es = All (λ e. str_has_prefix e.token term ≡ false) es

partial_flags-spread :
    (x : Texts) (es : Cache) (term : Bytes) (r : ℕ)
    → IsIndex x es
    → r < 256
    → (partial_flags es term r < 256)
      × ((partial_flags es term r ≡ 0) ↔ ((r ≡ 0) × HasNoMatch term es))
unfolding partial_flags
partial_flags-spread x [] term r _ few = (few, ground arith)
partial_flags-spread x (e ∷ es) term r (entry, new, index) few =
    elim (Bool-cases (str_has_prefix e.token term)) [
      | inl match ↦ rw match (
          let (within, zero_iff) =
            partial_flags-spread x es term (bit_or r e.flags) index
              (bit_or-lt 8 r e.flags few entry.few_flags) in
          (within, ground (arith, zero_iff, entry.some_flag, bit_or-ge_right r e.flags)))
      | inr other ↦ rw other (
          let (within, zero_iff) = partial_flags-spread x es term r index few in
          (within, ground (arith, zero_iff)))
    ]

str_has_prefix-same : (s : Bytes) → str_has_prefix s s ≡ true
str_has_prefix-same [] = refl
str_has_prefix-same (c ∷ s) = ground (arith, str_has_prefix-same s)

lookup-found :
    (x : Texts) (es : Cache) (term : Bytes) (f : ℕ)
    → IsIndex x es
    → lookup es term ≡ some f
    → (0 < f) × (f < 256) × (HasNoMatch term es → ⊥)
unfolding lookup
lookup-found x [] term f _ e = absurd (cc)
lookup-found x (d ∷ es) term f (entry, new, index) e = ground (
  arith,
  e,
  entry.some_flag,
  entry.few_flags,
  str_equal_iff d.token term,
  str_has_prefix-same term,
  lookup-found x es term f index,
)

cache_matches-spread :
    (x : Texts) (es : Cache) (term : Bytes)
    → IsIndex x es
    → (cache_matches es term ≤ 1020) × ((cache_matches es term ≡ 0) ↔ HasNoMatch term es)
unfolding cache_matches
cache_matches-spread x es term index = elim (Option-cases (lookup es term)) [
  | inl e ↦
      rw (e, cache_matches)
        (let (within, zero_iff) = partial_flags-spread x es term 0 index (omega arith) in
          (omega (arith, within), ground (arith, zero_iff)))
  | inr (f, e) ↦
      rw (e, cache_matches)
        (let (given, few, found) = lookup-found x es term f index e in
          (omega (arith, few), ground (arith, given, found)))
]

if-valid :
    (b : Bool) (c c' : Component)
    → (b ≡ true → c.token_cache_valid ≡ true)
    → c'.token_cache_valid ≡ true
    → (if b then c else c').token_cache_valid ≡ true
if-valid true c c' h h' = h refl
if-valid false c c' h h' = h'

create_token_cache-valid :
    (x : Texts) (c : Component) → (create_token_cache x c).token_cache_valid ≡ true
unfolding create_token_cache
create_token_cache-valid x c = if-valid c.token_cache_valid c _ (λ e. e) refl

pub create_token_cache-same :
    (x : Texts) (c : Component) → c.token_cache_valid ≡ true → create_token_cache x c ≡ c
unfolding create_token_cache
create_token_cache-same x c valid = rw (valid, create_token_cache) refl

create_token_cache_twice :
    (x : Texts) (c : Component)
    → create_token_cache x (create_token_cache x c) ≡ create_token_cache x c
create_token_cache_twice x c =
    create_token_cache-same x (create_token_cache x c) (create_token_cache-valid x c)

-- On a component whose token cache is an index, the score of a term is 0 exactly if no key of the cache
-- begins with the term, and it is never above 1020. A second search for the term changes nothing.
pub search_matches-HasNoMatch :
    (x : Texts) (c : Component) (term : Bytes)
    → IsIndex x c.token_cache
    → ((search_matches x c (some term)).1 ≤ 1020)
      × (((search_matches x c (some term)).1 ≡ 0)
          ↔ HasNoMatch term (search_matches x c (some term)).0.token_cache)
      × (search_matches x (search_matches x c (some term)).0 (some term)
          ≡ search_matches x c (some term))
unfolding search_matches
search_matches-HasNoMatch x c term index =
    let cache = (create_token_cache x c).token_cache in
    let (within, zero_iff) =
      cache_matches-spread x cache term (create_token_cache-IsIndex x c index) in
    (
      within,
      zero_iff,
      ap (λ d. (d, cache_matches d.token_cache term)) (create_token_cache_twice x c),
    )
