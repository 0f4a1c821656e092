-- ===== src/Component/Search/Index.antt =====
-- What adding tokens does to the token cache.
use Prim.Native.Nat.{bit_or}
use appstream.Base.{
  ℕ, ◌<◌, Bool, true, false, ◌&&◌, Option, none, some, List, [], ◌∷◌, ◌++◌, if◌then◌else◌, Bytes,
  str_equal, str_equal_iff, str_split, has_char, ltb, ◌≡◌, refl, arith, Bool-cases, Option-cases,
  inl, inr,
}
use appstream.Base.Bits.{zero-bit_or, bit_or-ge_left, bit_or-lt}
use appstream.Component.Search.{
  match_keyword, search_token_valid, Entry, Cache, lookup, add_flags, Tokens, add_out, add_stemmed,
  Texts, add_token_helper, add_pieces, add_token, value_tokenize, add_each, add_tokens,
  add_keywords,
}

-- A token that the stemmer makes of a valid one, with flags of eight bits.
abbrev IsStemmed : Texts → Bytes → Type 0
IsStemmed x token =
    (value : Bytes) × (search_token_valid value ≡ true) × (x.stem value ≡ some token)

pub record IsEntry (x : Texts) (e : Entry) : Type 0 where
  pub stemmed : IsStemmed x e.token
  pub some_flag : 0 < e.flags
  pub few_flags : e.flags < 256

-- No key of a cache is a token.
abbrev IsNew : Bytes → Cache → Type 0
IsNew token es = lookup es token ≡ none

-- Every key stands once, and every entry is sound.
abbrev pub IsIndex : Texts → Cache → Type 0
IsIndex x [] = Unit
IsIndex x (e ∷ es) = IsEntry x e × (IsNew e.token es) × IsIndex x es

lookup-append :
    (es : Cache) (e : Entry) (token : Bytes)
    → lookup (es ++ e ∷ []) token ≡ elim (lookup es token) [
      | some f ↦ some f
      | none ↦ if str_equal e.token token then some e.flags else none
    ]
unfolding lookup
lookup-append [] e token = refl
lookup-append (d ∷ es) e token = ground (arith, lookup-append es e token)

lookup-add_flags :
    (es : Cache) (token other : Bytes) (flag : ℕ)
    → lookup (add_flags token flag es) other ≡ elim (lookup es other) [
      | none ↦ none
      | some f ↦ some (if str_equal token other then bit_or f flag else f)
    ]
unfolding lookup add_flags
lookup-add_flags [] token other flag = refl
lookup-add_flags (e ∷ es) token other flag = ground (
  arith,
  lookup-add_flags es token other flag,
  str_equal_iff e.token token,
  str_equal_iff e.token other,
  str_equal_iff token other,
)

IsNew-add_flags :
    (es : Cache) (token other : Bytes) (flag : ℕ)
    → IsNew other es
    → IsNew other (add_flags token flag es)
IsNew-add_flags es token other flag new = ground (arith, new, lookup-add_flags es token other flag)

add_flags-IsIndex :
    (x : Texts) (es : Cache) (token : Bytes) (flag : ℕ)
    → flag < 256
    → IsIndex x es
    → IsIndex x (add_flags token flag es)
unfolding add_flags
add_flags-IsIndex x [] token flag few _ = _
add_flags-IsIndex x (e ∷ es) token flag few (entry, new, index) =
    elim (Bool-cases (str_equal e.token token)) [
      | inl same ↦ rw same (
        record {
          stemmed = entry.stemmed;
          some_flag = omega (arith, entry.some_flag, bit_or-ge_left e.flags flag);
          few_flags = omega (arith, bit_or-lt 8 e.flags flag entry.few_flags few);
        },
        new,
        index,
      )
      | inr other ↦ rw other (
        entry,
        IsNew-add_flags es token e.token flag new,
        add_flags-IsIndex x es token flag few index,
      )
    ]

append-IsIndex :
    (x : Texts) (es : Cache) (e : Entry)
    → IsNew e.token es
    → IsEntry x e
    → IsIndex x es
    → IsIndex x (es ++ e ∷ [])
unfolding lookup
append-IsIndex x [] e new entry _ = (entry, refl, _)
append-IsIndex x (d ∷ es) e new entry (first, first_new, index) = (
  first,
  ground (
    arith,
    new,
    first_new,
    lookup-append es e d.token,
    str_equal_iff d.token e.token,
    str_equal_iff e.token d.token,
  ),
  append-IsIndex x es e (ground (arith, new)) entry index,
)

add_stemmed-IsIndex :
    (x : Texts) (token : Bytes) (flag : ℕ) (t : Tokens)
    → IsStemmed x token
    → 0 < flag
    → flag < 256
    → IsIndex x t.cache
    → IsIndex x (add_stemmed token flag t).cache
unfolding add_stemmed
add_stemmed-IsIndex x token flag t stemmed given few index =
    elim (Option-cases (lookup t.cache token)) [
      | inl e ↦
          rw (e, add_stemmed)
            (append-IsIndex x t.cache (record { token = token; flags = flag }) e
              (record { stemmed = stemmed; some_flag = given; few_flags = few }) index)
      | inr (old, e) ↦ rw (e, add_stemmed) (add_flags-IsIndex x t.cache token flag few index)
    ]

-- The flags that the code adds tokens with.
abbrev pub IsFlag : ℕ → Type 0
IsFlag flag = (0 < flag) × (flag < 256)

-- The second test of the length never fails.
add_token_helper-valid :
    (x : Texts) (value : Bytes) (flag : ℕ) (t : Tokens)
    → search_token_valid value ≡ true
    → add_token_helper x value flag t
      ≡ elim (x.stem value) [ none ↦ t | some token ↦ add_stemmed token flag t ]
unfolding add_token_helper search_token_valid
add_token_helper-valid x value flag t valid = ground (arith, valid)

add_token_helper-invalid :
    (x : Texts) (value : Bytes) (flag : ℕ) (t : Tokens)
    → search_token_valid value ≡ false
    → add_token_helper x value flag t ≡ t
unfolding add_token_helper
add_token_helper-invalid x value flag t invalid = rw invalid refl

add_token_helper-IsIndex :
    (x : Texts) (value : Bytes) (flag : ℕ) (t : Tokens)
    → IsFlag flag
    → IsIndex x t.cache
    → IsIndex x (add_token_helper x value flag t).cache
add_token_helper-IsIndex x value flag t (given, few) index =
    elim (Bool-cases (search_token_valid value)) [
      | inr invalid ↦ rw (add_token_helper-invalid x value flag t invalid) index
      | inl valid ↦
          rw (add_token_helper-valid x value flag t valid) (elim (Option-cases (x.stem value)) [
            | inl e ↦ rw e index
            | inr (token, e) ↦
                rw e (add_stemmed-IsIndex x token flag t (value, valid, e) given few index)
          ])
    ]

add_pieces-IsIndex :
    (x : Texts) (vs : List Bytes) (flag : ℕ) (t : Tokens)
    → IsFlag flag
    → IsIndex x t.cache
    → IsIndex x (add_pieces x vs flag t).cache
unfolding add_pieces
add_pieces-IsIndex x [] flag t f index = index
add_pieces-IsIndex x (v ∷ vs) flag t f index =
    add_pieces-IsIndex x vs flag (add_token_helper x v flag t) f
      (add_token_helper-IsIndex x v flag t f index)

pub add_token-IsIndex :
    (x : Texts) (value : Bytes) (allow_split : Bool) (flag : ℕ) (t : Tokens)
    → IsFlag flag
    → IsIndex x t.cache
    → IsIndex x (add_token x value allow_split flag t).cache
unfolding add_token
add_token-IsIndex x value allow_split flag t f index =
    add_token_helper-IsIndex x value flag _ f
      (elim (Bool-cases (allow_split && has_char value b'-')) [
        | inl split ↦ rw split (add_pieces-IsIndex x (str_split b'-' value) flag t f index)
        | inr whole ↦ rw whole index
      ])

pub add_each-IsIndex :
    (x : Texts) (vs : List Bytes) (allow_split : Bool) (flag : ℕ) (t : Tokens)
    → IsFlag flag
    → IsIndex x t.cache
    → IsIndex x (add_each x vs allow_split flag t).cache
unfolding add_each
add_each-IsIndex x [] allow_split flag t f index = index
add_each-IsIndex x (v ∷ vs) allow_split flag t f index =
    add_each-IsIndex x vs allow_split flag (add_token x v allow_split flag t) f
      (add_token-IsIndex x v allow_split flag t f index)

pub add_tokens-IsIndex :
    (x : Texts) (value : Bytes) (allow_split : Bool) (flag : ℕ) (t : Tokens)
    → IsFlag flag
    → IsIndex x t.cache
    → IsIndex x (add_tokens x value allow_split flag t).cache
unfolding add_tokens
add_tokens-IsIndex x value allow_split flag t f index =
    let values = value_tokenize x value in
    add_each-IsIndex x values.1 allow_split flag _ f
      (add_each-IsIndex x values.0 allow_split flag t f index)

pub add_keywords-IsIndex :
    (x : Texts) (vs : List Bytes) (t : Tokens)
    → IsIndex x t.cache
    → IsIndex x (add_keywords x vs t).cache
unfolding add_keywords
add_keywords-IsIndex x [] t index = index
add_keywords-IsIndex x (v ∷ vs) t index =
    add_keywords-IsIndex x vs (add_tokens x v false match_keyword t)
      (add_tokens-IsIndex x v false match_keyword t (omega arith, omega arith) index)

-- The flags of a token, 0 for one that is not in the cache.
abbrev flags_of : Option ℕ → ℕ
flags_of none = 0
flags_of (some f) = f

add_stemmed-lookup :
    (token other : Bytes) (flag : ℕ) (t : Tokens)
    → lookup (add_stemmed token flag t).cache other ≡ (
        if str_equal token other
        then some (bit_or (flags_of (lookup t.cache other)) flag)
        else lookup t.cache other)
unfolding add_stemmed
add_stemmed-lookup token other flag t = ground (
  arith,
  str_equal_iff token other,
  zero-bit_or flag,
  lookup-add_flags t.cache token other flag,
  lookup-append t.cache (record { token = token; flags = flag }) other,
)

add_stemmed-out :
    (token : Bytes) (flag : ℕ) (t : Tokens)
    → 0 < flag
    → (add_stemmed token flag t).tokens_out ≡ (
        if ltb (flags_of (lookup t.cache token)) flag
        then add_out token t.tokens_out
        else t.tokens_out)
unfolding add_stemmed
add_stemmed-out token flag t given = ground arith

-- Adding a valid token with a flag sets that flag for its stem and changes nothing else in the cache;
-- the stem goes to the output array exactly if the flag is above all the flags it had.
add_token_helper-lookup :
    (x : Texts) (value token other : Bytes) (flag : ℕ) (t : Tokens)
    → 0 < flag
    → search_token_valid value ≡ true
    → x.stem value ≡ some token
    → (lookup (add_token_helper x value flag t).cache other ≡ (
        if str_equal token other
        then some (bit_or (flags_of (lookup t.cache other)) flag)
        else lookup t.cache other))
      × ((add_token_helper x value flag t).tokens_out ≡ (
          if ltb (flags_of (lookup t.cache token)) flag
          then add_out token t.tokens_out
          else t.tokens_out))
add_token_helper-lookup x value token other flag t given valid stem =
    rw (add_token_helper-valid x value flag t valid)
      (rw stem (add_stemmed-lookup token other flag t, add_stemmed-out token flag t given))
