-- ===== src/Spdx/Brackets.antt =====
-- src/as-spdx.c: brackets in the tokens of as_spdx_license_tokenize.
use mathlib.Core.Path.{subst}
use appstream.Base.{
  ℕ, Bool, true, false, ◌||◌, Option, none, some, List, [], ◌∷◌, ◌++◌, ◌==◌, if◌then◌else◌, Bytes,
  codes, str_equal, ◌≡◌, ◌⊎◌, inr, refl, arith, All, All-append,
}
use appstream.Spdx.{
  Tables, Helper, strip_plus, plus_license, find_old, old_licenses, emit, join_last, add_literal,
  drop_word, drop_license, tokenize_drop, tokenize_char, tokenize_loop, is_bracket, no_tokens,
  tokenize, is_spdx_license_id, is_spdx_license_exception_id, spdx_license_3to2,
}

abbrev HasNoBracket : Bytes → Type 0
HasNoBracket s = All (λ c. is_bracket c ≡ false) s

abbrev pub IsToken : Bytes → Type 0
IsToken w = (w ≡ codes "(") ⊎ (w ≡ codes ")") ⊎ HasNoBracket w

-- The last token, if there is one, has no bracket.
abbrev LastHasNone : List Bytes → Type 0
LastHasNone [] = Unit
LastHasNone (w ∷ []) = HasNoBracket w
LastHasNone (w ∷ v ∷ ws) = LastHasNone (v ∷ ws)

record IsSound (h : Helper) : Type 0 where
  tokens : All IsToken h.array
  last : h.last_token_literal ≡ true → LastHasNone h.array
  word : HasNoBracket h.collect

LastHasNone-append : (ws : List Bytes) (s : Bytes) → HasNoBracket s → LastHasNone (ws ++ s ∷ [])
LastHasNone-append [] s n = n
LastHasNone-append (w ∷ []) s n = n
LastHasNone-append (w ∷ v ∷ ws) s n = LastHasNone-append (v ∷ ws) s n

join_last-IsToken :
    (ws : List Bytes) (s : Bytes)
    → All IsToken ws
    → LastHasNone ws
    → HasNoBracket s
    → All IsToken (join_last ws s) × LastHasNone (join_last ws s)
unfolding join_last
join_last-IsToken [] s _ _ n = ((inr (inr n), _), n)
join_last-IsToken (w ∷ []) s _ l n =
    let joined = All-append (λ c. is_bracket c ≡ false) w (b' ' ∷ s) l (refl, n) in
    ((inr (inr joined), _), joined)
join_last-IsToken (w ∷ v ∷ []) s (t, ts) l n =
    let joined = join_last-IsToken (v ∷ []) s ts l n in ((t, joined.0), joined.1)
join_last-IsToken (w ∷ v ∷ u ∷ ws) s (t, ts) l n =
    let joined = join_last-IsToken (v ∷ u ∷ ws) s ts l n in ((t, joined.0), joined.1)

-- A property of both branches, each with the test's value.
if_cases {ℓ κ} :
    {A : Type ℓ}
    → (P : A → Type κ) (b : Bool) (x y : A) → (b ≡ true → P x)
    → (b ≡ false → P y)
    → P (if b then x else y)
if_cases P true x y p q = p refl
if_cases P false x y p q = q refl

option_cases {ℓ κ μ} :
    {X : Type μ}
    → {A : Type ℓ} → (P : A → Type κ) (o : Option X) (y : A) (f : X → A) → P y
    → ((x : X) → o ≡ some x → P (f x))
    → P (elim o [ none ↦ y | some x ↦ f x ])
option_cases P none y f p q = p
option_cases P (some x) y f p q = q x refl

strip_plus-cons :
    (c : ℕ) (s r : Bytes) (o : Option Bytes)
    → elim o [ none ↦ none | some r' ↦ some (c ∷ r') ] ≡ some r
    → ((r' : Bytes) → o ≡ some r' → HasNoBracket (c ∷ r'))
    → HasNoBracket r
strip_plus-cons c s r none e n = absurd (cc)
strip_plus-cons c s r (some r') e n = subst HasNoBracket {x = c ∷ r'} (cc) (n r' refl)

strip_plus-HasNoBracket : (s r : Bytes) → strip_plus s ≡ some r → HasNoBracket s → HasNoBracket r
unfolding strip_plus
strip_plus-HasNoBracket [] r e n = absurd (cc)
strip_plus-HasNoBracket (c ∷ []) r e n = ground (arith, e, n)
strip_plus-HasNoBracket (c ∷ d ∷ s) r e n =
    strip_plus-cons c (d ∷ s) r (strip_plus (d ∷ s)) e
      (λ r' e'. (n.0, strip_plus-HasNoBracket (d ∷ s) r' e' n.1))

find_old-HasNoBracket :
    (es : List (Bytes × Bytes)) (s r : Bytes)
    → All (λ e. HasNoBracket e.1) es
    → find_old es s ≡ some r
    → HasNoBracket r
unfolding find_old
find_old-HasNoBracket [] s r _ e = absurd (cc)
find_old-HasNoBracket (x ∷ es) s r (n, ns) e = ground (arith, e, n, find_old-HasNoBracket es s r ns)

emit-IsSound : (ts : List Bytes) (h : Helper) → All IsToken ts → IsSound h → IsSound (emit ts h)
unfolding emit
emit-IsSound ts h all sound = record {
  tokens = All-append IsToken h.array ts sound.tokens all;
  last = λ e. absurd (cc);
  word = _;
}

literal-IsToken :
    (joined : Bool) (ws : List Bytes) (s : Bytes)
    → All IsToken ws
    → (joined ≡ true → LastHasNone ws)
    → HasNoBracket s
    → All IsToken (if joined then join_last ws s else ws ++ s ∷ [])
      × LastHasNone (if joined then join_last ws s else ws ++ s ∷ [])
literal-IsToken true ws s ts l n = join_last-IsToken ws s ts (l refl) n
literal-IsToken false ws s ts l n =
    (All-append IsToken ws (s ∷ []) ts (inr (inr n), _), LastHasNone-append ws s n)

add_literal-IsSound : (h : Helper) → IsSound h → IsSound (add_literal h)
unfolding add_literal
add_literal-IsSound h sound =
    let new =
      literal-IsToken h.last_token_literal h.array h.collect sound.tokens sound.last sound.word in
    record { tokens = new.0; last = λ _. new.1; word = _ }

three_cases :
    (a b c : Bool) {x y z w : Helper}
    → IsSound x
    → IsSound y
    → IsSound z
    → IsSound w
    → IsSound (if a then x else if b then y else if c then z else w)
three_cases true b c x y z w = x
three_cases false true c x y z w = y
three_cases false false true x y z w = z
three_cases false false false x y z w = w

drop_word-IsSound : (h : Helper) → IsSound h → IsSound (drop_word h)
unfolding drop_word
drop_word-IsSound h sound =
    three_cases (str_equal h.collect (codes "and") || str_equal h.collect (codes "AND"))
      (str_equal h.collect (codes "or") || str_equal h.collect (codes "OR"))
      (str_equal h.collect (codes "with") || str_equal h.collect (codes "WITH"))
      (emit-IsSound (codes "&" ∷ []) h (inr (inr (refl, _)), _) sound)
      (emit-IsSound (codes "|" ∷ []) h (inr (inr (refl, _)), _) sound)
      (emit-IsSound (codes "^" ∷ []) h (inr (inr (refl, _)), _) sound) (add_literal-IsSound h sound)

plus_license-of :
    (t : Tables) (o : Option Bytes) (r : Bytes)
    → elim o [ none ↦ none | some r' ↦ if is_spdx_license_id t (some r') then some r' else none ]
      ≡ some r
    → o ≡ some r
plus_license-of t none r e = e
plus_license-of t (some r') r e = ground (arith, e)

plus_license-HasNoBracket :
    (t : Tables) (s r : Bytes) → plus_license t s ≡ some r → HasNoBracket s → HasNoBracket r
unfolding plus_license
plus_license-HasNoBracket t s r e n =
    strip_plus-HasNoBracket s r (plus_license-of t (strip_plus s) r e) n

old_licenses-HasNoBracket : All (λ e. HasNoBracket e.1) old_licenses
old_licenses-HasNoBracket = ground arith

drop_license-IsSound : (t : Tables) (h : Helper) → IsSound h → IsSound (drop_license t h)
unfolding drop_license
drop_license-IsSound t h sound =
    option_cases IsSound (plus_license t h.collect) _ _
      (option_cases IsSound (find_old old_licenses h.collect) _ _ (drop_word-IsSound h sound)
        (λ r e.
          emit-IsSound _ h
            (
              inr (
                  inr (
                    refl,
                    find_old-HasNoBracket old_licenses h.collect r old_licenses-HasNoBracket e,
                  )),
              _,
            )
            sound))
      (λ r e.
        emit-IsSound _ h
          (
            inr (inr (refl, plus_license-HasNoBracket t h.collect r e sound.word)),
            (inr (inr (refl, _)), _),
          )
          sound)

tokenize_drop-IsSound : (t : Tables) (h : Helper) → IsSound h → IsSound (tokenize_drop t h)
unfolding tokenize_drop
tokenize_drop-IsSound t h sound =
    if_cases IsSound (str_equal h.collect []) _ _ (λ _. sound)
      (λ _.
        if_cases IsSound
          (is_spdx_license_id t (some h.collect) || is_spdx_license_exception_id t (some h.collect))
          _ _
          (λ _. emit-IsSound ((b'@' ∷ h.collect) ∷ []) h (inr (inr (refl, sound.word)), _) sound)
          (λ _. drop_license-IsSound t h sound))

bracket-IsToken : (c : ℕ) → is_bracket c ≡ true → IsToken (c ∷ [])
bracket-IsToken c b = ground (arith, b)

tokenize_char-IsSound :
    (t : Tables) (c : ℕ) (h : Helper) → IsSound h → IsSound (tokenize_char t c h)
unfolding tokenize_char
tokenize_char-IsSound t c h sound =
    if_cases IsSound (is_bracket c) _ _
      (λ b. emit-IsSound _ _ (bracket-IsToken c b, _) (tokenize_drop-IsSound t h sound))
      (λ b.
        if_cases IsSound (c == b' ') _ _ (λ _. tokenize_drop-IsSound t h sound)
          (λ _. record {
            tokens = sound.tokens;
            last = sound.last;
            word = All-append (λ c. is_bracket c ≡ false) h.collect (c ∷ []) sound.word (b, _);
          }))

tokenize_loop-IsSound :
    (t : Tables) (s : Bytes) (h : Helper) → IsSound h → IsSound (tokenize_loop t s h)
unfolding tokenize_loop
tokenize_loop-IsSound t [] h sound = tokenize_drop-IsSound t h sound
tokenize_loop-IsSound t (c ∷ s) h sound =
    tokenize_loop-IsSound t s (tokenize_char t c h) (tokenize_char-IsSound t c h sound)

-- Every token of every text is one bracket, or holds no bracket.
pub tokenize-IsToken :
    (t : Tables) (s : Bytes) (ws : List Bytes) → tokenize t (some s) ≡ some ws → All IsToken ws
unfolding tokenize
tokenize-IsToken t s ws e =
    subst (All IsToken) (cc)
      (tokenize_loop-IsSound t (spdx_license_3to2 t s) no_tokens
        (record { tokens = _; last = λ _. _; word = _ })).tokens
