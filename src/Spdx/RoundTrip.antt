-- ===== src/Spdx/RoundTrip.antt =====
-- src/as-spdx.c: as_spdx_license_tokenize reads back what as_spdx_license_detokenize writes.
use appstream.Base.{
  Bool, true, false, ◌||◌, some, List, [], ◌∷◌, ◌++◌, ◌==◌, Bytes, codes, ◌≡◌, refl, sym, ap, ◌∙◌,
  All, append-nil, append_assoc, arith,
}
use appstream.Spdx.{
  Tables, Helper, is_spdx_license_id, is_spdx_license_exception_id, strip_plus, plus_license,
  find_old, emit, drop_word, drop_license, tokenize_drop, tokenize_char, tokenize_loop, is_bracket,
  no_tokens, tokenize, token_text, tokens_text, detokenize, spdx_license_3to2,
}

-- The parts of a license expression.
pub data Token : Type 0 where
  license license_plus : Bytes → Token
  conjunction disjunction extension open_bracket close_bracket : Token

-- The strings that stand for a part.
abbrev render : Token → List Bytes
render (license s) = (b'@' ∷ s) ∷ []
render (license_plus s) = (b'@' ∷ s) ∷ codes "+" ∷ []
render conjunction = codes "&" ∷ []
render disjunction = codes "|" ∷ []
render extension = codes "^" ∷ []
render open_bracket = codes "(" ∷ []
render close_bracket = codes ")" ∷ []

abbrev pub renders : List Token → List Bytes
renders [] = []
renders (k ∷ ks) = render k ++ renders ks

-- A license or an exception of the tables.
abbrev pub is_known : Tables → Bytes → Bool
is_known t s = is_spdx_license_id t (some s) || is_spdx_license_exception_id t (some s)

-- No space and no bracket.
abbrev IsSolid : Bytes → Type 0
IsSolid s = All (λ c. (is_bracket c ≡ false) × ((c == b' ') ≡ false)) s

-- The words of the operators are no ids.
pub record OperatorsFree (t : Tables) : Type 0 where
  pub and_free : is_known t (codes "AND") ≡ false
  pub or_free : is_known t (codes "OR") ≡ false
  pub with_free : is_known t (codes "WITH") ≡ false

-- Known ids, and no id directly behind another; the flag says that an id stands just ahead.
abbrev pub IsExpression : Tables → Bool → List Token → Type 0
IsExpression t after [] = Unit
IsExpression t after (license s ∷ ks) =
    (after ≡ false) × (is_known t s ≡ true) × IsSolid s × IsExpression t true ks
IsExpression t after (license_plus s ∷ ks) =
    (after ≡ false)
    × (is_spdx_license_id t (some s) ≡ true)
    × (is_known t (s ++ codes "+") ≡ false)
    × IsSolid s
    × IsExpression t true ks
IsExpression t after (conjunction ∷ ks) = IsExpression t false ks
IsExpression t after (disjunction ∷ ks) = IsExpression t false ks
IsExpression t after (extension ∷ ks) = IsExpression t false ks
IsExpression t after (open_bracket ∷ ks) = IsExpression t false ks
IsExpression t after (close_bracket ∷ ks) = IsExpression t false ks

-- A helper between two words.
abbrev pub clean : List Bytes → Helper
clean ws = record { last_token_literal = false; array = ws; collect = [] }

tokenize_loop-word :
    (t : Tables) (w s : Bytes)
    → IsSolid w
    → (h : Helper)
    → tokenize_loop t (w ++ s) h ≡ tokenize_loop t s (record h { collect = h.collect ++ w })
unfolding tokenize_loop tokenize_char
tokenize_loop-word t [] s _ h =
    ap (λ c. tokenize_loop t s (record h { collect = c })) (sym (append-nil h.collect))
tokenize_loop-word t (c ∷ w) s ((b, p), solid) h = ground (
  arith,
  b,
  p,
  tokenize_loop-word t w s solid (record h { collect = h.collect ++ c ∷ [] }),
  append_assoc h.collect (c ∷ []) w,
)

strip_plus-append : (s : Bytes) → strip_plus (s ++ codes "+") ≡ some s
unfolding strip_plus
strip_plus-append [] = refl
strip_plus-append (c ∷ []) = refl
strip_plus-append (c ∷ d ∷ s) = ground (arith, strip_plus-append (d ∷ s))

refute_empty : (t : Tables) → ¬ (is_spdx_license_id t (some []) ≡ true)
unfolding is_spdx_license_id
refute_empty t k = cc

drop_known :
    (t : Tables) (s : Bytes) (ws : List Bytes)
    → is_known t s ≡ true
    → tokenize_drop t (record (clean ws) { collect = s }) ≡ clean (ws ++ (b'@' ∷ s) ∷ [])
unfolding tokenize_drop emit is_spdx_license_id is_spdx_license_exception_id
drop_known t [] ws k = absurd (cc)
drop_known t (c ∷ s) ws k = ground (arith, k)

plus_license-append :
    (t : Tables) (s : Bytes)
    → is_spdx_license_id t (some s) ≡ true
    → plus_license t (s ++ codes "+") ≡ some s
unfolding plus_license
plus_license-append t s k = ground (arith, strip_plus-append s)

drop_plus :
    (t : Tables) (s : Bytes) (ws : List Bytes)
    → is_spdx_license_id t (some s) ≡ true
    → is_known t (s ++ codes "+") ≡ false
    → tokenize_drop t (record (clean ws) { collect = s ++ codes "+" })
      ≡ clean (ws ++ (b'@' ∷ s) ∷ codes "+" ∷ [])
unfolding tokenize_drop drop_license plus_license emit strip_plus
drop_plus t [] ws k f = absurd (refute_empty t k)
drop_plus t (c ∷ s) ws k f = rw f (rw (strip_plus-append (c ∷ s)) (rw k))

drop_and :
    (t : Tables)
    → OperatorsFree t
    → (ws : List Bytes)
    → tokenize_drop t (record (clean ws) { collect = codes "AND" }) ≡ clean (ws ++ codes "&" ∷ [])
unfolding tokenize_drop drop_license plus_license strip_plus find_old drop_word emit
drop_and t free ws = rw free.and_free

drop_or :
    (t : Tables)
    → OperatorsFree t
    → (ws : List Bytes)
    → tokenize_drop t (record (clean ws) { collect = codes "OR" }) ≡ clean (ws ++ codes "|" ∷ [])
unfolding tokenize_drop drop_license plus_license strip_plus find_old drop_word emit
drop_or t free ws = rw free.or_free

drop_with :
    (t : Tables)
    → OperatorsFree t
    → (ws : List Bytes)
    → tokenize_drop t (record (clean ws) { collect = codes "WITH" }) ≡ clean (ws ++ codes "^" ∷ [])
unfolding tokenize_drop drop_license plus_license strip_plus find_old drop_word emit
drop_with t free ws = rw free.with_free

-- Behind what was read, the rest of an expression is read as its tokens.
tokenize_loop-renders :
    (t : Tables)
    → OperatorsFree t
    → (after : Bool) (ks : List Token) → IsExpression t after ks
    → (h : Helper) (ws : List Bytes) → tokenize_drop t h ≡ clean ws
    → (after ≡ false → h ≡ clean ws)
    → (tokenize_loop t (tokens_text (renders ks)) h).array ≡ ws ++ renders ks
unfolding tokenize_loop tokens_text token_text tokenize_char emit tokenize_drop
tokenize_loop-renders t free after [] _ h ws d e = rw d (sym (append-nil ws))
tokenize_loop-renders t free after (license s ∷ ks) (a, k, solid, ok) h ws d e = rw (e a) (
    rw (tokenize_loop-word t s (tokens_text (renders ks)) solid (clean ws)) (
      tokenize_loop-renders t free true ks ok (record (clean ws) { collect = s })
        (ws ++ (b'@' ∷ s) ∷ []) (drop_known t s ws k) (λ x. absurd (cc))
      ∙ append_assoc ws _ _))
tokenize_loop-renders t free after (license_plus s ∷ ks) (a, k, f, solid, ok) h ws d e = rw (e a) (
    rw (tokenize_loop-word t s (codes "+" ++ tokens_text (renders ks)) solid (clean ws)) (
      tokenize_loop-renders t free true ks ok (record (clean ws) { collect = s ++ codes "+" })
        (ws ++ (b'@' ∷ s) ∷ codes "+" ∷ []) (drop_plus t s ws k f) (λ x. absurd (cc))
      ∙ append_assoc ws _ _))
tokenize_loop-renders t free after (conjunction ∷ ks) ok h ws d e = rw d (
    rw (drop_and t free ws) (
      tokenize_loop-renders t free false ks ok (clean _) (ws ++ codes "&" ∷ []) refl (λ _. refl)
      ∙ append_assoc ws _ _))
tokenize_loop-renders t free after (disjunction ∷ ks) ok h ws d e = rw d (
    rw (drop_or t free ws) (
      tokenize_loop-renders t free false ks ok (clean _) (ws ++ codes "|" ∷ []) refl (λ _. refl)
      ∙ append_assoc ws _ _))
tokenize_loop-renders t free after (extension ∷ ks) ok h ws d e = rw d (
    rw (drop_with t free ws) (
      tokenize_loop-renders t free false ks ok (clean _) (ws ++ codes "^" ∷ []) refl (λ _. refl)
      ∙ append_assoc ws _ _))
tokenize_loop-renders t free after (open_bracket ∷ ks) ok h ws d e = rw d (
    tokenize_loop-renders t free false ks ok (clean _) (ws ++ codes "(" ∷ []) refl (λ _. refl)
    ∙ append_assoc ws _ _)
tokenize_loop-renders t free after (close_bracket ∷ ks) ok h ws d e = rw d (
    tokenize_loop-renders t free false ks ok (clean _) (ws ++ codes ")" ∷ []) refl (λ _. refl)
    ∙ append_assoc ws _ _)

-- An expression is read back from its text token by token, on these conditions. It is made of
-- operators, brackets, known ids of licenses and exceptions, and license ids with a plus. An id has no
-- space and no bracket in it, and does not stand directly behind another one. A plus stands only where
-- the id with the plus is not itself a known id, as it is for "GPL-3.0+", which is then one token. None
-- of AND, OR and WITH is a known id, and the text has nothing that the step from SPDX 3 to 2 rewrites.
pub tokenize-detokenize :
    (t : Tables) (ks : List Token)
    → OperatorsFree t
    → IsExpression t false ks
    → spdx_license_3to2 t (tokens_text (renders ks)) ≡ tokens_text (renders ks)
    → tokenize t (detokenize (some (renders ks))) ≡ some (renders ks)
unfolding tokenize detokenize tokenize_drop
tokenize-detokenize t ks free ok same =
    rw same (ap some (tokenize_loop-renders t free false ks ok no_tokens [] refl (λ _. refl)))
