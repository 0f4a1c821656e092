-- ===== src/Spdx/Expression/Accept.antt =====
-- src/as-spdx.c: which expressions as_is_spdx_license_expression accepts.
use appstream.Base.{
  Bool, true, false, some, List, [], ◌∷◌, codes, ◌≡◌, refl, arith, ◌≢◌, str_equal_iff,
}
use appstream.Spdx.{
  Tables, is_spdx_license_id, is_spdx_license_exception_id, tokens_text, detokenize,
  spdx_license_3to2,
}
use appstream.Spdx.RoundTrip.{
  Token, license, license_plus, conjunction, disjunction, extension, open_bracket, close_bracket,
  renders, OperatorsFree, IsExpression, tokenize-detokenize,
}
use appstream.Spdx.Expression.{
  accept_plain, accept_token, accept_tokens, is_spdx_license_expression,
}

-- The first id behind a `with` is an exception, and all others are licenses; the flag says that an
-- exception is still to come.
abbrev IsPlaced : Tables → Bool → List Token → Type 0
IsPlaced t expect [] = Unit
IsPlaced t false (license s ∷ ks) = (is_spdx_license_id t (some s) ≡ true) × IsPlaced t false ks
IsPlaced t true (license s ∷ ks) =
    (is_spdx_license_exception_id t (some s) ≡ true) × IsPlaced t false ks
IsPlaced t expect (license_plus s ∷ ks) =
    (expect ≡ false) × (is_spdx_license_id t (some s) ≡ true) × IsPlaced t false ks
IsPlaced t expect (conjunction ∷ ks) = IsPlaced t expect ks
IsPlaced t expect (disjunction ∷ ks) = IsPlaced t expect ks
IsPlaced t expect (extension ∷ ks) = IsPlaced t true ks
IsPlaced t expect (open_bracket ∷ ks) = IsPlaced t expect ks
IsPlaced t expect (close_bracket ∷ ks) = IsPlaced t expect ks

accept_tokens-renders :
    (t : Tables)
    → is_spdx_license_id t (some (codes "^")) ≡ false
    → (expect : Bool) (ks : List Token) → IsPlaced t expect ks
    → accept_tokens t expect (renders ks) ≡ true
unfolding accept_tokens accept_token accept_plain
accept_tokens-renders t free expect [] _ = refl
accept_tokens-renders t free false (license s ∷ ks) (k, ok) =
    ground (arith, k, accept_tokens-renders t free false ks ok)
accept_tokens-renders t free true (license s ∷ ks) (k, ok) =
    ground (arith, k, accept_tokens-renders t free false ks ok)
accept_tokens-renders t free false (license_plus s ∷ ks) (e, k, ok) =
    ground (arith, k, accept_tokens-renders t free false ks ok)
accept_tokens-renders t free true (license_plus s ∷ ks) (e, k, ok) = absurd (cc)
accept_tokens-renders t free expect (conjunction ∷ ks) ok =
    ground (arith, accept_tokens-renders t free expect ks ok)
accept_tokens-renders t free expect (disjunction ∷ ks) ok =
    ground (arith, accept_tokens-renders t free expect ks ok)
accept_tokens-renders t free expect (extension ∷ ks) ok =
    ground (arith, free, accept_tokens-renders t free true ks ok)
accept_tokens-renders t free expect (open_bracket ∷ ks) ok =
    ground (arith, accept_tokens-renders t free expect ks ok)
accept_tokens-renders t free expect (close_bracket ∷ ks) ok =
    ground (arith, accept_tokens-renders t free expect ks ok)

-- The text of an expression is accepted on these conditions: it is read back as the round trip says
-- (known ids without spaces and brackets, none directly behind another, a plus only where the id with
-- the plus is not itself known, none of AND, OR and WITH an id, nothing that the step from SPDX 3 to 2
-- rewrites), "^" is no license id, the text is not empty, and the first id behind a WITH is an exception
-- without a plus, every other one a license. Nothing is asked of the order or number of the operators
-- and brackets.
pub is_spdx_license_expression-detokenize :
    (t : Tables) (ks : List Token)
    → OperatorsFree t
    → IsExpression t false ks
    → IsPlaced t false ks
    → is_spdx_license_id t (some (codes "^")) ≡ false
    → spdx_license_3to2 t (tokens_text (renders ks)) ≡ tokens_text (renders ks)
    → tokens_text (renders ks) ≢ []
    → is_spdx_license_expression t (detokenize (some (renders ks))) ≡ true
unfolding is_spdx_license_expression detokenize
is_spdx_license_expression-detokenize t ks free ok placed caret same filled =
    rw (tokenize-detokenize t ks free ok same) (
      ground (
        arith,
        accept_tokens-renders t caret false ks placed,
        str_equal_iff (tokens_text (renders ks)) [],
      ))
