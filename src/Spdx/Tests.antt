-- ===== src/Spdx/Tests.antt =====
-- Runs of the license routines, and their theorems at concrete license texts.
use appstream.Base.{
  ℕ, zero, suc, true, false, some, List, [], ◌∷◌, ◌++◌, if◌then◌else◌, Bytes, codes, ◌≡◌, refl, All,
  length, arith,
}
use appstream.Spdx.{
  Tables, has_prefix, is_spdx_license_id, is_spdx_license_exception_id, tokenize, tokenize_loop,
  tokenize_char, tokenize_drop, drop_license, plus_license, strip_plus, find_old, drop_word, emit,
  add_literal, join_last, spdx_license_3to2, tokens_text, token_text, detokenize,
}
use appstream.Spdx.Lists.{license_info_list, exception_info_list}
use appstream.Spdx.RoundTrip.{
  Token, license, license_plus, conjunction, extension, open_bracket, close_bracket, renders,
  IsExpression, tokenize-detokenize,
}
use appstream.Spdx.Brackets.{IsToken, tokenize-IsToken}
use appstream.Spdx.Free.{is_free_license, are_free_tokens, is_free_token, is_free_word}
use appstream.Spdx.Expression.{is_spdx_license_expression}
use appstream.Spdx.Expression.Accept.{is_spdx_license_expression-detokenize}

abbrev behind : ℕ → Bytes → Bytes
behind zero s = s
behind (suc n) [] = []
behind (suc n) (c ∷ s) = behind n s

abbrev replace_first : Bytes → Bytes → Bytes → Bytes
replace_first find new [] = []
replace_first find new (c ∷ s) =
    if has_prefix (c ∷ s) find
    then new ++ behind (length find) (c ∷ s)
    else c ∷ replace_first find new s

-- The lists of the library, with a replacement of the first instance.
abbrev real_tables : Tables
real_tables = record {
  license_ids = license_info_list;
  exception_ids = exception_info_list;
  replace_once = replace_first;
}

-- Apache-2.0+ WITH LLVM-exception AND (MIT)
abbrev compiler_license : List Token
compiler_license =
    license_plus (codes "Apache-2.0")
    ∷ extension
    ∷ license (codes "LLVM-exception")
    ∷ conjunction
    ∷ open_bracket
    ∷ license (codes "MIT")
    ∷ close_bracket
    ∷ []

tokens_of_text :
    tokenize real_tables (some (codes "GPL-2.0-or-later and (my own license or MIT)"))
    ≡ some (
        codes "@GPL-2.0+"
        ∷ codes "&"
        ∷ codes "("
        ∷ codes "my own license"
        ∷ codes "|"
        ∷ codes "@MIT"
        ∷ codes ")"
        ∷ [])
unfolding tokenize tokenize_loop tokenize_char tokenize_drop drop_license plus_license strip_plus
    find_old drop_word emit add_literal join_last spdx_license_3to2 is_spdx_license_id
    is_spdx_license_exception_id
tokens_of_text = refl

compiler_license-IsExpression : IsExpression real_tables false compiler_license
unfolding is_spdx_license_id is_spdx_license_exception_id
compiler_license-IsExpression = ground arith

tokenize-detokenize_example :
    tokenize real_tables (detokenize (some (renders compiler_license)))
    ≡ some (renders compiler_license)
unfolding is_spdx_license_id is_spdx_license_exception_id spdx_license_3to2 tokens_text token_text
tokenize-detokenize_example =
    tokenize-detokenize real_tables compiler_license
      (record { and_free = refl; or_free = refl; with_free = refl }) compiler_license-IsExpression
      refl

tokenize-IsToken_example : All IsToken (codes "(" ∷ codes "@MIT" ∷ codes ")" ∷ [])
unfolding tokenize tokenize_loop tokenize_char tokenize_drop emit spdx_license_3to2
    is_spdx_license_id is_spdx_license_exception_id
tokenize-IsToken_example = tokenize-IsToken real_tables (codes "(MIT)") _ refl

is_spdx_license_expression-detokenize_example :
    is_spdx_license_expression real_tables (detokenize (some (renders compiler_license))) ≡ true
unfolding is_spdx_license_id is_spdx_license_exception_id spdx_license_3to2 tokens_text token_text
is_spdx_license_expression-detokenize_example =
    is_spdx_license_expression-detokenize real_tables compiler_license
      (record { and_free = refl; or_free = refl; with_free = refl }) compiler_license-IsExpression
      (refl, refl, (refl, (refl, _))) refl refl (λ e. cc)

abbrev free_ids : Bytes
free_ids = codes "# free\nMIT\n"

-- An "@" that the text itself has counts as the mark of an id.
marked_id_is_free : is_free_license real_tables free_ids (some (codes "@MIT")) ≡ true
unfolding tokenize tokenize_loop tokenize_char tokenize_drop drop_license plus_license strip_plus
    find_old drop_word emit add_literal join_last spdx_license_3to2 is_spdx_license_id
    is_spdx_license_exception_id is_free_license are_free_tokens is_free_token is_free_word
marked_id_is_free = refl
