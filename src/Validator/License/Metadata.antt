-- ===== src/Validator/License/Metadata.antt =====
-- src/as-validator.c and src/as-spdx.c: two checks of the license of metadata, and the check of the
-- project license.
use appstream.Base.{
  ℕ, ◌≤◌, true, some, List, [], ◌∷◌, Bytes, ◌≡◌, ◌↔◌, ap, refl, ◌∙◌, arith, All, Option-cases, inl,
  inr, length,
}
use appstream.Spdx.{Tables, tokenize, is_spdx_license_id}
use appstream.Spdx.Expression.{
  is_metadata_license, is_metadata_tokens, any_bracket, count_tokens, count_token, counts_verdict,
  Counts, no_counts,
}
use appstream.Validator.{Node}
use appstream.Validator.License.{
  is_complex, metadata_token, metadata_loop, is_fine, Found, metadata_license_issues, is_passed,
  license_loop, issue_at,
}

is_complex-any_bracket : (ss : List Bytes) → is_complex ss ≡ any_bracket ss
unfolding is_complex any_bracket
is_complex-any_bracket [] = refl
is_complex-any_bracket (s ∷ ss) = ground (arith, is_complex-any_bracket ss)

-- The same numbers, in the record of the other loop.
abbrev counts_of : Found → Counts
counts_of (all, bad, good) = record {
  requires_all_tokens = all;
  license_bad_cnt = bad;
  license_good_cnt = good;
}

metadata_token-count_token :
    (s : Bytes) (f : Found) → counts_of (metadata_token s f) ≡ count_token s (counts_of f)
unfolding metadata_token count_token
metadata_token-count_token s f = ground arith

metadata_loop-count_tokens :
    (ss : List Bytes) (f : Found) → counts_of (metadata_loop ss f) ≡ count_tokens ss (counts_of f)
unfolding metadata_loop count_tokens
metadata_loop-count_tokens [] f = refl
metadata_loop-count_tokens (s ∷ ss) f =
    metadata_loop-count_tokens ss (metadata_token s f)
    ∙ ap (count_tokens ss) (metadata_token-count_token s f)

verdict :
    (ss : List Bytes)
    → is_fine (metadata_loop ss (true, 0, 0)) ≡ counts_verdict (count_tokens ss no_counts)
unfolding is_fine counts_verdict
verdict ss = ap counts_verdict (metadata_loop-count_tokens ss (true, 0, 0))

-- The validator finds no fault with the license of metadata exactly if
-- `as_license_is_metadata_license` says that it is one.
pub metadata_license_issues-is_metadata_license :
    (t : Tables) (n : Node)
    → (metadata_license_issues t n ≡ []) ↔ (is_metadata_license t n.value_raw ≡ true)
unfolding metadata_license_issues is_metadata_license is_metadata_tokens issue_at
metadata_license_issues-is_metadata_license t n = elim (Option-cases (tokenize t n.value_raw)) [
  | inl e ↦ rw (e, metadata_license_issues, is_metadata_license) (ground arith)
  | inr (ss, e) ↦
      rw (e, metadata_license_issues, is_metadata_license)
        (ground (arith, is_complex-any_bracket ss, verdict ss))
]

abbrev ArePassed : Tables → (Bytes → Bytes) → List Bytes → Type 0
ArePassed t strip ss = All (λ s. is_passed t (strip s) ≡ true) ss

license_loop-ArePassed :
    (t : Tables) (strip : Bytes → Bytes) (n : Node) (ss : List Bytes)
    → (length (license_loop t strip n ss) ≤ 1)
      × ((license_loop t strip n ss ≡ []) ↔ ArePassed t strip ss)
unfolding license_loop issue_at
license_loop-ArePassed t strip n [] = ground arith
license_loop-ArePassed t strip n (s ∷ ss) = ground (arith, license_loop-ArePassed t strip n ss)

-- A byte that stands ahead of the id of a license is skipped, whatever it is.
extra_byte-is_passed :
    (t : Tables) (c : ℕ) (s : Bytes)
    → is_spdx_license_id t (some s) ≡ true
    → is_passed t (c ∷ s) ≡ true
unfolding is_passed
extra_byte-is_passed t c s known = ground (arith, known)
