-- ===== src/Spdx/Expression/Metadata.antt =====
-- src/as-spdx.c: what as_license_is_metadata_license decides.
use appstream.Base.{
  Bool, true, false, not, ◌&&◌, ◌||◌, Option, some, List, [], ◌∷◌, ◌++◌, Bytes, codes, str_equal,
  ◌≡◌, ◌↔◌, refl, arith, All, ltb, str_equal_iff,
}
use appstream.Spdx.{Tables, tokenize}
use appstream.Spdx.Expression.{
  is_metadata_license_id, Counts, count_token, count_tokens, no_counts, any_bracket, counts_verdict,
  is_metadata_tokens, is_metadata_license,
}

-- No token is the operator.
abbrev pub Lacks : Bytes → List Bytes → Type 0
Lacks op ws = All (λ w. str_equal w op ≡ false) ws

abbrev is_operator : Bytes → Bool
is_operator w = str_equal w (codes "+") || str_equal w (codes "|") || str_equal w (codes "&")

-- Some token is a license that is fine for metadata.
abbrev any_good : List Bytes → Bool
any_good [] = false
any_good (w ∷ ws) = not (is_operator w) && is_metadata_license_id w || any_good ws

plus_is_fine : (w : Bytes) → str_equal w (codes "+") ≡ true → is_metadata_license_id w ≡ true
unfolding is_metadata_license_id
plus_is_fine w e = rw ((str_equal_iff w (codes "+")).0 e)

and_is_fine : (w : Bytes) → str_equal w (codes "&") ≡ true → is_metadata_license_id w ≡ true
unfolding is_metadata_license_id
and_is_fine w e = rw ((str_equal_iff w (codes "&")).0 e)

count_tokens-requires :
    (ws : List Bytes) (n : Counts)
    → Lacks (codes "|") ws
    → n.requires_all_tokens ≡ true
    → ((count_tokens ws n).requires_all_tokens ≡ true)
      × (((count_tokens ws n).license_bad_cnt ≡ 0)
          ↔ ((n.license_bad_cnt ≡ 0) × All (λ w. is_metadata_license_id w ≡ true) ws))
unfolding count_tokens count_token
count_tokens-requires [] n _ r = ground arith
count_tokens-requires (w ∷ ws) n (l, ls) r =
    ground
      (arith, l, r, plus_is_fine w, and_is_fine w, count_tokens-requires ws (count_token w n) ls)

count_tokens-any :
    (ws : List Bytes) (n : Counts)
    → Lacks (codes "&") ws
    → n.requires_all_tokens ≡ false
    → ((count_tokens ws n).requires_all_tokens ≡ false)
      × (ltb 0 (count_tokens ws n).license_good_cnt ≡ (ltb 0 n.license_good_cnt || any_good ws))
unfolding count_tokens count_token
count_tokens-any [] n _ r = ground arith
count_tokens-any (w ∷ ws) n (l, ls) r =
    ground (arith, l, r, count_tokens-any ws (count_token w n) ls)

-- A license text whose tokens hold no bracket and no `or` is a metadata license exactly if each of
-- its tokens is on the list, on which the other operators but `with` stand too.
is_metadata_license-All :
    (t : Tables) (s : Option Bytes) (ws : List Bytes)
    → tokenize t s ≡ some ws
    → any_bracket ws ≡ false
    → Lacks (codes "|") ws
    → (is_metadata_license t s ≡ true) ↔ All (λ w. is_metadata_license_id w ≡ true) ws
unfolding is_metadata_license is_metadata_tokens counts_verdict
is_metadata_license-All t s ws e b l =
    rw (e, is_metadata_license) (ground (arith, b, count_tokens-requires ws no_counts l refl))

count_tokens-append :
    (vs ws : List Bytes) (n : Counts)
    → count_tokens (vs ++ ws) n ≡ count_tokens ws (count_tokens vs n)
unfolding count_tokens
count_tokens-append [] ws n = refl
count_tokens-append (v ∷ vs) ws n = count_tokens-append vs ws (count_token v n)

count_tokens-good :
    (ws : List Bytes) (n : Counts)
    → ltb 0 (count_tokens ws n).license_good_cnt ≡ (ltb 0 n.license_good_cnt || any_good ws)
unfolding count_tokens count_token
count_tokens-good [] n = ground arith
count_tokens-good (w ∷ ws) n = ground (arith, count_tokens-good ws (count_token w n))

-- The last operator among `and` and `or` decides for the whole text: if it is an `or`, one listed
-- license anywhere is enough, also where an `and` ahead of it joins licenses that are not listed.
is_metadata_license-or :
    (t : Tables) (s : Option Bytes) (vs ws : List Bytes)
    → tokenize t s ≡ some (vs ++ codes "|" ∷ ws)
    → any_bracket (vs ++ codes "|" ∷ ws) ≡ false
    → Lacks (codes "&") ws
    → is_metadata_license t s ≡ (any_good vs || any_good ws)
unfolding is_metadata_license is_metadata_tokens counts_verdict count_tokens count_token
is_metadata_license-or t s vs ws e b l =
    rw (e, is_metadata_license)
      (rw (b, is_metadata_tokens)
        (rw (count_tokens-append vs (codes "|" ∷ ws) no_counts) (
          ground (
            arith,
            count_tokens-good vs no_counts,
            count_tokens-any ws (count_token (codes "|") (count_tokens vs no_counts)) l refl,
          ))))
