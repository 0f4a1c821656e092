-- ===== src/Vercmp/Prefix.antt =====
-- How as_vercmp orders a version and the same version with more text behind it.
use appstream.Base.{
  ℕ, zero, suc, ◌+◌, ◌≤◌, ◌<◌, ◌≡◌, refl, Bool, true, false, ◌&&◌, [], ◌∷◌, ◌++◌, none, some, arith,
  ◌==◌, if◌then◌else◌, Bytes, length, length-append, deref, is_digit, inl, inr, Bool-cases,
  str_equal, str_chr,
}
use appstream.Vercmp.Number.{number_no_digit, cmp_number-sign_of}
use appstream.Vercmp.OverRead.{has, str_rchr-none, has-append}
use appstream.Vercmp.{
  Sign, less, same, more, value, Numbers, skip_zeros, keep_first, number_tail, digit_loop,
  cmp_number, choose, scan, finished, at_digits, cmp_part, version_parse, run_part,
  compare_revisions, Version, compare_versions, compare_parsed, single_epochs, vercmp_strings,
  vercmp,
}

-- No number reaches from `v` into `t`; `d` says whether the byte ahead of `v` is a digit.
abbrev Apart : Bool → Bytes → Bytes → Type 0
Apart d [] t = (d && is_digit (deref t)) ≡ false
Apart d (c ∷ v) t = Apart (is_digit c) v t

-- What is left of `v ++ t` and `v` when the number at their start is read.
record Rest (v t : Bytes) (n : Numbers) : Type 0 where
  tail : Bytes
  result_is : n ≡ record { res = same; pa = tail ++ t; pb = tail }
  apart : Apart false tail t
  shorter : length tail ≤ length v

digit_loop-Rest : (v t : Bytes) → Apart true v t → Rest v t (digit_loop same (v ++ t) v)
unfolding digit_loop number_tail keep_first
digit_loop-Rest [] [] h = record {
  tail = [];
  result_is = refl;
  apart = refl;
  shorter = omega arith;
}
digit_loop-Rest [] (y ∷ t) h = record {
  tail = [];
  result_is = ground arith;
  apart = refl;
  shorter = omega arith;
}
digit_loop-Rest (c ∷ v) t h = elim (Bool-cases (is_digit c)) [
  | inl d ↦
      let r = digit_loop-Rest v t (rw d at h) in
      record {
        tail = r.tail;
        result_is = ground (arith, r.result_is);
        apart = r.apart;
        shorter = omega (arith, r.shorter);
      }
  | inr d ↦ record { tail = c ∷ v; result_is = ground arith; apart = h; shorter = omega arith }
]

skip_zeros-append : (v t : Bytes) → Apart true v t → skip_zeros (v ++ t) ≡ skip_zeros v ++ t
skip_zeros-append [] [] h = refl
skip_zeros-append [] (y ∷ t) h = ground arith
skip_zeros-append (c ∷ v) t h = elim (Bool-cases (c == b'0')) [
  | inl z ↦
      let d : is_digit c ≡ true = ground arith in ground (arith, skip_zeros-append v t (rw d at h))
  | inr z ↦ ground arith
]

skip_zeros-Apart : (v t : Bytes) → Apart true v t → Apart true (skip_zeros v) t
skip_zeros-Apart [] t h = h
skip_zeros-Apart (c ∷ v) t h = elim (Bool-cases (c == b'0')) [
  | inl z ↦ let d : is_digit c ≡ true = ground arith in rw z (skip_zeros-Apart v t (rw d at h))
  | inr z ↦ rw z h
]

length-skip_zeros : (v : Bytes) → length (skip_zeros v) ≤ length v
length-skip_zeros [] = omega arith
length-skip_zeros (c ∷ v) = ground (arith, length-skip_zeros v)

-- A number that both begin with is read whole.
cmp_number-Rest :
    (c : ℕ) (v t : Bytes)
    → is_digit c ≡ true
    → Apart true v t
    → Rest v t (cmp_number (c ∷ (v ++ t)) (c ∷ v))
unfolding cmp_number digit_loop keep_first
cmp_number-Rest c v t d h = elim (Bool-cases (c == b'0')) [
  | inl z ↦
      let r = digit_loop-Rest (skip_zeros v) t (skip_zeros-Apart v t h) in
      record {
        tail = r.tail;
        result_is = ground (arith, r.result_is, skip_zeros-append v t h);
        apart = r.apart;
        shorter = omega (arith, r.shorter, length-skip_zeros v);
      }
  | inr z ↦
      let r = digit_loop-Rest v t h in
      record {
        tail = r.tail;
        result_is = ground (arith, r.result_is);
        apart = r.apart;
        shorter = r.shorter;
      }
]

-- Where the inner loop stops on `v ++ t` and `v`: behind `v`, or at a number.
data Stop (v t : Bytes) : Type 0 where
  at_end : scan 0 0 (v ++ t) v ≡ scan 0 0 t [] → Stop v t
  at_number :
      (c : ℕ) (w : Bytes)
      → scan 0 0 (v ++ t) v ≡ at_digits (c ∷ (w ++ t)) (c ∷ w)
      → is_digit c ≡ true
      → Apart true w t
      → length w < length v
      → Stop v t

scan-Stop : (v t : Bytes) → Apart false v t → Stop v t
unfolding scan choose
scan-Stop [] t h = at_end refl
scan-Stop (c ∷ v) t h = elim (Bool-cases (is_digit c)) [
  | inl d ↦ at_number c v (ground arith) d (rw d at h) (omega arith)
  | inr d ↦ elim (scan-Stop v t (rw d at h)) [
    | at_end e ↦ at_end (ground arith)
    | at_number c' w e d' a l ↦ at_number c' w (ground arith) d' a (omega arith)
  ]
]

cmp_part_prefix :
    (fuel : ℕ) (v t : Bytes) {r : Sign}
    → Apart false v t
    → scan 0 0 t [] ≡ finished r
    → 0 < length t
    → length v < fuel
    → cmp_part fuel 0 0 (v ++ t) v ≡ value r
unfolding cmp_part
cmp_part_prefix zero v t h e p l = elim l [ ]
cmp_part_prefix (suc fuel) v t h e p l = elim (scan-Stop v t h) [
  | at_end s ↦ ground (arith, length-append v t)
  | at_number c w s d a k ↦
      let n = cmp_number-Rest c w t d a in
      ground (
        arith,
        length-append v t,
        n.result_is,
        length-append n.tail t,
        cmp_part_prefix fuel n.tail t n.apart e p (omega (arith, n.shorter)),
      )
]

-- A native version without an epoch: no colon, and no dash.
abbrev IsPlain : Bytes → Type 0
IsPlain v = (has b':' v ≡ false) × (has b'-' v ≡ false)

str_chr-none : (k : ℕ) (s : Bytes) → has k s ≡ false → str_chr s k ≡ none
str_chr-none k [] h = refl
str_chr-none k (c ∷ s) h = ground (arith, str_chr-none k s)

parse-IsPlain :
    (v : Bytes)
    → IsPlain v
    → version_parse v
      ≡ record { epoch = none; version = v; version_end = 0; revision = none; revision_end = 0 }
unfolding version_parse
parse-IsPlain v h = ground (arith, str_chr-none b':' v h.0, str_rchr-none b'-' v h.1)

compare_parsed-IsPlain :
    (f : Bool) (a b : Bytes) {r : Sign}
    → IsPlain a
    → IsPlain b
    → run_part a 0 b 0 ≡ value r
    → compare_parsed f (version_parse a) (version_parse b) ≡ value r
unfolding compare_parsed compare_versions compare_revisions
compare_parsed-IsPlain f a b {r} p q e = rw (parse-IsPlain a p, parse-IsPlain b q) (go r e)
  where
    plain : Bytes → Version
    plain v = record {
      epoch = none;
      version = v;
      version_end = 0;
      revision = none;
      revision_end = 0;
    }

    go : (r : Sign) → run_part a 0 b 0 ≡ value r → compare_parsed f (plain a) (plain b) ≡ value r
    go less e = ground arith
    go same e = ground arith
    go more e = ground arith

single_epochs-IsPlain : (a b : Bytes) → IsPlain b → single_epochs a b ≡ false
unfolding single_epochs
single_epochs-IsPlain a [] p = ground arith
single_epochs-IsPlain a (x ∷ []) p = ground arith
single_epochs-IsPlain a (x ∷ y ∷ b) p = ground arith

str_equal_longer : (v t : Bytes) → 0 < length t → str_equal (v ++ t) v ≡ false
str_equal_longer [] [] h = elim h [ ]
str_equal_longer [] (y ∷ t) h = refl
str_equal_longer (c ∷ v) t h = ground (arith, str_equal_longer v t h)

vercmp_prefix :
    (f : Bool) (v t : Bytes) {r : Sign}
    → IsPlain v
    → IsPlain t
    → Apart false v t
    → 0 < length t
    → scan 0 0 t [] ≡ finished r
    → vercmp f (some (v ++ t)) (some v) ≡ value r
unfolding vercmp vercmp_strings run_part
vercmp_prefix f v t p q h l e =
    let whole : IsPlain (v ++ t) = (has-append b':' v t p.0 q.0, has-append b'-' v t p.1 q.1) in
    let part = cmp_part_prefix (suc (length (v ++ t) + length v)) v t h e l (omega arith) in
    ground (
      arith,
      single_epochs-IsPlain (v ++ t) v p,
      str_equal_longer v t l,
      compare_parsed-IsPlain f (v ++ t) v whole p part,
    )

Apart-no_digit : (d : Bool) (v : Bytes) (c : ℕ) (s : Bytes) → is_digit c ≡ false → Apart d v (c ∷ s)
Apart-no_digit d [] c s h = ground arith
Apart-no_digit d (x ∷ v) c s h = Apart-no_digit (is_digit x) v c s h

zero_hides : (s : Bytes) → is_digit (deref s) ≡ false → scan 0 0 (b'0' ∷ s) [] ≡ finished same
unfolding scan choose
zero_hides s d = ground (arith, cmp_number-sign_of (b'0' ∷ s) [], number_no_digit s d)

-- Where neither a version nor a suffix has a colon or a dash, the version with the suffix is older
-- than the version alone if the suffix begins with a tilde, and newer if it begins with another byte
-- that is no digit.
pub vercmp_suffix :
    (ignore_epoch : Bool) (v : Bytes) (c : ℕ) (s : Bytes)
    → IsPlain v
    → IsPlain (c ∷ s)
    → is_digit c ≡ false
    → vercmp ignore_epoch (some (v ++ c ∷ s)) (some v) ≡ value (if c == b'~' then less else more)
vercmp_suffix f v c s p q d =
    vercmp_prefix f v (c ∷ s) p q (Apart-no_digit false v c s d) (omega arith)
      (unfold scan choose in ground arith)

-- A zero that stands behind no digit, with no digit behind it, hides all that follows: a version
-- compares the same as the version with the zero and any further text, where neither has a colon or
-- a dash.
vercmp_zero_suffix :
    (ignore_epoch : Bool) (v s : Bytes)
    → IsPlain v
    → IsPlain (b'0' ∷ s)
    → Apart false v (b'0' ∷ s)
    → is_digit (deref s) ≡ false
    → vercmp ignore_epoch (some (v ++ b'0' ∷ s)) (some v) ≡ value same
vercmp_zero_suffix f v s p q h d = vercmp_prefix f v (b'0' ∷ s) p q h (omega arith) (zero_hides s d)
