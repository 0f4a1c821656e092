-- ===== src/Vercmp/Number.antt =====
-- cmp_number compares the numbers that the two strings begin with.
use appstream.Base.{
  ℕ, ◌+◌, ◌-◌, ◌*◌, ◌≤◌, ◌<◌, ◌≡◌, ◌≢◌, refl, true, false, ◌&&◌, [], ◌∷◌, ◌⊎◌, arith, ltb, ◌==◌,
  if◌then◌else◌, Bytes, deref, is_digit, inl, inr, Bool-cases,
}
use appstream.Vercmp.{
  Sign, less, same, more, skip_zeros, keep_first, number_tail, digit_loop, cmp_number,
}

-- The number that the digits at the start of a string spell behind the digits of `n`.
abbrev number_from : ℕ → Bytes → ℕ
number_from n [] = n
number_from n (c ∷ s) = if is_digit c then number_from (n * 10 + (c - b'0')) s else n

abbrev pub number : Bytes → ℕ
number = number_from 0

abbrev pub sign_of : ℕ → ℕ → Sign
sign_of m n = if ltb m n then less else if ltb n m then more else same

number-skip_zeros : (s : Bytes) → number (skip_zeros s) ≡ number s
number-skip_zeros [] = refl
number-skip_zeros (c ∷ s) = elim (Bool-cases (c == b'0')) [
  | inl z ↦ ground (arith, number-skip_zeros s)
  | inr z ↦ ground arith
]

le-number_from : (s : Bytes) (n : ℕ) → n ≤ number_from n s
le-number_from [] n = omega arith
le-number_from (c ∷ s) n = ground (arith, le-number_from s (n * 10 + (c - b'0')))

-- The digits read so far: none, and no zero comes next, or as many on both sides.
abbrev Level : ℕ → ℕ → Bytes → Bytes → Type 0
Level m n a b =
    ((m ≡ 0) × (n ≡ 0) × (deref a ≢ b'0') × (deref b ≢ b'0')) ⊎ ((n < 10 * m) × (m < 10 * n))

tail-sign_of :
    (m n : ℕ) (a b : Bytes)
    → Level m n a b
    → (is_digit (deref a) && is_digit (deref b)) ≡ false
    → (number_tail (sign_of m n) a b).res ≡ sign_of (number_from m a) (number_from n b)
unfolding number_tail
tail-sign_of m n [] [] l d = refl
tail-sign_of m n [] (y ∷ b) l d = ground (arith, le-number_from b (n * 10 + (y - b'0')))
tail-sign_of m n (x ∷ a) [] l d = ground (arith, le-number_from a (m * 10 + (x - b'0')))
tail-sign_of m n (x ∷ a) (y ∷ b) l d =
    ground (arith, le-number_from a (m * 10 + (x - b'0')), le-number_from b (n * 10 + (y - b'0')))

keep_first-sign_of :
    (m n x y : ℕ)
    → (is_digit x && is_digit y) ≡ true
    → keep_first (sign_of m n) x y ≡ sign_of (m * 10 + (x - b'0')) (n * 10 + (y - b'0'))
unfolding keep_first
keep_first-sign_of m n x y d = ground arith

Level-step :
    (m n x y : ℕ) (a b : Bytes)
    → (is_digit x && is_digit y) ≡ true
    → Level m n (x ∷ a) (y ∷ b)
    → Level (m * 10 + (x - b'0')) (n * 10 + (y - b'0')) a b
Level-step m n x y a b d l = inr (ground arith)

digit_loop-sign_of :
    (m n : ℕ) (a b : Bytes)
    → Level m n a b
    → (digit_loop (sign_of m n) a b).res ≡ sign_of (number_from m a) (number_from n b)
unfolding digit_loop
digit_loop-sign_of m n [] b l = tail-sign_of m n [] b l refl
digit_loop-sign_of m n (x ∷ a) [] l = tail-sign_of m n (x ∷ a) [] l (ground arith)
digit_loop-sign_of m n (x ∷ a) (y ∷ b) l = elim (Bool-cases (is_digit x && is_digit y)) [
  | inl d ↦
      let next =
        digit_loop-sign_of (m * 10 + (x - b'0')) (n * 10 + (y - b'0')) a b
          (Level-step m n x y a b d l) in
      ground (arith, keep_first-sign_of m n x y d, next)
  | inr d ↦ ground (arith, tail-sign_of m n (x ∷ a) (y ∷ b) l d)
]

deref-skip_zeros : (s : Bytes) → deref (skip_zeros s) ≢ b'0'
deref-skip_zeros [] = omega arith
deref-skip_zeros (c ∷ s) = ground (arith, deref-skip_zeros s)

pub number_no_digit : (s : Bytes) → is_digit (deref s) ≡ false → number s ≡ 0
number_no_digit [] h = refl
number_no_digit (c ∷ s) h = ground arith

-- `cmp_number` returns the order of the two numbers at the start of its arguments, of any length,
-- where leading zeros do not count and no digits count as zero.
pub cmp_number-sign_of : (a b : Bytes) → (cmp_number a b).res ≡ sign_of (number a) (number b)
unfolding cmp_number
cmp_number-sign_of a b = elim (Bool-cases (deref a == 0 && deref b == 0)) [
  | inl z ↦ ground (arith, number_no_digit a, number_no_digit b)
  | inr z ↦
      let l : Level 0 0 (skip_zeros a) (skip_zeros b) =
        inl (refl, refl, deref-skip_zeros a, deref-skip_zeros b) in
      ground (
        arith,
        digit_loop-sign_of 0 0 (skip_zeros a) (skip_zeros b) l,
        number-skip_zeros a,
        number-skip_zeros b,
      )
]
