-- ===== src/Base/Bits.antt =====
-- `|` on flag words, digit by digit.
use Prim.Native.Nat.{
  ℕ, zero, suc, ◌+◌, ◌*◌, ◌/◌, ◌%◌, ◌≤◌, ◌<◌, max, bit_or, digits, bit_or-bitwise,
}
use mathlib.Core.Path.{◌≡◌, refl, sym, ap, ◌∙◌}
use native.Mathlib.Omega.{arith}

-- A count of digits that covers the first word gives `|`, whatever the count; `bound` is above it.
enough_digits :
    (bound count a b : ℕ) → a ≤ count → count ≤ bound → digits (λ b. b) max count a b ≡ bit_or a b
enough_digits bound count zero b covers below = no_digits count b ∙ sym (bit_or-bitwise 0 b)
  where
    no_digits : (count b : ℕ) → digits (λ b. b) max count 0 b ≡ b
    no_digits zero b = refl
    no_digits (suc count) b = refl
enough_digits bound zero (suc a) b covers below = absurd (omega (arith, covers))
enough_digits zero (suc count) (suc a) b covers below = absurd (omega (arith, below))
enough_digits (suc bound) (suc count) (suc a) b covers below =
    let half = suc a / 2 in
    let shorter =
      enough_digits bound count half (b / 2) (omega (arith, covers)) (omega (arith, below)) in
    let own = enough_digits bound a half (b / 2) (omega arith) (omega (arith, covers, below)) in
    omega (arith, shorter, own, bit_or-bitwise (suc a) b)

pub zero-bit_or : (b : ℕ) → bit_or 0 b ≡ b
zero-bit_or b = bit_or-bitwise 0 b

-- The lowest digit, and the others.
pub lowest_digit : (x y : ℕ) → bit_or x y ≡ max (x % 2) (y % 2) + 2 * bit_or (x / 2) (y / 2)
lowest_digit zero y = omega (arith, zero-bit_or y, zero-bit_or (y / 2))
lowest_digit (suc x) y =
    let rest = enough_digits x x (suc x / 2) (y / 2) (omega arith) (omega arith) in
    omega (arith, rest, bit_or-bitwise (suc x) y)

bit_or-comm_fuel : (n a b : ℕ) → a ≤ n → b ≤ n → bit_or a b ≡ bit_or b a
bit_or-comm_fuel zero zero zero p q = refl
bit_or-comm_fuel zero (suc a) b p q = absurd (omega arith)
bit_or-comm_fuel zero zero (suc b) p q = absurd (omega arith)
bit_or-comm_fuel (suc n) a b p q = omega (
  arith,
  lowest_digit a b,
  lowest_digit b a,
  bit_or-comm_fuel n (a / 2) (b / 2) (omega arith) (omega arith),
)

pub bit_or_comm : (a b : ℕ) → bit_or a b ≡ bit_or b a
bit_or_comm a b = bit_or-comm_fuel (a + b) a b (omega arith) (omega arith)

bit_or-ge_fuel : (n a b : ℕ) → b ≤ n → b ≤ bit_or a b
bit_or-ge_fuel zero a b p = omega arith
bit_or-ge_fuel (suc n) a b p =
    omega (arith, lowest_digit a b, bit_or-ge_fuel n (a / 2) (b / 2) (omega arith))

-- `|` takes nothing away.
pub bit_or-ge_right : (a b : ℕ) → b ≤ bit_or a b
bit_or-ge_right a b = bit_or-ge_fuel b a b (omega arith)

pub bit_or-ge_left : (a b : ℕ) → a ≤ bit_or a b
bit_or-ge_left a b = omega (arith, bit_or_comm a b, bit_or-ge_right b a)

half-bit_or :
    (a b : ℕ) → (bit_or a b / 2 ≡ bit_or (a / 2) (b / 2)) × (bit_or a b % 2 ≡ max (a % 2) (b % 2))
half-bit_or a b = (omega (arith, lowest_digit a b), omega (arith, lowest_digit a b))

bit_or-assoc_fuel :
    (n a b c : ℕ) → a ≤ n → b ≤ n → c ≤ n → bit_or (bit_or a b) c ≡ bit_or a (bit_or b c)
bit_or-assoc_fuel zero zero zero zero p q r = refl
bit_or-assoc_fuel zero (suc a) b c p q r = absurd (omega (arith, p))
bit_or-assoc_fuel zero zero (suc b) c p q r = absurd (omega (arith, q))
bit_or-assoc_fuel zero zero zero (suc c) p q r = absurd (omega (arith, r))
bit_or-assoc_fuel (suc n) a b c p q r = omega (
  arith,
  lowest_digit (bit_or a b) c,
  lowest_digit a (bit_or b c),
  half-bit_or a b,
  half-bit_or b c,
  ap (λ x. bit_or x (c / 2)) (half-bit_or a b).0,
  ap (bit_or (a / 2)) (half-bit_or b c).0,
  bit_or-assoc_fuel n (a / 2) (b / 2) (c / 2) (omega arith) (omega arith) (omega arith),
)

pub bit_or_assoc : (a b c : ℕ) → bit_or (bit_or a b) c ≡ bit_or a (bit_or b c)
bit_or_assoc a b c = bit_or-assoc_fuel (a + b + c) a b c (omega arith) (omega arith) (omega arith)

-- `2 ^ k`
abbrev pub two_to : ℕ → ℕ
two_to zero = 1
two_to (suc k) = two_to k * 2

-- `|` stays within the bits of its arguments.
pub bit_or-lt : (k a b : ℕ) → a < two_to k → b < two_to k → bit_or a b < two_to k
bit_or-lt zero zero b p q = omega (arith, q, zero-bit_or b)
bit_or-lt zero (suc a) b p q = absurd (omega (arith, p))
bit_or-lt (suc k) a b p q =
    omega
      (arith, lowest_digit a b, bit_or-lt k (a / 2) (b / 2) (omega (arith, p)) (omega (arith, q)))
