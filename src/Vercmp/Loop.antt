-- ===== src/Vercmp/Loop.antt =====
-- The loops of cmp_part: how the inner one ends, and that the outer one ends.
use appstream.Base.{
  ℕ, zero, suc, ◌≤◌, ◌<◌, ◌≡◌, ◌≢◌, refl, true, false, ◌&&◌, inl, inr, [], ◌∷◌, arith, ◌==◌, Bytes,
  Bool-cases, length, deref, is_digit,
}
use appstream.Vercmp.Ends.{DashAt, cmp_number-Moved, cmp_number_shorter}
use appstream.Vercmp.{
  Sign, less, same, more, choose, Numbers, cmp_number, Scan, finished, at_digits, behind, scan,
  value, over_read, out_of_fuel, cmp_part,
}

-- What the inner loop has done from `a` and `b` when it ends in a given way.
abbrev ScanInv : ℕ → ℕ → Bytes → Bytes → Scan → Type 0
ScanInv ea eb a b (finished r) = Unit
ScanInv ea eb a b behind = ea ≤ length a → eb ≤ length b → ⊥
ScanInv ea eb a b (at_digits a' b') =
    (is_digit (deref a') ≡ true)
    × (length a' ≤ length a)
    × DashAt ea a'
    × DashAt eb b'
    × (ea ≤ length a → eb ≤ length b → ea ≤ length a')
    × (ea ≤ length a → eb ≤ length b → eb ≤ length b')

pub scan-ScanInv :
    (ea eb : ℕ) (a b : Bytes) → DashAt ea a → DashAt eb b → ScanInv ea eb a b (scan ea eb a b)
unfolding scan choose
scan-ScanInv ea eb [] b p q = ground arith
scan-ScanInv ea eb (x ∷ a) [] p q = ground arith
scan-ScanInv ea eb (x ∷ a) (y ∷ b) p q = ground (arith, scan-ScanInv ea eb a b p.1 q.1)

-- What holds when a round of the outer loop hands over to the next.
record NextRound (ea eb : ℕ) (a b : Bytes) (n : Numbers) : Type 0 where
  pub dash_a : DashAt ea n.pa
  pub dash_b : DashAt eb n.pb
  pub shorter : length n.pa < length a
  pub ahead_a : ea ≤ length a → eb ≤ length b → ea ≤ length n.pa
  pub ahead_b : ea ≤ length a → eb ≤ length b → eb ≤ length n.pb

scan-NextRound :
    (ea eb : ℕ) (a b a' b' : Bytes)
    → DashAt ea a
    → DashAt eb b
    → scan ea eb a b ≡ at_digits a' b'
    → (cmp_number a' b').res ≡ same
    → NextRound ea eb a b (cmp_number a' b')
scan-NextRound ea eb a b a' b' p q s e =
    let (digit, shorter, pa, pb, ahead_a, ahead_b) = rw s at (scan-ScanInv ea eb a b p q) in
    let (ma, mb) = cmp_number-Moved ea eb a' b' pa pb in
    record {
      dash_a = ma.dash;
      dash_b = mb.dash;
      shorter = omega (arith, cmp_number_shorter ea eb a' b' pa pb digit e);
      ahead_a = λ h k. ma.ahead (ahead_a h k);
      ahead_b = λ h k. mb.ahead (ahead_b h k);
    }

-- A round, by its outcome: it returns, or it hands over.
data Round (fuel ea eb : ℕ) (a b : Bytes) : Type 0 where
  returns : (r : Sign) → cmp_part (suc fuel) ea eb a b ≡ value r → Round fuel ea eb a b
  reads_on :
      (ea ≤ length a → eb ≤ length b → ⊥)
      → cmp_part (suc fuel) ea eb a b ≡ over_read
      → Round fuel ea eb a b
  goes_on :
      (n : Numbers)
      → NextRound ea eb a b n
      → cmp_part (suc fuel) ea eb a b ≡ cmp_part fuel ea eb n.pa n.pb
      → Round fuel ea eb a b

Round-digits :
    (fuel ea eb : ℕ) (a b a' b' : Bytes)
    → DashAt ea a
    → DashAt eb b
    → (length a == ea && length b == eb) ≡ false
    → scan ea eb a b ≡ at_digits a' b'
    → (r : Sign) → (cmp_number a' b').res ≡ r
    → Round fuel ea eb a b
unfolding cmp_part
Round-digits fuel ea eb a b a' b' p q w s less e = returns less (ground arith)
Round-digits fuel ea eb a b a' b' p q w s more e = returns more (ground arith)
Round-digits fuel ea eb a b a' b' p q w s same e =
    let n = cmp_number a' b' in
    elim (Bool-cases (length n.pa == ea && length n.pb == eb)) [
      | inl t ↦ returns same (ground arith)
      | inr t ↦ goes_on n (scan-NextRound ea eb a b a' b' p q s e) (ground arith)
    ]

Round-scan :
    (fuel ea eb : ℕ) (a b : Bytes)
    → DashAt ea a
    → DashAt eb b
    → (length a == ea && length b == eb) ≡ false
    → (s : Scan) → scan ea eb a b ≡ s
    → Round fuel ea eb a b
unfolding cmp_part
Round-scan fuel ea eb a b p q w (finished r) s = returns r (ground arith)
Round-scan fuel ea eb a b p q w behind s =
    reads_on (rw s at (scan-ScanInv ea eb a b p q)) (ground arith)
Round-scan fuel ea eb a b p q w (at_digits a' b') s =
    Round-digits fuel ea eb a b a' b' p q w s (cmp_number a' b').res refl

Round-of : (fuel ea eb : ℕ) (a b : Bytes) → DashAt ea a → DashAt eb b → Round fuel ea eb a b
unfolding cmp_part
Round-of fuel ea eb a b p q = elim (Bool-cases (length a == ea && length b == eb)) [
  | inl t ↦ returns same (ground arith)
  | inr t ↦ Round-scan fuel ea eb a b p q t (scan ea eb a b) refl
]

-- One unit of fuel for each byte of `a`, and one more, is enough.
pub cmp_part-ne-out_of_fuel :
    (fuel ea eb : ℕ) (a b : Bytes)
    → DashAt ea a
    → DashAt eb b
    → length a < fuel
    → cmp_part fuel ea eb a b ≢ out_of_fuel
cmp_part-ne-out_of_fuel zero ea eb a b p q h = elim h [ ]
cmp_part-ne-out_of_fuel (suc fuel) ea eb a b p q h =
    let ih = cmp_part-ne-out_of_fuel fuel ea eb in
    elim (Round-of fuel ea eb a b p q) [
      | returns r e ↦ rw e (cc)
      | reads_on _ e ↦ rw e (cc)
      | goes_on n m e ↦ rw e (ih n.pa n.pb m.dash_a m.dash_b (omega (arith, m.shorter)))
    ]

-- With both ends ahead, `cmp_part` returns and reads nothing behind the strings.
pub cmp_part_total :
    (fuel ea eb : ℕ) (a b : Bytes)
    → DashAt ea a
    → DashAt eb b
    → length a < fuel
    → ea ≤ length a
    → eb ≤ length b
    → (r : Sign) × (cmp_part fuel ea eb a b ≡ value r)
cmp_part_total zero ea eb a b p q h ha hb = elim h [ ]
cmp_part_total (suc fuel) ea eb a b p q h ha hb =
    let ih = cmp_part_total fuel ea eb in
    elim (Round-of fuel ea eb a b p q) [
      | returns r e ↦ (r, e)
      | reads_on never e ↦ absurd (never ha hb)
      | goes_on n m e ↦ rw e (
          ih n.pa n.pb m.dash_a m.dash_b (omega (arith, m.shorter)) (m.ahead_a ha hb)
            (m.ahead_b ha hb))
    ]
