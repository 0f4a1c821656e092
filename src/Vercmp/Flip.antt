-- ===== src/Vercmp/Flip.antt =====
-- as_vercmp with its arguments exchanged.
use appstream.Base.{
  ℕ, zero, suc, ◌≡◌, ◌≢◌, refl, Bool, true, false, [], ◌∷◌, arith, ◌==◌, Bytes, length,
}
use appstream.Vercmp.Ends.{DashAt, cmp_number-Moved}
use appstream.Vercmp.Loop.{scan-ScanInv}
use appstream.Vercmp.{
  Sign, less, same, more, Choice, advance, return, number_mode, choose, Numbers, skip_zeros,
  number_tail, keep_first, digit_loop, cmp_number, Scan, finished, at_digits, behind, scan, Outcome,
  value, over_read, out_of_fuel, cmp_part,
}

-- The opposite result.
abbrev pub flip : Sign → Sign
flip less = more
flip same = same
flip more = less

abbrev flip_numbers : Numbers → Numbers
flip_numbers n = record { res = flip n.res; pa = n.pb; pb = n.pa }

abbrev flip_choice : Choice → Choice
flip_choice (return r) = return (flip r)
flip_choice advance = advance
flip_choice number_mode = number_mode

abbrev flip_scan : Scan → Scan
flip_scan (finished r) = finished (flip r)
flip_scan (at_digits a b) = at_digits b a
flip_scan behind = behind

abbrev pub flip_outcome : Outcome Sign → Outcome Sign
flip_outcome (value r) = value (flip r)
flip_outcome over_read = over_read
flip_outcome out_of_fuel = out_of_fuel

number_tail-flip :
    (r : Sign) (a b : Bytes) → number_tail (flip r) b a ≡ flip_numbers (number_tail r a b)
unfolding number_tail
number_tail-flip r a b = ground arith

keep_first-flip : (r : Sign) (x y : ℕ) → keep_first (flip r) y x ≡ flip (keep_first r x y)
unfolding keep_first
keep_first-flip r x y = ground arith

digit_loop-flip :
    (r : Sign) (a b : Bytes) → digit_loop (flip r) b a ≡ flip_numbers (digit_loop r a b)
unfolding digit_loop
digit_loop-flip r [] [] = number_tail-flip r [] []
digit_loop-flip r [] (y ∷ b) = number_tail-flip r [] (y ∷ b)
digit_loop-flip r (x ∷ a) [] = number_tail-flip r (x ∷ a) []
digit_loop-flip r (x ∷ a) (y ∷ b) = ground (
  arith,
  number_tail-flip r (x ∷ a) (y ∷ b),
  keep_first-flip r x y,
  digit_loop-flip (keep_first r x y) a b,
)

pub cmp_number_flip : (a b : Bytes) → cmp_number b a ≡ flip_numbers (cmp_number a b)
unfolding cmp_number
cmp_number_flip a b = ground (arith, digit_loop-flip same (skip_zeros a) (skip_zeros b))

choose_flip :
    (at_a at_b : Bool) (x y : ℕ)
    → (at_a ≡ true → x ≢ b'~')
    → (at_b ≡ true → y ≢ b'~')
    → choose at_b at_a y x ≡ flip_choice (choose at_a at_b x y)
unfolding choose
choose_flip true true x y p q = ground arith
choose_flip true false x y p q = ground (arith, p refl)
choose_flip false true x y p q = ground (arith, q refl)
choose_flip false false x y p q = ground arith

scan_flip :
    (ea eb : ℕ) (a b : Bytes)
    → DashAt ea a
    → DashAt eb b
    → scan eb ea b a ≡ flip_scan (scan ea eb a b)
unfolding scan
scan_flip ea eb [] [] p q =
    ground (arith, choose_flip (0 == ea) (0 == eb) 0 0, cmp_number_flip [] [])
scan_flip ea eb [] (y ∷ b) p q =
    ground
      (arith, choose_flip (0 == ea) (length (y ∷ b) == eb) 0 y, q.0, cmp_number_flip [] (y ∷ b))
scan_flip ea eb (x ∷ a) [] p q =
    ground
      (arith, choose_flip (length (x ∷ a) == ea) (0 == eb) x 0, p.0, cmp_number_flip (x ∷ a) [])
scan_flip ea eb (x ∷ a) (y ∷ b) p q = ground (
  arith,
  choose_flip (length (x ∷ a) == ea) (length (y ∷ b) == eb) x y,
  p.0,
  q.0,
  cmp_number_flip (x ∷ a) (y ∷ b),
  scan_flip ea eb a b p.1 q.1,
)

round_flip :
    (fuel ea eb : ℕ) (a b : Bytes)
    → DashAt ea a
    → DashAt eb b
    → ((a' b' : Bytes)
        → DashAt ea a'
        → DashAt eb b'
        → cmp_part fuel eb ea b' a' ≡ flip_outcome (cmp_part fuel ea eb a' b'))
    → (s : Scan) → scan ea eb a b ≡ s
    → cmp_part (suc fuel) eb ea b a ≡ flip_outcome (cmp_part (suc fuel) ea eb a b)
unfolding cmp_part
round_flip fuel ea eb a b p q ih (finished r) e = ground (arith, scan_flip ea eb a b p q)
round_flip fuel ea eb a b p q ih behind e = ground (arith, scan_flip ea eb a b p q)
round_flip fuel ea eb a b p q ih (at_digits a' b') e =
    let (_, _, pa, pb, _, _) = rw e at (scan-ScanInv ea eb a b p q) in
    let n = cmp_number a' b' in
    let (ma, mb) = cmp_number-Moved ea eb a' b' pa pb in
    ground (arith, scan_flip ea eb a b p q, cmp_number_flip a' b', ih n.pa n.pb ma.dash mb.dash)

pub cmp_part_flip :
    (fuel ea eb : ℕ) (a b : Bytes)
    → DashAt ea a
    → DashAt eb b
    → cmp_part fuel eb ea b a ≡ flip_outcome (cmp_part fuel ea eb a b)
cmp_part_flip zero ea eb a b p q = unfold cmp_part in refl
cmp_part_flip (suc fuel) ea eb a b p q =
    round_flip fuel ea eb a b p q (cmp_part_flip fuel ea eb) (scan ea eb a b) refl
