-- ===== src/Vercmp/Ends.antt =====
-- What the end pointers of as_version_parse point at, and how the pointers of cmp_number move.
use appstream.Base.{
  ℕ, ◌≤◌, ◌<◌, ◌≡◌, refl, ◌∙◌, true, false, ◌&&◌, inl, inr, [], ◌∷◌, arith, ◌==◌, Bytes, Bool-cases,
  length, deref, is_digit,
}
use appstream.Vercmp.{Sign, same, skip_zeros, number_tail, keep_first, digit_loop, cmp_number}

-- The byte at the place with `e` bytes from it on, if there is one, is a dash.
abbrev pub DashAt : ℕ → Bytes → Type 0
DashAt e [] = Unit
DashAt e (c ∷ s) = (length (c ∷ s) ≡ e → c ≡ b'-') × DashAt e s

-- `t` is what is left of `s`, and a place ahead of `s` that no digit hides is still ahead of `t`.
pub record Moved (e : ℕ) (s t : Bytes) : Type 0 where
  pub dash : DashAt e t
  pub ahead : e ≤ length s → e ≤ length t
  pub shorter : length t ≤ length s
  pub whole : length t ≡ length s → t ≡ s

Moved-refl : (e : ℕ) (s : Bytes) → DashAt e s → Moved e s s
Moved-refl e s h = record { dash = h; ahead = λ k. k; shorter = omega arith; whole = λ k. refl }

Moved-digit :
    (e c : ℕ) (s t : Bytes)
    → is_digit c ≡ true
    → DashAt e (c ∷ s)
    → (DashAt e s → Moved e s t)
    → Moved e (c ∷ s) t
Moved-digit e c s t d h m =
    let next = m h.1 in
    record {
      dash = next.dash;
      ahead = λ k. next.ahead (ground (arith, h.0));
      shorter = omega (arith, next.shorter);
      whole = λ k. absurd (omega (arith, next.shorter));
    }

skip_zeros-Moved : (e : ℕ) (s : Bytes) → DashAt e s → Moved e s (skip_zeros s)
skip_zeros-Moved e [] h = Moved-refl e [] h
skip_zeros-Moved e (c ∷ s) h = elim (Bool-cases (c == b'0')) [
  | inl z ↦ rw z (Moved-digit e c s (skip_zeros s) (ground arith) h (skip_zeros-Moved e s))
  | inr z ↦ rw z (Moved-refl e (c ∷ s) h)
]

number_tail-Moved :
    (r : Sign) (ea eb : ℕ) (a b : Bytes)
    → DashAt ea a
    → DashAt eb b
    → Moved ea a (number_tail r a b).pa × Moved eb b (number_tail r a b).pb
unfolding number_tail
number_tail-Moved r ea eb a b p q = (Moved-refl ea a p, Moved-refl eb b q)

digit_loop-Moved :
    (r : Sign) (ea eb : ℕ) (a b : Bytes)
    → DashAt ea a
    → DashAt eb b
    → Moved ea a (digit_loop r a b).pa × Moved eb b (digit_loop r a b).pb
unfolding digit_loop
digit_loop-Moved r ea eb [] b p q = number_tail-Moved r ea eb [] b p q
digit_loop-Moved r ea eb (x ∷ a) [] p q = number_tail-Moved r ea eb (x ∷ a) [] p q
digit_loop-Moved r ea eb (x ∷ a) (y ∷ b) p q = elim (Bool-cases (is_digit x && is_digit y)) [
  | inl d ↦ rw d (
      let next = digit_loop-Moved (keep_first r x y) ea eb a b in
      (
        Moved-digit ea x a _ (ground arith) p (λ h. (next h q.1).0),
        Moved-digit eb y b _ (ground arith) q (λ h. (next p.1 h).1),
      ))
  | inr d ↦ rw d (number_tail-Moved r ea eb (x ∷ a) (y ∷ b) p q)
]

Moved-trans : {e : ℕ} {s t u : Bytes} → Moved e s t → Moved e t u → Moved e s u
Moved-trans m n = record {
  dash = n.dash;
  ahead = λ h. n.ahead (m.ahead h);
  shorter = omega (arith, m.shorter, n.shorter);
  whole = λ h.
      n.whole (omega (arith, m.shorter, n.shorter)) ∙ m.whole (omega (arith, m.shorter, n.shorter));
}

pub cmp_number-Moved :
    (ea eb : ℕ) (a b : Bytes)
    → DashAt ea a
    → DashAt eb b
    → Moved ea a (cmp_number a b).pa × Moved eb b (cmp_number a b).pb
unfolding cmp_number
cmp_number-Moved ea eb a b p q = elim (Bool-cases (deref a == 0 && deref b == 0)) [
  | inl z ↦ rw z (Moved-refl ea a p, Moved-refl eb b q)
  | inr z ↦ rw z (
      let ma = skip_zeros-Moved ea a p in
      let mb = skip_zeros-Moved eb b q in
      let (na, nb) = digit_loop-Moved same ea eb _ _ ma.dash mb.dash in
      (Moved-trans ma na, Moved-trans mb nb))
]

-- With no difference between the numbers, both are read to their ends.
digit_loop_stops :
    (r : Sign) (a b : Bytes)
    → (digit_loop r a b).res ≡ same
    → (is_digit (deref (digit_loop r a b).pa) ≡ false)
      × (is_digit (deref (digit_loop r a b).pb) ≡ false)
unfolding digit_loop number_tail
digit_loop_stops r [] b h = ground arith
digit_loop_stops r (x ∷ a) [] h = ground arith
digit_loop_stops r (x ∷ a) (y ∷ b) h = ground (arith, digit_loop_stops (keep_first r x y) a b)

-- Then a number with a digit has been stepped over.
pub cmp_number_shorter :
    (ea eb : ℕ) (a b : Bytes)
    → DashAt ea a
    → DashAt eb b
    → is_digit (deref a) ≡ true
    → (cmp_number a b).res ≡ same
    → length (cmp_number a b).pa < length a
cmp_number_shorter ea eb a b p q d e =
    let (m, _) = cmp_number-Moved ea eb a b p q in
    let stopped : is_digit (deref (cmp_number a b).pa) ≡ false =
      unfold cmp_number in ground (arith, digit_loop_stops same (skip_zeros a) (skip_zeros b)) in
    let differ : ¬ (length (cmp_number a b).pa ≡ length a) =
      λ k. cc (d, rw (m.whole k) at stopped) in
    omega (arith, m.shorter)
