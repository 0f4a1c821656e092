-- ===== src/Vercmp/Parse.antt =====
-- What as_version_parse finds: its end pointers stand at a dash or at the NUL.
use appstream.Base.{
  ℕ, ◌≤◌, ◌<◌, ◌≡◌, ap, some, [], ◌∷◌, inl, inr, arith, ◌==◌, Bytes, Option-cases, Bool-cases,
  length, str_chr, str_rchr,
}
use appstream.Vercmp.Ends.{DashAt}
use appstream.Vercmp.{behind_first, revision_text, version_parse}

pub DashAt-long : (e : ℕ) (s : Bytes) → length s < e → DashAt e s
DashAt-long e [] h = tt
DashAt-long e (c ∷ s) h = (λ k. absurd (omega arith), DashAt-long e s (omega arith))

DashAt-zero : (s : Bytes) → DashAt 0 s
DashAt-zero [] = tt
DashAt-zero (c ∷ s) = (λ k. absurd (omega arith), DashAt-zero s)

length-str_rchr : (s t : Bytes) (k : ℕ) → str_rchr s k ≡ some t → length t ≤ length s
length-str_rchr [] t k h = cc
length-str_rchr (c ∷ s) t k h = elim (Option-cases (str_rchr s k)) [
  | inl e ↦ ground arith
  | inr (u, e) ↦ ground (arith, length-str_rchr s t k)
]

DashAt-str_rchr : (s t : Bytes) → str_rchr s b'-' ≡ some t → DashAt (length t) s
DashAt-str_rchr [] t h = tt
DashAt-str_rchr (c ∷ s) t h = elim (Option-cases (str_rchr s b'-')) [
  | inl e ↦
      let whole : (t ≡ c ∷ s) × (c ≡ b'-') = ground arith in
      (λ _. whole.1, DashAt-long (length t) s (omega (arith, ap length whole.0)))
  | inr (u, e) ↦
      let same_tail : str_rchr s b'-' ≡ some t = ground arith in
      (
        λ k. absurd (omega (arith, length-str_rchr s t b'-' same_tail)),
        DashAt-str_rchr s t same_tail,
      )
]

DashAt-behind_first : (e : ℕ) (s : Bytes) → DashAt e s → DashAt e (behind_first s)
DashAt-behind_first e [] h = tt
DashAt-behind_first e (c ∷ s) h = h.1

DashAt-str_chr : (e k : ℕ) (s t : Bytes) → str_chr s k ≡ some t → DashAt e s → DashAt e t
DashAt-str_chr e k [] t h d = absurd (cc)
DashAt-str_chr e k (c ∷ s) t h d = elim (Bool-cases (c == k)) [
  | inl z ↦ let whole : t ≡ c ∷ s = ground arith in rw whole d
  | inr z ↦ DashAt-str_chr e k s t (ground arith) d.1
]

pub version_parse-DashAt :
    (v : Bytes) → DashAt (version_parse v).version_end (version_parse v).version
unfolding version_parse
version_parse-DashAt v = elim (Option-cases (str_rchr v b'-')) [
  | inl e ↦ rw (e, version_parse) (DashAt-zero _)
  | inr (t, e) ↦
      rw (e, version_parse)
        (elim (Option-cases (str_chr v b':')) [
          | inl f ↦ rw (f, version_parse) (DashAt-str_rchr v t e)
          | inr (u, f) ↦
              rw (f, version_parse)
                (DashAt-behind_first _ u (DashAt-str_chr _ b':' v u f (DashAt-str_rchr v t e)))
        ])
]

pub revision-DashAt :
    (v : Bytes) → DashAt (version_parse v).revision_end (revision_text (version_parse v).revision)
unfolding version_parse
revision-DashAt v = DashAt-zero _
