-- ===== src/Vercmp.antt =====
-- src/as-vercmp.c: comparison of version strings.
mod Ends
mod Tests
mod Parse
pub mod Order
pub mod Prefix
pub mod Match
pub mod Number
pub mod OverRead
pub mod Total
pub mod Loop
pub mod Flip
use appstream.Base.{
  ℕ, zero, suc, ◌+◌, Bool, true, false, not, ◌&&◌, ◌||◌, Option, none, some, [], ◌∷◌, ◌==◌,
  if◌then◌else◌, Bytes, codes, length, deref, char_lt, is_digit, is_alpha, str_equal, str_chr,
  str_rchr,
}
use appstream.Relation.Kinds.{Compare}

-- A `gint` result: all functions here return -1, 0 or 1.
pub data Sign : Type 0 where
  less same more : Sign

-- What a routine that walks pointers comes to: a value, a read behind the terminating NUL, or a
-- loop that is still running when its fuel is used up.
pub data Outcome {ℓ} (A : Type ℓ) : Type ℓ where
  value : A → Outcome A
  over_read : Outcome A
  out_of_fuel : Outcome A

-- `for (; *a == '0'; a++);`
abbrev pub skip_zeros : Bytes → Bytes
skip_zeros [] = []
skip_zeros (c ∷ s) = if c == b'0' then skip_zeros s else c ∷ s

-- What `cmp_number` leaves: its result, and `*pa` and `*pb`.
pub record Numbers : Type 0 where
  pub res : Sign
  pub pa : Bytes
  pub pb : Bytes

-- The branch behind the digit loop.
pub number_tail : Sign → Bytes → Bytes → Numbers
number_tail res a b = record {
  res =
      if is_digit (deref a)
      then (if not (is_digit (deref b)) then more else res)
      else (if is_digit (deref b) then less else res);
  pa = a;
  pb = b;
}

-- One round of the digit loop: the first difference decides.
pub keep_first : Sign → ℕ → ℕ → Sign
keep_first less x y = less
keep_first more x y = more
keep_first same x y = if not (x == y) then (if char_lt x y then less else more) else same

pub digit_loop : Sign → Bytes → Bytes → Numbers
digit_loop res (x ∷ a) (y ∷ b) =
    let stop = number_tail res (x ∷ a) (y ∷ b) in
    let rest = digit_loop (keep_first res x y) a b in
    if is_digit x && is_digit y then rest else stop
digit_loop res a b = number_tail res a b

-- With both at NUL the source returns 0 before it stores the pointers; they are unchanged.
pub cmp_number : Bytes → Bytes → Numbers
cmp_number a b =
    if deref a == 0 && deref b == 0
    then record { res = same; pa = a; pb = b }
    else digit_loop same (skip_zeros a) (skip_zeros b)

-- The body of the inner loop of `cmp_part`, with `at_a` for `a == a_end` and `at_b` for `b == b_end`.
pub data Choice : Type 0 where
  advance : Choice
  return : Sign → Choice
  number_mode : Choice

pub choose : Bool → Bool → ℕ → ℕ → Choice
choose at_a at_b x y =
    if at_a && at_b
    then return same
    else if x == y && not at_a && not at_b
    then advance
    else if x == b'~' || y == b'~'
    then return (if x == b'~' then less else more)
    else if at_a && y == b'0' || at_b && x == b'0'
    then number_mode
    else if at_a || at_b
    then return (if at_a then less else more)
    else if not (is_digit x) && is_digit y || is_digit x && not (is_digit y)
    then return (if is_digit x then less else more)
    else if not (is_alpha x) && is_alpha y || is_alpha x && not (is_alpha y)
    then return (if is_alpha x then less else more)
    else return (if char_lt x y then less else more)

-- How the inner loop ends: `cmp_part` returns, or both pointers stand at digits.
pub data Scan : Type 0 where
  finished : Sign → Scan
  at_digits : Bytes → Bytes → Scan
  behind : Scan

-- The inner loop. The ends are given by the length of the string behind them, so `a == a_end` is
-- an equation of lengths; `a++` behind the NUL is `behind`.
pub scan : ℕ → ℕ → Bytes → Bytes → Scan
scan a_end b_end [] b = elim (choose (0 == a_end) (length b == b_end) 0 (deref b)) [
  | return r ↦ finished r
  | number_mode ↦ finished (cmp_number [] b).res
  | advance ↦ behind
]
scan a_end b_end (x ∷ a) [] = elim (choose (length (x ∷ a) == a_end) (0 == b_end) x 0) [
  | return r ↦ finished r
  | number_mode ↦ finished (cmp_number (x ∷ a) []).res
  | advance ↦ behind
]
scan a_end b_end (x ∷ a) (y ∷ b) =
    let next = scan a_end b_end a b in
    let number = finished (cmp_number (x ∷ a) (y ∷ b)).res in
    if is_digit x && is_digit y
    then at_digits (x ∷ a) (y ∷ b)
    else elim (choose (length (x ∷ a) == a_end) (length (y ∷ b) == b_end) x y) [
      | return r ↦ finished r
      | number_mode ↦ number
      | advance ↦ next
    ]

-- The outer loop: a round either returns or steps over a number on both sides.
pub cmp_part : ℕ → ℕ → ℕ → Bytes → Bytes → Outcome Sign
cmp_part zero a_end b_end a b = out_of_fuel
cmp_part (suc fuel) a_end b_end a b =
    if length a == a_end && length b == b_end then value same else elim (scan a_end b_end a b) [
      | finished r ↦ value r
      | behind ↦ over_read
      | at_digits a' b' ↦
          let n = cmp_number a' b' in
          let again = cmp_part fuel a_end b_end n.pa n.pb in
          elim n.res [
            | same ↦ (if length n.pa == a_end && length n.pb == b_end then value same else again)
            | less ↦ value less
            | more ↦ value more
          ]
    ]

-- `AsVersion`. An end pointer is the length of the string from it on.
pub record Version : Type 0 where
  pub epoch : Option Bytes
  pub version : Bytes
  pub version_end : ℕ
  pub revision : Option Bytes
  pub revision_end : ℕ

-- The string behind the first character, for `p + 1`.
abbrev pub behind_first : Bytes → Bytes
behind_first [] = []
behind_first (c ∷ s) = s

-- `none` stands for the string literals "" and "0" of the source, which are one object each.
pub version_parse : Bytes → Version
version_parse v =
    let epoch_end = str_chr v b':' in
    let version_end = str_rchr v b'-' in
    record {
      epoch = elim epoch_end [ none ↦ none | some t ↦ some v ];
      version = elim epoch_end [ none ↦ v | some t ↦ behind_first t ];
      version_end = elim version_end [ none ↦ 0 | some t ↦ length t ];
      revision = elim version_end [ none ↦ none | some t ↦ some (behind_first t) ];
      revision_end = 0;
    }

abbrev pub epoch_text : Option Bytes → Bytes
epoch_text none = []
epoch_text (some v) = v

abbrev pub revision_text : Option Bytes → Bytes
revision_text none = codes "0"
revision_text (some v) = v

-- `x != y` on pointers into two different strings, or to the one literal.
abbrev pub pointers_differ : Option Bytes → Option Bytes → Bool
pointers_differ none none = false
pointers_differ _ _ = true

pub run_part : Bytes → ℕ → Bytes → ℕ → Outcome Sign
run_part a a_end b b_end = cmp_part (suc (length a + length b)) a_end b_end a b

-- The last branch: the revisions.
pub compare_revisions : Version → Version → Outcome Sign
compare_revisions a b =
    if pointers_differ a.revision b.revision
    then run_part (revision_text a.revision) a.revision_end (revision_text b.revision)
        b.revision_end
    else value same

-- The middle branch: the versions, and the revisions if the versions are the same.
pub compare_versions : Version → Version → Outcome Sign
compare_versions a b = elim (run_part a.version a.version_end b.version b.version_end) [
  | value same ↦ compare_revisions a b
  | value less ↦ value less
  | value more ↦ value more
  | over_read ↦ over_read
  | out_of_fuel ↦ out_of_fuel
]

-- The first branch: the epochs, unless they are ignored.
pub compare_parsed : Bool → Version → Version → Outcome Sign
compare_parsed ignore_epoch a b =
    let r = (cmp_number (epoch_text a.epoch) (epoch_text b.epoch)).res in
    if pointers_differ a.epoch b.epoch && not ignore_epoch
    then elim r [ less ↦ value less | more ↦ value more | same ↦ compare_versions a b ]
    else compare_versions a b

-- The test of the shortcut for single digit epochs.
pub single_epochs : Bytes → Bytes → Bool
single_epochs a b =
    not (deref a == deref b)
    && not (deref a == 0)
    && not (deref b == 0)
    && deref (behind_first a) == b':'
    && deref (behind_first b) == b':'

-- `as_vercmp` on two strings. Two equal pointers are two equal strings, for which it returns 0 too.
pub vercmp_strings : Bool → Bytes → Bytes → Outcome Sign
vercmp_strings ignore_epoch a b =
    if not ignore_epoch && single_epochs a b
    then value (if char_lt (deref a) (deref b) then less else more)
    else if str_equal a b
    then value same
    else compare_parsed ignore_epoch (version_parse a) (version_parse b)

-- `as_vercmp`, with `none` for NULL.
pub vercmp : Bool → Option Bytes → Option Bytes → Outcome Sign
vercmp ignore_epoch none none = value same
vercmp ignore_epoch none (some b) = value less
vercmp ignore_epoch (some a) none = value more
vercmp ignore_epoch (some a) (some b) = vercmp_strings ignore_epoch a b

-- `as_vercmp_simple`
unfoldable pub vercmp_simple : Option Bytes → Option Bytes → Outcome Sign
vercmp_simple = vercmp false

abbrev pub outcome_map : (Sign → Bool) → Outcome Sign → Outcome Bool
outcome_map f (value r) = value (f r)
outcome_map f over_read = over_read
outcome_map f out_of_fuel = out_of_fuel

-- The switch of `as_vercmp_test_match`.
unfoldable pub sign_matches : Compare → Sign → Bool
sign_matches Compare.unknown r = false
sign_matches Compare.eq r = elim r [ same ↦ true | _ ↦ false ]
sign_matches Compare.ne r = elim r [ same ↦ false | _ ↦ true ]
sign_matches Compare.lt r = elim r [ less ↦ true | _ ↦ false ]
sign_matches Compare.gt r = elim r [ more ↦ true | _ ↦ false ]
sign_matches Compare.le r = elim r [ more ↦ false | _ ↦ true ]
sign_matches Compare.ge r = elim r [ less ↦ false | _ ↦ true ]

-- `as_vercmp_test_match`; the guard returns before the comparison.
unfoldable pub vercmp_test_match : Option Bytes → Compare → Option Bytes → Bool → Outcome Bool
vercmp_test_match a Compare.unknown b ignore_epoch = value false
vercmp_test_match a c b ignore_epoch = outcome_map (sign_matches c) (vercmp ignore_epoch a b)
