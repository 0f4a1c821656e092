-- ===== src/Base/Text.antt =====
-- C strings as lists of bytes without the terminating NUL. A pointer into a string is the rest of
-- the string from there on; reading the empty rest gives the NUL.
use Prim.Native.Nat.{ℕ, zero, suc, ◌+◌}
use Prim.Native.Char.{code}
use Prim.Native.String.{String}
use mathlib.Core.Path.{◌≡◌}
use mathlib.Core.Logic.{◌↔◌}
use mathlib.Core.Bool.{Bool, true, false, not, ◌&&◌, ◌||◌}
use mathlib.Core.List.{List, [], ◌∷◌}
use mathlib.Core.Option.{Option, none, some}
use native.Mathlib.Omega.{arith}
use appstream.Base.Tests.{◌==◌, ltb, leb, if◌then◌else◌}

abbrev pub Bytes : Type 0
Bytes = List ℕ

-- The code points of a literal; these are its bytes when the text is ASCII.
abbrev pub codes : String → Bytes
codes String.[] = []
codes (String.◌∷◌ c s) = code c ∷ codes s

-- `*p`
abbrev pub deref : Bytes → ℕ
deref [] = 0
deref (c ∷ s) = c

-- `a < b` on `gchar`, a signed byte: 0x80 to 0xff are negative, so below the others.
abbrev pub char_lt : ℕ → ℕ → Bool
char_lt a b =
    if leb 128 a
    then (if leb 128 b then ltb a b else true)
    else (if leb 128 b then false else ltb a b)

-- `g_ascii_isdigit` and `g_ascii_isalpha`
abbrev pub is_digit : ℕ → Bool
is_digit c = leb b'0' c && leb c b'9'

abbrev pub is_alpha : ℕ → Bool
is_alpha c = leb b'a' c && leb c b'z' || leb b'A' c && leb c b'Z'

-- `g_strcmp0 (a, b) == 0` on two strings
abbrev pub str_equal : Bytes → Bytes → Bool
str_equal [] [] = true
str_equal [] (y ∷ b) = false
str_equal (x ∷ a) [] = false
str_equal (x ∷ a) (y ∷ b) = x == y && str_equal a b

pub str_equal_iff : (a b : Bytes) → (str_equal a b ≡ true) ↔ (a ≡ b)
str_equal_iff (x ∷ a) (y ∷ b) = ground (arith, str_equal_iff a b)
str_equal_iff _ _ = ground arith

-- `strchr`: the string from the first `k` on.
abbrev pub str_chr : Bytes → ℕ → Option Bytes
str_chr [] k = none
str_chr (c ∷ s) k = if c == k then some (c ∷ s) else str_chr s k

-- `g_str_has_prefix`
abbrev pub str_has_prefix : Bytes → Bytes → Bool
str_has_prefix s [] = true
str_has_prefix [] (y ∷ p) = false
str_has_prefix (x ∷ s) (y ∷ p) = x == y && str_has_prefix s p

-- `strchr (s, k) != NULL`
abbrev pub has_char : Bytes → ℕ → Bool
has_char [] k = false
has_char (c ∷ s) k = c == k || has_char s k

-- `g_strsplit` at a single byte, without a limit.
abbrev pub split_rest : ℕ → Bytes → List Bytes
split_rest k [] = [] ∷ []
split_rest k (c ∷ s) =
    let rest = split_rest k s in
    if c == k then [] ∷ rest else elim rest [ [] ↦ (c ∷ []) ∷ [] | w ∷ ws ↦ (c ∷ w) ∷ ws ]

abbrev pub str_split : ℕ → Bytes → List Bytes
str_split k [] = []
str_split k (c ∷ s) = split_rest k (c ∷ s)

-- `g_strstr_len (s, -1, p)`: the string from the first `p` on.
abbrev pub str_str : Bytes → Bytes → Option Bytes
str_str [] p = if str_has_prefix [] p then some [] else none
str_str (c ∷ s) p =
    let rest = str_str s p in if str_has_prefix (c ∷ s) p then some (c ∷ s) else rest

-- `s + n`, on a string of at least `n` bytes.
abbrev pub drop : ℕ → Bytes → Bytes
drop zero s = s
drop (suc n) [] = []
drop (suc n) (c ∷ s) = drop n s

-- `g_ascii_isupper`, `g_ascii_isalnum` and `g_ascii_ispunct`
abbrev pub is_upper : ℕ → Bool
is_upper c = leb b'A' c && leb c b'Z'

abbrev pub is_alnum : ℕ → Bool
is_alnum c = is_digit c || is_alpha c

abbrev pub is_punct : ℕ → Bool
is_punct c = leb 33 c && leb c 126 && not (is_alnum c)

-- `strrchr`: the string from the last `k` on.
abbrev pub str_rchr : Bytes → ℕ → Option Bytes
str_rchr [] k = none
str_rchr (c ∷ s) k = elim (str_rchr s k) [
  | some t ↦ some t
  | none ↦ if c == k then some (c ∷ s) else none
]

-- `g_ascii_tolower`
abbrev pub to_lower : ℕ → ℕ
to_lower c = if leb b'A' c && leb c b'Z' then c + 32 else c

-- `g_ascii_strcasecmp (a, b) == 0`
abbrev pub strcase_equal : Bytes → Bytes → Bool
strcase_equal [] [] = true
strcase_equal [] (y ∷ b) = false
strcase_equal (x ∷ a) [] = false
strcase_equal (x ∷ a) (y ∷ b) = to_lower x == to_lower y && strcase_equal a b
