-- ===== src/ContentRating/Values.antt =====
-- The values that a content rating holds.
use appstream.Base.{
  none, some, List, [], ◌∷◌, ◌++◌, if◌then◌else◌, Bytes, codes, str_equal, str_equal_iff, ◌≡◌, ◌≢◌,
  refl, arith,
}
use appstream.ContentRating.{
  Value, none_given, mild, moderate, intense, Key, ContentRating, set_value, find_key, get_value,
  value_to_string, value_from_string,
}

find_key-append :
    (ks : List Key) (k : Key) (id : Bytes)
    → find_key (ks ++ k ∷ []) id ≡ elim (find_key ks id) [
      | some v ↦ some v
      | none ↦ if str_equal k.id id then some k.value else none
    ]
unfolding find_key
find_key-append [] k id = refl
find_key-append (x ∷ ks) k id = ground (arith, find_key-append ks k id)

set_value-known :
    (id : Bytes) (v : Value) (r : ContentRating)
    → v ≢ Value.unknown
    → set_value id v r ≡ record r { keys = r.keys ++ (record { id = id; value = v }) ∷ [] }
unfolding set_value
set_value-known id Value.unknown r known = absurd (known refl)
set_value-known id none_given r known = refl
set_value-known id mild r known = refl
set_value-known id moderate r known = refl
set_value-known id intense r known = refl

-- Setting a known value changes the value of that id alone, and only if the id had none: the value
-- that was set first stays the one that is read.
get_value-set_value :
    (id other : Bytes) (v : Value) (r : ContentRating)
    → v ≢ Value.unknown
    → get_value (set_value id v r) other ≡ elim (find_key r.keys other) [
      | some w ↦ w
      | none ↦ if str_equal id other then v else get_value r other
    ]
unfolding get_value
get_value-set_value id other v r known =
    rw (set_value-known id v r known)
      (ground (arith, find_key-append r.keys (record { id = id; value = v }) other))

-- Reading the text of a value gives the value back, and the texts of known values are the only ones
-- that are read as known values.
value_from-to :
    ((v : Value) → value_from_string (some (value_to_string v)) ≡ v)
    × ((s : Bytes)
        → value_from_string (some s) ≢ Value.unknown
        → value_to_string (value_from_string (some s)) ≡ s)
unfolding value_from_string value_to_string
value_from-to = (both, back)
  where
    both : (v : Value) → value_from_string (some (value_to_string v)) ≡ v
    both Value.unknown = refl
    both none_given = refl
    both mild = refl
    both moderate = refl
    both intense = refl

    back :
        (s : Bytes)
        → value_from_string (some s) ≢ Value.unknown
        → value_to_string (value_from_string (some s)) ≡ s
    back s known = ground (
      arith,
      known,
      str_equal_iff s (codes "none"),
      str_equal_iff s (codes "mild"),
      str_equal_iff s (codes "moderate"),
      str_equal_iff s (codes "intense"),
    )
