-- ===== src/Common/Order.antt =====
-- The order of Go strings and `sort.Strings`.
use mathlib.Core.List.{Permᴰ}
use Prim.Native.Char.{code}
use Prim.Native.String.{String}
use mathlib.Core.Path.{◌≡◌, refl, ap₂, ◌∙◌}
use mathlib.Core.Bool.{Bool, true, false, ◌&&◌, ◌||◌}
use mathlib.Core.List.{List, [], ◌∷◌}
use native.Mathlib.Omega.{arith}
use text.Mathlib.TextEquality.{Char-path}
use managed_services_lib.Common.Lists.{any}
use text.Mathlib.Text.{◌==◌}
use managed_services_lib.Common.Tests.{ltb, leb, if◌then◌else◌}

-- `a <= b` of strings: lexicographic, by code points (which is the order of their UTF-8 bytes).
unfoldable pub str_leb : String → String → Bool
str_leb String.[] t = true
str_leb (String.◌∷◌ c s) String.[] = false
str_leb (String.◌∷◌ c s) (String.◌∷◌ d t) =
    ltb (code c) (code d) || (leb (code c) (code d) && str_leb s t)

pub str_leb_total : (s t : String) → str_leb s t ≡ false → str_leb t s ≡ true
unfolding str_leb
str_leb_total String.[] t h = ground arith
str_leb_total (String.◌∷◌ c s) String.[] h = refl
str_leb_total (String.◌∷◌ c s) (String.◌∷◌ d t) h = ground (arith, str_leb_total s t)

pub str_leb_antisymm : (s t : String) → str_leb s t ≡ true → str_leb t s ≡ true → s ≡ t
unfolding str_leb
str_leb_antisymm String.[] String.[] h k = refl
str_leb_antisymm String.[] (String.◌∷◌ d t) h k = ground arith
str_leb_antisymm (String.◌∷◌ c s) String.[] h k = ground arith
str_leb_antisymm (String.◌∷◌ c s) (String.◌∷◌ d t) h k =
    ap₂ String.◌∷◌ (Char-path c d (ground arith))
      (str_leb_antisymm s t (ground arith) (ground arith))

pub str_leb_trans : (s t u : String) → str_leb s t ≡ true → str_leb t u ≡ true → str_leb s u ≡ true
unfolding str_leb
str_leb_trans String.[] t u h k = refl
str_leb_trans (String.◌∷◌ c s) String.[] u h k = ground arith
str_leb_trans (String.◌∷◌ c s) (String.◌∷◌ d t) String.[] h k = ground arith
str_leb_trans (String.◌∷◌ c s) (String.◌∷◌ d t) (String.◌∷◌ e u) h k =
    ground (arith, str_leb_trans s t u)

-- One round of insertion sort.
insert_sorted : String → List String → List String
insert_sorted k [] = k ∷ []
insert_sorted k (j ∷ l) = if str_leb k j then k ∷ j ∷ l else j ∷ insert_sorted k l

-- `sort.Strings`.
unfoldable pub sort_strings : List String → List String
unfolding insert_sorted str_leb
sort_strings [] = []
sort_strings (k ∷ l) = insert_sorted k (sort_strings l)

insert_sorted_comm :
    (a b : String) (l : List String)
    → insert_sorted a (insert_sorted b l) ≡ insert_sorted b (insert_sorted a l)
unfolding insert_sorted
insert_sorted_comm a b [] =
    ground (arith, str_leb_total a b, str_leb_total b a, str_leb_antisymm a b)
insert_sorted_comm a b (j ∷ l) = ground (
  arith,
  insert_sorted_comm a b l,
  str_leb_total a b,
  str_leb_total b a,
  str_leb_total a j,
  str_leb_total b j,
  str_leb_antisymm a b,
  str_leb_trans a b j,
  str_leb_trans b a j,
  str_leb_trans a j b,
  str_leb_trans b j a,
  str_leb_trans j a b,
  str_leb_trans j b a,
)

pub sort_strings-perm : {l m : List String} → Permᴰ l m → sort_strings l ≡ sort_strings m
unfolding sort_strings
sort_strings-perm Permᴰ.nil = refl
sort_strings-perm (Permᴰ.cons p h) = ap₂ insert_sorted p (sort_strings-perm h)
sort_strings-perm (Permᴰ.swap {a = a} {b = b} {l = l} p q) =
    rw (← p, ← q) (insert_sorted_comm a b (sort_strings l))
sort_strings-perm (Permᴰ.trans h k) = sort_strings-perm h ∙ sort_strings-perm k

-- Ascending, each with its successor.
abbrev pub IsAscending : List String → Type 0
IsAscending [] = Unit
IsAscending (x ∷ []) = Unit
IsAscending (x ∷ y ∷ l) = (str_leb x y ≡ true) × IsAscending (y ∷ l)

insert_sorted-IsAscending :
    (k : String) (l : List String) → IsAscending l → IsAscending (insert_sorted k l)
unfolding insert_sorted
insert_sorted-IsAscending k [] h = tt
insert_sorted-IsAscending k (x ∷ []) h = ground (arith, str_leb_total k x)
insert_sorted-IsAscending k (x ∷ y ∷ l) h =
    ground (arith, str_leb_total k x, str_leb_total k y, insert_sorted-IsAscending k (y ∷ l))

pub sort_strings-IsAscending : (l : List String) → IsAscending (sort_strings l)
unfolding sort_strings
sort_strings-IsAscending [] = tt
sort_strings-IsAscending (k ∷ l) =
    insert_sorted-IsAscending k (sort_strings l) (sort_strings-IsAscending l)

any-insert_sorted :
    (k j : String) (l : List String)
    → any (λ i. i == k) (insert_sorted j l) ≡ (j == k || any (λ i. i == k) l)
unfolding insert_sorted
any-insert_sorted k j [] = refl
any-insert_sorted k j (x ∷ l) = ground (arith, any-insert_sorted k j l)

pub any-sort_strings :
    (k : String) (l : List String) → any (λ i. i == k) (sort_strings l) ≡ any (λ i. i == k) l
unfolding sort_strings
any-sort_strings k [] = refl
any-sort_strings k (j ∷ l) =
    ground (arith, any-insert_sorted k j (sort_strings l), any-sort_strings k l)
