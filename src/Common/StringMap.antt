-- ===== src/Common/StringMap.antt =====
-- Go's `map[string]V` as an association list, in the order in which a `range` loop meets the
-- entries. A read of a missing key is `none`, and callers write out the zero value.
use mathlib.Core.List.{Permᴰ}
use managed_services_lib.Common.Order.{sort_strings, sort_strings-perm}
use Prim.Native.String.{String}
use mathlib.Core.Path.{◌≡◌, refl, ap, subst₂, ◌∙◌}
use mathlib.Core.Bool.{Bool, false, ◌||◌}
use mathlib.Core.Option.{Option, none, some}
use mathlib.Core.List.{List, [], ◌∷◌}
use native.Mathlib.Omega.{arith}
use text.Mathlib.Text.{◌==◌}
use text.Mathlib.TextEquality.{eq_iff}
use managed_services_lib.Common.Lists.{any}
use managed_services_lib.Common.Tests.{if◌then◌else◌}

abbrev pub StringMap {ℓ} : Type ℓ → Type ℓ
StringMap V = List (String × V)

module _ {ℓ} {V : Type ℓ} where
  -- `v, ok := m[k]`
  unfoldable pub lookup : String → StringMap V → Option V
  lookup k [] = none
  lookup k ((j, v) ∷ m) = if j == k then some v else lookup k m

  -- `m[k] = v`
  unfoldable pub put : String → V → StringMap V → StringMap V
  put k v [] = (k, v) ∷ []
  put k v ((j, w) ∷ m) = if j == k then (k, v) ∷ m else (j, w) ∷ put k v m

  -- `maps.Copy(dst, src)`
  unfoldable pub copy_into : StringMap V → StringMap V → StringMap V
  copy_into dst [] = dst
  copy_into dst ((k, v) ∷ src) = copy_into (put k v dst) src

  unfoldable pub keys : StringMap V → List String
  keys [] = []
  keys ((k, v) ∷ m) = k ∷ keys m

  unfoldable pub has_key : String → StringMap V → Bool
  has_key k [] = false
  has_key k ((j, v) ∷ m) = j == k || has_key k m

  -- A Go map holds a key once.
  abbrev pub IsMap : StringMap V → Type 0
  IsMap [] = Unit
  IsMap ((k, v) ∷ m) = (has_key k m ≡ false) × IsMap m

  pub lookup-put :
      (k j : String) (v : V) (m : StringMap V)
      → lookup j (put k v m) ≡ (if k == j then some v else lookup j m)
  unfolding lookup put
  lookup-put k j v [] = refl
  lookup-put k j v ((i, w) ∷ m) =
      ground (arith, eq_iff k j, eq_iff i k, eq_iff i j, lookup-put k j v m)

  pub has_key-put :
      (k j : String) (v : V) (m : StringMap V) → has_key j (put k v m) ≡ (k == j || has_key j m)
  unfolding has_key put
  has_key-put k j v [] = refl
  has_key-put k j v ((i, w) ∷ m) =
      ground (arith, eq_iff k j, eq_iff i k, eq_iff i j, has_key-put k j v m)

  pub put-IsMap : (k : String) (v : V) (m : StringMap V) → IsMap m → IsMap (put k v m)
  unfolding put has_key
  put-IsMap k v [] h = (refl, tt)
  put-IsMap k v ((i, w) ∷ m) h =
      ground (arith, eq_iff i k, eq_iff k i, has_key-put k i v m, put-IsMap k v m)

  -- `maps.Copy` over distinct keys: the source wins, the rest of the target stays.
  abbrev pub or_else : Option V → Option V → Option V
  or_else none o = o
  or_else (some v) o = some v

  pub lookup_missing : (k : String) (m : StringMap V) → has_key k m ≡ false → lookup k m ≡ none
  unfolding lookup has_key
  lookup_missing k [] h = refl
  lookup_missing k ((j, v) ∷ m) h = ground (arith, lookup_missing k m)

  pub lookup-copy_into :
      (j : String) (dst src : StringMap V)
      → IsMap src
      → lookup j (copy_into dst src) ≡ or_else (lookup j src) (lookup j dst)
  unfolding lookup copy_into
  lookup-copy_into j dst [] h = refl
  lookup-copy_into j dst ((k, v) ∷ src) h = ground (
    arith,
    lookup-copy_into j (put k v dst) src,
    lookup-put k j v dst,
    eq_iff k j,
    lookup_missing k src,
    lookup_missing j src,
  )

  keys-perm : {m n : StringMap V} → Permᴰ m n → Permᴰ (keys m) (keys n)
  unfolding keys
  keys-perm Permᴰ.nil = Permᴰ.nil
  keys-perm (Permᴰ.cons p h) = Permᴰ.cons (ap (λ (e : String × V). e.0) p) (keys-perm h)
  keys-perm (Permᴰ.swap p q) =
      Permᴰ.swap (ap (λ (e : String × V). e.0) p) (ap (λ (e : String × V). e.0) q)
  keys-perm (Permᴰ.trans h k) = Permᴰ.trans (keys-perm h) (keys-perm k)

  has_key-perm : (k : String) {m n : StringMap V} → Permᴰ m n → has_key k m ≡ has_key k n
  unfolding has_key
  has_key-perm k Permᴰ.nil = refl
  has_key-perm k (Permᴰ.cons p h) = rw (p, has_key-perm k h)
  has_key-perm k (Permᴰ.swap p q) = rw (p, q) (ground arith)
  has_key-perm k (Permᴰ.trans h l) = has_key-perm k h ∙ has_key-perm k l

  IsMap-swap :
      (a b : String) (v w : V) (l : StringMap V)
      → IsMap ((a, v) ∷ (b, w) ∷ l)
      → IsMap ((b, w) ∷ (a, v) ∷ l)
  unfolding has_key
  IsMap-swap a b v w l u = ground (arith, eq_iff a b, eq_iff b a)

  pub IsMap-perm : {m n : StringMap V} → Permᴰ m n → IsMap m → IsMap n
  unfolding has_key
  IsMap-perm Permᴰ.nil u = u
  IsMap-perm (Permᴰ.cons {b = (k, v)} p h) u = ground (arith, p, has_key-perm k h, IsMap-perm h)
  IsMap-perm (Permᴰ.swap {a = (a, v)} {b = (b, w)} {l = l} p q) u =
      subst₂ (λ e f. IsMap (e ∷ f ∷ l)) q p (IsMap-swap a b v w l u)
  IsMap-perm (Permᴰ.trans h k) u = IsMap-perm k (IsMap-perm h u)

  -- The order of the entries does not matter to a read.
  pub lookup-perm : (k : String) {m n : StringMap V} → Permᴰ m n → IsMap m → lookup k m ≡ lookup k n
  unfolding lookup has_key
  lookup-perm k Permᴰ.nil u = refl
  lookup-perm k (Permᴰ.cons p h) u = rw (p, lookup-perm k h u.1)
  lookup-perm k (Permᴰ.swap {a = (a, v)} {b = (b, w)} p q) u =
      rw (← p, ← q) (ground (arith, eq_iff a b, eq_iff b a, eq_iff a k, eq_iff b k))
  lookup-perm k (Permᴰ.trans h l) u = lookup-perm k h u ∙ lookup-perm k l (IsMap-perm h u)

  -- `sortedKeys`: the keys in ascending order.
  unfoldable pub sorted_keys : StringMap V → List String
  sorted_keys m = sort_strings (keys m)

  pub sorted_keys-perm : {m n : StringMap V} → Permᴰ m n → sorted_keys m ≡ sorted_keys n
  unfolding sorted_keys
  sorted_keys-perm h = sort_strings-perm (keys-perm h)

  pub lookup_present : (k : String) (m : StringMap V) → lookup k m ≡ none → has_key k m ≡ false
  unfolding lookup has_key
  lookup_present k [] h = refl
  lookup_present k ((j, v) ∷ m) h = ground (arith, lookup_present k m)

  pub any-keys : (k : String) (m : StringMap V) → any (λ j. j == k) (keys m) ≡ has_key k m
  unfolding keys has_key
  any-keys k [] = refl
  any-keys k ((j, v) ∷ m) = ground (arith, any-keys k m)
