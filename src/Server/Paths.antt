-- ===== src/Server/Paths.antt =====
-- gin's patterns: a path and a pattern are compared segment by segment, as gin documents it. `:name`
-- stands for any segment that is not empty, `*name` for whatever is left. A pattern has one parameter
-- at most.
use Prim.Native.String as Text
use Prim.Native.Char.{Char}
use text.Mathlib.TextLemmas.{cons-append, nil-append, append_assoc}
use managed_services_lib.Common.{
  String, code, ◌≡◌, ◌≢◌, refl, ap, ◌∙◌, Bool, true, false, not, ◌&&◌, Option, none, some, List, [],
  ◌∷◌, ◌==◌, nat_eq, arith, eq_iff, eq_refl, if◌then◌else◌,
}

unfoldable pub extend : Char → List String → List String
extend c [] = String.◌∷◌ c "" ∷ []
extend c (x ∷ xs) = String.◌∷◌ c x ∷ xs

-- The texts between the slashes.
unfoldable pub segments : String → List String
segments String.[] = "" ∷ []
segments (String.◌∷◌ c s) =
    let rest = segments s in if nat_eq (code c) b'/' then "" ∷ rest else extend c rest

abbrev starts_with : Char → String → Bool
starts_with c String.[] = false
starts_with c (String.◌∷◌ d s) = nat_eq (code d) (code c)

abbrev given : String → Option String → Option String
given s none = none
given s (some rest) = some s

-- The value of the parameter, or `""` if there is none.
unfoldable pub match_segments : List String → List String → Option String
match_segments [] [] = some ""
match_segments [] (s ∷ ss) = none
match_segments (p ∷ ps) [] = none
match_segments (p ∷ ps) (s ∷ ss) =
    let rest = match_segments ps ss in
    if starts_with "*" p
    then some s
    else if starts_with ":" p
    then (if s == "" then none else given s rest)
    else if p == s
    then rest
    else none

unfoldable pub matches : String → String → Option String
matches pattern path = match_segments (segments pattern) (segments path)

-- A name that can stand between slashes and is no parameter; without a dot, gin's cleaning of the path
-- leaves it alone.
abbrev pub is_name : String → Bool
is_name String.[] = true
is_name (String.◌∷◌ c s) =
    not (nat_eq (code c) b'/')
    && not (nat_eq (code c) b':')
    && not (nat_eq (code c) b'*')
    && not (nat_eq (code c) b'.')
    && is_name s

-- What stands under a mounted group: nothing, or a text that begins with a slash.
abbrev pub is_tail : String → Bool
is_tail String.[] = true
is_tail (String.◌∷◌ c s) = nat_eq (code c) b'/'

abbrev pub tail_segments : List String → List String
tail_segments [] = []
tail_segments (x ∷ xs) = xs

segments-tail : (t : String) → is_tail t ≡ true → segments t ≡ "" ∷ tail_segments (segments t)
unfolding segments
segments-tail String.[] h = refl
segments-tail (String.◌∷◌ c s) h = ground (arith, h)

-- One segment of a path.
abbrev pub is_segment : String → Bool
is_segment String.[] = true
is_segment (String.◌∷◌ c s) = not (nat_eq (code c) b'/') && is_segment s

is_name-is_segment : (name : String) → is_name name ≡ true → is_segment name ≡ true
is_name-is_segment String.[] h = refl
is_name-is_segment (String.◌∷◌ c s) h = ground (arith, h, is_name-is_segment s)

pub segments-append :
    (name t : String)
    → is_segment name ≡ true
    → is_tail t ≡ true
    → segments (Text.◌++◌ name t) ≡ name ∷ tail_segments (segments t)
unfolding segments extend
segments-append String.[] t h k = rw (nil-append t) (segments-tail t k)
segments-append (String.◌∷◌ c name) t h k =
    rw (cons-append c name t) (ground (arith, h, segments-append name t))

-- The path of a tail under the group of a provider.
abbrev pub mounted : String → String → String
mounted name t = Text.◌++◌ (Text.◌++◌ "/api/v1" (Text.◌++◌ "/" name)) t

segments_slash : (s : String) → segments (Text.◌++◌ "/" s) ≡ "" ∷ segments s
unfolding segments
segments_slash s = rw (cons-append "/" "" s, nil-append s) refl

segments_api :
    (s : String) → segments (Text.◌++◌ "/api/v1" (Text.◌++◌ "/" s)) ≡ "" ∷ "api" ∷ "v1" ∷ segments s
unfolding segments extend
segments_api s =
    rw
      (
        cons-append "/" "api/v1" (Text.◌++◌ "/" s),
        cons-append "a" "pi/v1" (Text.◌++◌ "/" s),
        cons-append "p" "i/v1" (Text.◌++◌ "/" s),
        cons-append "i" "/v1" (Text.◌++◌ "/" s),
        cons-append "/" "v1" (Text.◌++◌ "/" s),
        cons-append "v" "1" (Text.◌++◌ "/" s),
        cons-append "1" "" (Text.◌++◌ "/" s),
        nil-append (Text.◌++◌ "/" s),
        cons-append "/" "" s,
        nil-append s,
      )
      refl

pub segments-mounted :
    (name t : String)
    → is_name name ≡ true
    → is_tail t ≡ true
    → segments (mounted name t) ≡ "" ∷ "api" ∷ "v1" ∷ name ∷ tail_segments (segments t)
segments-mounted name t h k =
    let flat : mounted name t ≡ Text.◌++◌ "/api/v1" (Text.◌++◌ "/" (Text.◌++◌ name t)) =
      append_assoc "/api/v1" (Text.◌++◌ "/" name) t
      ∙ ap (Text.◌++◌ "/api/v1") (append_assoc "/" name t) in
    rw (flat, segments_api (Text.◌++◌ name t), segments-append name t (is_name-is_segment name h) k)
      refl

-- The match of a tail against a tail of a pattern.
abbrev pub match_tail : String → String → Option String
match_tail p t = match_segments (tail_segments (segments p)) (tail_segments (segments t))

name_unmarked :
    (name : String)
    → is_name name ≡ true
    → (starts_with "*" name ≡ false) × (starts_with ":" name ≡ false)
name_unmarked String.[] h = (refl, refl)
name_unmarked (String.◌∷◌ c s) h = ground (arith, h)

-- Under the group of a provider a path matches by its tail, and under that of another one not at all.
pub matches-mounted :
    (name p t : String)
    → is_name name ≡ true
    → is_tail p ≡ true
    → is_tail t ≡ true
    → matches (mounted name p) (mounted name t) ≡ match_tail p t
unfolding matches match_segments
matches-mounted name p t h k l =
    rw (segments-mounted name p h k, segments-mounted name t h l)
      (ground (arith, name_unmarked name h, eq_refl name))

pub matches_elsewhere :
    (name other p t : String)
    → is_name name ≡ true
    → is_name other ≡ true
    → other ≢ name
    → is_tail p ≡ true
    → is_tail t ≡ true
    → matches (mounted other p) (mounted name t) ≡ none
unfolding matches match_segments
matches_elsewhere name other p t h g apart k l =
    rw (segments-mounted other p g k, segments-mounted name t h l)
      (ground (arith, name_unmarked other g, eq_iff other name, apart))

-- The server's own endpoints match no path under a provider.
pub own-mounted :
    (name t : String)
    → is_name name ≡ true
    → name ≢ ""
    → is_tail t ≡ true
    → (matches "/health" (mounted name t) ≡ none)
      × (matches "/ready" (mounted name t) ≡ none)
      × (matches "/api/v1/" (mounted name t) ≡ none)
unfolding matches match_segments segments extend
own-mounted name t h named k =
    rw (segments-mounted name t h k) (refl, refl, ground (arith, eq_iff "" name, named))
