-- ===== src/Provider/Base/Pointer.antt =====
-- provider/base.go: `EscapeJSONPointer` against the decoding of RFC 6901.
use Prim.Native.String as Text
use mathlib.Core.Option
use text.Mathlib.TextEquality.{Char-path}
use text.Mathlib.TextLemmas.{cons-append, nil-append}
use managed_services_lib.Common.{
  String, Char, code, ◌≡◌, refl, ap, ◌∙◌, Bool, true, false, not, ◌&&◌, Option, none, some, nat_eq,
  arith, if◌then◌else◌, Bool-cases, inl, inr,
}
use managed_services_lib.Provider.Base.{replace_all, escape_json_pointer}

-- RFC 6901: `~0` stands for `~`, `~1` for `/`, and any other `~` is an error.
abbrev pub unescape : String → Option String
unescape String.[] = some String.[]
unescape (String.◌∷◌ c String.[]) =
    if nat_eq (code c) b'~' then none else some (String.◌∷◌ c String.[])
unescape (String.◌∷◌ c (String.◌∷◌ d s)) =
    if nat_eq (code c) b'~'
    then (if nat_eq (code d) b'0'
        then Option.map (String.◌∷◌ "~") (unescape s)
        else if nat_eq (code d) b'1'
        then Option.map (String.◌∷◌ "/") (unescape s)
        else none)
    else Option.map (String.◌∷◌ c) (unescape (String.◌∷◌ d s))

abbrev pub lacks_slash : String → Bool
lacks_slash String.[] = true
lacks_slash (String.◌∷◌ c s) = not (nat_eq (code c) b'/') && lacks_slash s

-- One character, escaped in front of a text.
abbrev escaped : Char → String → String
escaped c s =
    if nat_eq (code c) b'~'
    then String.◌∷◌ "~" (String.◌∷◌ "0" s)
    else if nat_eq (code c) b'/'
    then String.◌∷◌ "~" (String.◌∷◌ "1" s)
    else String.◌∷◌ c s

two-append :
    (a b : Char) (s : String)
    → Text.◌++◌ (String.◌∷◌ a (String.◌∷◌ b String.[])) s ≡ String.◌∷◌ a (String.◌∷◌ b s)
two-append a b s = simp (cons-append, nil-append)

escape-cons :
    (c : Char) (s : String)
    → escape_json_pointer (String.◌∷◌ c s) ≡ escaped c (escape_json_pointer s)
unfolding escape_json_pointer replace_all
escape-cons c s = elim (Bool-cases (nat_eq (code c) b'~')) [
  | inl e ↦ rw e (ap (replace_all b'/' "~1") (two-append "~" "0" (replace_all b'~' "~0" s)))
  | inr e ↦
      rw e (ground (arith, two-append "~" "1" (replace_all b'/' "~1" (replace_all b'~' "~0" s))))
]

unescape-plain :
    (c : Char) (s : String)
    → nat_eq (code c) b'~' ≡ false
    → unescape (String.◌∷◌ c s) ≡ Option.map (String.◌∷◌ c) (unescape s)
unescape-plain c String.[] h = rw h
unescape-plain c (String.◌∷◌ d s) h = rw h

unescape-escaped :
    (c : Char) (s t : String) → unescape s ≡ some t → unescape (escaped c s) ≡ some (String.◌∷◌ c t)
unescape-escaped c s t h = elim (Bool-cases (nat_eq (code c) b'~')) [
  | inl e ↦
      rw (e, h) (ap (λ (d : Char). some (String.◌∷◌ d t)) (Char-path "~" c (ground (arith, e))))
  | inr e ↦ elim (Bool-cases (nat_eq (code c) b'/')) [
    | inl f ↦
        rw (e, f, h)
          (ap (λ (d : Char). some (String.◌∷◌ d t)) (Char-path "/" c (ground (arith, f))))
    | inr f ↦ rw (e, f) (unescape-plain c s e ∙ rw h)
  ]
]

lacks_slash-escaped :
    (c : Char) (s : String) → lacks_slash s ≡ true → lacks_slash (escaped c s) ≡ true
lacks_slash-escaped c s h = ground arith

-- Decoding gives back any text that was escaped, and an escaped text has no `/`: it is one reference
-- token of a JSON pointer.
pub unescape-escape_json_pointer :
    (s : String)
    → (unescape (escape_json_pointer s) ≡ some s) × (lacks_slash (escape_json_pointer s) ≡ true)
unescape-escape_json_pointer String.[] = unfold escape_json_pointer replace_all in (refl, refl)
unescape-escape_json_pointer (String.◌∷◌ c s) =
    let (back, clean) = unescape-escape_json_pointer s in
    rw (escape-cons c s) (
      unescape-escaped c (escape_json_pointer s) s back,
      lacks_slash-escaped c (escape_json_pointer s) clean,
    )
