-- ===== src/Provider/Interface/Status.antt =====
-- provider/interface.go: the health in a status.
use Prim.Native.String as Text
use text.Mathlib.TextLemmas.{cons-append, nil-append, append-nil}
use managed_services_lib.Common.{
  ℕ, zero, suc, ◌≤◌, String, ◌≡◌, refl, ap, Bool, true, false, Option, none, some, arith, ltb, ◌⊎◌,
  inl, inr, Bool-cases,
}
use managed_services_lib.Model.Contract.{Health, Conditions, health_message_max_len}
use managed_services_lib.Provider.Interface.{
  take_runes, rune_count, cut_message, is_running, new_service_status,
}

rune_count-take_runes : (n : ℕ) (s : String) → n ≤ rune_count s → rune_count (take_runes n s) ≡ n
unfolding take_runes rune_count
rune_count-take_runes zero s h = refl
rune_count-take_runes (suc n) String.[] h = elim h [ ]
rune_count-take_runes (suc n) (String.◌∷◌ c s) h = ap suc (rune_count-take_runes n s (omega arith))

drop_runes : ℕ → String → String
drop_runes zero s = s
drop_runes (suc n) String.[] = String.[]
drop_runes (suc n) (String.◌∷◌ c s) = drop_runes n s

take-append-drop : (n : ℕ) (s : String) → Text.◌++◌ (take_runes n s) (drop_runes n s) ≡ s
unfolding take_runes drop_runes
take-append-drop zero s = nil-append s
take-append-drop (suc n) String.[] = nil-append ""
take-append-drop (suc n) (String.◌∷◌ c s) =
    simp cons-append (ap (String.◌∷◌ c) (take-append-drop n s))

-- The message is cut to at most 500 runes, and what is left is the start of the message: all of it
-- if it is short enough.
abbrev pub IsCut : String → String → Type 0
IsCut m cut =
    (rune_count cut ≤ health_message_max_len)
    × ((rest : String) × (Text.◌++◌ cut rest ≡ m)
        × ((rest ≡ "") ⊎ (rune_count cut ≡ health_message_max_len)))

cut_message-IsCut : (m : String) → IsCut m (cut_message m)
unfolding cut_message
cut_message-IsCut m = elim (Bool-cases (ltb health_message_max_len (rune_count m))) [
  | inl long ↦
      let full : rune_count (take_runes health_message_max_len m) ≡ health_message_max_len =
        rune_count-take_runes health_message_max_len m (ground (arith, long)) in
      rw long (omega (arith, full), (drop_runes 500 m, take-append-drop 500 m, inr full))
  | inr short ↦ rw short (ground (arith, short), ("", append-nil m, inl refl))
]

-- What the conditions of a status say of the health that a provider gave.
abbrev pub Reported : Option Health → Option Conditions → Option Bool → Type 0
Reported none shown pause = shown ≡ none
Reported (some h) shown pause =
    ((is_running pause ≡ false) × (shown ≡ none))
    ⊎ ((is_running pause ≡ true)
        × ((cut : String) × (shown
              ≡ some (record { health = some (record { status = h.status; message = cut }) }))
            × IsCut h.message cut))

module _ {PlanParams Config Details : Type 0} where
  -- A status reports the health exactly if the provider knows it and the service is not paused. The
  -- health's status is unchanged, and its message is cut to the 500 runes that Codesphere accepts:
  -- a prefix, the whole message if it fits.
  pub new_service_status-health :
      (plan : PlanParams) (config : Config) (details : Details) (pause : Option Bool)
      (error : Option String) (health : Option Health)
      → Reported health (new_service_status plan config details pause error health).conditions pause
  unfolding new_service_status
  new_service_status-health plan config details pause error none = refl
  new_service_status-health plan config details pause error (some h) =
      elim (Bool-cases (is_running pause)) [
        | inl e ↦ rw e (inr (refl, (cut_message h.message, refl, cut_message-IsCut h.message)))
        | inr e ↦ rw e (inl (refl, refl))
      ]
