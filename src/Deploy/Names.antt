-- ===== src/Deploy/Names.antt =====
-- What sanitizeAgentName of internal/controller/agent_config.go makes of a name.
use Prim.Native.Char.{code}
use mathlib.Core.Path.{subst}
use ronak_agentk_runtime.Base.{String, true, false, ◌≡◌, ◌↔◌, inl, inr, refl, ap, ◌∙◌, Bool-cases}
use ronak_agentk_runtime.Deploy.Template.{
  is_digit, is_word, begin_well, sanitize_chars, sanitize_agent_name,
}

abbrev Words : String → Type 0
Words String.[] = Unit
Words (String.◌∷◌ c s) = (is_word (code c) ≡ true) × Words s

abbrev StartsWell : String → Type 0
StartsWell String.[] = ⊥
StartsWell (String.◌∷◌ c s) = is_digit (code c) ≡ false

-- A name of an environment variable: letters, digits and underscores, at least one, and no digit
-- first.
pub record IsEnvName (s : String) : Type 0 where
  pub words : Words s
  pub starts : StartsWell s

sanitize_chars-Words : (s : String) → Words (sanitize_chars s)
unfolding sanitize_chars
sanitize_chars-Words String.[] = tt
sanitize_chars-Words (String.◌∷◌ c s) = elim (Bool-cases (is_word (code c))) [
  | inl yes' ↦ rw yes' (yes', sanitize_chars-Words s)
  | inr no' ↦ rw no' (refl, sanitize_chars-Words s)
]

sanitize_chars_keeps : (s : String) → Words s → sanitize_chars s ≡ s
unfolding sanitize_chars
sanitize_chars_keeps String.[] h = refl
sanitize_chars_keeps (String.◌∷◌ c s) (h, rest) =
    rw h (ap (λ (t : String). String.◌∷◌ c t) (sanitize_chars_keeps s rest))

begin_well-IsEnvName : (s : String) → Words s → IsEnvName (begin_well s)
begin_well-IsEnvName String.[] h = record {
  words = (refl, (refl, (refl, (refl, (refl, tt)))));
  starts = refl;
}
begin_well-IsEnvName (String.◌∷◌ c s) h = elim (Bool-cases (is_digit (code c))) [
  | inl yes' ↦ rw yes' (record { words = (refl, h); starts = refl })
  | inr no' ↦ rw no' (record { words = h; starts = no' })
]

begin_well_keeps : (s : String) → StartsWell s → begin_well s ≡ s
begin_well_keeps String.[] h = elim h [ ]
begin_well_keeps (String.◌∷◌ c s) h = rw h refl

-- The sanitised name of an agent is the name of an environment variable: it has letters, digits
-- and underscores only, at least one, and no digit first; and the sanitiser keeps exactly the
-- names that are of this form already.
pub sanitize_agent_name-IsEnvName :
    (s : String) → IsEnvName (sanitize_agent_name s) × ((sanitize_agent_name s ≡ s) ↔ IsEnvName s)
unfolding sanitize_agent_name
sanitize_agent_name-IsEnvName s = (fine, (λ e. subst IsEnvName e fine, keeps))
  where
    fine : IsEnvName (begin_well (sanitize_chars s))
    fine = begin_well-IsEnvName (sanitize_chars s) (sanitize_chars-Words s)

    keeps : IsEnvName s → begin_well (sanitize_chars s) ≡ s
    keeps h = ap begin_well (sanitize_chars_keeps s h.words) ∙ begin_well_keeps s h.starts
