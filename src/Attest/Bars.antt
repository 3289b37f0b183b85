-- ===== src/Attest/Bars.antt =====
-- Texts joined by '|', as the hashed texts are: two that agree have the same parts, if the first
-- parts hold no '|'.
use Prim.Native.Char.{Char, code}
use Prim.Native.String.{◌++◌}
use Prim.Native.String.append
use ronak_agentk_runtime.Base.{String, Bool, true, not, ◌&&◌, eqb, ◌≡◌, ap, refl, sym, ◌∙◌, arith}

unfoldable pub bar_free : String → Bool
bar_free String.[] = true
bar_free (String.◌∷◌ c s) = not (eqb (code c) 124) && bar_free s

abbrev bar : Char
bar = "|"

abbrev first : Char → String → Char
first d String.[] = d
first d (String.◌∷◌ c s) = c

abbrev rest : String → String
rest String.[] = ""
rest (String.◌∷◌ c s) = s

-- A text behind its bar, one character at a time.
behind : String → String
behind c = String.◌∷◌ bar c

behind_lem : (c : String) → "|" ++ c ≡ behind c
unfolding behind
behind_lem c = append.cons bar "" c ∙ ap (String.◌∷◌ bar) (append.nil c)

parts :
    (p q c d : String)
    → bar_free p ≡ true
    → bar_free q ≡ true
    → p ++ behind c ≡ q ++ behind d
    → (p ≡ q) × (c ≡ d)
unfolding bar_free behind
parts String.[] String.[] c d hp hq e =
    let e' = sym (append.nil _) ∙ e ∙ append.nil _ in (refl, ap rest e')
parts (String.◌∷◌ x p) String.[] c d hp hq e =
    let e' = sym (append.cons x p _) ∙ e ∙ append.nil _ in
    let x124 : code x ≡ 124 = ap (λ s. code (first x s)) e' in absurd (ground arith)
parts String.[] (String.◌∷◌ y q) c d hp hq e =
    let e' = sym (append.nil _) ∙ e ∙ append.cons y q _ in
    let y124 : 124 ≡ code y = ap (λ s. code (first y s)) e' in absurd (ground arith)
parts (String.◌∷◌ x p) (String.◌∷◌ y q) c d hp hq e =
    let e' = sym (append.cons x p _) ∙ e ∙ append.cons y q _ in
    let xy : x ≡ y = ap (first x) e' in
    let (pq, cd) = parts p q c d (ground arith) (ground arith) (ap rest e') in (cc (xy, pq), cd)

pub joined_parts :
    (p q c d : String)
    → bar_free p ≡ true
    → bar_free q ≡ true
    → p ++ "|" ++ c ≡ q ++ "|" ++ d
    → (p ≡ q) × (c ≡ d)
joined_parts p q c d hp hq e =
    parts p q c d hp hq
      (ap (λ t. p ++ t) (sym (behind_lem c)) ∙ e ∙ ap (λ t. q ++ t) (behind_lem d))
