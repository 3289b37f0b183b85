-- ===== src/Admission/Errors.antt =====
-- field.Error of k8s.io/apimachinery: where, of which kind, and what. `append` collects; a list
-- with no error is admitted.
use ronak_agentk_runtime.Base.{
  Option, none, some, ℕ, String, Bool, List, [], ◌∷◌, ◌++◌, itoa, if◌then◌else◌,
}
use Prim.Native.String

pub data ErrorKind : Type 0 where
  invalid required forbidden : ErrorKind

pub record FieldError : Type 0 where
  pub kind : ErrorKind
  pub field : String
  pub detail : String

-- `if test { errs = append(errs, e) }`
abbrev pub when : Bool → FieldError → List FieldError
when test e = if test then e ∷ [] else []

-- `if err != nil { errs = append(errs, e) }`
abbrev pub when_some : Option String → (String → FieldError) → List FieldError
when_some none e = []
when_some (some m) e = e m ∷ []

-- field.NewPath("spec", name).Index(i)
unfoldable pub index : String → ℕ → String
unfolding itoa
index name i = String.◌++◌ "spec." (String.◌++◌ name (String.◌++◌ "[" (String.◌++◌ (itoa i) "]")))

-- A loop over a list with its index, each round adding errors.
abbrev pub each {ℓ} : {A : Type ℓ} → (A → ℕ → List FieldError) → ℕ → List A → List FieldError
each check i [] = []
each check i (x ∷ xs) = check x i ++ each check (ℕ.suc i) xs
