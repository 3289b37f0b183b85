-- ===== src/Web/Markup.antt =====
-- What can be read off a page: its controls, its enabled submit buttons, how often a tag occurs,
-- and its words.
use ronak_agentk_runtime.Base.{
  ℕ, ◌+◌, String, Bool, false, not, ◌&&◌, ◌||◌, Option, none, List, [], ◌∷◌, ◌++◌, ◌==◌,
  if◌then◌else◌,
}
use ronak_agentk_runtime.Web.Html.{
  InputValue, Attr, attr, flag, shows, on_change, on_submit, on_click, Node, words, svg, node,
  Nodes, nil, cons,
}

-- An input: what it shows, and the event of a change.
pub record Control (E : Type 0) : Type 0 where
  pub shown : Option InputValue
  pub change : InputValue → E

module _ {E : Type 0} where
  abbrev pub shown_of : List (Attr E) → Option InputValue
  shown_of [] = none
  shown_of (shows v ∷ _) = v
  shown_of (_ ∷ as') = shown_of as'

  abbrev pub control_of : List (Attr E) → List (Attr E) → List (Control E)
  control_of all [] = []
  control_of all (on_change f ∷ _) = record { shown = shown_of all; change = f } ∷ []
  control_of all (_ ∷ as') = control_of all as'

  -- type="submit"
  abbrev pub is_submit : List (Attr E) → Bool
  is_submit [] = false
  is_submit (attr name value ∷ as') = ((name == "type") && (value == "submit")) || is_submit as'
  is_submit (_ ∷ as') = is_submit as'

  abbrev pub is_disabled : List (Attr E) → Bool
  is_disabled [] = false
  is_disabled (flag name b ∷ as') = ((name == "disabled") && b) || is_disabled as'
  is_disabled (_ ∷ as') = is_disabled as'

  abbrev pub submit_of : List (Attr E) → List E
  submit_of [] = []
  submit_of (on_submit e ∷ _) = e ∷ []
  submit_of (_ ∷ as') = submit_of as'

module _ {E : Type 0} where
  abbrev pub clicks_of : List (Attr E) → List E
  clicks_of [] = []
  clicks_of (on_click e ∷ as') = e ∷ clicks_of as'
  clicks_of (_ ∷ as') = clicks_of as'

unfoldable mutual
  pub controls : {E : Type 0} → Node E → List (Control E)
  controls (words t) = []
  controls svg = []
  controls (node tag attrs kids) = control_of attrs attrs ++ controls_all kids

  pub controls_all : {E : Type 0} → Nodes E → List (Control E)
  controls_all nil = []
  controls_all (cons x xs) = controls x ++ controls_all xs

-- Whether some button submits: type="submit", and not disabled.
unfoldable mutual
  pub can_submit : {E : Type 0} → Node E → Bool
  can_submit (words t) = false
  can_submit svg = false
  can_submit (node tag attrs kids) =
      ((tag == "button") && (is_submit attrs && not (is_disabled attrs))) || can_submit_all kids

  pub can_submit_all : {E : Type 0} → Nodes E → Bool
  can_submit_all nil = false
  can_submit_all (cons x xs) = can_submit x || can_submit_all xs

-- The events of the forms that have a button to submit them.
unfoldable mutual
  pub submissions : {E : Type 0} → Node E → List E
  submissions (words t) = []
  submissions svg = []
  submissions (node tag attrs kids) =
      (if can_submit_all kids then submit_of attrs else []) ++ submissions_all kids

  pub submissions_all : {E : Type 0} → Nodes E → List E
  submissions_all nil = []
  submissions_all (cons x xs) = submissions x ++ submissions_all xs

unfoldable mutual
  pub count_tag : {E : Type 0} → String → Node E → ℕ
  count_tag t (words w) = 0
  count_tag t svg = 0
  count_tag t (node tag attrs kids) = (if tag == t then 1 else 0) + count_tag_all t kids

  pub count_tag_all : {E : Type 0} → String → Nodes E → ℕ
  count_tag_all t nil = 0
  count_tag_all t (cons x xs) = count_tag t x + count_tag_all t xs

-- The events of the clicks that the page offers, in order.
unfoldable mutual
  pub clicks : {E : Type 0} → Node E → List E
  clicks (words t) = []
  clicks svg = []
  clicks (node tag attrs kids) = clicks_of attrs ++ clicks_all kids

  pub clicks_all : {E : Type 0} → Nodes E → List E
  clicks_all nil = []
  clicks_all (cons x xs) = clicks x ++ clicks_all xs
