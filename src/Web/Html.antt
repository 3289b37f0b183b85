-- ===== src/Web/Html.antt =====
-- The elements that the pages of web-dashboard/frontend/src/pages return. A class name is kept only
-- where the code computes it, and an svg is one leaf.
use ronak_agentk_runtime.Base.{ℕ, String, Bool, Option, List, [], ◌∷◌, non_empty, if◌then◌else◌}
use Prim.Native.String.{◌++◌}

-- What an input hands over: a text, a number (initial values only) or a checkbox.
pub data InputValue : Type 0 where
  text : String → InputValue
  number : ℕ → InputValue
  checked : Bool → InputValue

-- An attribute; `E` is the type of the page's events.
pub data Attr (E : Type 0) : Type 0 where
  attr : String → String → Attr E
  flag : String → Bool → Attr E
  -- `value={…}` or `checked={…}`
  shows : Option InputValue → Attr E
  on_change : (InputValue → E) → Attr E
  on_submit : E → Attr E
  on_click : E → Attr E

mutual
  pub data Node (E : Type 0) : Type 0 where
    words : String → Node E
    svg : Node E
    node : String → List (Attr E) → Nodes E → Node E

  pub data Nodes (E : Type 0) : Type 0 where
    nil : Nodes E
    cons : Node E → Nodes E → Nodes E

abbrev pub dollars : String → String
dollars t = "$" ++ t

module _ {E : Type 0} where
  abbrev pub nodes : List (Node E) → Nodes E
  nodes [] = nil
  nodes (x ∷ xs) = cons x (nodes xs)

  -- `<tag …>…</tag>`
  abbrev pub el : String → List (Attr E) → List (Node E) → Node E
  el tag attrs children = node tag attrs (nodes children)

  abbrev pub plain : String → List (Node E) → Node E
  plain tag children = el tag [] children

  -- `<tag>text</tag>`
  abbrev pub says : String → String → Node E
  says tag t = el tag [] (words t ∷ [])

  -- `{text && node}`: the empty text renders nothing.
  abbrev pub when_text : String → Node E → List (Node E)
  when_text t x = if non_empty t then x ∷ [] else []

  abbrev pub when : Bool → Node E → List (Node E)
  when b x = if b then x ∷ [] else []
