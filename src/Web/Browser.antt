-- ===== src/Web/Browser.antt =====
-- What the dashboard uses of JavaScript and the browser: truth of an optional text, the stored
-- token, the location, and a server's reply.
use ronak_agentk_runtime.Base.{
  ℕ, String, Bool, false, ◌&&◌, Option, none, some, Dict, non_empty, leb, if◌then◌else◌,
}

-- A text or undefined (or null), as a condition: the empty text is false.
abbrev pub is_truthy : Option String → Bool
is_truthy none = false
is_truthy (some s) = non_empty s

-- `x || d`
abbrev pub or_default : Option String → String → String
or_default none d = d
or_default (some s) d = if non_empty s then s else d

-- `x || 0`
abbrev pub or_zero : Option ℕ → ℕ
or_zero none = 0
or_zero (some n) = n

pub record Browser : Type 0 where
  -- localStorage's 'agentk_token'
  pub token : Option String
  -- window.location.href, as far as the code sets it
  pub location : String

-- JavaScript's numbers as an interface, with no law assumed.
pub record JsNumber : Type 1 where
  pub Number : Type 0
  pub zero : Number
  pub add : Number → Number → Number
  pub parse_float : String → Number
  -- toFixed(2)
  pub to_fixed_2 : Number → String

-- localStorage.setItem writes undefined as the text "undefined".
abbrev pub stored : Option String → String
stored none = "undefined"
stored (some s) = s

-- A body that res.json() may fail to read, with the error's message.
pub data Json (J : Type 0) : Type 0 where
  value : J → Json J
  malformed : String → Json J

pub data Reply (J : Type 0) : Type 0 where
  -- fetch rejects, with a message
  unreachable : String → Reply J
  -- the status, its text and the body
  answered : ℕ → String → Json J → Reply J

-- res.ok
abbrev pub is_ok : ℕ → Bool
is_ok status = leb 200 status && leb status 299

pub record Request : Type 0 where
  pub method : String
  pub url : String
  pub headers : Dict String
  pub body : Option String

-- What a promise settles to: a value, or an error's message.
pub data Outcome (J : Type 0) : Type 0 where
  returned : J → Outcome J
  thrown : String → Outcome J
