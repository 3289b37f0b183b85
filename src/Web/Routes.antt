-- ===== src/Web/Routes.antt =====
-- web-dashboard/frontend/src/App.tsx and components/Sidebar.tsx
pub mod Menu
use ronak_agentk_runtime.Base.{
  String, Bool, Option, none, some, List, [], ◌∷◌, map, ◌==◌, if◌then◌else◌, take, drop,
}
use ronak_agentk_runtime.Web.Browser.{Browser, is_truthy}

pub data Page : Type 0 where
  login_page dashboard live_agents new_agent cost_graph attestation simulation : Page

-- What React renders: a page by itself, a page beside the sidebar, or a redirection.
pub data View : Type 0 where
  bare : Page → View
  with_sidebar : Page → View
  navigate : String → View

-- isLoggedIn
unfoldable pub is_logged_in : Browser → Bool
is_logged_in b = is_truthy b.token

-- ProtectedLayout
unfoldable pub protected_layout : Browser → Page → View
unfolding is_logged_in
protected_layout b page = if is_logged_in b then with_sidebar page else navigate "/login"

-- The routes: a path that is not listed renders nothing. `match_form` is what react-router makes of
-- a path before it compares it: it drops a trailing slash and ignores case.
unfoldable pub route : (String → String) → Browser → String → Option View
unfolding protected_layout
route match_form b opened =
    let path = match_form opened in
    if path == "/login"
    then some (bare login_page)
    else if path == "/"
    then some (protected_layout b dashboard)
    else if path == "/agents"
    then some (protected_layout b live_agents)
    else if path == "/agents/new"
    then some (protected_layout b new_agent)
    else if path == "/cost"
    then some (protected_layout b cost_graph)
    else if path == "/attestation"
    then some (protected_layout b attestation)
    else if path == "/simulation"
    then some (protected_layout b simulation)
    else none

pub record NavItem : Type 0 where
  pub path : String
  pub label : String

abbrev item : String → String → NavItem
item path label = record { path = path; label = label }

-- Sidebar.tsx's `nav`, without the icons
unfoldable pub nav : List NavItem
nav =
    item "/" "Dashboard"
    ∷ item "/agents" "Live Agents"
    ∷ item "/agents/new" "New Agent"
    ∷ item "/cost" "Cost Intelligence"
    ∷ item "/attestation" "TEE Attestation"
    ∷ item "/simulation" "Simulation"
    ∷ []

-- NavItem's `active`
abbrev pub is_active : String → NavItem → Bool
is_active pathname i = pathname == i.path

-- The two sections of the menu: nav.slice(0, 3) and nav.slice(3), each item with its `active`.
unfoldable pub sidebar : String → List (NavItem × Bool) × List (NavItem × Bool)
unfolding nav
sidebar pathname = (
  map (λ i. (i, is_active pathname i)) (take 3 nav),
  map (λ i. (i, is_active pathname i)) (drop 3 nav),
)

-- the handler of "Sign Out"
unfoldable pub sign_out : Browser → Browser
sign_out b = record { token = none; location = "/login" }
