-- ===== src/Web/Routes/Menu.antt =====
-- What web-dashboard/frontend/src/components/Sidebar.tsx returns.
use ronak_agentk_runtime.Base.{String, Bool, List, [], ◌∷◌, ◌++◌, if◌then◌else◌}
use ronak_agentk_runtime.Web.Routes.{NavItem, sidebar}
use ronak_agentk_runtime.Web.Html.{attr, on_click, Node, words, svg, el, plain, says}

pub data MenuClick : Type 0 where
  -- the handler of "Sign Out"
  signed_out : MenuClick

-- NavItem
unfoldable pub nav_link : NavItem × Bool → Node MenuClick
nav_link (item, active) =
    el "a"
      (attr "href" item.path
        ∷ attr "class" (
            if active
            then "bg-gradient-to-r from-indigo-600/80 to-purple-600/60 text-white font-semibold shadow-lg shadow-indigo-500/20"
            else "text-slate-400 hover:text-white hover:bg-white/5")
        ∷ [])
      (el "span" (attr "class" (if active then "bg-white/20" else "bg-white/5") ∷ []) (svg ∷ [])
        ∷ words item.label
        ∷ [])

unfoldable pub nav_links : List (NavItem × Bool) → List (Node MenuClick)
unfolding nav_link
nav_links [] = []
nav_links (i ∷ rest) = nav_link i ∷ nav_links rest

unfoldable pub render : String → Node MenuClick
unfolding nav_links sidebar
render pathname =
    let (menu, intelligence) = sidebar pathname in
    plain "aside" (
      plain "div" (
        plain "div" (
          plain "div" (svg ∷ [])
          ∷ plain "div" (says "h1" "AgentK" ∷ says "p" "Sovereign Runtime" ∷ [])
          ∷ [])
        ∷ [])
      ∷ plain "nav" (
          says "p" "Main Menu"
          ∷ (nav_links menu ++ (says "p" "Intelligence" ∷ nav_links intelligence)))
      ∷ plain "div" (
          plain "div"
            (says "div" "A" ∷ plain "div" (says "p" "Admin" ∷ says "p" "Managed Tier" ∷ []) ∷ [])
          ∷ el "button" (on_click signed_out ∷ []) (svg ∷ words "Sign Out" ∷ [])
          ∷ [])
      ∷ [])
