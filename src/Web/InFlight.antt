-- ===== src/Web/InFlight.antt =====
-- A page with a form and its requests: what the user can do is what the page offers, and the replies
-- come in between.
use ronak_agentk_runtime.Base.{
  ℕ, suc, Bool, true, false, [], ◌≡◌, refl, ◌∙◌, ap, inl, inr, arith, Bool-cases, if◌then◌else◌,
}
use mathlib.Core.Path.{subst}
use mathlib.Core.List.{Memᴰ}
use mathlib.Core.List.Memᴰ
use ronak_agentk_runtime.Web.Html.{InputValue, Node}
use ronak_agentk_runtime.Web.Markup.{Control, controls, submissions}

-- A form's page: its elements, its handlers, and whether its button is disabled.
pub record FormPage (S E O : Type 0) : Type 0 where
  pub render : S → Node E
  pub edit : E → S → S
  pub start : S → S
  pub settle : O → S → S
  pub loading : S → Bool

one : {m n : ℕ} → m ≡ suc n → m ≡ 1 → n ≡ 0
one e h = omega arith

none_left : {m n : ℕ} → m ≡ suc n → m ≡ 0 → n ≡ 0
none_left e h = omega arith

module _ {S E O : Type 0} (p : FormPage S E O) where
  open p use {render, edit, start, settle, loading}

  pub record Live : Type 0 where
    pub page : S
    pub in_flight : ℕ

  pub data Step : Live → Live → Type 0 where
    -- a change of a control that the page has
    types :
        (l : Live) (c : Control E) (v : InputValue)
        → Memᴰ c (controls (render l.page))
        → Step l (record l { page = edit (c.change v) l.page })
    -- the form is submitted, where the page has a button for it
    sends :
        (l : Live) (e : E)
        → Memᴰ e (submissions (render l.page))
        → Step l (record { page = start l.page; in_flight = suc l.in_flight })
    -- a request settles
    settles :
        (l : Live) (n : ℕ) (o : O)
        → l.in_flight ≡ suc n
        → Step l (record { page = settle o l.page; in_flight = n })

  pub data Reach (l : Live) : Live → Type 0 where
    here : Reach l l
    next : {k j : Live} → Reach l k → Step k j → Reach l j

  -- What the handlers do to `loading`, and that a loading page offers no submission.
  pub record IsGuarded : Type 0 where
    pub edits : (e : E) (s : S) → loading (edit e s) ≡ loading s
    pub starts : (s : S) → loading (start s) ≡ true
    pub settled : (o : O) (s : S) → loading (settle o s) ≡ false
    pub closed : (s : S) → loading s ≡ true → submissions (render s) ≡ []

  -- One request while the page is loading, and none else.
  abbrev pub IsSingle : Live → Type 0
  IsSingle l = l.in_flight ≡ (if loading l.page then 1 else 0)

  Step-IsSingle : IsGuarded → {l k : Live} → Step l k → IsSingle l → IsSingle k
  Step-IsSingle g (types l c v m) h = rw (g.edits (c.change v) l.page) h
  Step-IsSingle g (sends l e m) h = elim (Bool-cases (loading l.page)) [
    | inl t ↦ elim (Memᴰ.not-nil (subst (Memᴰ e) (g.closed l.page t) m)) [ ]
    | inr f ↦ rw (g.starts l.page) (ap suc (h ∙ rw f refl))
  ]
  Step-IsSingle g (settles l n o e) h = elim (Bool-cases (loading l.page)) [
    | inl t ↦ rw (g.settled o l.page) (one e (h ∙ rw t refl))
    | inr f ↦ rw (g.settled o l.page) (none_left e (h ∙ rw f refl))
  ]

  pub Reach-IsSingle : IsGuarded → {l k : Live} → Reach l k → IsSingle l → IsSingle k
  Reach-IsSingle g here h = h
  Reach-IsSingle g (next r st) h = Step-IsSingle g st (Reach-IsSingle g r h)
