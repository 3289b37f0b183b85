-- ===== src/Admission/Sources.antt =====
-- Which agents the webhook admits.
use ronak_agentk_runtime.Base.{
  ℕ, suc, String, Option, none, some, List, [], ◌∷◌, ◌++◌, All, ◌≡◌, ◌≢◌, ◌↔◌, ◌⊎◌, inl, inr, refl,
  arith, eq_iff, ◌==◌, ap, sym, ◌∙◌, Bool-cases, Option-cases,
}
use ronak_agentk_runtime.Kube.{ObjectReference}
use ronak_agentk_runtime.Admission.Errors.{FieldError, each}
use ronak_agentk_runtime.Admission.Agents.{Url, url_error, validate_http_scheme, validate_source}

module _ {ℓ} {A : Type ℓ} where
  pub append-eq-nil : (xs ys : List A) → (xs ++ ys ≡ []) ↔ ((xs ≡ []) × (ys ≡ []))
  append-eq-nil [] ys = (λ h. (refl, h), λ h. h.1)
  append-eq-nil (x ∷ xs) ys = (λ h. cc h, λ h. cc (h.0))

-- A check that has a meaning of its own for each element, whatever its index.
pub each-eq-nil {ℓ κ} :
    {A : Type ℓ} (check : A → ℕ → List FieldError) (P : A → Type κ)
    → ((x : A) (i : ℕ) → (check x i ≡ []) ↔ P x)
    → (i : ℕ) (xs : List A) → (each check i xs ≡ []) ↔ All P xs
each-eq-nil check P means i [] = (λ h. tt, λ h. refl)
each-eq-nil check P means i (x ∷ xs) =
    let both = append-eq-nil (check x i) (each check (suc i) xs) in
    let later = each-eq-nil check P means (suc i) xs in
    (
      λ h. ((means x i).0 (both.0 h).0, later.0 (both.0 h).1),
      λ h. both.1 ((means x i).1 h.0, later.1 h.1),
    )

module _ (parse : String → Option Url) where
  -- An http or https URL with a host.
  pub record IsHttp (url : String) : Type 0 where
    pub parsed : Url
    pub read : parse url ≡ some parsed
    pub scheme : (parsed.scheme ≡ "https") ⊎ (parsed.scheme ≡ "http")
    pub host : parsed.host ≢ ""

  -- Exactly one source: a reference with a name, or such a URL.
  pub data IsSource (ref : Option ObjectReference) (url : String) : Type 0 where
    by_ref : (r : ObjectReference) → ref ≡ some r → r.name ≢ "" → url ≡ "" → IsSource ref url
    by_url : ref ≡ none → url ≢ "" → IsHttp url → IsSource ref url

  url_error-none :
      (o : Option Url)
      → url_error o ≡ none
      → (u : Url) × (o ≡ some u) × ((u.scheme ≡ "https") ⊎ (u.scheme ≡ "http")) × (u.host ≢ "")
  url_error-none none h = cc h
  url_error-none (some u) h = (
    u,
    refl,
    ground (arith, eq_iff u.scheme "https", eq_iff u.scheme "http"),
    ground (arith, eq_iff u.host ""),
  )

  http_lem : (url : String) → url ≢ "" → (validate_http_scheme parse url ≡ none) ↔ IsHttp url
  unfolding validate_http_scheme
  http_lem url full = elim (Bool-cases (url == "")) [
    | inl e ↦ absurd (full ((eq_iff url "").0 e))
    | inr e ↦ rw e (
      λ h.
          let (u, read, scheme, host) = url_error-none (parse url) h in
          record { parsed = u; read = read; scheme = scheme; host = host },
      λ h. rw (h.read) (
          ground (
            arith,
            h.scheme,
            h.host,
            eq_iff h.parsed.scheme "https",
            eq_iff h.parsed.scheme "http",
            eq_iff h.parsed.host "",
          )),
    )
  ]

  pub validate_source_lem :
      (list name title : String) (ref : Option ObjectReference) (url : String) (i : ℕ)
      → (validate_source parse list name title ref url i ≡ []) ↔ IsSource ref url
  unfolding validate_source
  validate_source_lem list name title (some r) url i = elim (Bool-cases (url == "")) [
    | inl e ↦
        let empty = (eq_iff url "").0 e in
        elim (Bool-cases (r.name == "")) [
          | inl n ↦ rw (e, n) (λ h. cc h, λ h. absurd (no_name r url h ((eq_iff r.name "").0 n)))
          | inr n ↦
              rw (e, n)
                (λ h. by_ref r refl (λ same. cc ((eq_iff r.name "").1 same, n)) empty, λ h. refl)
        ]
    | inr e ↦
        rw e (λ h. cc h, λ h. absurd (no_url r url h (λ same. cc ((eq_iff url "").1 same, e))))
  ]
    where
      no_name : (r : ObjectReference) (url : String) → IsSource (some r) url → r.name ≢ ""
      no_name r url (by_ref q e full _) same =
          let rq : r ≡ q = cc e in full (sym (ap (λ (x : ObjectReference). x.name) rq) ∙ same)
      no_name r url (by_url e _ _) same = cc e

      no_url : (r : ObjectReference) (url : String) → IsSource (some r) url → url ≢ "" → ⊥
      no_url r url (by_ref q e _ empty) full = full empty
      no_url r url (by_url e _ _) full = cc e
  validate_source_lem list name title none url i = elim (Bool-cases (url == "")) [
    | inl e ↦ rw e (λ h. cc h, λ h. absurd (no_empty url h ((eq_iff url "").0 e)))
    | inr e ↦
        let full : url ≢ "" = λ same. cc ((eq_iff url "").1 same, e) in
        elim (Option-cases (validate_http_scheme parse url)) [
          | inl ok' ↦ rw (e, ok') (λ h. by_url refl full ((http_lem url full).0 ok'), λ h. refl)
          | inr (m, bad) ↦ rw (e, bad) (λ h. cc h, λ h. absurd (not_http url full m bad h))
        ]
  ]
    where
      no_empty : (url : String) → IsSource none url → url ≢ ""
      no_empty url (by_ref q e _ _) same = cc e
      no_empty url (by_url _ full _) same = full same

      not_http :
          (url : String)
          → url ≢ ""
          → (m : String) → validate_http_scheme parse url ≡ some m
          → IsSource none url
          → ⊥
      not_http url full m bad (by_ref q e _ _) = cc e
      not_http url full m bad (by_url _ _ http) = cc ((http_lem url full).1 http, bad)
