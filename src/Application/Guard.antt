-- ===== src/Application/Guard.antt =====
-- What of the application a request without a token reaches.
use celine_grid.Prelude.{
  Text, text, text_eq, ◌==◌, ==_iff, eqb, Bool, true, false, not, ◌&&◌, ◌||◌, none, List, [], ◌∷◌,
  ◌++◌, all, contains, In, ◌≡◌, ◌≢◌, refl, sym, ◌∙◌, subst, ◌⊎◌, inl, inr, arith, Bool-cases,
  if◌then◌else◌,
}
use celine_grid.Prelude.Strings.{starts_with}
use celine_grid.Models.{http, Result, ok, raise, ◌>>=◌}
use celine_grid.Access.{Request, public_paths, extract_token}
use celine_grid.Access.Tokens.{middleware_lem}
use celine_grid.Application.{
  Endpoint, health, create_api_router, Reached, by_cors, at, routed, behind_gate, create_app,
}

-- A template up to its first brace.
unfoldable literal : Text → Text
literal [] = []
literal (c ∷ path) = if eqb c b'{' then [] else c ∷ literal path

-- Whether a path may be one of the template: it starts with what precedes the first brace, and is
-- the template if it has no brace.
unfoldable pub may_fit : Text → Text → Bool
unfolding literal
may_fit template path =
    starts_with path (literal template) && (not (literal template == template) || path == template)

-- A router finds an endpoint of its list, of a template that the path may be one of.
abbrev pub IsRouter : (List Endpoint → Text → Text → Result Endpoint) → Type 0
IsRouter router =
    (endpoints : List Endpoint) (method path : Text) (e : Endpoint)
    → router endpoints method path ≡ ok e
    → In e endpoints × (may_fit e.path path ≡ true)

-- No path that is public is one of the API.
abbrev is_closed : Endpoint → Bool
is_closed e = all (λ path. not (may_fit e.path path)) public_paths

create_api_router_closed : all is_closed create_api_router ≡ true
unfolding create_api_router may_fit literal starts_with text_eq
create_api_router_closed = refl

all-In {ℓ} :
    {A : Type ℓ} (p : A → Bool) (x : A) (xs : List A) → all p xs ≡ true → In x xs → p x ≡ true
all-In p x [] h m = absurd m.lower
all-In p x (y ∷ ys) h (inl e) = subst (λ z. p z ≡ true) (sym e) (ground arith)
all-In p x (y ∷ ys) h (inr m) = all-In p x ys (ground arith) m

all-contains :
    (p : Text → Bool) (x : Text) (xs : List Text)
    → all p xs ≡ true
    → contains xs x ≡ true
    → p x ≡ true
all-contains p x [] h m = cc
all-contains p x (y ∷ ys) h m = elim (Bool-cases (x == y)) [
  | inl same ↦ subst (λ z. p z ≡ true) (sym ((==_iff x y).0 same)) (ground arith)
  | inr other ↦ all-contains p x ys (ground arith) (ground (arith, m, other))
]

In-append {ℓ} : {A : Type ℓ} (x : A) (xs ys : List A) → In x (xs ++ ys) → In x xs ⊎ In x ys
In-append x [] ys m = inr m
In-append x (z ∷ zs) ys (inl e) = inl (inl e)
In-append x (z ∷ zs) ys (inr m) = elim (In-append x zs ys m) [ inl a ↦ inl (inr a) | inr b ↦ inr b ]

-- An endpoint that takes a public path is none of the API.
not_api :
    (e : Endpoint) (path : Text)
    → In e create_api_router
    → contains public_paths path ≡ true
    → may_fit e.path path ≡ true
    → ⊥
not_api e path m public fits =
    let closed = all-In is_closed e create_api_router create_api_router_closed m in
    let none' = all-contains (λ p. not (may_fit e.path p)) path public_paths closed public in
    cc (none', fits)

module _ (router : List Endpoint → Text → Text → Result Endpoint)
    (cors_answers : Text → Request → Bool) (documentation : List Endpoint) (lower : Text → Text)
    (jwt_header_name : Text) where
  -- What a request without a token may reach.
  abbrev pub IsOpen : Reached → Type 0
  IsOpen by_cors = Unit
  IsOpen (at e) = In e documentation ⊎ (e ≡ health)

  listed :
      (e : Endpoint) (path : Text)
      → In e (documentation ++ (health ∷ create_api_router))
      → contains public_paths path ≡ true
      → may_fit e.path path ≡ true
      → In e documentation ⊎ (e ≡ health)
  listed e path m public fits = elim (In-append e documentation (health ∷ create_api_router) m) [
    | inl a ↦ inl a
    | inr (inl b) ↦ inr b
    | inr (inr c) ↦ absurd (not_api e path c public fits)
  ]

  found-IsOpen :
      IsRouter router
      → (method path : Text) (found : Result Endpoint) (x : Reached)
      → contains public_paths path ≡ true
      → router (documentation ++ (health ∷ create_api_router)) method path ≡ found
      → (found >>= λ e. ok (at e)) ≡ ok x
      → IsOpen x
  found-IsOpen is_router method path (raise e) x public f h = cc
  found-IsOpen is_router method path (ok e) x public f h =
      let (m, fits) = is_router _ method path e f in
      let same : at e ≡ x = cc in subst IsOpen same (listed e path m public fits)

  abbrev behind : Text → Request → Result Reached
  behind = behind_gate router cors_answers documentation lower jwt_header_name

  behind-IsOpen :
      IsRouter router
      → (method : Text) (r : Request) (x : Reached) → contains public_paths r.path ≡ true
      → behind method r ≡ ok x
      → IsOpen x
  unfolding behind_gate routed
  behind-IsOpen is_router method r x public h = elim (Bool-cases (cors_answers method r)) [
    | inl answered ↦ let same : by_cors ≡ x = ground (arith, h, answered) in subst IsOpen same tt
    | inr other ↦ found-IsOpen is_router method r.path _ x public refl (ground (arith, h, other))
  ]

  -- What becomes of a request.
  abbrev pub IsGated : Text → Request → Result Reached → Type 0
  IsGated method r out =
      (extract_token lower jwt_header_name r ≢ none) × (out ≡ behind method r)
      ⊎ (contains public_paths r.path ≡ true)
        × (out ≡ behind method r)
        × ((x : Reached) → out ≡ ok x → IsOpen x)
      ⊎ (contains public_paths r.path ≡ false)
        × (extract_token lower jwt_header_name r ≡ none)
        × (out ≡ raise (http 401 (text "Missing authentication token")))

  -- With a router that finds only endpoints of its list whose template the path may be one of: a
  -- request that carries a token passes the gate. So does one for a public path, and of the endpoints
  -- it reaches that of the health or one of the documentation at most. Any other request is answered
  -- with 401 by the gate, whatever CORSMiddleware answers to.
  pub create_app-IsGated :
      IsRouter router
      → (method : Text) (r : Request)
      → IsGated method r
          (create_app router cors_answers documentation lower jwt_header_name method r)
  unfolding create_app
  create_app-IsGated is_router method r =
      elim (middleware_lem lower jwt_header_name (behind method) r) [
        | inl (inl public, same) ↦
            inr
              (inl (public, same, λ x e. behind-IsOpen is_router method r x public (sym same ∙ e)))
        | inl (inr token, same) ↦ inl (token, same)
        | inr refused ↦ inr (inr refused)
      ]
