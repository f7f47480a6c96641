-- ===== src/Tests/Application.antt =====
-- A preflight of a browser, which carries no token.
use celine_grid.Prelude.{
  Text, text, text_eq, ◌==◌, ◌≡◌, refl, sym, subst, Bool, true, ◌&&◌, none, List, [], ◌∷◌, inl, inr,
  Bool-cases, arith, if◌then◌else◌,
}
use celine_grid.Prelude.Strings.{starts_with}
use celine_grid.Models.{http, Result, ok, raise}
use celine_grid.Access.{Request, has_token, middleware}
use celine_grid.Application.{Endpoint, create_app}
use celine_grid.Application.Guard.{may_fit, IsRouter, IsGated, create_app-IsGated}
use celine_grid.Tests.Data.{ascii_lower}

-- The first endpoint that fits.
abbrev first_fitting : List Endpoint → Text → Text → Result Endpoint
first_fitting [] method path = raise (http 404 (text "Not Found"))
first_fitting (e ∷ endpoints) method path =
    let rest = first_fitting endpoints method path in
    if e.method == method && may_fit e.path path then ok e else rest

first_fitting-IsRouter : IsRouter first_fitting
first_fitting-IsRouter [] method path e h = cc
first_fitting-IsRouter (d ∷ endpoints) method path e h =
    elim (Bool-cases (d.method == method && may_fit d.path path)) [
      | inl fits ↦
          let same : d ≡ e = ground (arith, h, fits) in
          (inl (sym same), subst (λ z. may_fit z.path path ≡ true) same (ground (arith, fits)))
      | inr other ↦
          let (m, fits) =
            first_fitting-IsRouter endpoints method path e (ground (arith, h, other)) in
          (inr m, fits)
    ]

abbrev preflight : Request
preflight = record { path = text "/api/me"; headers = λ name. none }

abbrev any_origin : Text → Request → Bool
any_origin method r = method == text "OPTIONS"

preflight_refused :
    create_app first_fitting any_origin [] ascii_lower (text "x-auth") (text "OPTIONS") preflight
    ≡ raise (http 401 (text "Missing authentication token"))
unfolding create_app middleware has_token starts_with text_eq
preflight_refused = refl

create_app-IsGated_example :
    IsGated first_fitting any_origin [] ascii_lower (text "x-auth") (text "OPTIONS") preflight (
      create_app first_fitting any_origin [] ascii_lower (text "x-auth") (text "OPTIONS") preflight)
create_app-IsGated_example =
    create_app-IsGated first_fitting any_origin [] ascii_lower (text "x-auth")
      first_fitting-IsRouter (text "OPTIONS") preflight
