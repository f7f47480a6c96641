-- ===== src/Access/Tokens.antt =====
-- The gate and the routes agree on what a token is.
use celine_grid.Prelude.{
  Text, text, text_eq, contains, ◌≡◌, ◌≢◌, ◌↔◌, true, false, none, arith, Option-cases, ◌⊎◌,
}
use celine_grid.Models.{http, Result, raise}
use celine_grid.Access.{Request, public_paths, has_token, extract_token, middleware}

module _ (lower : Text → Text) (jwt_header_name : Text) where
  -- The gate sees a token exactly where the routes find one.
  pub has_token_iff :
      (r : Request)
      → (has_token lower jwt_header_name r ≡ true) ↔ (extract_token lower jwt_header_name r ≢ none)
  unfolding has_token extract_token
  has_token_iff r = ground arith

  -- A request for a path that is not public reaches the application exactly where it carries a token,
  -- and is answered with 401 where it does not; a public path always reaches it.
  pub middleware_lem {ℓ} :
      {A : Type ℓ} (call_next : Request → Result A) (r : Request)
      → ((contains public_paths r.path ≡ true) ⊎ (extract_token lower jwt_header_name r ≢ none))
          × (middleware lower jwt_header_name call_next r ≡ call_next r)
        ⊎ (contains public_paths r.path ≡ false)
          × (extract_token lower jwt_header_name r ≡ none)
          × (middleware lower jwt_header_name call_next r
              ≡ raise (http 401 (text "Missing authentication token")))
  unfolding middleware
  middleware_lem call_next r = ground (
    arith,
    (has_token_iff r).0,
    (has_token_iff r).1,
    Option-cases (extract_token lower jwt_header_name r),
  )
