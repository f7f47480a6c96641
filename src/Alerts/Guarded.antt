-- ===== src/Alerts/Guarded.antt =====
-- Who changes what by a request to the alerts API.
use celine_grid.Prelude.{
  Text, text, ◌≡◌, refl, sym, ◌∙◌, subst, Bool, true, false, some, ◌⊎◌, inl, inr, Bool-cases,
}
use celine_grid.Models.{Error, http, Db, Result, ok, raise}
use celine_grid.Identity.{JwtUser}
use celine_grid.Policy.{Decision, grid_rego}
use celine_grid.Access.{
  TokenCheck, Request, admit, reason_or, require_alerts_read, require_alerts_write,
  resolve_dso_network, middleware, get_user_from_request,
}
use celine_grid.Access.Ownership.{
  is_service_caller, caller_scope, require_alerts_read_iff, require_alerts_write_iff,
}
use celine_grid.Access.Tokens.{middleware_lem}
use celine_grid.Alerts.{create_valid, update_valid}
use celine_grid.Alerts.Runs.{
  Call, list_rules, create_rule, update_rule, delete_rule, get_settings, put_settings, checked,
  after, after-IsSafe,
}
use celine_grid.Alerts.Isolation.{WellFormed, IsSafe}
use celine_grid.Alerts.Gate.{
  Response, responds, if_valid, route, require_for, route_for, require_user, serve_call,
}

abbrev pub MayRead : JwtUser → Type 0
MayRead user = (is_service_caller user ≡ false) ⊎ (caller_scope user (text "grid.admin") ≡ true)

abbrev pub MayWrite : JwtUser → Type 0
MayWrite user =
    (is_service_caller user ≡ true) × (caller_scope user (text "grid.admin") ≡ true)
    ⊎ (is_service_caller user ≡ false) × ((n : Text) × (resolve_dso_network user ≡ ok n))

-- What the caller needs for a call.
abbrev pub May : Call → JwtUser → Type 0
May list_rules user = MayRead user
May (get_settings id now) user = MayRead user
May (create_rule id now body) user = MayWrite user
May (update_rule id body now) user = MayWrite user
May (delete_rule id) user = MayWrite user
May (put_settings id now body) user = MayWrite user

responds-db {ℓ} :
    {A : Type ℓ} (respond : A → Response) (out : Result A × Db) → (responds respond out).1 ≡ out.1
responds-db respond (ok a, db) = refl
responds-db respond (raise e, db) = refl

if_valid-db :
    (valid : Bool) (db : Db) (handled : Result Response × Db) (db' : Db)
    → handled.1 ≡ db'
    → (if_valid valid db handled).1 ≡ checked valid db' db
unfolding checked
if_valid-db true db handled db' e = e
if_valid-db false db handled db' e = refl

-- The tables after a route are those of the calls one after the other.
route-after : (user : JwtUser) (call : Call) (db : Db) → (route user call db).1 ≡ after user call db
unfolding route after
route-after user list_rules db = responds-db _ _
route-after user (create_rule id now body) db =
    if_valid-db (create_valid body) db _ _ (responds-db _ _)
route-after user (update_rule id body now) db =
    if_valid-db (update_valid body) db _ _ (responds-db _ _)
route-after user (delete_rule id) db = responds-db _ _
route-after user (get_settings id now) db = responds-db _ _
route-after user (put_settings id now body) db = responds-db _ _

require_for-May :
    (call : Call) (dev : Bool) (user : JwtUser)
    → require_for call dev (some grid_rego) user ≡ ok user
    → May call user
unfolding require_for
require_for-May list_rules dev user = (require_alerts_read_iff dev user).0
require_for-May (get_settings id now) dev user = (require_alerts_read_iff dev user).0
require_for-May (create_rule id now body) dev user = (require_alerts_write_iff dev user).0
require_for-May (update_rule id body now) dev user = (require_alerts_write_iff dev user).0
require_for-May (delete_rule id) dev user = (require_alerts_write_iff dev user).0
require_for-May (put_settings id now body) dev user = (require_alerts_write_iff dev user).0

May-require_for :
    (call : Call) (dev : Bool) (user : JwtUser)
    → May call user
    → require_for call dev (some grid_rego) user ≡ ok user
unfolding require_for
May-require_for list_rules dev user = (require_alerts_read_iff dev user).1
May-require_for (get_settings id now) dev user = (require_alerts_read_iff dev user).1
May-require_for (create_rule id now body) dev user = (require_alerts_write_iff dev user).1
May-require_for (update_rule id body now) dev user = (require_alerts_write_iff dev user).1
May-require_for (delete_rule id) dev user = (require_alerts_write_iff dev user).1
May-require_for (put_settings id now body) dev user = (require_alerts_write_iff dev user).1

-- The same caller, or nobody.
abbrev IsLetThrough : JwtUser → Result JwtUser → Type 0
IsLetThrough user r = (r ≡ ok user) ⊎ ((e : Error) × (r ≡ raise e))

admit-IsLetThrough : (d : Decision) (user : JwtUser) → IsLetThrough user (admit d user)
unfolding admit
admit-IsLetThrough d user = elim (Bool-cases d.allowed) [
  | inl allowed ↦ inl (rw allowed refl)
  | inr denied ↦ inr (http 403 (reason_or d.reason), rw denied refl)
]

require_for-IsLetThrough :
    (call : Call) (dev : Bool) (user : JwtUser)
    → IsLetThrough user (require_for call dev (some grid_rego) user)
unfolding require_for require_alerts_read require_alerts_write
require_for-IsLetThrough list_rules dev user = admit-IsLetThrough _ user
require_for-IsLetThrough (get_settings id now) dev user = admit-IsLetThrough _ user
require_for-IsLetThrough (create_rule id now body) dev user = admit-IsLetThrough _ user
require_for-IsLetThrough (update_rule id body now) dev user = admit-IsLetThrough _ user
require_for-IsLetThrough (delete_rule id) dev user = admit-IsLetThrough _ user
require_for-IsLetThrough (put_settings id now body) dev user = admit-IsLetThrough _ user

-- The call of a caller who may make it is that of the route, and leaves the rows of all others as
-- they are; any other one is answered with an error and leaves the tables as they are.
abbrev pub IsServed : Result JwtUser → Call → Db → Result Response × Db → Type 0
IsServed caller call db out =
    ((user : JwtUser) × (caller ≡ ok user)
      × May call user
      × (out ≡ route user call db)
      × IsSafe user.sub db out.1)
    ⊎ ((e : Error) × (out ≡ (raise e, db))
        × ((user : JwtUser) → caller ≡ ok user → ¬ (May call user)))

route-IsServed :
    (caller : Result JwtUser) (user : JwtUser) (call : Call) (db : Db)
    → WellFormed db
    → caller ≡ ok user
    → May call user
    → IsServed caller call db (route user call db)
route-IsServed caller user call db w e m = inl (
  user,
  e,
  m,
  refl,
  subst (IsSafe user.sub db) (sym (route-after user call db)) (after-IsSafe user call db w),
)

route_for-IsServed :
    (caller : Result JwtUser) (user : JwtUser) (dev : Bool) (call : Call) (db : Db)
    → WellFormed db
    → caller ≡ ok user
    → IsServed caller call db (route_for (require_for call dev (some grid_rego) user) call db)
unfolding route_for
route_for-IsServed caller user dev call db w e = elim (require_for-IsLetThrough call dev user) [
  | inl through ↦
      rw through (route-IsServed caller user call db w e (require_for-May call dev user through))
  | inr (x, f) ↦ rw f (inr (x, refl, λ v g m. refused v g m x f))
]
  where
    refused :
        (v : JwtUser)
        → caller ≡ ok v
        → May call v
        → (x : Error) → require_for call dev (some grid_rego) user ≡ raise x
        → ⊥
    refused v g m x f =
        let same : user ≡ v = cc in
        let through = May-require_for call dev user (subst (May call) (sym same) m) in
        cc (through, f)

require_user-IsServed :
    (caller : Result JwtUser) (dev : Bool) (call : Call) (db : Db)
    → WellFormed db
    → IsServed caller call db (require_user dev (some grid_rego) caller call db)
unfolding require_user
require_user-IsServed (raise e) dev call db w = inr (e, refl, λ v g m. cc)
require_user-IsServed (ok user) dev call db w = route_for-IsServed (ok user) user dev call db w refl

module _ (lower : Text → Text) (jwt_header_name : Text) (from_token : Text → TokenCheck) where
  -- Who the token of a request names.
  abbrev pub caller_of : Request → Result JwtUser
  caller_of = get_user_from_request lower jwt_header_name from_token

  -- The gate answers what the dependency of the route would answer.
  middleware-caller_of : (r : Request) → middleware lower jwt_header_name caller_of r ≡ caller_of r
  unfolding get_user_from_request
  middleware-caller_of r = elim (middleware_lem lower jwt_header_name caller_of r) [
    | inl (through, same) ↦ same
    | inr (guarded, missing, refused) ↦ refused ∙ sym (rw (missing, get_user_from_request) refl)
  ]

  -- Under the rules of the bundle and from well-formed tables, whatever the request: a call that the
  -- caller of the token may make is answered by its route, keeps the tables well-formed and leaves the
  -- rows of all other users as they are; in any other case an error is answered and the tables are
  -- left as they were. Service accounts with `grid.admin` may make any call, and other service
  -- accounts none; any other caller may read, and may write if there is one network of the caller's.
  pub serve_call-IsServed :
      (dev : Bool) (r : Request) (call : Call) (db : Db)
      → WellFormed db
      → IsServed
          (caller_of r)
          call
          db
          (serve_call lower jwt_header_name from_token dev (some grid_rego) r call db)
  unfolding serve_call
  serve_call-IsServed dev r call db w =
      rw (middleware-caller_of r) (require_user-IsServed (caller_of r) dev call db w)
