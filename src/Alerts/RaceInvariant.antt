-- ===== src/Alerts/RaceInvariant.antt =====
-- What an open call has read still stands after any step of another.
use celine_grid.Prelude.{
  ℕ, Text, text_eq, true, false, Option, none, some, List, [], ◌∷◌, ◌++◌, ◌≡◌, ◌≢◌, refl, sym,
  subst, arith, Bool-cases, inl, inr, All,
}
use celine_grid.Prelude.Tables.{AllOf, AllOf-found, own-cases, keep-first}
use celine_grid.Models.{AlertRule, Db, Result, ok, raise, scalar_one_or_none}
use celine_grid.Identity.{JwtUser}
use celine_grid.Alerts.{AlertRuleCreate}
use celine_grid.Alerts.Handlers.{own_rule, has_rule, new_rule, insert_rule, create_on}
use celine_grid.Alerts.Isolation.{rule_id, rule_user, WellFormed}
use celine_grid.Alerts.Overlap.{user_of, found_of}
use celine_grid.Alerts.Interleavings.{Remembers, Remembers-Grows}
use celine_grid.Alerts.Races.{Open, of_settings, updating, deleting, finish_open, was_used, Traffic}
use celine_grid.Alerts.RaceSteps.{
  AreUsed, AreUsed-keep, IsTame, Recalls, IsStep, finish_update-IsStep, finish_delete-IsStep,
  finish-IsStep,
}

abbrev pub user_of_open : Open → Text
user_of_open (of_settings call) = user_of call
user_of_open (updating body user found) = user
user_of_open (deleting user found) = user

-- What an open call has read still stands.
abbrev pub IsOpen : Db → List ℕ → Open → Type 0
IsOpen db used (of_settings call) = Remembers (user_of call) (found_of call) db.settings
IsOpen db used (updating body user found) = Recalls user found used db.rules
IsOpen db used (deleting user found) = Recalls user found used db.rules

abbrev pub IsSound : Traffic → Type 0
IsSound t = WellFormed t.db × AreUsed t.used t.db.rules × All (IsOpen t.db t.used) t.open_calls

pub finish_open-IsStep :
    (id now : ℕ) (call : Open) (used : List ℕ) (db : Db)
    → WellFormed db
    → IsOpen db used call
    → IsStep (user_of_open call) used db (finish_open id now call db)
unfolding finish_open
finish_open-IsStep id now (of_settings call) used db w h = finish-IsStep id now call used db w h
finish_open-IsStep id now (updating body user found) used db w h =
    finish_update-IsStep found body now user used db w h
finish_open-IsStep id now (deleting user found) used db w h =
    finish_delete-IsStep found user used db w h

IsTame-Recalls :
    (user : Text) (found : Result (Option AlertRule)) (used : List ℕ) (db db' : Db)
    → IsTame used db db'
    → Recalls user found used db.rules
    → Recalls user found used db'.rules
IsTame-Recalls user (raise e) used db db' t h = h
IsTame-Recalls user (ok none) used db db' t h = h
IsTame-Recalls user (ok (some r)) used db db' t h = (h.0, h.1, t.1 r.id user h.2)

pub IsTame-IsOpen :
    (used : List ℕ) (db db' : Db) (call : Open)
    → IsTame used db db'
    → IsOpen db used call
    → IsOpen db' used call
IsTame-IsOpen used db db' (of_settings call) t h =
    Remembers-Grows db.settings db'.settings (user_of call) (found_of call) t.0 h
IsTame-IsOpen used db db' (updating body user found) t h = IsTame-Recalls user found used db db' t h
IsTame-IsOpen used db db' (deleting user found) t h = IsTame-Recalls user found used db db' t h

pub All-map {ℓ κ μ} :
    {A : Type ℓ} (P : A → Type κ) (Q : A → Type μ) (xs : List A)
    → ((x : A) → P x → Q x)
    → All P xs
    → All Q xs
All-map P Q [] f h = tt
All-map P Q (x ∷ xs) f h = (f x h.0, All-map P Q xs f h.1)

-- A read of a rule of the user.
pub own_rule-Recalls :
    (id : ℕ) (user : Text) (used : List ℕ) (db : Db)
    → WellFormed db
    → AreUsed used db.rules
    → Recalls user (scalar_one_or_none (own_rule id user db.rules)) used db.rules
unfolding own_rule scalar_one_or_none
own_rule-Recalls id user used db w h = elim (own-cases rule_id rule_user id user db.rules w.0) [
  | inl e ↦ rw e tt
  | inr (r, e) ↦
      let mine = keep-first rule_id rule_user _ db.rules r [] e in
      let same : r.user_id ≡ user = ground (arith, mine) in
      let owners = AllOf-found rule_id rule_user _ db.rules r [] w.0 e in
      rw e (
        same,
        (subst (AreUsed used) e (AreUsed-keep _ used db.rules h)).0,
        subst (λ u. AllOf rule_id rule_user r.id u db.rules) same owners,
      )
]

other_id : (used : List ℕ) (id k : ℕ) → was_used id used ≡ false → was_used k used ≡ true → id ≢ k
other_id used id k new old same =
    let both = subst (λ n. was_used n used ≡ false) same new in cc (both, old)

-- The ids of the open calls are no new ones.
appended :
    (used : List ℕ) (id : ℕ) (rule : AlertRule) (k : ℕ) (u : Text) (rows : List AlertRule)
    → rule.id ≡ id
    → was_used id used ≡ false
    → was_used k used ≡ true
    → AllOf rule_id rule_user k u rows
    → AllOf rule_id rule_user k u (rows ++ (rule ∷ []))
appended used id rule k u [] e new old h =
    ((λ q. absurd (other_id used id k new old (ground (arith, e, q)))), tt)
appended used id rule k u (row ∷ rows) e new old h =
    (h.0, appended used id rule k u rows e new old h.1)

AreUsed-new_id :
    (used : List ℕ) (id : ℕ) (rows : List AlertRule) → AreUsed used rows → AreUsed (id ∷ used) rows
AreUsed-new_id used id rows = All-map _ _ rows (λ r h. ground (arith, h))

AreUsed-append :
    (used : List ℕ) (rule : AlertRule) (rows : List AlertRule)
    → AreUsed used rows
    → AreUsed (rule.id ∷ used) (rows ++ (rule ∷ []))
AreUsed-append used rule [] h = (ground arith, tt)
AreUsed-append used rule (row ∷ rows) h = (ground (arith, h.0), AreUsed-append used rule rows h.1)

-- What a creation with a new id leaves for the open calls.
abbrev IsCreated : ℕ → List ℕ → Db → Db → Type 0
IsCreated id used db db' =
    (db'.settings ≡ db.settings)
    × ((k : ℕ) (u : Text)
        → was_used k used ≡ true
        → AllOf rule_id rule_user k u db.rules
        → AllOf rule_id rule_user k u db'.rules)
    × AreUsed (id ∷ used) db'.rules

insert_rule-IsCreated :
    (rule : AlertRule) (used : List ℕ) (db : Db)
    → was_used rule.id used ≡ false
    → AreUsed used db.rules
    → IsCreated rule.id used db (insert_rule rule db).1
unfolding insert_rule
insert_rule-IsCreated rule used db new h = elim (Bool-cases (has_rule rule.id db.rules)) [
  | inl taken ↦ rw taken (refl, (λ k u old m. m), AreUsed-new_id used rule.id db.rules h)
  | inr free ↦ rw free (
    refl,
    λ k u old. appended used rule.id rule k u db.rules refl new old,
    AreUsed-append used rule db.rules h,
  )
]

pub create_on-IsCreated :
    (network : Result Text) (id now : ℕ) (body : AlertRuleCreate) (user : JwtUser) (used : List ℕ)
    (db : Db)
    → was_used id used ≡ false
    → AreUsed used db.rules
    → IsCreated id used db (create_on network id now body user db).1
unfolding create_on
create_on-IsCreated (raise e) id now body user used db new h =
    (refl, (λ k u old m. m), AreUsed-new_id used id db.rules h)
create_on-IsCreated (ok n) id now body user used db new h =
    insert_rule-IsCreated (new_rule id now user.sub n body) used db new h

IsCreated-Recalls :
    (user : Text) (found : Result (Option AlertRule)) (id : ℕ) (used : List ℕ) (db db' : Db)
    → IsCreated id used db db'
    → Recalls user found used db.rules
    → Recalls user found (id ∷ used) db'.rules
IsCreated-Recalls user (raise e) id used db db' c h = h
IsCreated-Recalls user (ok none) id used db db' c h = h
IsCreated-Recalls user (ok (some r)) id used db db' c h =
    (h.0, ground (arith, h.1), c.1 r.id user h.1 h.2)

pub IsCreated-IsOpen :
    (id : ℕ) (used : List ℕ) (db db' : Db) (call : Open)
    → IsCreated id used db db'
    → IsOpen db used call
    → IsOpen db' (id ∷ used) call
IsCreated-IsOpen id used db db' (of_settings call) c h =
    subst (Remembers (user_of call) (found_of call)) (sym c.0) h
IsCreated-IsOpen id used db db' (updating body user found) c h =
    IsCreated-Recalls user found id used db db' c h
IsCreated-IsOpen id used db db' (deleting user found) c h =
    IsCreated-Recalls user found id used db db' c h
