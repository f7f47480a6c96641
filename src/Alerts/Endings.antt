-- ===== src/Alerts/Endings.antt =====
-- How calls of the settings end that overlap with others.
use celine_grid.Prelude.{
  ℕ, Text, text_eq, Bool, true, false, none, some, List, [], ◌∷◌, ◌++◌, ◌≡◌, ◌∙◌, refl, sym, subst,
  arith, inl, inr, All, In,
}
use celine_grid.Models.{NotificationSettings, Db, Result, ok, raise, settings_of}
use celine_grid.Alerts.{NotificationSettingsUpdate}
use celine_grid.Alerts.Settings.{
  new_settings, set_settings, has_settings, insert_checked, insert_settings, get_found,
  with_settings,
}
use celine_grid.Alerts.Isolation.{WellFormed, same-IsSafe}
use celine_grid.Alerts.SettingsIsolation.{insert_checked-IsSafe}
use celine_grid.Alerts.Overlap.{
  Pending, getting, putting, user_of, found_of, update_rows, refresh, commit_found, finish, Serving,
  serving, Step, read_to_get, read_to_put, go_on, Reach, here, next,
}
use celine_grid.Alerts.Interleavings.{
  has_row, Remembers, IsConsistent, Grows, IsEnding, UniqueKeys-written, HasUniqueUsers-written,
  settings_of-written, has_row-written, AllOf-has_row, refresh-row, Remembers-Grows,
  Remembers-scalar,
}

has_row-append :
    (k : ℕ) (u : Text) (rows : List NotificationSettings) (ns : NotificationSettings)
    → has_row k u rows ≡ true
    → has_row k u (rows ++ (ns ∷ [])) ≡ true
has_row-append k u [] ns h = cc
has_row-append k u (row ∷ rows) ns h = ground (arith, has_row-append k u rows ns)

insert_checked-IsEnding :
    (found : List NotificationSettings) (taken : Bool) (ns : NotificationSettings) (db : Db)
    → WellFormed db
    → settings_of ns.user_id db.settings ≡ found
    → has_settings ns.id db.settings ≡ taken
    → IsEnding ns.id ns.user_id db (insert_checked found taken ns db)
unfolding insert_checked
insert_checked-IsEnding (x ∷ xs) taken ns db w e f = (refl, refl, inl (λ none'. cc))
insert_checked-IsEnding [] true ns db w e f = (refl, refl, inr f)
insert_checked-IsEnding [] false ns db w e f =
    (refl, insert_checked-IsSafe [] false ns db w e f, λ k u h. has_row-append k u db.settings ns h)

insert_settings-IsEnding :
    (ns : NotificationSettings) (db : Db)
    → WellFormed db
    → IsEnding ns.id ns.user_id db (insert_settings ns db)
unfolding insert_settings
insert_settings-IsEnding ns db w = insert_checked-IsEnding _ _ ns db w refl refl

-- An update of the row that was read.
update-IsEnding :
    (id now : ℕ) (body : NotificationSettingsUpdate) (seen : NotificationSettings) (db : Db)
    → WellFormed db
    → has_row seen.id seen.user_id db.settings ≡ true
    → IsEnding id seen.user_id db (
        let rows = update_rows body now seen db.settings in
        (refresh seen.id rows, with_settings rows db))
unfolding update_rows
update-IsEnding id now body seen db w h =
    let rows = update_rows body now seen db.settings in
    let there = has_row-written body now seen seen.id seen.user_id db.settings ∙ h in
    let keys = UniqueKeys-written body now seen db.settings w.1 in
    let found =
      refresh-row seen.id seen.user_id rows (AllOf-has_row seen.id seen.user_id rows keys there)
        there in
    rw found.1 (
      found.2,
      (
        (w.0, keys, HasUniqueUsers-written body now seen db.settings w.2),
        λ v ne. (
          refl,
          settings_of-written body now seen v db.settings ne
              (AllOf-has_row seen.id seen.user_id db.settings w.1 h),
        ),
      ),
      λ k u m. has_row-written body now seen k u db.settings ∙ m,
    )

pub finish-IsEnding :
    (id now : ℕ) (call : Pending) (db : Db)
    → WellFormed db
    → Remembers (user_of call) (found_of call) db.settings
    → IsEnding id (user_of call) db (finish id now call db)
unfolding finish get_found commit_found
finish-IsEnding id now (getting user (raise e)) db w h = absurd h
finish-IsEnding id now (getting user (ok none)) db w h =
    insert_settings-IsEnding (new_settings id now user) db w
finish-IsEnding id now (getting user (ok (some ns))) db w h =
    (h.0, same-IsSafe user db w, λ k u m. m)
finish-IsEnding id now (putting body user (raise e)) db w h = absurd h
finish-IsEnding id now (putting body user (ok none)) db w h =
    insert_settings-IsEnding (set_settings body now (new_settings id now user)) db w
finish-IsEnding id now (putting body user (ok (some seen))) db w h =
    subst (λ u. IsEnding id u db (commit_found (ok (some seen)) id now body u db)) h.0
      (update-IsEnding id now body seen db w
        (subst (λ u. has_row seen.id u db.settings ≡ true) (sym h.0) h.1))

IsEnding-WellFormed :
    (id : ℕ) (user : Text) (db : Db) (out : Result NotificationSettings × Db)
    → WellFormed db
    → IsEnding id user db out
    → WellFormed out.1 × Grows db.settings out.1.settings
IsEnding-WellFormed id user db (ok ns, db') w h = (h.1.0, h.2)
IsEnding-WellFormed id user db (raise e, db') w h =
    subst (λ d. WellFormed d × Grows db.settings d.settings) (sym h.1) (w, λ k u m. m)

pub All-without {ℓ κ} :
    {A : Type ℓ} (P : A → Type κ) (newer : List A) (a : A) (older : List A)
    → All P (newer ++ a ∷ older)
    → P a × All P (newer ++ older)
All-without P [] a older h = h
All-without P (b ∷ newer) a older h =
    let rest = All-without P newer a older h.1 in (rest.0, (h.0, rest.1))

All-Grows :
    (rows rows' : List NotificationSettings) (calls : List Pending)
    → Grows rows rows'
    → All (λ c. Remembers (user_of c) (found_of c) rows) calls
    → All (λ c. Remembers (user_of c) (found_of c) rows') calls
All-Grows rows rows' [] g h = tt
All-Grows rows rows' (c ∷ calls) g h =
    (Remembers-Grows rows rows' (user_of c) (found_of c) g h.0, All-Grows rows rows' calls g h.1)

Step-IsConsistent : {s t : Serving} → Step s t → IsConsistent s → IsConsistent t
Step-IsConsistent (read_to_get {db} user) (w, h) = (w, (Remembers-scalar user db.settings w.2, h))
Step-IsConsistent (read_to_put {db} body user) (w, h) =
    (w, (Remembers-scalar user db.settings w.2, h))
Step-IsConsistent (go_on {db} newer call older id now) (w, h) =
    let split = All-without _ newer call older h in
    let out = finish id now call db in
    let (well, grown) =
      IsEnding-WellFormed id (user_of call) db out w (finish-IsEnding id now call db w split.0) in
    (well, All-Grows db.settings out.1.settings (newer ++ older) grown split.1)

Reach-IsConsistent : {s t : Serving} → Reach s t → IsConsistent s → IsConsistent t
Reach-IsConsistent here h = h
Reach-IsConsistent (next r step) h = Step-IsConsistent step (Reach-IsConsistent r h)

pub All-In {ℓ κ} : {A : Type ℓ} (P : A → Type κ) (a : A) (as' : List A) → All P as' → In a as' → P a
All-In P a [] h m = absurd m.lower
All-In P a (b ∷ as') h (inl e) = subst P (sym e) h.0
All-In P a (b ∷ as') h (inr m) = All-In P a as' h.1 m

-- From a well-formed database without open calls, in whatever order calls of the settings read and
-- go on: the database stays well-formed, and an open call that goes on either ends with a row of its
-- user and leaves the rows of the others as they are, or is refused by the database and changes
-- nothing, since a row of its user or of the new id is there by now.
pub Reach-IsEnding :
    (db : Db) (t : Serving)
    → WellFormed db
    → Reach (serving db []) t
    → WellFormed t.db
      × ((call : Pending) (id now : ℕ)
          → In call t.open_calls
          → IsEnding id (user_of call) t.db (finish id now call t.db))
Reach-IsEnding db t w r =
    let (well, calls) = Reach-IsConsistent r (w, tt) in
    (
      well,
      λ call id now m. finish-IsEnding id now call t.db well (All-In _ call t.open_calls calls m),
    )
