-- ===== src/Listener/Horizon.antt =====
-- The dates that a run is evaluated for.
use celine_grid.Prelude.{
  ℕ, zero, suc, ◌+◌, ◌<◌, Text, Bool, true, false, Option, none, some, List, [], ◌∷◌, ◌≡◌, refl,
  sym, ap, subst, ◌∙◌, ◌⊎◌, inl, inr, arith, Bool-cases,
}
use celine_grid.Prelude.Strings.{strip}
use celine_grid.Prelude.Int.{ℤ}
use celine_grid.Models.{Result, ok, raise, ◌>>=◌, value_error, overflow_error}
use celine_grid.Dates.{Date, plus_days, isoformat, date_fromisoformat}
use celine_grid.Dates.Calendar.{IsDate, ordinal, max_ordinal}
use celine_grid.Dates.Spans.{IsLater, plus_days-IsLater}
use celine_grid.Dates.Iso.{
  date_fromisoformat-isoformat, isoformat-date_fromisoformat, date_fromisoformat_error,
}
use celine_grid.Listener.{
  max_one, dates_from, date_match, parse_raw, parse_datetime, iso_option, normalise_period,
  start_of, horizon_dates,
}

-- `left` texts that name the valid days from the `i`-th after `start` on, one after the other.
abbrev pub IsSpan : ℕ → ℕ → Date → List Text → Type 0
IsSpan zero i start [] = Unit
IsSpan zero i start (s ∷ ss) = ⊥
IsSpan (suc left) i start [] = ⊥
IsSpan (suc left) i start (s ∷ ss) =
    ((d : Date) × IsDate d × (ordinal d ≡ ordinal start + i) × (s ≡ isoformat d))
    × IsSpan left (suc i) start ss

abbrev IsRun : ℕ → ℕ → Date → Result (List Text) → Type 0
IsRun left i start (ok ds) = IsSpan left i start ds
IsRun left i start (raise e) = (e ≡ overflow_error) × (max_ordinal + 1 < ordinal start + (i + left))

dates_from-IsRun :
    (left i : ℕ) (start : Date) → IsDate start → IsRun left i start (dates_from left i start)
unfolding dates_from
dates_from-IsRun zero i start h = tt
dates_from-IsRun (suc left) i start h =
    first (plus_days i start) (dates_from left (suc i) start) (plus_days-IsLater i start h)
      (dates_from-IsRun left (suc i) start h)
  where
    first :
        (d : Result Date) (rest : Result (List Text))
        → IsLater i start d
        → IsRun left (suc i) start rest
        → IsRun (suc left) i start (d >>= λ u. (rest >>= λ ds. ok (isoformat u ∷ ds)))
    first (ok u) (ok ds) p q = ((u, p.0, p.1, refl), q)
    first (ok u) (raise e) p q = (q.0, omega arith)
    first (raise e) rest p q = (p.0, omega arith)

module _ (is_digit : ℕ → Bool) (datetime_fromisoformat : Text → Option Date) where
  -- The timestamp has the form of a date.
  abbrev pub NamesDate : Option Text → Text → Type 0
  NamesDate none s = ⊥
  NamesDate (some value) s =
      (s ≡ strip value) × (date_match is_digit datetime_fromisoformat s ≡ true)

  abbrev pub LacksForm : Option Text → Type 0
  LacksForm none = Unit
  LacksForm (some value) = date_match is_digit datetime_fromisoformat (strip value) ≡ false

  -- The day that a run starts with: the one that the timestamp spells, else that of the datetime that
  -- it is, else today.
  abbrev pub IsStart : Option Text → Date → Date → Type 0
  IsStart timestamp today start =
      NamesDate timestamp (isoformat start)
      ⊎ LacksForm timestamp
        × (parse_datetime is_digit datetime_fromisoformat timestamp ≡ some start)
      ⊎ LacksForm timestamp
        × (parse_datetime is_digit datetime_fromisoformat timestamp ≡ none)
        × (start ≡ today)

  abbrev pub IsHorizon : Option Text → Date → ℤ → Result (List Text) → Type 0
  IsHorizon timestamp today days (ok ds) =
      (start : Date) × IsStart timestamp today start × IsSpan (max_one days) 0 start ds
  IsHorizon timestamp today days (raise e) =
      (e ≡ value_error)
        × ((s : Text) × NamesDate timestamp s × (date_fromisoformat s ≡ raise value_error))
      ⊎ (e ≡ overflow_error)
        × ((start : Date) × IsStart timestamp today start
            × (max_ordinal + 1 < ordinal start + max_one days))

  -- The days of a span that starts with a valid day.
  spanned :
      (timestamp : Option Text) (today : Date) (days : ℤ) (start : Date) (r : Result (List Text))
      → IsStart timestamp today start
      → IsRun (max_one days) 0 start r
      → IsHorizon timestamp today days r
  spanned timestamp today days start (ok ds) h run = (start, h, run)
  spanned timestamp today days start (raise e) h run = inr (run.0, (start, h, omega (arith, run.1)))

  -- The period that the timestamp gives is spelled in it, or is the date of its datetime.
  named :
      (timestamp : Option Text) (today : Date) (days : ℤ) (s : Text) (r : Result Date)
      → NamesDate timestamp s
      → date_fromisoformat s ≡ r
      → IsHorizon timestamp today days (r >>= dates_from (max_one days) 0)
  named timestamp today days s (raise x) h e =
      inl (date_fromisoformat_error s x e, (s, h, e ∙ ap raise (date_fromisoformat_error s x e)))
  named timestamp today days s (ok d) h e =
      let read = isoformat-date_fromisoformat s d e in
      spanned timestamp today days d (dates_from (max_one days) 0 d)
        (inl (subst (NamesDate timestamp) (sym read.1) h))
        (dates_from-IsRun (max_one days) 0 d read.0)

  module _ (valid : (s : Text) (d : Date) → datetime_fromisoformat s ≡ some d → IsDate d) where
    parsed-IsDate :
        (timestamp : Option Text) (d : Date)
        → parse_datetime is_digit datetime_fromisoformat timestamp ≡ some d
        → IsDate d
    unfolding parse_datetime parse_raw
    parsed-IsDate none d e = cc
    parsed-IsDate (some value) d e = of_raw (strip value) e
      where
        of_raw : (raw : Text) → parse_raw is_digit datetime_fromisoformat raw ≡ some d → IsDate d
        of_raw [] f = cc
        of_raw (c ∷ raw) f = valid _ d f

    other :
        (timestamp : Option Text) (today : Date) (days : ℤ) (parsed : Option Date)
        → IsDate today
        → LacksForm timestamp
        → parse_datetime is_digit datetime_fromisoformat timestamp ≡ parsed
        → IsHorizon timestamp today days (
            start_of is_digit datetime_fromisoformat
              (iso_option is_digit datetime_fromisoformat parsed)
              today
            >>= dates_from (max_one days) 0)
    unfolding start_of
    other timestamp today days none v l e =
        spanned timestamp today days today (dates_from (max_one days) 0 today)
          (inr (inr (l, e, refl))) (dates_from-IsRun (max_one days) 0 today v)
    other timestamp today days (some d) v l e =
        let h = parsed-IsDate timestamp d e in
        rw (date_fromisoformat-isoformat d h) (
          spanned timestamp today days d (dates_from (max_one days) 0 d) (inr (inl (l, e)))
            (dates_from-IsRun (max_one days) 0 d h))

    -- Where the clock and `datetime.fromisoformat` give valid days, the horizon is `max(days, 1)` valid
    -- days in ISO format, one after the other, and starts with the day that the timestamp spells, else
    -- that of its datetime, else today. It raises in two cases only: the timestamp has the form of a
    -- date but is none, or the calendar ends before the horizon.
    pub horizon_dates-IsHorizon :
        (timestamp : Option Text) (today : Date) (days : ℤ)
        → IsDate today
        → IsHorizon timestamp today days
            (horizon_dates is_digit datetime_fromisoformat timestamp today days)
    unfolding horizon_dates normalise_period start_of
    horizon_dates-IsHorizon none today days v = other none today days _ v tt refl
    horizon_dates-IsHorizon (some value) today days v =
        elim (Bool-cases (date_match is_digit datetime_fromisoformat (strip value))) [
          | inl form ↦ rw form (named (some value) today days (strip value) _ (refl, form) refl)
          | inr free ↦ rw free (other (some value) today days _ v free refl)
        ]
