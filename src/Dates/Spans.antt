-- ===== src/Dates/Spans.antt =====
-- Days further on.
use celine_grid.Prelude.{ℕ, zero, suc, ◌+◌, ◌<◌, ◌≡◌, arith}
use celine_grid.Models.{Result, ok, raise, ◌>>=◌, overflow_error}
use celine_grid.Dates.{Date, tomorrow, plus_days}
use celine_grid.Dates.Calendar.{ordinal, max_ordinal, IsDate, IsNext, tomorrow-IsNext}

-- What the day `i` days after `t` is, by its number.
abbrev pub IsLater : ℕ → Date → Result Date → Type 0
IsLater i t (ok u) = IsDate u × (ordinal u ≡ ordinal t + i)
IsLater i t (raise e) = (e ≡ overflow_error) × (max_ordinal < ordinal t + i)

IsLater-suc :
    (i : ℕ) (t u : Date) (r : Result Date)
    → ordinal u ≡ ordinal t + 1
    → IsLater i u r
    → IsLater (suc i) t r
IsLater-suc i t u (ok v) e h = (h.0, omega arith)
IsLater-suc i t u (raise x) e h = (h.0, omega arith)

-- `plus_days i` is the valid day whose number is `i` higher, or overflows where there is none.
pub plus_days-IsLater : (i : ℕ) (t : Date) → IsDate t → IsLater i t (plus_days i t)
unfolding plus_days
plus_days-IsLater zero t h = (h, omega arith)
plus_days-IsLater (suc i) t h =
    after (tomorrow t) (tomorrow-IsNext t h) (λ u. plus_days-IsLater i u)
  where
    after :
        (r : Result Date)
        → IsNext t r
        → ((u : Date) → IsDate u → IsLater i u (plus_days i u))
        → IsLater (suc i) t (r >>= plus_days i)
    after (ok u) n ih = IsLater-suc i t u (plus_days i u) n.1 (ih u n.0)
    after (raise e) n ih = (n.0, omega arith)
