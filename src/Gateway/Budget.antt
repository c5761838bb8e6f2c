-- ===== src/Gateway/Budget.antt =====
-- frostglass/gateway/budget.py. Time is a number of microseconds.
pub mod Window
use frostglass.Prelude.{
  ℕ, ◌+◌, Bool, Option, none, some, List, [], ◌∷◌, ◌++◌, Str, str, str_eq, ok, err, leb, length,
  if◌then◌else◌,
}
use frostglass.Prelude.Dict
use frostglass.Prelude.Dict.{Dict}
use frostglass.Errors.{Py, gateway_error, gateway, new_gateway_error}
use frostglass.Gateway.Auth.{Principal}

pub record Limits : Type 0 where
  pub spend : Dict Str ℕ
  pub requests : Dict Str (List ℕ)

abbrev pub new_limits : Limits
new_limits = record { spend = []; requests = [] }

-- `self._spend[team]` of the default dict
unfoldable pub spent : Limits → Str → ℕ
spent l team = elim (Dict.get l.spend team) [ none ↦ 0 | some n ↦ n ]

-- `self._requests[team]`, the oldest request first
unfoldable pub window_of : Limits → Str → List ℕ
window_of l team = elim (Dict.get l.requests team) [ none ↦ [] | some w ↦ w ]

abbrev pub minute : ℕ
minute = 60_000_000

-- `while window and window[0] <= now - 60: window.popleft()`
unfoldable pub trim : ℕ → List ℕ → List ℕ
trim now [] = []
trim now (t ∷ window) =
    let rest = trim now window in if leb (t + minute) now then rest else t ∷ window

-- `check` once the budget allows it, on the trimmed window
unfoldable pub admit : Limits → Principal → ℕ → List ℕ → Py (Unit {0}) × Limits
unfolding new_gateway_error
admit l principal now window =
    if leb principal.rate_limit_rpm (length window)
    then (
      err (
          gateway (
            new_gateway_error 429 (str "Rate limit exceeded") (str "rate_limit_exceeded")
              (some ((str "Retry-After", str "60") ∷ [])))),
      record l { requests = Dict.put l.requests principal.team window },
    )
    else (ok tt, record l { requests = Dict.put l.requests principal.team (window ++ now ∷ []) })

-- `Limits.check` at the time `now`
unfoldable pub check : Limits → Principal → ℕ → Py (Unit {0}) × Limits
unfolding spent window_of trim admit
check l principal now =
    if leb principal.monthly_budget_cents (spent l principal.team)
    then (err (gateway_error 402 (str "Monthly budget exceeded") (str "budget_exceeded")), l)
    else admit l principal now (trim now (window_of l principal.team))

-- `Limits.record_spend`
unfoldable pub record_spend : Limits → Principal → ℕ → Limits
unfolding spent
record_spend l principal cents = record l {
  spend = Dict.put l.spend principal.team (spent l principal.team + cents);
}
