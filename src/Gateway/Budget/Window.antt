-- ===== src/Gateway/Budget/Window.antt =====
-- No minute admits more requests of a team than its rate limit.
use frostglass.Prelude.{
  none, some, Pairs, All-of_Memᴰ, ◌&&◌, ℕ, ◌+◌, ◌≡◌, ◌≤◌, ◌<◌, refl, sym, ap, ◌∙◌, false, List, [],
  ◌∷◌, ◌++◌, Str, str_eq, ok, err, leb, ltb, length, length-append, filter, arith, Bool-cases, inl,
  inr,
}
use frostglass.Prelude.Dict
use frostglass.Prelude.Dict.{get_own}
use frostglass.Errors.{Py}
use frostglass.Gateway.Auth.{Principal}
use frostglass.Gateway.Budget.{Limits, minute, spent, window_of, trim, admit, check}

-- The times that lie less than a minute before `now`.
pub recent : ℕ → List ℕ → List ℕ
recent now = filter (λ t. ltb now (t + minute))

recent-append : (now : ℕ) (xs ys : List ℕ) → recent now (xs ++ ys) ≡ recent now xs ++ recent now ys
unfolding recent filter
recent-append now [] ys = refl
recent-append now (x ∷ xs) ys = elim (Bool-cases (ltb now (x + minute))) [
  | inl e ↦ rw e (ap (◌∷◌ x) (recent-append now xs ys))
  | inr e ↦ rw e (recent-append now xs ys)
]

length-recent-le : (now : ℕ) (xs : List ℕ) → length (recent now xs) ≤ length xs
unfolding recent filter
length-recent-le now [] = omega arith
length-recent-le now (x ∷ xs) = ground (arith, length-recent-le now xs)

-- Trimming at one time keeps what is recent at any later time.
recent-trim :
    (now later : ℕ) (xs : List ℕ) → now ≤ later → recent later (trim now xs) ≡ recent later xs
unfolding recent filter trim
recent-trim now later [] h = refl
recent-trim now later (x ∷ xs) h = elim (Bool-cases (leb (x + minute) now)) [
  | inl e ↦
      let dead : ltb later (x + minute) ≡ false = ground arith in
      rw (e, dead) (recent-trim now later xs h)
  | inr e ↦ rw e refl
]

-- The times in the minute that ends at `now`.
pub minute_to : ℕ → List ℕ → List ℕ
minute_to now = filter (λ t. leb t now && ltb now (t + minute))

minute_to-append :
    (now : ℕ) (xs ys : List ℕ) → minute_to now (xs ++ ys) ≡ minute_to now xs ++ minute_to now ys
unfolding minute_to filter
minute_to-append now [] ys = refl
minute_to-append now (x ∷ xs) ys = elim (Bool-cases (leb x now && ltb now (x + minute))) [
  | inl e ↦ rw e (ap (◌∷◌ x) (minute_to-append now xs ys))
  | inr e ↦ rw e (minute_to-append now xs ys)
]

length-minute_to-recent :
    (t now : ℕ) (xs : List ℕ) → t ≤ now → length (minute_to now xs) ≤ length (recent t xs)
unfolding minute_to recent filter
length-minute_to-recent t now [] h = omega arith
length-minute_to-recent t now (x ∷ xs) h = ground (arith, length-minute_to-recent t now xs h)

window-put :
    (l : Limits) (team : Str) (w : List ℕ)
    → window_of (record l { requests = Dict.put l.requests team w }) team ≡ w
unfolding window_of
window-put l team w = ap (λ o. elim o [ none ↦ [] | some v ↦ v ]) (get_own l.requests team w)

-- The accepted times, the oldest first, after a check at `now`.
unfoldable accept : List ℕ → ℕ → Py (Unit {0}) → List ℕ
accept accepted now (ok _) = accepted ++ now ∷ []
accept accepted now (err _) = accepted

-- The times that are accepted of a principal's requests at the given times, in order.
unfoldable pub serve : Limits → Principal → List ℕ → List ℕ → List ℕ
unfolding accept
serve l p accepted [] = accepted
serve l p accepted (now ∷ times) =
    serve (check l p now).1 p (accept accepted now (check l p now).0) times

-- What holds of a team's window and the times accepted so far, the last of them not after `now`.
record Served (p : Principal) (l : Limits) (now : ℕ) (accepted : List ℕ) : Type 0 where
  holds : (later : ℕ) → now ≤ later → recent later (window_of l p.team) ≡ recent later accepted
  bound : (later : ℕ) → length (minute_to later accepted) ≤ p.rate_limit_rpm

module _ (p : Principal) (l : Limits) (last now : ℕ) (accepted : List ℕ) (le : last ≤ now)
    (h : Served p l last accepted) where
  trimmed : List ℕ
  trimmed = trim now (window_of l p.team)

  trimmed-recent : (later : ℕ) → now ≤ later → recent later trimmed ≡ recent later accepted
  unfolding trimmed
  trimmed-recent later le' = recent-trim now later _ le' ∙ h.holds later (omega arith)

  refused : Served p l now accepted
  refused = record { holds = λ later le'. h.holds later (omega arith); bound = h.bound }

  full : Served p (record l { requests = Dict.put l.requests p.team trimmed }) now accepted
  full = record { holds = λ later le'. rw window-put (trimmed-recent later le'); bound = h.bound }

  room :
      leb p.rate_limit_rpm (length trimmed) ≡ false
      → length (recent now accepted) < p.rate_limit_rpm
  room f =
      let small : length (recent now trimmed) ≤ length trimmed = length-recent-le now trimmed in
      let same : recent now trimmed ≡ recent now accepted = trimmed-recent now (omega arith) in
      let small' : length (recent now accepted) ≤ length trimmed = rw same at small in ground arith

  bound_one :
      leb p.rate_limit_rpm (length trimmed) ≡ false
      → (later : ℕ) → length (minute_to later (accepted ++ now ∷ [])) ≤ p.rate_limit_rpm
  unfolding minute_to filter
  bound_one f later =
      rw (minute_to-append later accepted (now ∷ []), length-append)
        (ground (arith, h.bound later, room f, length-minute_to-recent now later accepted))

  admitted :
      leb p.rate_limit_rpm (length trimmed) ≡ false
      → Served p
          (record l { requests = Dict.put l.requests p.team (trimmed ++ now ∷ []) })
          now
          (accepted ++ now ∷ [])
  admitted f = record {
    holds = λ later le'. rw window-put (
        recent-append later trimmed (now ∷ [])
        ∙ ap (λ r. r ++ recent later (now ∷ [])) (trimmed-recent later le')
        ∙ sym (recent-append later accepted (now ∷ [])));
    bound = bound_one f;
  }

  check-Served : Served p (check l p now).1 now (accept accepted now (check l p now).0)
  unfolding check accept trimmed admit
  check-Served = elim (Bool-cases (leb p.monthly_budget_cents (spent l p.team))) [
    | inl e ↦ rw e refused
    | inr e ↦ elim (Bool-cases (leb p.rate_limit_rpm (length (trim now (window_of l p.team))))) [
      | inl f ↦ rw (e, f) full
      | inr f ↦ rw (e, f) (admitted f)
    ]
  ]

serve-bound :
    (p : Principal) (times : List ℕ) (l : Limits) (last : ℕ) (accepted : List ℕ)
    → Served p l last accepted
    → Pairs ◌≤◌ (last ∷ times)
    → (later : ℕ) → length (minute_to later (serve l p accepted times)) ≤ p.rate_limit_rpm
unfolding serve
serve-bound p [] l last accepted h order later = h.bound later
serve-bound p (now ∷ times) l last accepted h order later =
    serve-bound p times (check l p now).1 now (accept accepted now (check l p now).0)
      (check-Served p l last now accepted order.0.0 h) order.1 later

-- Of a principal's requests at times that do not decrease, over limits that hold no request of the
-- team yet, every minute has at most as many accepted ones as the principal's rate limit.
pub serve-rate_limit :
    (p : Principal) (l : Limits) (times : List ℕ)
    → window_of l p.team ≡ []
    → Pairs ◌≤◌ times
    → (now : ℕ) → length (minute_to now (serve l p [] times)) ≤ p.rate_limit_rpm
unfolding minute_to filter
serve-rate_limit p l times empty order now =
    serve-bound p times l 0 [] start (All-of_Memᴰ (λ t. 0 ≤ t) times (λ t _. omega arith), order)
      now
  where
    start : Served p l 0 []
    start = record { holds = λ later le. rw empty refl; bound = λ later. omega arith }
