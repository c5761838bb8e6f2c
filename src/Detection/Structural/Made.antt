-- ===== src/Detection/Structural/Made.antt =====
-- frostglass/detection/structural.py: the loops of `detect` give a span for each match that passes.
use mathlib.Core.List.{Memᴰ}
use mathlib.Core.List.Memᴰ.{head, tail}
use frostglass.Prelude.{
  ◌≡◌, ◌⊎◌, ◌↔◌, inl, inr, refl, ap, ◌∙◌, subst, Bool, true, false, Option, none, some, List, [],
  ◌∷◌, ◌++◌, Str, str, str_eq, ok, >>=-eq-ok, if◌then◌else◌, Memᴰ-append_left, Memᴰ-append_right,
}
use frostglass.Errors.{Py}
use frostglass.Detection.Models.{CandidateSpan}
use frostglass.Detection.Engine.{slice}
use frostglass.Detection.Structural.{
  Match, tested, spans_of, phone_spans, phone_found, span_at, graded,
}

-- The members of a list are those that a predicate holds of.
abbrev pub Exactly : (CandidateSpan → Type 0) → List CandidateSpan → Type 0
Exactly P spans = (s : CandidateSpan) → Memᴰ s spans ↔ P s

-- What a relation makes of some match
abbrev pub IsMade : (Match → CandidateSpan → Type 0) → List Match → CandidateSpan → Type 0
IsMade R ms s = (m : Match) × Memᴰ m ms × R m s

pub append-Exactly :
    (P Q : CandidateSpan → Type 0) (xs ys : List CandidateSpan)
    → Exactly P xs
    → Exactly Q ys
    → Exactly (λ s. P s ⊎ Q s) (xs ++ ys)
append-Exactly P Q xs ys p q s = (
  λ h. split xs h (p s).0,
  λ h. elim h [
    | inl a ↦ Memᴰ-append_left ys ((p s).1 a)
    | inr b ↦ Memᴰ-append_right xs ((q s).1 b)
  ],
)
  where
    split : (zs : List CandidateSpan) → Memᴰ s (zs ++ ys) → (Memᴰ s zs → P s) → P s ⊎ Q s
    split [] h f = inr ((q s).0 h)
    split (z ∷ zs) (head e) f = inl (f (head e))
    split (z ∷ zs) (tail h) f = split zs h (λ k. f (tail k))

none-Exactly : (P : CandidateSpan → Type 0) → ((s : CandidateSpan) → P s → ⊥) → Exactly P []
none-Exactly P never s = ((λ h. elim h [ ]), λ p. absurd (never s p))

one-Exactly :
    (P : CandidateSpan → Type 0) (x : CandidateSpan)
    → ((s : CandidateSpan) → P s ↔ (s ≡ x))
    → Exactly P (x ∷ [])
one-Exactly P x same s = (mine, λ p. head ((same s).0 p))
  where
    mine : Memᴰ s (x ∷ []) → P s
    mine (head e) = (same s).1 e
    mine (tail h) = elim h [ ]

module _ (R : Match → CandidateSpan → Type 0) where
  no_match : (s : CandidateSpan) → IsMade R [] s → ⊥
  no_match s (m, h, r) = elim h [ ]

  cons-Exactly :
      (m : Match) (ms : List Match) (front rest : List CandidateSpan)
      → Exactly (R m) front
      → Exactly (IsMade R ms) rest
      → Exactly (IsMade R (m ∷ ms)) (front ++ rest)
  cons-Exactly m ms front rest p q s =
      let both = append-Exactly (R m) (IsMade R ms) front rest p q s in
      ((λ h. join (both.0 h)), λ made. both.1 (split made))
    where
      join : R m s ⊎ IsMade R ms s → IsMade R (m ∷ ms) s
      join (inl r) = (m, head refl, r)
      join (inr (n, h, r)) = (n, tail h, r)

      split : IsMade R (m ∷ ms) s → R m s ⊎ IsMade R ms s
      split (n, head e, r) = inl (subst (λ k. R k s) e r)
      split (n, tail h, r) = inr (n, h, r)

-- A match whose text passes a test, and its span
abbrev pub Passes : Str → (Str → Type 0) → (Match → CandidateSpan) → Match → CandidateSpan → Type 0
Passes text Test span m s = Test (slice text m.0 m.1) × (s ≡ span m)

pub ok-injective : {A : Type 0} (call : Py A) {x y : A} → call ≡ ok x → call ≡ ok y → x ≡ y
ok-injective call p q = cc

pub not_both : (call : Py Bool) → call ≡ ok false → call ≡ ok true → ⊥
not_both call p q = cc

never_some : {A : Type 0} (found : Option A) {a : A} → found ≡ none → found ≡ some a → ⊥
never_some found p q = cc

impossible :
    (found : Option (Bool × Bool)) {a b : Bool}
    → found ≡ some (a, false)
    → found ≡ some (b, true)
    → ⊥
impossible found p q = cc

same_valid :
    (found : Option (Bool × Bool)) {a b : Bool}
    → found ≡ some (a, true)
    → found ≡ some (b, true)
    → a ≡ b
same_valid found p q = cc

module _ (text : Str) where
  pub spans_of-Exactly :
      (span : Match → CandidateSpan) (ms : List Match)
      → Exactly (IsMade (λ m s. s ≡ span m) ms) (spans_of span ms)
  unfolding spans_of
  spans_of-Exactly span [] = none-Exactly _ (no_match _)
  spans_of-Exactly span (m ∷ ms) =
      cons-Exactly _ m ms (span m ∷ []) (spans_of span ms)
        (one-Exactly _ (span m) (λ s. ((λ e. e), λ e. e))) (spans_of-Exactly span ms)

  pub tested-Exactly :
      (test : Str → Py Bool) (Test : Str → Type 0)
      → ((value : Str) → (test value ≡ ok true) ↔ Test value)
      → (span : Match → CandidateSpan) (ms : List Match) (spans : List CandidateSpan)
      → tested test text span ms ≡ ok spans
      → Exactly (IsMade (Passes text Test span) ms) spans
  unfolding tested
  tested-Exactly test Test says span [] spans returned =
      subst (Exactly _) (ok-injective _ refl returned) (none-Exactly _ (no_match _))
  tested-Exactly test Test says span (m ∷ ms) spans returned =
      let (valid, e, more) = >>=-eq-ok (test (slice text m.0 m.1)) _ returned in
      let (rest, r, last) = >>=-eq-ok (tested test text span ms) _ more in
      subst (Exactly _) (ok-injective _ refl last)
        (by valid e rest (tested-Exactly test Test says span ms rest r))
    where
      by :
          (valid : Bool)
          → test (slice text m.0 m.1) ≡ ok valid
          → (rest : List CandidateSpan) → Exactly (IsMade (Passes text Test span) ms) rest
          → Exactly
              (IsMade (Passes text Test span) (m ∷ ms))
              (if valid then span m ∷ rest else rest)
      by true e rest h =
          cons-Exactly _ m ms (span m ∷ []) rest
            (one-Exactly _ (span m) (λ s. ((λ p. p.1), λ q. ((says (slice text m.0 m.1)).0 e, q))))
            h
      by false e rest h =
          cons-Exactly _ m ms [] rest
            (none-Exactly _ (λ s p. not_both _ e ((says (slice text m.0 m.1)).1 p.0))) h

  -- A match that is read as a possible number, and its span
  abbrev pub IsNumber : (Str → Option (Bool × Bool)) → Match → CandidateSpan → Type 0
  IsNumber parse m s =
      (valid : Bool) × (parse (slice text m.0 m.1) ≡ some (valid, true))
      × (s
          ≡ span_at (str "PHONE_NUMBER") (if valid then 9500 else 6000) (str "structural.phone") 6
              m)

  pub phone_spans-Exactly :
      (parse : Str → Option (Bool × Bool)) (ms : List Match)
      → Exactly (IsMade (IsNumber parse) ms) (phone_spans parse text ms)
  unfolding phone_spans phone_found graded
  phone_spans-Exactly parse [] = none-Exactly _ (no_match _)
  phone_spans-Exactly parse (m ∷ ms) =
      cons-Exactly _ m ms _ (phone_spans parse text ms) (found (parse (slice text m.0 m.1)) refl)
        (phone_spans-Exactly parse ms)
    where
      found :
          (read : Option (Bool × Bool))
          → parse (slice text m.0 m.1) ≡ read
          → Exactly (IsNumber parse m) (phone_found read m)
      found none e = none-Exactly _ (λ s p. never_some _ e p.1)
      found (some (valid, false)) e = none-Exactly _ (λ s p. impossible _ e p.1)
      found (some (valid, true)) e = one-Exactly _ _ (λ s. (
        (λ p.
            p.2
            ∙ ap
                (λ v.
                  span_at (str "PHONE_NUMBER") (if v then 9500 else 6000) (str "structural.phone") 6
                    m)
                (same_valid _ p.1 e)),
        λ q. (valid, e, q),
      ))
