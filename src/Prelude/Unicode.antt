-- ===== src/Prelude/Unicode.antt =====
-- The methods of Python's `str` and `int` that read the Unicode tables, as a parameter, and what the
-- program relies on: how they behave on ASCII digits and letters.
pub mod Ascii
use Prim.Native.Nat.{ℕ, ◌+◌, ◌<◌}
use mathlib.Core.Path.{◌≡◌}
use mathlib.Core.Bool.{Bool, true, false}
use mathlib.Core.Option.{Option, some}
use mathlib.Core.List.{List}
use frostglass.Prelude.Text.{Str}

-- `digit_int` is `int(character)`, where it does not raise.
pub record Unicode : Type 0 where
  pub is_digit : ℕ → Bool
  pub is_alpha : ℕ → Bool
  pub is_alnum : ℕ → Bool
  pub digit_int : ℕ → Option ℕ
  pub is_upper : Str → Bool
  pub is_lower : Str → Bool
  pub to_upper : Str → Str
  pub to_lower : Str → Str
  pub split : Str → List Str

pub record IsUnicode (u : Unicode) : Type 0 where
  pub digit : (d : ℕ) → d < 10 → u.is_digit (48 + d) ≡ true
  pub digit_value : (d : ℕ) → d < 10 → u.digit_int (48 + d) ≡ some d
  pub capital : (l : ℕ) → l < 26 → (u.is_digit (65 + l) ≡ false) × (u.is_alpha (65 + l) ≡ true)
  pub small : (l : ℕ) → l < 26 → (u.is_digit (97 + l) ≡ false) × (u.is_alpha (97 + l) ≡ true)
