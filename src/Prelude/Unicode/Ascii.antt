-- ===== src/Prelude/Unicode/Ascii.antt =====
-- The methods of `str` on texts of ASCII characters.
use Prim.Native.Nat.{ℕ, ◌+◌, ◌-◌}
use mathlib.Core.Path.{◌≡◌, refl}
use mathlib.Core.Bool.{Bool, true, ◌&&◌, ◌||◌, not}
use mathlib.Core.Option.{none, some}
use mathlib.Core.List.{List, [], ◌∷◌, ◌++◌, map}
use native.Mathlib.Omega.{arith}
use frostglass.Prelude.Tests.{leb, ltb, nat_beq, if◌then◌else◌}
use frostglass.Prelude.Text.{Str}
use frostglass.Prelude.Lists.{any, length}
use frostglass.Prelude.Unicode.{Unicode, IsUnicode}

abbrev is_between : ℕ → ℕ → ℕ → Bool
is_between low high c = leb low c && ltb c high

-- The words between spaces, the first of them begun
abbrev words_from : Str → Str → List Str
words_from word [] = if nat_beq (length word) 0 then [] else word ∷ []
words_from word (c ∷ s) =
    let next = words_from [] s in
    let longer = words_from (word ++ c ∷ []) s in
    if nat_beq c 32 then (if nat_beq (length word) 0 then next else word ∷ next) else longer

unfoldable pub ascii : Unicode
ascii = record {
  is_digit = λ c. is_between 48 58 c;
  is_alpha = λ c. is_between 65 91 c || is_between 97 123 c;
  is_alnum = λ c. is_between 48 58 c || is_between 65 91 c || is_between 97 123 c;
  digit_int = λ c. if is_between 48 58 c then some (c - 48) else none;
  is_upper = λ s. any (is_between 65 91) s && not (any (is_between 97 123) s);
  is_lower = λ s. any (is_between 97 123) s && not (any (is_between 65 91) s);
  to_upper = map (λ c. if is_between 97 123 c then c - 32 else c);
  to_lower = map (λ c. if is_between 65 91 c then c + 32 else c);
  split = words_from [];
}

pub ascii-IsUnicode : IsUnicode ascii
unfolding ascii
ascii-IsUnicode = record {
  digit = λ d h. ground (arith, h);
  digit_value = λ d h.
      let e : 48 + d - 48 ≡ d = ground arith in
      let t : is_between 48 58 (48 + d) ≡ true = ground (arith, h) in rw (t, e) refl;
  capital = λ l h. (ground (arith, h), ground (arith, h));
  small = λ l h. (ground (arith, h), ground (arith, h));
}
