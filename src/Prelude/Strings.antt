-- ===== src/Prelude/Strings.antt =====
-- The methods of Python's `str` that the program calls.
use Prim.Native.Nat.{ℕ, zero, suc, ◌+◌, ◌-◌, ◌/◌, ◌%◌}
use mathlib.Core.Bool.{Bool, true, false, ◌&&◌}
use mathlib.Core.Option.{Option, none, some}
use mathlib.Core.List.{[], ◌∷◌, ◌++◌}
use frostglass.Prelude.Tests.{nat_beq, ltb, leb, if◌then◌else◌}
use frostglass.Prelude.Text.{Str, str_beq}
use frostglass.Prelude.Lists.{length, take, drop}

-- `s.startswith(prefix)`, with the prefix first
unfoldable pub starts_with : Str → Str → Bool
starts_with [] s = true
starts_with (p ∷ ps) [] = false
starts_with (p ∷ ps) (c ∷ s) = nat_beq p c && starts_with ps s

-- `s.removeprefix(prefix)`
unfoldable pub remove_prefix : Str → Str → Str
remove_prefix s prefix = if starts_with prefix s then drop (length prefix) s else s

-- `s.removesuffix(suffix)`
unfoldable pub remove_suffix : Str → Str → Str
remove_suffix s suffix =
    if leb (length suffix) (length s) && str_beq (drop (length s - length suffix) s) suffix
    then take (length s - length suffix) s
    else s

-- The scan of `replace` for an `old` that is not empty; `skip` code points of a match are left.
unfoldable pub replace_from : Str → Str → ℕ → Str → Str
replace_from old new skip [] = []
replace_from old new (suc skip) (c ∷ s) = replace_from old new skip s
replace_from old new zero (c ∷ s) =
    let matched = replace_from old new (length old - 1) s in
    let other = replace_from old new zero s in
    if starts_with old (c ∷ s) then new ++ matched else c ∷ other

-- `s.replace("", new)`
unfoldable pub intersperse : Str → Str → Str
intersperse new [] = new
intersperse new (c ∷ s) = new ++ c ∷ intersperse new s

-- `s.replace(old, new)`
unfoldable pub replace : Str → Str → Str → Str
unfolding replace_from intersperse
replace s [] new = intersperse new s
replace s (o ∷ old) new = replace_from (o ∷ old) new zero s

-- `s.find(sub, start)` for a start within the text, counted from `offset`; None for -1
unfoldable pub find_from : Str → ℕ → Str → Option ℕ
find_from sub offset [] = if starts_with sub [] then some offset else none
find_from sub offset (c ∷ s) =
    let later = find_from sub (offset + 1) s in
    if starts_with sub (c ∷ s) then some offset else later

-- The decimal digits of a number; the fuel is above the number of digits.
unfoldable pub digits_from : ℕ → ℕ → Str
digits_from zero n = []
digits_from (suc fuel) n =
    let front = digits_from fuel (n / 10) in
    if ltb n 10 then (48 + n) ∷ [] else front ++ (48 + n % 10) ∷ []

-- `str(n)`
unfoldable pub decimal : ℕ → Str
unfolding digits_from
decimal n = digits_from (suc n) n
