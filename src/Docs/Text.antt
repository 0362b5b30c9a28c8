-- ===== src/Docs/Text.antt =====
-- JavaScript strings as the scripts of docs/html use them: sequences of UTF-16 code units with
-- the operations of the language's String and Number that the scripts call.
pub mod Laws
use Prim.Native.Char.{code}
use Prim.Native.String.{String}
use mathlib.Core.Option
use mathlib.Core.List.{◌++◌}
use riscv_simulator_pipeline.Base.{
  ℕ, zero, suc, ◌+◌, ◌/◌, ◌%◌, Bool, true, false, ◌&&◌, ◌||◌, List, [], ◌∷◌, Option, none, some,
  ltb, leb, ◌==◌, if◌then◌else◌,
}

abbrev pub Text : Type 0
Text = List ℕ

-- The code units of a literal, which is ASCII in the scripts. `String` has its own `[]` and `∷`.
abbrev pub codes : String → Text
codes String.[] = []
codes (String.◌∷◌ c s) = code c ∷ codes s

-- `s == t`
unfoldable pub text_eq : Text → Text → Bool
text_eq [] [] = true
text_eq (c ∷ s) (d ∷ t) = c == d && text_eq s t
text_eq _ _ = false

-- `s.substr(0, n)`
unfoldable pub take : ℕ → Text → Text
take zero s = []
take (suc n) [] = []
take (suc n) (c ∷ s) = c ∷ take n s

-- `s.substring(n)`
unfoldable pub drop : ℕ → Text → Text
drop zero s = s
drop (suc n) [] = []
drop (suc n) (c ∷ s) = drop n s

-- `s.toLowerCase()`, unit by unit. The case mapping past ASCII is the engine's, the parameter.
module _ (wide : ℕ → ℕ) where
  unfoldable pub lower_unit : ℕ → ℕ
  lower_unit c = if leb 128 c then wide c else if leb b'A' c && leb c b'Z' then c + 32 else c

  unfoldable pub to_lower_case : Text → Text
  unfolding lower_unit
  to_lower_case [] = []
  to_lower_case (c ∷ s) = lower_unit c ∷ to_lower_case s

-- `s.replace(/^ +/, "")`
unfoldable pub trim_start : Text → Text
trim_start [] = []
trim_start (c ∷ s) = if c == b' ' then trim_start s else c ∷ s

abbrev pub append_trimmed : ℕ → Text → Text
append_trimmed c [] = if c == b' ' then [] else c ∷ []
append_trimmed c (d ∷ s) = c ∷ d ∷ s

-- `s.replace(/ +$/, "")`
unfoldable pub trim_end : Text → Text
trim_end [] = []
trim_end (c ∷ s) = append_trimmed c (trim_end s)

-- `s.replace(/ +/g, "")`
unfoldable pub remove_spaces : Text → Text
remove_spaces [] = []
remove_spaces (c ∷ s) = let rest = remove_spaces s in if c == b' ' then rest else c ∷ rest

-- `s.startsWith(t)`, with the arguments swapped.
unfoldable pub begins : Text → Text → Bool
begins [] s = true
begins (c ∷ t) [] = false
begins (c ∷ t) (d ∷ s) = c == d && begins t s

unfoldable pub digit : ℕ → ℕ
digit d = if ltb d 10 then b'0' + d else d + 87

-- `n.toString(base)`, most significant digit first. A number has at most as many digits past its
-- first as it counts, so the fuel of `to_radix` is enough.
unfoldable pub radix_digits : ℕ → ℕ → ℕ → Text → Text
unfolding digit
radix_digits zero base n out = out
radix_digits (suc fuel) base n out =
    let rest = radix_digits fuel base (n / base) (digit (n % base) ∷ out) in
    if ltb n base then digit n ∷ out else rest

abbrev pub to_hex : ℕ → Text
to_hex n = radix_digits (suc n) 16 n []

abbrev pub to_decimal : ℕ → Text
to_decimal n = radix_digits (suc n) 10 n []

-- `s.indexOf(t)`; `none` is -1.
unfoldable pub index_of : Text → Text → Option ℕ
unfolding begins
index_of t [] = if begins t [] then some 0 else none
index_of t (c ∷ s) =
    if begins t (c ∷ s) then some 0 else Option.map (λ (i : ℕ). i + 1) (index_of t s)
