-- ===== src/Common/Text.antt =====
-- `std::string` as the native text: the test for the empty text, the bytes of an ASCII text, and
-- `std::to_string` of integers.
use Prim.Native.Nat.{ℕ, zero, suc, ◌+◌, ◌/◌, ◌%◌, compare, Ordering}
use Prim.Native.Char.{code}
use Prim.Native.String.{String, ◌++◌}
use fcitx5_scribe.Common.Tests.{ltb, if◌then◌else◌}
use mathlib.Core.Bool.{Bool, true, false}
use mathlib.Core.List.{List, [], ◌∷◌}
use mathlib.Core.Path.{◌≡◌, refl}

abbrev pub empty : String → Bool
empty String.[] = true
empty (String.◌∷◌ c s) = false

-- The code points of a text: its bytes, if it is ASCII.
abbrev pub codes : String → List ℕ
codes String.[] = []
codes (String.◌∷◌ c s) = code c ∷ codes s

-- The bytes of a code point in UTF-8.
abbrev pub code_size : ℕ → ℕ
code_size c = if ltb c 0x80 then 1 else if ltb c 0x800 then 2 else if ltb c 0x10000 then 3 else 4

-- `size()` of the `std::string`, whose bytes are the text in UTF-8.
abbrev pub byte_size : String → ℕ
byte_size String.[] = 0
byte_size (String.◌∷◌ c s) = code_size (code c) + byte_size s

-- `int`: `negsuc n` is -(n + 1).
pub data ℤ : Type 0 where
  pos : ℕ → ℤ
  negsuc : ℕ → ℤ

digit : ℕ → String
digit zero = "0"
digit (suc zero) = "1"
digit (suc (suc zero)) = "2"
digit (suc (suc (suc zero))) = "3"
digit (suc (suc (suc (suc zero)))) = "4"
digit (suc (suc (suc (suc (suc zero))))) = "5"
digit (suc (suc (suc (suc (suc (suc zero)))))) = "6"
digit (suc (suc (suc (suc (suc (suc (suc zero))))))) = "7"
digit (suc (suc (suc (suc (suc (suc (suc (suc zero)))))))) = "8"
digit (suc (suc (suc (suc (suc (suc (suc (suc (suc n))))))))) = "9"

-- The decimal digits of a number in front of a text; a number has no more digits than its value
-- plus one, which is the fuel.
decimal : ℕ → ℕ → String → String
decimal zero n rest = rest
decimal (suc fuel) n rest =
    let out = digit (n % 10) ++ rest in
    let more = decimal fuel (n / 10) out in elim (compare n 10) [ Ordering.lt ↦ out | _ ↦ more ]

unfoldable pub to_string : ℕ → String
unfolding digit decimal
to_string n = decimal (suc n) n ""

unfoldable pub to_string_ℤ : ℤ → String
unfolding to_string
to_string_ℤ (pos n) = to_string n
to_string_ℤ (negsuc n) = "-" ++ to_string (suc n)

to_string_max : to_string 18446744073709551615 ≡ "18446744073709551615"
unfolding to_string
to_string_max = refl
