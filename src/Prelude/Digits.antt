-- ===== src/Prelude/Digits.antt =====
-- Decimal text, and the words of release names: strconv.Itoa, %02d, strings.TrimSpace.
use Prim.Native.Nat.{ℕ, zero, suc, ◌+◌, ◌/◌, ◌%◌}
use mathlib.Core.Bool.{Bool, true, false, ◌||◌}
use mathlib.Core.List.{[], ◌∷◌, ◌++◌}
use vorn_media_server.Prelude.Tests.{ltb, ◌==◌, leb, if◌then◌else◌}
use mathlib.Core.Bool.{◌&&◌}
use vorn_media_server.Prelude.Chars.{Text}

-- Fuel `suc n` is more than the digits of `n`.
abbrev pub itoa_fuel : ℕ → ℕ → Text
itoa_fuel zero n = []
itoa_fuel (suc f) n = elim (ltb n 10) [
  | true ↦ (b'0' + n) ∷ []
  | false ↦ itoa_fuel f (n / 10) ++ ((b'0' + n % 10) ∷ [])
]

unfoldable pub itoa : ℕ → Text
itoa n = itoa_fuel (suc n) n

-- %02d
unfoldable pub pad2 : ℕ → Text
unfolding itoa
pad2 n = if ltb n 10 then b'0' ∷ itoa n else itoa n

-- unicode.IsSpace, on ASCII.
abbrev pub is_space : ℕ → Bool
is_space c = c == b' ' || leb 9 c && leb c 13

abbrev pub trim_left : Text → Text
trim_left [] = []
trim_left (c ∷ s) = let rest = trim_left s in if is_space c then rest else c ∷ s

abbrev pub is_blank : Text → Bool
is_blank [] = true
is_blank (c ∷ s) = is_space c && is_blank s

abbrev pub trim_right : Text → Text
trim_right [] = []
trim_right (c ∷ s) = let rest = trim_right s in if is_blank (c ∷ s) then [] else c ∷ rest

-- strings.TrimSpace
unfoldable pub trim_space : Text → Text
trim_space s = trim_left (trim_right s)
