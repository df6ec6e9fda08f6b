-- ===== src/Prelude/Text.antt =====
-- C strings as lists of bytes without the terminator, and the functions of string.h on them.
use Prim.Native.Char.{code}
use Prim.Native.Nat.{ℕ, ◌-◌}
use Prim.Native.String.{String}
use mathlib.Core.Path.{◌≡◌, refl, ap₂}
use mathlib.Core.Logic.{◌↔◌}
use mathlib.Core.Bool.{Bool, true, false, ◌&&◌}
use mathlib.Core.Option.{Option, none, some}
use mathlib.Core.List.{List, [], ◌∷◌, ◌++◌}
use native.Mathlib.Omega.{arith}
use hyperliquid_c.Prelude.Tests.{◌==◌, ==_iff, if◌then◌else◌, &&-eq-true}
use hyperliquid_c.Prelude.Lists.{take, drop, replicate}

abbrev pub CString : Type 0
CString = List ℕ

-- The bytes of a string literal. `String` has its own `[]` and `∷`.
abbrev pub str : String → CString
str String.[] = []
str (String.◌∷◌ c s) = code c ∷ str s

-- strcmp(a, b) == 0
unfoldable pub str_eq : CString → CString → Bool
str_eq [] [] = true
str_eq [] (d ∷ b) = false
str_eq (c ∷ a) [] = false
str_eq (c ∷ a) (d ∷ b) = c == d && str_eq a b

pub str_eq_refl : (a : CString) → str_eq a a ≡ true
unfolding str_eq
str_eq_refl [] = refl
str_eq_refl (c ∷ a) = ground (arith, str_eq_refl a)

pub str_eq→eq : (a b : CString) → str_eq a b ≡ true → a ≡ b
unfolding str_eq
str_eq→eq [] [] h = refl
str_eq→eq [] (d ∷ b) h = cc
str_eq→eq (c ∷ a) [] h = cc
str_eq→eq (c ∷ a) (d ∷ b) h =
    ap₂ ◌∷◌ ((==_iff c d).0 (&&-eq-true _ _ h).0) (str_eq→eq a b (&&-eq-true _ _ h).1)

pub str_eq_iff : (a b : CString) → (str_eq a b ≡ true) ↔ (a ≡ b)
str_eq_iff a b = (str_eq→eq a b, λ e. rw e (str_eq_refl b))

-- strchr(s, c): the text before the first `c`, and from it on, if there is one.
unfoldable pub split_at_char : ℕ → CString → Option (CString × CString)
split_at_char c [] = none
split_at_char c (d ∷ s) =
    if d == c
    then some ([], d ∷ s)
    else elim (split_at_char c s) [ none ↦ none | some (a, b) ↦ some (d ∷ a, b) ]

-- strncpy(dst, src, n) on a buffer of bytes: `n` bytes are written, padded with zeros.
unfoldable pub strncpy : List ℕ → CString → ℕ → List ℕ
strncpy dst src n = take n (src ++ replicate n 0) ++ drop n dst

-- The string that a buffer holds: the bytes before the first zero.
unfoldable pub c_str : List ℕ → CString
c_str [] = []
c_str (b ∷ s) = let rest = c_str s in if b == 0 then [] else b ∷ rest

-- snprintf into a buffer of `size` bytes keeps one for the terminator.
abbrev pub snprintf : ℕ → CString → CString
snprintf size text = take (size - 1) text
