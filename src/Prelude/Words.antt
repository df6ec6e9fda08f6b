-- ===== src/Prelude/Words.antt =====
-- Machine words as native numbers below a power of two, and their bytes.
use Prim.Native.Nat.{ℕ, zero, suc, ◌+◌, ◌-◌, ◌*◌, ◌/◌, ◌%◌, ◌^◌, ◌<◌, ◌≤◌}
use mathlib.Core.Path.{◌≡◌, refl, sym, ap, ◌∙◌}
use mathlib.Core.List.{List, [], ◌∷◌}
use native.Mathlib.Omega.{arith}
use hyperliquid_c.Prelude.Lists.{length}

-- uint64_t and uint32_t subtraction wraps.
abbrev pub sub_u64 : ℕ → ℕ → ℕ
sub_u64 a b = (a + 2 ^ 64 - b % 2 ^ 64) % 2 ^ 64

abbrev pub IsByte : ℕ → Type 0
IsByte b = b < 256

-- The `k`-th byte of a word from its least significant end, `(x >> 8 k) & 0xFF`.
abbrev pub byte_at : ℕ → ℕ → ℕ
byte_at x s = x / 2 ^ s % 256

-- `out[i] = (x >> (56 - i * 8)) & 0xFF` for the last `k` of the eight rounds.
abbrev pub be_loop : ℕ → ℕ → List ℕ
be_loop zero x = []
be_loop (suc k) x = byte_at x (8 * k) ∷ be_loop k x

-- A uint64_t in big-endian order.
unfoldable pub be_bytes : ℕ → List ℕ
be_bytes x = be_loop 8 x

abbrev from_be : ℕ → List ℕ → ℕ
from_be acc [] = acc
from_be acc (b ∷ bytes) = from_be (acc * 256 + b) bytes

from_be-be_bytes : (x : ℕ) → x < 2 ^ 64 → from_be 0 (be_bytes x) ≡ x
unfolding be_bytes
from_be-be_bytes x h = omega arith

pub be_bytes-injective : (x y : ℕ) → x < 2 ^ 64 → y < 2 ^ 64 → be_bytes x ≡ be_bytes y → x ≡ y
be_bytes-injective x y hx hy e =
    sym (from_be-be_bytes x hx) ∙ (ap (from_be 0) e ∙ from_be-be_bytes y hy)

pub length-be_bytes : (x : ℕ) → length (be_bytes x) ≡ 8
unfolding be_bytes
length-be_bytes x = refl

-- Without a borrow the difference is the one of the numbers.
pub sub_u64_exact : (a b : ℕ) → a < 2 ^ 64 → b ≤ a → sub_u64 a b + b ≡ a
sub_u64_exact a b small le = omega arith
