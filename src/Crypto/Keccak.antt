-- ===== src/Crypto/Keccak.antt =====
-- `keccak256` of src/crypto/eip712.c. The SHA-3 code that it calls (src/crypto/keccak.c) is a copy
-- of the SHA3IUF library and a parameter here.
use hyperliquid_c.Prelude.Text.{str_eq_iff, str_eq→eq, str_eq}
use hyperliquid_c.Prelude.{
  refl, inr, inl, Bool-cases, ◌⊎◌, ℕ, ◌%◌, ◌^◌, ◌<◌, ◌≡◌, ◌≢◌, Bool, true, false, Option, none,
  some, List, arith, length, take, take_all,
}

-- `sha3_HashBuffer(256, SHA3_FLAGS_KECCAK, in, n, out, 32)`: the 32 bytes written to `out`, or
-- `none` for a code other than SHA3_RETURN_OK.
pub record Sha3 : Type 0 where
  pub hash_buffer : List ℕ → Option (List ℕ)

-- The status (0 is `true`) and the output buffer, which held `out` before the call. The length goes
-- through an `unsigned`.
unfoldable pub keccak256 : Sha3 → List ℕ → List ℕ → Bool × List ℕ
keccak256 sha input out = elim (sha.hash_buffer (take (length input % 2 ^ 32) input)) [
  | none ↦ (false, out)
  | some hash ↦ (true, hash)
]

-- Two different inputs of one hash.
pub record Collision (sha : Sha3) : Type 0 where
  pub left : List ℕ
  pub right : List ℕ
  pub differ : left ≢ right
  pub same : sha.hash_buffer left ≡ sha.hash_buffer right

-- Below 4 GiB the whole input is hashed.
pub keccak256_lem :
    (sha : Sha3) (input out : List ℕ)
    → length input < 2 ^ 32
    → keccak256 sha input out
      ≡ elim (sha.hash_buffer input) [ none ↦ (false, out) | some hash ↦ (true, hash) ]
unfolding keccak256
keccak256_lem sha input out h = rw (take_all (length input % 2 ^ 32) input (omega arith), keccak256)

-- Hashing does not fail.
abbrev pub IsTotal : Sha3 → Type 0
IsTotal sha = (input : List ℕ) → (hash : List ℕ) × (sha.hash_buffer input ≡ some hash)

pub keccak256_total :
    (sha : Sha3)
    → IsTotal sha
    → (input out out' : List ℕ) → keccak256 sha input out ≡ keccak256 sha input out'
unfolding keccak256
keccak256_total sha total input out out' =
    let (hash, e) = total (take (length input % 2 ^ 32) input) in rw (e, keccak256)

-- The status of a hash and its output as an option: a failed call's buffer is not used.
abbrev pub checked : Bool × List ℕ → Option (List ℕ)
checked (true, hash) = some hash
checked (false, out) = none

-- Keccak-256 writes 32 bytes.
abbrev pub Is32 : Sha3 → Type 0
Is32 sha = (input hash : List ℕ) → sha.hash_buffer input ≡ some hash → length hash ≡ 32

-- Two inputs of one hash are equal, or they are a collision.
pub eq_or_Collision :
    (sha : Sha3) (x y : List ℕ) → sha.hash_buffer x ≡ sha.hash_buffer y → (x ≡ y) ⊎ Collision sha
eq_or_Collision sha x y e = elim (Bool-cases (str_eq x y)) [
  | inl p ↦ inl (str_eq→eq x y p)
  | inr p ↦
      inr (record { left = x; right = y; same = e; differ = λ q. cc (p, (str_eq_iff x y).1 q) })
]

checked_elim :
    (o : Option (List ℕ)) (out : List ℕ)
    → checked (elim o [ none ↦ (false, out) | some hash ↦ (true, hash) ]) ≡ o
checked_elim none out = refl
checked_elim (some hash) out = refl

-- A checked hash of a short input is the library's.
pub checked-keccak256 :
    (sha : Sha3) (input out : List ℕ)
    → length input < 2 ^ 32
    → checked (keccak256 sha input out) ≡ sha.hash_buffer input
checked-keccak256 sha input out h =
    rw (keccak256_lem sha input out h) (checked_elim (sha.hash_buffer input) out)
