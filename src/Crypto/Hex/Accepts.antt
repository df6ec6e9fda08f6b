-- ===== src/Crypto/Hex/Accepts.antt =====
-- Which texts `hex_to_bytes` accepts, and what it may write.
use hyperliquid_c.Prelude.{
  ◌≢◌, ◌^◌, guard-eq-some, some-injective, guard, >>=-eq-some, ==_iff, ap, ◌==◌, List, ℕ, ◌*◌, ◌/◌,
  ◌%◌, ◌≤◌, ◌<◌, ◌≡◌, refl, ◌⊎◌, inl, inr, true, Option, none, some, [], ◌∷◌, arith, Option-cases,
  length, All,
}
use hyperliquid_c.Crypto.Hex.{
  minus_one, parse_eth_address, hex_to_bytes, strip_prefix, hex_digit, hex_loop,
}
use hyperliquid_c.Prelude.Text.{CString}
use hyperliquid_c.Prelude.Words.{IsByte}

-- A character of a hexadecimal number, in either case.
abbrev pub IsHex : ℕ → Type 0
IsHex c = ((b'0' ≤ c) × (c ≤ b'9')) ⊎ (((b'a' ≤ c) × (c ≤ b'f')) ⊎ ((b'A' ≤ c) × (c ≤ b'F')))

hex_digit-lt : (c : ℕ) {d : ℕ} → hex_digit c ≡ some d → d < 16
unfolding hex_digit
hex_digit-lt c h = ground arith

hex_digit-IsHex : (c : ℕ) {d : ℕ} → hex_digit c ≡ some d → IsHex c
unfolding hex_digit
hex_digit-IsHex c h = ground arith

hex_digit-none : (c : ℕ) → hex_digit c ≡ none → ¬ IsHex c
unfolding hex_digit
hex_digit-none c h x = ground arith

hex_digit-cases : (c : ℕ) → (hex_digit c ≡ none) ⊎ ((d : ℕ) × (hex_digit c ≡ some d))
hex_digit-cases c = Option-cases (hex_digit c)

hex_loop-IsByte : (hex : CString) → All IsByte (hex_loop hex).0
unfolding hex_loop
hex_loop-IsByte [] = tt
hex_loop-IsByte (c ∷ []) = tt
hex_loop-IsByte (high ∷ low ∷ hex) = elim (hex_digit-cases high) [
  | inl p ↦ rw p tt
  | inr (h, p) ↦ elim (hex_digit-cases low) [
    | inl q ↦ rw (p, q) tt
    | inr (l, q) ↦
        rw (p, q) (omega (arith, hex_digit-lt high p, hex_digit-lt low q), hex_loop-IsByte hex)
  ]
]

hex_loop-length : (hex : CString) → 2 * length (hex_loop hex).0 ≤ length hex
unfolding hex_loop
hex_loop-length [] = omega arith
hex_loop-length (c ∷ []) = omega arith
hex_loop-length (high ∷ low ∷ hex) = elim (hex_digit-cases high) [
  | inl p ↦ rw p (omega arith)
  | inr (h, p) ↦ elim (hex_digit-cases low) [
    | inl q ↦ rw (p, q) (omega arith)
    | inr (l, q) ↦ rw (p, q) (omega (arith, hex_loop-length hex))
  ]
]

-- A loop that reaches the end wrote a byte for each pair, and every character was a digit.
hex_loop_done :
    (hex : CString)
    → length hex % 2 ≡ 0
    → (hex_loop hex).1 ≡ true
    → (2 * length (hex_loop hex).0 ≡ length hex) × All IsHex hex
unfolding hex_loop
hex_loop_done [] even h = (refl, tt)
hex_loop_done (c ∷ []) even h = absurd (omega arith)
hex_loop_done (high ∷ low ∷ hex) even h = elim (hex_digit-cases high) [
  | inl p ↦ cc (rw p at h)
  | inr (a, p) ↦ elim (hex_digit-cases low) [
    | inl q ↦ cc (rw (p, q) at h)
    | inr (b, q) ↦
        let rest : (2 * length (hex_loop hex).0 ≡ length hex) × All IsHex hex =
          hex_loop_done hex (omega arith) (rw (p, q) at h) in
        rw (p, q) (omega (arith, rest.0), (hex_digit-IsHex high p, (hex_digit-IsHex low q, rest.1)))
  ]
]

hex_loop-IsHex : (hex : CString) → All IsHex hex → (hex_loop hex).1 ≡ true
unfolding hex_loop
hex_loop-IsHex [] h = refl
hex_loop-IsHex (c ∷ []) h = refl
hex_loop-IsHex (high ∷ low ∷ hex) h = elim (hex_digit-cases high) [
  | inl p ↦ absurd (hex_digit-none high p h.0)
  | inr (a, p) ↦ elim (hex_digit-cases low) [
    | inl q ↦ absurd (hex_digit-none low q h.1.0)
    | inr (b, q) ↦ rw (p, q) (hex_loop-IsHex hex h.1.1)
  ]
]

-- On every path, errors included, the call writes at most `max_out_len` bytes, each below 256.
pub hex_to_bytes_bounds :
    (text : Option CString) (max_out_len : ℕ)
    → (length (hex_to_bytes text max_out_len).0 ≤ max_out_len)
      × All IsByte (hex_to_bytes text max_out_len).0
unfolding hex_to_bytes
hex_to_bytes_bounds none max_out_len = (omega arith, tt)
hex_to_bytes_bounds (some text) max_out_len =
    ground (arith, hex_loop-length (strip_prefix text), hex_loop-IsByte (strip_prefix text))

-- What a text must be for a buffer of `n` bytes: behind the prefix it has an even number of
-- characters, each a hexadecimal digit, and at most `2 n` of them.
pub record IsHexText (text : CString) (n : ℕ) : Type 0 where
  pub even : length (strip_prefix text) % 2 ≡ 0
  pub fits : length (strip_prefix text) ≤ 2 * n
  pub chars : All IsHex (strip_prefix text)

-- What a returned count says of each test on the way.
returned :
    (text : CString) (max_out_len : ℕ) {n : ℕ}
    → max_out_len < 2 ^ 31
    → (hex_to_bytes (some text) max_out_len).1 ≡ n
    → n ≢ minus_one
    → (length (strip_prefix text) % 2 ≡ 0)
      × (length (strip_prefix text) / 2 ≤ max_out_len)
      × ((hex_loop (strip_prefix text)).1 ≡ true)
      × (n ≡ length (strip_prefix text) / 2)
      × ((hex_to_bytes (some text) max_out_len).0 ≡ (hex_loop (strip_prefix text)).0)
unfolding hex_to_bytes
returned text max_out_len small h ok = ground arith

-- With room for fewer than 2^31 bytes, the call returns another number than -1 exactly for the texts
-- of `IsHexText`; it is the number of bytes written, half the number of digits.
pub hex_to_bytes_accepts :
    (text : CString) (max_out_len : ℕ)
    → max_out_len < 2 ^ 31
    → (IsHexText text max_out_len
        → (hex_to_bytes (some text) max_out_len).1 ≡ length (strip_prefix text) / 2)
      × ((n : ℕ)
          → (hex_to_bytes (some text) max_out_len).1 ≡ n
          → n ≢ minus_one
          → IsHexText text max_out_len
            × (n ≡ length (hex_to_bytes (some text) max_out_len).0)
            × (2 * n ≡ length (strip_prefix text)))
hex_to_bytes_accepts text max_out_len small = (accepted, refused)
  where
    accepted :
        IsHexText text max_out_len
        → (hex_to_bytes (some text) max_out_len).1 ≡ length (strip_prefix text) / 2
    accepted t = unfold hex_to_bytes in ground (arith, hex_loop-IsHex (strip_prefix text) t.chars)

    refused :
        (n : ℕ)
        → (hex_to_bytes (some text) max_out_len).1 ≡ n
        → n ≢ minus_one
        → IsHexText text max_out_len
          × (n ≡ length (hex_to_bytes (some text) max_out_len).0)
          × (2 * n ≡ length (strip_prefix text))
    refused n h ok =
        let (even, room, done, count, bytes) = returned text max_out_len small h ok in
        let (len, chars) = hex_loop_done (strip_prefix text) even done in
        (
          record { even = even; fits = omega arith; chars = chars },
          rw bytes (omega arith),
          omega arith,
        )

-- A parsed address has 20 bytes.
pub length-parse_eth_address :
    (text : CString) {bytes : List ℕ} → parse_eth_address text ≡ some bytes → length bytes ≡ 20
unfolding parse_eth_address
length-parse_eth_address text h =
    let count = (hex_to_bytes (some text) 20).1 in
    let (u, g, h) = >>=-eq-some (guard (count == 20)) _ h in
    let is_20 : count ≡ 20 = (==_iff count 20).0 (guard-eq-some _ g) in
    let (_, len, _) =
      (hex_to_bytes_accepts text 20 (omega arith)).1 count refl (omega (arith, is_20)) in
    omega (arith, ap length (some-injective _ _ h), is_20, len)
