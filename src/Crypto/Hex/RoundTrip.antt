-- ===== src/Crypto/Hex/RoundTrip.antt =====
-- Bytes written as hexadecimal text are read back.
use hyperliquid_c.Prelude.{
  ◌^◌, leb, ◌<◌, Bool-cases, inl, inr, ℕ, ◌*◌, ◌/◌, ◌%◌, ◌≤◌, ◌≡◌, refl, ◌≢◌, Bool, true, false,
  none, some, List, [], ◌∷◌, arith, ◌==◌, if◌then◌else◌, length, All,
}
use hyperliquid_c.Prelude.Words.{IsByte}
use hyperliquid_c.Crypto.Hex.{
  minus_one, hex_digit, strip_prefix, hex_loop, hex_to_bytes, hex_char, hex_chars, bytes_to_hex,
  parse_eth_address,
}

hex_digit-hex_char : (n : ℕ) → n < 16 → hex_digit (hex_char n) ≡ some n
unfolding hex_digit hex_char
hex_digit-hex_char n h = ground arith

hex_char-ne-x : (n : ℕ) → n < 16 → (hex_char n ≢ b'x') × (hex_char n ≢ b'X')
unfolding hex_char
hex_char-ne-x n h = ground arith

pub length-hex_chars : (bytes : List ℕ) → length (hex_chars bytes) ≡ 2 * length bytes
unfolding hex_chars
length-hex_chars [] = refl
length-hex_chars (b ∷ bytes) = omega (arith, length-hex_chars bytes)

hex_loop-hex_chars :
    (bytes : List ℕ) → All IsByte bytes → hex_loop (hex_chars bytes) ≡ (bytes, true)
unfolding hex_loop hex_chars
hex_loop-hex_chars [] h = refl
hex_loop-hex_chars (b ∷ bytes) h =
    ground (
      arith,
      hex_digit-hex_char (b / 16),
      hex_digit-hex_char (b % 16),
      hex_loop-hex_chars bytes h.1,
    )

-- Digits alone never look like the prefix: the second is no `x`.
strip_prefix-hex_chars :
    (bytes : List ℕ) → All IsByte bytes → strip_prefix (hex_chars bytes) ≡ hex_chars bytes
unfolding strip_prefix hex_chars
strip_prefix-hex_chars [] h = refl
strip_prefix-hex_chars (b ∷ bytes) h = ground (arith, hex_char-ne-x (b % 16))

strip_prefix-bytes_to_hex :
    (bytes : List ℕ) (add_prefix : Bool)
    → All IsByte bytes
    → strip_prefix (bytes_to_hex bytes add_prefix) ≡ hex_chars bytes
unfolding bytes_to_hex
strip_prefix-bytes_to_hex bytes true h = unfold strip_prefix in refl
strip_prefix-bytes_to_hex bytes false h = strip_prefix-hex_chars bytes h

-- Bytes printed with or without the prefix are read back whole, and counted, wherever the output
-- buffer has room for them and there are fewer than 2^31: from there on their number is no `int`.
pub hex_to_bytes-bytes_to_hex :
    (bytes : List ℕ) (add_prefix : Bool) (max_out_len : ℕ)
    → All IsByte bytes
    → length bytes ≤ max_out_len
    → length bytes < 2 ^ 31
    → hex_to_bytes (some (bytes_to_hex bytes add_prefix)) max_out_len ≡ (bytes, length bytes)
unfolding hex_to_bytes
hex_to_bytes-bytes_to_hex bytes add_prefix max_out_len h room small =
    rw (strip_prefix-bytes_to_hex bytes add_prefix h)
      (ground (arith, length-hex_chars bytes, hex_loop-hex_chars bytes h))

too_long :
    (bytes : List ℕ) (add_prefix : Bool) (max_out_len : ℕ)
    → All IsByte bytes
    → max_out_len < length bytes
    → hex_to_bytes (some (bytes_to_hex bytes add_prefix)) max_out_len ≡ ([], minus_one)
unfolding hex_to_bytes
too_long bytes add_prefix max_out_len h long =
    rw (strip_prefix-bytes_to_hex bytes add_prefix h) (ground (arith, length-hex_chars bytes))

-- The text of 20 bytes is parsed back to them, and that of any other number of bytes is refused.
pub parse_eth_address-bytes_to_hex :
    (bytes : List ℕ) (add_prefix : Bool)
    → All IsByte bytes
    → parse_eth_address (bytes_to_hex bytes add_prefix)
      ≡ (if length bytes == 20 then some bytes else none)
unfolding parse_eth_address
parse_eth_address-bytes_to_hex bytes add_prefix h = elim (Bool-cases (leb (length bytes) 20)) [
  | inl room ↦ ground (arith, hex_to_bytes-bytes_to_hex bytes add_prefix 20 h)
  | inr long ↦ ground (arith, too_long bytes add_prefix 20 h)
]
