-- ===== src/Tests/Hex.antt =====
-- Hexadecimal text (src/crypto/eip712.c) at concrete inputs.
use hyperliquid_c.Prelude.{◌≡◌, refl, true, some, [], ◌∷◌, arith}
use hyperliquid_c.Prelude.Text.{str}
use hyperliquid_c.Crypto.Hex.{
  minus_one, hex_digit, strip_prefix, hex_loop, hex_to_bytes, hex_char, hex_chars, bytes_to_hex,
}
use hyperliquid_c.Crypto.Hex.RoundTrip.{hex_to_bytes-bytes_to_hex}

mixed_case : hex_to_bytes (some (str "0XaBff")) 8 ≡ (0xab ∷ 0xff ∷ [], 2)
unfolding hex_to_bytes strip_prefix hex_loop hex_digit
mixed_case = refl

-- The bytes before the bad digit are written, and the call returns -1.
bad_digit : hex_to_bytes (some (str "12g4")) 8 ≡ (0x12 ∷ [], minus_one)
unfolding hex_to_bytes strip_prefix hex_loop hex_digit
bad_digit = refl

printed : bytes_to_hex (0x0f ∷ 0xa0 ∷ []) true ≡ str "0x0fa0"
unfolding bytes_to_hex hex_chars hex_char
printed = refl

hex_to_bytes-bytes_to_hex_example :
    hex_to_bytes (some (bytes_to_hex (0x0f ∷ 0xa0 ∷ []) true)) 2 ≡ (0x0f ∷ 0xa0 ∷ [], 2)
hex_to_bytes-bytes_to_hex_example =
    hex_to_bytes-bytes_to_hex (0x0f ∷ 0xa0 ∷ []) true 2 (omega arith) (omega arith) (omega arith)
