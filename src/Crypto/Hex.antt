-- ===== src/Crypto/Hex.antt =====
-- `hex_to_bytes`, `bytes_to_hex` and `parse_eth_address` of src/crypto/eip712.c.
pub mod RoundTrip
pub mod Accepts
use hyperliquid_c.Prelude.{
  guard, ◌>>◌, ◌>>=◌, ℕ, zero, suc, ◌+◌, ◌-◌, ◌*◌, ◌/◌, ◌%◌, ◌^◌, ◌≤◌, ◌<◌, min, String, ◌≡◌, refl,
  sym, ap, ap₂, ◌∙◌, ◌≢◌, ◌↔◌, ◌⊎◌, inl, inr, Bool, true, false, not, ◌&&◌, ◌||◌, Option, none,
  some, List, [], ◌∷◌, ◌++◌, map, arith, ltb, leb, ◌==◌, if◌then◌else◌, ltb→lt, lt→ltb, leb→le,
  ==_iff, ==_refl, Bool-cases, Option-cases, &&-eq-true, length, get_elem?, set, take, drop,
  replicate, length-append, length-set, length-take, length-drop, length-replicate, take_all,
  take-append_le, take-append-drop, append_cancel, All,
}
use hyperliquid_c.Prelude.Text.{
  CString, str, str_eq, str_eq_refl, str_eq→eq, str_eq_iff, split_at_char, strncpy, c_str,
}

-- The value of one hexadecimal digit; `none` is the -1 of the source.
unfoldable pub hex_digit : ℕ → Option ℕ
hex_digit c =
    if leb b'0' c && leb c b'9'
    then some (c - b'0')
    else if leb b'a' c && leb c b'f'
    then some (c - b'a' + 10)
    else if leb b'A' c && leb c b'F'
    then some (c - b'A' + 10)
    else none

-- A leading "0x" or "0X" is skipped.
unfoldable pub strip_prefix : CString → CString
strip_prefix (a ∷ b ∷ hex) = if a == b'0' && (b == b'x' || b == b'X') then hex else a ∷ b ∷ hex
strip_prefix hex = hex

-- `bytes_out[i] = (h << 4) | l`, and the bytes of the iterations after it. The low digit is below
-- 16, so the `|` is a sum.
abbrev pub push_byte : Option ℕ → Option ℕ → List ℕ × Bool → List ℕ × Bool
push_byte (some h) (some l) (bytes, done) = ((h * 16 + l) ∷ bytes, done)
push_byte _ _ rest = ([], false)

-- The loop over the pairs of digits: the bytes that it writes, and whether it reaches the end.
unfoldable pub hex_loop : CString → List ℕ × Bool
hex_loop (high ∷ low ∷ hex) = push_byte (hex_digit high) (hex_digit low) (hex_loop hex)
hex_loop _ = ([], true)

-- The bits of the `int` -1.
abbrev pub minus_one : ℕ
minus_one = 2 ^ 32 - 1

-- What a call does: the bytes written to the front of `bytes_out`, and the bits of the `int` that it
-- returns, which for a count is cast from the `size_t`. A null argument is `none`.
unfoldable pub hex_to_bytes : Option CString → ℕ → List ℕ × ℕ
hex_to_bytes none max_out_len = ([], minus_one)
hex_to_bytes (some text) max_out_len =
    let hex = strip_prefix text in
    let hex_len = length hex in
    let byte_len = hex_len / 2 in
    if not (hex_len % 2 == 0)
    then ([], minus_one)
    else if ltb max_out_len byte_len
    then ([], minus_one)
    else (let (bytes, done) = hex_loop hex in
        (bytes, if done then byte_len % 2 ^ 32 else minus_one))

-- `hex_chars[n]`
unfoldable pub hex_char : ℕ → ℕ
hex_char n = if ltb n 10 then b'0' + n else b'a' + (n - 10)

unfoldable pub hex_chars : List ℕ → CString
hex_chars [] = []
hex_chars (b ∷ bytes) = hex_char (b / 16) ∷ hex_char (b % 16) ∷ hex_chars bytes

unfoldable pub bytes_to_hex : List ℕ → Bool → CString
bytes_to_hex bytes add_prefix = (if add_prefix then b'0' ∷ b'x' ∷ [] else []) ++ hex_chars bytes

-- The address, if the text holds exactly 20 bytes.
unfoldable pub parse_eth_address : CString → Option (List ℕ)
parse_eth_address address_hex = do
  let (bytes, count) = hex_to_bytes (some address_hex) 20
  guard (count == 20)
  some bytes
