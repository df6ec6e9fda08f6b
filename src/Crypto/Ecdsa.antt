-- ===== src/Crypto/Ecdsa.antt =====
-- `ecdsa_sign_secp256k1` of src/crypto/eip712.c.
pub mod Recovery
use hyperliquid_c.Prelude.{
  ℕ, zero, suc, ◌+◌, ◌-◌, ◌*◌, ◌/◌, ◌%◌, ◌^◌, ◌≤◌, ◌<◌, min, String, ◌≡◌, refl, sym, ap, ap₂, ◌∙◌,
  ◌≢◌, ◌↔◌, ◌⊎◌, inl, inr, Bool, true, false, not, ◌&&◌, ◌||◌, Option, none, some, List, [], ◌∷◌,
  ◌++◌, map, arith, ltb, leb, ◌==◌, if◌then◌else◌, ltb→lt, lt→ltb, leb→le, ==_iff, ==_refl,
  Bool-cases, Option-cases, &&-eq-true, ◌>>=◌, ◌>>◌, guard, length, get_elem?, set, take, drop,
  replicate, length-append, length-set, length-take, length-drop, length-replicate, take_all,
  take-append_le, take-append-drop, append_cancel, All,
}
use hyperliquid_c.Prelude.Text.{
  CString, str, str_eq, str_eq_refl, str_eq→eq, str_eq_iff, split_at_char, strncpy, c_str,
}
use hyperliquid_c.Crypto.Hex.{hex_to_bytes}
use hyperliquid_c.Crypto.Keccak.{Sha3, keccak256}

-- libsecp256k1: `none` and `false` are a null pointer or a status of 0.
pub record Secp256k1 : Type 1 where
  pub Signature : Type 0
  pub Pubkey : Type 0
  pub context_create : Bool
  pub sign_recoverable : List ℕ → List ℕ → Option Signature
  pub serialize_compact : Signature → List ℕ × ℕ
  pub parse_compact : List ℕ → ℕ → Option Signature
  pub recover : Signature → List ℕ → Option Pubkey
  pub pubkey_create : List ℕ → Option Pubkey
  pub pubkey_serialize : Pubkey → List ℕ

-- The search from `recid` on, with `rounds` rounds left.
unfoldable pub find_recid : (ℕ → Bool) → ℕ → ℕ → Option ℕ
find_recid test zero recid = none
find_recid test (suc rounds) recid =
    let rest = find_recid test rounds (recid + 1) in if test recid then some recid else rest

module _ (sha : Sha3) (secp : Secp256k1) where
  open secp use {
    Signature, Pubkey, context_create, sign_recoverable, serialize_compact, parse_compact, recover,
    pubkey_create, pubkey_serialize,
  }

  -- The last 20 bytes of the hash of an uncompressed key without its first byte, computed into a
  -- local array that held `out`.
  unfoldable pub address_of : List ℕ → Pubkey → List ℕ
  address_of out key =
      take 20 (drop 12 (keccak256 sha (take 64 (drop 1 (pubkey_serialize key))) out).1)

  -- One round of the search: does this id recover a key of the address?
  unfoldable pub recid_matches : List ℕ → List ℕ → List ℕ → List ℕ → ℕ → Bool
  recid_matches out hash compact_sig actual_addr recid = elim (parse_compact compact_sig recid) [
    | none ↦ false
    | some test_sig ↦ elim (recover test_sig hash) [
      | none ↦ false
      | some recovered ↦ str_eq actual_addr (address_of out recovered)
    ]
  ]

  -- Signing with the bytes of the key. What the two local hash arrays held before they are filled
  -- is `out` and `out'`.
  unfoldable pub sign_bytes : List ℕ → List ℕ → List ℕ → List ℕ → Option (List ℕ)
  sign_bytes out out' hash priv_bytes = do
    guard context_create
    sig ← sign_recoverable hash priv_bytes
    actual_pubkey ← pubkey_create priv_bytes
    let compact_sig = (serialize_compact sig).0
    let actual_addr = address_of out actual_pubkey
    recid ← find_recid (recid_matches out' hash compact_sig actual_addr) 4 0
    some (take 64 compact_sig ++ ((recid + 27) % 256) ∷ [])

  -- The 65 bytes of the signature, `none` for -1.
  unfoldable pub ecdsa_sign_secp256k1 : List ℕ → List ℕ → List ℕ → CString → Option (List ℕ)
  ecdsa_sign_secp256k1 out out' hash private_key_hex = do
    let (priv_bytes, count) = hex_to_bytes (some private_key_hex) 32
    guard (count == 32)
    sign_bytes out out' hash priv_bytes
