-- ===== src/Crypto/Eip712.antt =====
-- The typed-data hashes and `eip712_sign_agent` of src/crypto/eip712.c.
use hyperliquid_c.Prelude.Words.{be_bytes}
pub mod Binding
use hyperliquid_c.Prelude.{
  ℕ, Bool, true, false, Option, none, some, List, [], ◌∷◌, ◌++◌, ◌>>=◌, replicate,
}
use hyperliquid_c.Prelude.Text.{CString, str}
use hyperliquid_c.Crypto.Keccak.{checked, Sha3, keccak256}
use hyperliquid_c.Crypto.Ecdsa.{Secp256k1, ecdsa_sign_secp256k1}

abbrev pub domain_typehash : List ℕ
domain_typehash =
    0x8b ∷ 0x73 ∷ 0xc3 ∷ 0xc6 ∷ 0x9b ∷ 0xb8 ∷ 0xfe ∷ 0x3d ∷ 0x51 ∷ 0x2e ∷ 0xcc ∷ 0x4c ∷ 0xf7 ∷ 0x59
    ∷ 0xcc ∷ 0x79 ∷ 0x23 ∷ 0x9f ∷ 0x7b ∷ 0x17 ∷ 0x9b ∷ 0x0f ∷ 0xfa ∷ 0xca ∷ 0xa9 ∷ 0xa7 ∷ 0x5d
    ∷ 0x52 ∷ 0x2b ∷ 0x39 ∷ 0x40 ∷ 0x0f ∷ []

abbrev pub agent_typehash : List ℕ
agent_typehash =
    0x26 ∷ 0xf0 ∷ 0x5c ∷ 0x2f ∷ 0x72 ∷ 0x39 ∷ 0xb6 ∷ 0x98 ∷ 0x30 ∷ 0x75 ∷ 0xe5 ∷ 0x83 ∷ 0x21 ∷ 0x29
    ∷ 0x2d ∷ 0x77 ∷ 0xb3 ∷ 0xaa ∷ 0x17 ∷ 0x3d ∷ 0x19 ∷ 0xb2 ∷ 0x72 ∷ 0x57 ∷ 0xac ∷ 0x96 ∷ 0xab
    ∷ 0x36 ∷ 0x25 ∷ 0x70 ∷ 0xf5 ∷ 0x08 ∷ []

-- What the uninitialised local arrays of the functions hold when they are entered.
pub record Locals : Type 0 where
  pub name_hash : List ℕ
  pub version_hash : List ℕ
  pub source_hash : List ℕ
  pub actual_addr_hash : List ℕ
  pub recovered_addr_hash : List ℕ

module _ (sha : Sha3) (loc : Locals) where
  open loc use {name_hash, version_hash, source_hash, actual_addr_hash, recovered_addr_hash}

  -- The 160 bytes that are hashed. The statuses of the first two hashes are ignored.
  unfoldable pub domain_bytes : CString → ℕ → List ℕ
  domain_bytes domain_name chain_id =
      domain_typehash
      ++ ((keccak256 sha domain_name name_hash).1
          ++ ((keccak256 sha (str "1") version_hash).1
              ++ ((replicate 24 0 ++ be_bytes chain_id) ++ replicate 32 0)))

  unfoldable pub eip712_domain_hash : CString → ℕ → Option (List ℕ)
  eip712_domain_hash domain_name chain_id =
      checked (keccak256 sha (domain_bytes domain_name chain_id) [])

  -- The 96 bytes that are hashed.
  unfoldable pub agent_bytes : CString → List ℕ → List ℕ
  agent_bytes source connection_id =
      agent_typehash ++ ((keccak256 sha source source_hash).1 ++ connection_id)

  unfoldable pub eip712_agent_struct_hash : CString → List ℕ → Option (List ℕ)
  eip712_agent_struct_hash source connection_id =
      checked (keccak256 sha (agent_bytes source connection_id) [])

  unfoldable pub eip712_signing_hash : List ℕ → List ℕ → Option (List ℕ)
  eip712_signing_hash domain_hash struct_hash =
      checked (keccak256 sha (0x19 ∷ 0x01 ∷ domain_hash ++ struct_hash) [])

  -- The first three steps of `eip712_sign_agent`: the hash that is signed.
  unfoldable pub agent_digest : CString → ℕ → CString → List ℕ → Option (List ℕ)
  agent_digest domain_name chain_id source connection_id = do
    domain_hash ← eip712_domain_hash domain_name chain_id
    struct_hash ← eip712_agent_struct_hash source connection_id
    eip712_signing_hash domain_hash struct_hash

  unfoldable pub eip712_sign_agent :
      Secp256k1 → CString → ℕ → CString → List ℕ → CString → Option (List ℕ)
  eip712_sign_agent secp domain_name chain_id source connection_id private_key_hex = do
    signing_hash ← agent_digest domain_name chain_id source connection_id
    ecdsa_sign_secp256k1 sha secp actual_addr_hash recovered_addr_hash signing_hash private_key_hex
