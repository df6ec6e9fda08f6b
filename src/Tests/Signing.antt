-- ===== src/Tests/Signing.antt =====
-- Signing (src/msgpack/serialize.c, src/crypto/eip712.c) at concrete inputs.
use mathlib.Core.Path.{refl}
use mathlib.Core.Logic.{◌⊎◌}
use hyperliquid_c.Prelude.{
  ℕ, ◌≤◌, ◌≡◌, refl, ◌⊎◌, true, false, none, some, List, [], ◌∷◌, ◌++◌, arith, length, replicate,
}
use hyperliquid_c.Prelude.Text.{CString, str, str_eq}
use hyperliquid_c.Prelude.Words.{be_bytes}
use hyperliquid_c.Crypto.Hex.{
  hex_to_bytes, strip_prefix, hex_loop, hex_digit, bytes_to_hex, hex_chars, hex_char,
}
use hyperliquid_c.Crypto.Keccak.{Collision, keccak256}
use hyperliquid_c.Crypto.Ecdsa.{
  ecdsa_sign_secp256k1, sign_bytes, find_recid, recid_matches, address_of,
}
use hyperliquid_c.Crypto.Ecdsa.Recovery.{IsSignature, ecdsa_sign-IsSignature, ecdsa_sign_succeeds}
use hyperliquid_c.Crypto.Eip712.{
  agent_digest, eip712_domain_hash, eip712_agent_struct_hash, eip712_signing_hash, domain_bytes,
  agent_bytes,
}
use hyperliquid_c.Crypto.Eip712.Binding.{agent_digest_binding}
use hyperliquid_c.Msgpack.Prefix.{OrderActionFits}
use hyperliquid_c.Msgpack.{
  OrderAction, Action, order, cancel, hash_input, hl_build_action_hash, vault_bytes, pack_action,
  alloc_size, put_str, pack_cancels, pack_cancel_action,
}
use hyperliquid_c.Msgpack.Binding.{build_action_hash_binding}
use hyperliquid_c.Msgpack.Buffer.{hash_input_fits}
use hyperliquid_c.Tests.Instances.{
  sha, sha-IsTotal, sha-Is32, locals, secp, secp-RecoversSigner, packer, packer-IsMsgpack,
}

abbrev one_cancel : Action
one_cancel = cancel (record { cancels = record { a = 3; o = 77 } ∷ [] })

abbrev nonce : ℕ
nonce = 9

abbrev fives : List ℕ
fives = replicate 32 5

abbrev chain : ℕ
chain = 1337

abbrev one_packed : List ℕ
one_packed = pack_cancel_action packer (record { cancels = record { a = 3; o = 77 } ∷ [] }) []

abbrev one_hashed : List ℕ
one_hashed =
    pack_cancel_action packer (record { cancels = record { a = 3; o = 77 } ∷ [] })
      (be_bytes nonce ++ 0x00 ∷ [])

abbrev one_signature : List ℕ
one_signature = replicate 64 7 ++ 28 ∷ []

abbrev one_order_action : OrderAction
one_order_action = record {
  orders =
      record {
        a = 3;
        b = true;
        p = str "100";
        s = str "2";
        r = false;
        limit = record { tif = str "Gtc" };
      }
      ∷ [];
  grouping = str "na";
}

abbrev one_order : Action
one_order = order one_order_action

abbrev key_text : CString
key_text = bytes_to_hex (replicate 32 7) true

one_order-OrderActionFits : OrderActionFits one_order_action
one_order-OrderActionFits = record {
  count = omega arith;
  each = (
    record { asset = omega arith; price = omega arith; size = omega arith; tif = omega arith },
    tt,
  );
  grouping = omega arith;
}

build_action_hash_binding_example :
    ((one_cancel ≡ one_cancel)
      × (nonce ≡ nonce)
      × (vault_bytes packer none ≡ vault_bytes packer none))
    ⊎ Collision sha
unfolding hl_build_action_hash hash_input vault_bytes pack_action pack_cancel_action pack_cancels
    put_str be_bytes keccak256
build_action_hash_binding_example =
    build_action_hash_binding packer packer-IsMsgpack sha true one_cancel one_cancel nonce nonce
      none none
      (record {
        count = omega arith;
        each = (record { asset = omega arith; id = omega arith }, tt);
      })
      (record {
        count = omega arith;
        each = (record { asset = omega arith; id = omega arith }, tt);
      })
      (omega arith) (omega arith) refl refl (omega arith) (omega arith) refl refl

agent_digest_binding_example :
    ((str "Exchange" ≡ str "Exchange") × (chain ≡ chain) × (str "a" ≡ str "a") × (fives ≡ fives))
    ⊎ Collision sha
unfolding agent_digest eip712_domain_hash eip712_agent_struct_hash eip712_signing_hash domain_bytes
    agent_bytes keccak256 be_bytes
agent_digest_binding_example =
    agent_digest_binding sha locals sha-IsTotal sha-Is32 (str "Exchange") (str "Exchange") chain
      chain (str "a") (str "a") (replicate 32 5) (replicate 32 5) (omega arith) (omega arith)
      (omega arith) (omega arith) (omega arith) (omega arith) refl refl refl refl

hash_input_fits_example :
    ((tail : List ℕ) × (vault_bytes packer none ≡ some tail)
      × (one_hashed ≡ one_packed ++ (be_bytes nonce ++ tail)))
    × (length one_hashed ≤ alloc_size (length one_packed) none)
unfolding hash_input vault_bytes pack_action
hash_input_fits_example = hash_input_fits packer one_cancel nonce none refl refl

-- The id is the first that recovers the signer.
ecdsa_sign-IsSignature_example :
    (priv_bytes : List ℕ) × (hex_to_bytes (some key_text) 32 ≡ (priv_bytes, 32))
    × IsSignature sha secp [] [] (replicate 32 5) priv_bytes one_signature
unfolding ecdsa_sign_secp256k1 sign_bytes find_recid recid_matches address_of keccak256 hex_to_bytes
    strip_prefix hex_loop hex_digit bytes_to_hex hex_chars hex_char str_eq
ecdsa_sign-IsSignature_example =
    ecdsa_sign-IsSignature sha secp [] [] (replicate 32 5) key_text refl

ecdsa_sign_succeeds_example :
    (bytes : List ℕ) × (ecdsa_sign_secp256k1 sha secp [] [] (replicate 32 5) key_text ≡ some bytes)
unfolding hex_to_bytes strip_prefix hex_loop hex_digit bytes_to_hex hex_chars hex_char
ecdsa_sign_succeeds_example =
    ecdsa_sign_succeeds sha secp secp-RecoversSigner sha-IsTotal [] [] (replicate 32 5) key_text
      (replicate 32 7) (replicate 32 7) (replicate 32 7) refl refl refl refl
