-- ===== src/Crypto/Ecdsa/Recovery.antt =====
-- The recovery id of a signature leads back to the address of the signing key.
use hyperliquid_c.Crypto.Ecdsa.{
  sign_bytes, Secp256k1, find_recid, address_of, recid_matches, ecdsa_sign_secp256k1,
}
use hyperliquid_c.Prelude.{
  ℕ, zero, suc, ◌+◌, ◌%◌, ◌≤◌, ◌<◌, ◌≡◌, ap, ◌∙◌, inl, inr, Bool, true, false, some, List, [], ◌∷◌,
  ◌++◌, arith, ◌==◌, ==_iff, Bool-cases, guard, >>=-eq-some, guard-eq-some, take, drop,
}
use hyperliquid_c.Prelude.Text.{CString, str_eq, str_eq_refl}
use hyperliquid_c.Crypto.Hex.{hex_to_bytes}
use hyperliquid_c.Crypto.Keccak.{IsTotal, keccak256_total, Sha3}

-- The search returns the first id that passes, if one of the rounds has one.
find_recid_first :
    (test : ℕ → Bool) (rounds recid : ℕ) {r : ℕ}
    → find_recid test rounds recid ≡ some r
    → (r < recid + rounds)
      × (recid ≤ r)
      × (test r ≡ true)
      × ((j : ℕ) → recid ≤ j → j < r → test j ≡ false)
unfolding find_recid
find_recid_first test zero recid h = cc
find_recid_first test (suc rounds) recid {r} h = elim (Bool-cases (test recid)) [
  | inl p ↦
      let e : recid ≡ r = cc (rw p at h) in
      (omega arith, omega arith, rw (← e) p, λ j lo hi. absurd (omega arith))
  | inr p ↦
      let (hi, lo, pass, first) = find_recid_first test rounds (recid + 1) (rw p at h) in
      (
        omega arith,
        omega arith,
        pass,
        λ j a b. elim (Bool-cases (recid == j)) [
          | inl e ↦ rw (← (==_iff recid j).0 e) p
          | inr e ↦ first j (ground arith) b
        ],
      )
]

find_recid_finds :
    (test : ℕ → Bool) (rounds recid r : ℕ)
    → recid ≤ r
    → r < recid + rounds
    → test r ≡ true
    → (q : ℕ) × (find_recid test rounds recid ≡ some q)
unfolding find_recid
find_recid_finds test zero recid r lo hi pass = absurd (omega arith)
find_recid_finds test (suc rounds) recid r lo hi pass = elim (Bool-cases (test recid)) [
  | inl p ↦ (recid, rw p)
  | inr p ↦ elim (Bool-cases (recid == r)) [
    | inl e ↦ cc (p, pass, (==_iff recid r).0 e)
    | inr e ↦ rw p (find_recid_finds test rounds (recid + 1) r (ground arith) (omega arith) pass)
  ]
]

module _ (sha : Sha3) (secp : Secp256k1) where
  open secp use {
    Signature, Pubkey, context_create, sign_recoverable, serialize_compact, parse_compact, recover,
    pubkey_create,
  }

  -- What makes `sig` a signature of `hash` under a key of the given bytes: the first 64 bytes are
  -- the library's compact signature, and the last is 27 plus the first of the ids 0 to 3 by which a
  -- key of the signer's address is recovered.
  pub record IsSignature (out out' hash priv_bytes sig : List ℕ) : Type 0 where
    pub signature : Signature
    pub pubkey : Pubkey
    pub recid : ℕ
    pub signed : sign_recoverable hash priv_bytes ≡ some signature
    pub created : pubkey_create priv_bytes ≡ some pubkey
    pub in_range : recid < 4
    pub bytes : sig ≡ take 64 (serialize_compact signature).0 ++ (recid + 27) ∷ []
    pub recovers :
        recid_matches sha secp out' hash
          (serialize_compact signature).0
          (address_of sha secp out pubkey)
          recid
        ≡ true
    pub first :
        (j : ℕ)
        → j < recid
        → recid_matches sha secp out' hash
            (serialize_compact signature).0
            (address_of sha secp out pubkey)
            j
          ≡ false

  sign_bytes-IsSignature :
      (out out' hash priv_bytes : List ℕ) {sig : List ℕ}
      → sign_bytes sha secp out out' hash priv_bytes ≡ some sig
      → IsSignature out out' hash priv_bytes sig
  unfolding sign_bytes
  sign_bytes-IsSignature out out' hash priv {sig} h =
      let (u, c, h) = >>=-eq-some (guard context_create) _ h in
      let (s, signed, h) = >>=-eq-some (sign_recoverable hash priv) _ h in
      let (k, created, h) = >>=-eq-some (pubkey_create priv) _ h in
      let (r, found, h) = >>=-eq-some (find_recid _ 4 0) _ h in
      let (hi, lo, pass, first) = find_recid_first _ 4 0 found in
      let e : (r + 27) % 256 ≡ r + 27 = omega arith in
      record {
        signature = s;
        pubkey = k;
        recid = r;
        signed = signed;
        created = created;
        in_range = hi;
        bytes = cc (h, e);
        recovers = pass;
        first = λ j a. first j (omega arith) a;
      }

  -- Every signature that is returned is one of `hash` under the 32 bytes that the key text holds.
  pub ecdsa_sign-IsSignature :
      (out out' hash : List ℕ) (private_key_hex : CString) {sig : List ℕ}
      → ecdsa_sign_secp256k1 sha secp out out' hash private_key_hex ≡ some sig
      → (priv_bytes : List ℕ) × (hex_to_bytes (some private_key_hex) 32 ≡ (priv_bytes, 32))
        × IsSignature out out' hash priv_bytes sig
  unfolding ecdsa_sign_secp256k1
  ecdsa_sign-IsSignature out out' hash private_key_hex h =
      let (priv, count) = hex_to_bytes (some private_key_hex) 32 in
      let (u, p, h) = >>=-eq-some (guard (count == 32)) _ h in
      let is_32 : count ≡ 32 = (==_iff count 32).0 (guard-eq-some _ p) in
      (priv, ap (λ c. (priv, c)) is_32, sign_bytes-IsSignature out out' hash priv h)

  -- What libsecp256k1 documents of recoverable signatures: from the compact form and the id that
  -- come with a signature, the signer's public key is recovered.
  pub record RecoversSigner : Type 0 where
    pub recovery :
        (hash priv_bytes : List ℕ) (sig : Signature) (pubkey : Pubkey)
        → sign_recoverable hash priv_bytes ≡ some sig
        → pubkey_create priv_bytes ≡ some pubkey
        → (parsed : Signature) × (parse_compact (serialize_compact sig).0 (serialize_compact sig).1
            ≡ some parsed)
          × (recover parsed hash ≡ some pubkey)
          × ((serialize_compact sig).1 < 4)

  address_of_total :
      IsTotal sha
      → (out out' : List ℕ) (key : Pubkey)
      → address_of sha secp out key ≡ address_of sha secp out' key
  unfolding address_of
  address_of_total total out out' key =
      ap (λ r. take 20 (drop 12 (r.1)))
        (keccak256_total sha total (take 64 (drop 1 (secp.pubkey_serialize key))) out out')

  recid_matches_lem :
      (out hash compact_sig actual_addr : List ℕ) (recid : ℕ) {parsed : Signature} {key : Pubkey}
      → parse_compact compact_sig recid ≡ some parsed
      → recover parsed hash ≡ some key
      → recid_matches sha secp out hash compact_sig actual_addr recid
        ≡ str_eq actual_addr (address_of sha secp out key)
  unfolding recid_matches
  recid_matches_lem out hash compact_sig actual_addr recid p r = rw (p, r, recid_matches)

  -- Where the library keeps its word, hashing does not fail, and signing and the public key succeed,
  -- the search cannot fail: a signature is returned for every key text of 32 bytes.
  pub ecdsa_sign_succeeds :
      RecoversSigner
      → IsTotal sha
      → (out out' hash : List ℕ) (private_key_hex : CString) (priv_bytes : List ℕ) (sig : Signature)
        (pubkey : Pubkey)
      → hex_to_bytes (some private_key_hex) 32 ≡ (priv_bytes, 32)
      → context_create ≡ true
      → sign_recoverable hash priv_bytes ≡ some sig
      → pubkey_create priv_bytes ≡ some pubkey
      → (bytes : List ℕ) × (ecdsa_sign_secp256k1 sha secp out out' hash private_key_hex
          ≡ some bytes)
  unfolding ecdsa_sign_secp256k1 sign_bytes
  ecdsa_sign_succeeds laws total out out' hash private_key_hex priv sig pubkey hk hc hs hp =
      let (parsed, ps, rec, hi) = laws.recovery hash priv sig pubkey hs hp in
      let (r, found) =
        find_recid_finds
          (recid_matches sha secp out' hash (serialize_compact sig).0
            (address_of sha secp out pubkey))
          4 0 (serialize_compact sig).1 (omega arith) hi
          (recid_matches_lem out' hash (serialize_compact sig).0 (address_of sha secp out pubkey)
              (serialize_compact sig).1 ps rec
            ∙ (ap (str_eq (address_of sha secp out pubkey)) (address_of_total total out' out pubkey)
                ∙ str_eq_refl (address_of sha secp out pubkey))) in
      (take 64 (serialize_compact sig).0 ++ ((r + 27) % 256) ∷ [], simp (hk, hc, hs, hp, found))
