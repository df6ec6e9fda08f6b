-- ===== src/Crypto/Eip712/Binding.antt =====
-- What a signed agent hash commits to.
use hyperliquid_c.Crypto.Keccak.{
  Is32, checked-keccak256, eq_or_Collision, IsTotal, Sha3, keccak256, keccak256_lem, Collision,
}
use hyperliquid_c.Prelude.Words.{length-be_bytes, be_bytes-injective, be_bytes}
use hyperliquid_c.Prelude.{
  ℕ, ◌^◌, ◌<◌, ◌≡◌, refl, sym, ap, ◌∙◌, ◌⊎◌, inl, inr, some, List, [], ◌∷◌, ◌++◌, arith,
  >>=-eq-some, length, replicate, length-append, append_cancel,
}
use hyperliquid_c.Prelude.Text.{CString, str}
use hyperliquid_c.Crypto.Eip712.{
  Locals, domain_bytes, eip712_domain_hash, agent_bytes, eip712_agent_struct_hash,
  eip712_signing_hash, agent_digest, domain_typehash, agent_typehash,
}

signed_length :
    (a b : List ℕ) → length a ≡ 32 → length b ≡ 32 → length ((0x19 ∷ 0x01 ∷ a) ++ b) < 2 ^ 32
signed_length a b ha hb = omega (arith, length-append a b)

module _ (sha : Sha3) (loc : Locals) (total : IsTotal sha) (is_32 : Is32 sha) where
  -- A hash whose status is ignored is the library's too, since it does not fail.
  ignored_status :
      (input out : List ℕ)
      → length input < 2 ^ 32
      → (sha.hash_buffer input ≡ some (keccak256 sha input out).1)
        × (length (keccak256 sha input out).1 ≡ 32)
  ignored_status input out h =
      let (hash, e) = total input in
      rw (keccak256_lem sha input out h, e) (refl, is_32 input hash e)

  length-domain_bytes :
      (name : CString) (chain_id : ℕ)
      → length name < 2 ^ 32
      → length (domain_bytes sha loc name chain_id) ≡ 160
  unfolding domain_bytes be_bytes
  length-domain_bytes name chain_id h = omega (
    arith,
    length-append {0},
    (ignored_status name loc.name_hash h).1,
    (ignored_status (str "1") loc.version_hash (omega arith)).1,
  )

  length-agent_bytes :
      (source : CString) (connection_id : List ℕ)
      → length source < 2 ^ 32
      → length connection_id ≡ 32
      → length (agent_bytes sha loc source connection_id) ≡ 96
  unfolding agent_bytes
  length-agent_bytes source connection_id h c =
      omega (arith, length-append {0}, (ignored_status source loc.source_hash h).1)

  -- Equal domain inputs have equal names' hashes and equal chain ids.
  domain_bytes-injective :
      (n m : CString) (c d : ℕ)
      → length n < 2 ^ 32
      → length m < 2 ^ 32
      → c < 2 ^ 64
      → d < 2 ^ 64
      → domain_bytes sha loc n c ≡ domain_bytes sha loc m d
      → (sha.hash_buffer n ≡ sha.hash_buffer m) × (c ≡ d)
  unfolding domain_bytes
  domain_bytes-injective n m c d hn hm hc hd e =
      let (sn, ln) = ignored_status n loc.name_hash hn in
      let (sm, lm) = ignored_status m loc.name_hash hm in
      let (t, e) = append_cancel domain_typehash domain_typehash _ _ refl e in
      let (names, e) =
        append_cancel (keccak256 sha n loc.name_hash).1 (keccak256 sha m loc.name_hash).1 _ _
          (ln ∙ sym lm) e in
      let (v, e) =
        append_cancel (keccak256 sha (str "1") loc.version_hash).1
          (keccak256 sha (str "1") loc.version_hash).1 _ _ refl e in
      let (chains, e) =
        append_cancel (replicate 24 0 ++ be_bytes c) (replicate 24 0 ++ be_bytes d) _ _
          (omega (arith, length-be_bytes c, length-be_bytes d)) e in
      let (z, bytes) = append_cancel (replicate 24 0) (replicate 24 0) _ _ refl chains in
      (sn ∙ (ap some names ∙ sym sm), be_bytes-injective c d hc hd bytes)

  agent_bytes-injective :
      (s t : CString) (i j : List ℕ)
      → length s < 2 ^ 32
      → length t < 2 ^ 32
      → agent_bytes sha loc s i ≡ agent_bytes sha loc t j
      → (sha.hash_buffer s ≡ sha.hash_buffer t) × (i ≡ j)
  unfolding agent_bytes
  agent_bytes-injective s t i j hs ht e =
      let (ss, ls) = ignored_status s loc.source_hash hs in
      let (st, lt) = ignored_status t loc.source_hash ht in
      let (u, e) = append_cancel agent_typehash agent_typehash _ _ refl e in
      let (sources, ids) =
        append_cancel (keccak256 sha s loc.source_hash).1 (keccak256 sha t loc.source_hash).1 _ _
          (ls ∙ sym lt) e in
      (ss ∙ (ap some sources ∙ sym st), ids)

  -- The parts of a digest: the two hashes below it, and their inputs.
  record IsDigest (name : CString) (chain_id : ℕ) (source : CString) (connection_id digest : List ℕ)
      : Type 0 where
    domain_hash : List ℕ
    struct_hash : List ℕ
    domain : sha.hash_buffer (domain_bytes sha loc name chain_id) ≡ some domain_hash
    struct : sha.hash_buffer (agent_bytes sha loc source connection_id) ≡ some struct_hash
    signed : sha.hash_buffer (0x19 ∷ 0x01 ∷ domain_hash ++ struct_hash) ≡ some digest

  agent_digest-IsDigest :
      (name : CString) (chain_id : ℕ) (source : CString) (connection_id : List ℕ) {digest : List ℕ}
      → length name < 2 ^ 32
      → length source < 2 ^ 32
      → length connection_id ≡ 32
      → agent_digest sha loc name chain_id source connection_id ≡ some digest
      → IsDigest name chain_id source connection_id digest
  unfolding agent_digest eip712_domain_hash eip712_agent_struct_hash eip712_signing_hash
  agent_digest-IsDigest name chain_id source id hn hs hi h =
      let (dom, d, h) = >>=-eq-some (eip712_domain_hash sha loc name chain_id) _ h in
      let (st, s, h) = >>=-eq-some (eip712_agent_struct_hash sha loc source id) _ h in
      let dom_eq : sha.hash_buffer (domain_bytes sha loc name chain_id) ≡ some dom =
        sym (
          checked-keccak256 sha (domain_bytes sha loc name chain_id) []
            (omega (arith, length-domain_bytes name chain_id hn)))
        ∙ d in
      let st_eq : sha.hash_buffer (agent_bytes sha loc source id) ≡ some st =
        sym (
          checked-keccak256 sha (agent_bytes sha loc source id) []
            (omega (arith, length-agent_bytes source id hs hi)))
        ∙ s in
      record {
        domain_hash = dom;
        struct_hash = st;
        domain = dom_eq;
        struct = st_eq;
        signed =
            sym (
              checked-keccak256 sha (0x19 ∷ 0x01 ∷ dom ++ st) []
                (signed_length dom st (is_32 _ dom dom_eq) (is_32 _ st st_eq)))
            ∙ h;
      }

  -- Two digests of one value have the same inputs, layer by layer, or there is a collision.
  IsDigest-binding :
      (n m : CString) (c d : ℕ) (s t : CString) (i j : List ℕ) {digest : List ℕ}
      → length n < 2 ^ 32
      → length m < 2 ^ 32
      → c < 2 ^ 64
      → d < 2 ^ 64
      → length s < 2 ^ 32
      → length t < 2 ^ 32
      → IsDigest n c s i digest
      → IsDigest m d t j digest
      → ((n ≡ m) × (c ≡ d) × (s ≡ t) × (i ≡ j)) ⊎ Collision sha
  IsDigest-binding n m c d s t i j hn hm hc hd hs ht a b =
      elim (eq_or_Collision sha _ _ (a.signed ∙ sym b.signed)) [
        | inr col ↦ inr col
        | inl e ↦ layers (
            append_cancel (0x19 ∷ 0x01 ∷ a.domain_hash) (0x19 ∷ 0x01 ∷ b.domain_hash) _ _
              (omega (arith, is_32 _ a.domain_hash a.domain, is_32 _ b.domain_hash b.domain)) e)
      ]
    where
      names :
          sha.hash_buffer n ≡ sha.hash_buffer m
          → c ≡ d
          → sha.hash_buffer s ≡ sha.hash_buffer t
          → i ≡ j
          → ((n ≡ m) × (c ≡ d) × (s ≡ t) × (i ≡ j)) ⊎ Collision sha
      names hnm cd hst ij = elim (eq_or_Collision sha n m hnm) [
        | inr col ↦ inr col
        | inl nm ↦ elim (eq_or_Collision sha s t hst) [
          | inr col ↦ inr col
          | inl st ↦ inl (nm, cd, st, ij)
        ]
      ]

      layers :
          ((0x19 ∷ 0x01 ∷ a.domain_hash) ≡ (0x19 ∷ 0x01 ∷ b.domain_hash))
            × (a.struct_hash ≡ b.struct_hash)
          → ((n ≡ m) × (c ≡ d) × (s ≡ t) × (i ≡ j)) ⊎ Collision sha
      layers (doms, structs) =
          let dom_eq : a.domain_hash ≡ b.domain_hash = cc (doms) in
          elim (eq_or_Collision sha _ _ (a.domain ∙ (ap some dom_eq ∙ sym b.domain))) [
            | inr col ↦ inr col
            | inl de ↦
                elim (eq_or_Collision sha _ _ (a.struct ∙ (ap some structs ∙ sym b.struct))) [
                  | inr col ↦ inr col
                  | inl se ↦
                      let (hnm, cd) = domain_bytes-injective n m c d hn hm hc hd de in
                      let (hst, ij) = agent_bytes-injective s t i j hs ht se in names hnm cd hst ij
                ]
          ]

  -- Two agent messages with one digest have the same domain name, chain id, source and connection
  -- id, or two different inputs of one Keccak hash are at hand. Names and sources are shorter than
  -- 4 GiB, chain ids are 64-bit words, connection ids are 32 bytes, hashing does not fail, and its
  -- results are 32 bytes.
  pub agent_digest_binding :
      (n m : CString) (c d : ℕ) (s t : CString) (i j : List ℕ) {digest : List ℕ}
      → length n < 2 ^ 32
      → length m < 2 ^ 32
      → c < 2 ^ 64
      → d < 2 ^ 64
      → length s < 2 ^ 32
      → length t < 2 ^ 32
      → length i ≡ 32
      → length j ≡ 32
      → agent_digest sha loc n c s i ≡ some digest
      → agent_digest sha loc m d t j ≡ some digest
      → ((n ≡ m) × (c ≡ d) × (s ≡ t) × (i ≡ j)) ⊎ Collision sha
  agent_digest_binding n m c d s t i j hn hm hc hd hs ht hi hj p q =
      IsDigest-binding n m c d s t i j hn hm hc hd hs ht (agent_digest-IsDigest n c s i hn hs hi p)
        (agent_digest-IsDigest m d t j hm ht hj q)
