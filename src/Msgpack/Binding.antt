-- ===== src/Msgpack/Binding.antt =====
-- What a connection id commits to.
use hyperliquid_c.Prelude.{
  ℕ, ◌^◌, ◌<◌, ◌≡◌, sym, ap, ◌∙◌, ◌⊎◌, inl, inr, Bool, Option, some, List, [], ◌++◌, guard,
  >>=-eq-some, length, append_cancel,
}
use hyperliquid_c.Prelude.Text.{CString}
use hyperliquid_c.Prelude.Words.{be_bytes, be_bytes-injective, length-be_bytes}
use hyperliquid_c.Crypto.Keccak.{
  checked, checked-keccak256, eq_or_Collision, Sha3, keccak256, Collision,
}
use hyperliquid_c.Msgpack.{
  Action, order, cancel, unknown, Packer, pack_action, vault_bytes, hash_input,
  hl_build_action_hash,
}
use hyperliquid_c.Msgpack.Prefix.{
  IsMsgpack, OrderActionFits, CancelActionFits, pack_order_action_code, pack_cancel_action_code,
  order_ne_cancel,
}

abbrev pub ActionFits : Action → Type 0
ActionFits (order x) = OrderActionFits x
ActionFits (cancel x) = CancelActionFits x
ActionFits unknown = Unit

module _ (pk : Packer) (laws : IsMsgpack pk) where
  pack_action_code :
      (x y : Action) (s t : List ℕ) {d : List ℕ}
      → ActionFits x
      → ActionFits y
      → pack_action pk x s ≡ some d
      → pack_action pk y t ≡ some d
      → (x ≡ y) × (s ≡ t)
  unfolding pack_action
  pack_action_code (order x) (order y) s t hx hy p q =
      let (e, r) = pack_order_action_code pk laws x y s t hx hy (cc (p, q)) in (ap order e, r)
  pack_action_code (cancel x) (cancel y) s t hx hy p q =
      let (e, r) = pack_cancel_action_code pk laws x y s t hx hy (cc (p, q)) in (ap cancel e, r)
  pack_action_code (order x) (cancel y) s t hx hy p q =
      absurd (order_ne_cancel pk laws x y s t (cc (p, q)))
  pack_action_code (cancel x) (order y) s t hx hy p q =
      absurd (order_ne_cancel pk laws y x t s (cc (p, q)))
  pack_action_code (order x) unknown s t hx hy p q = cc
  pack_action_code (cancel x) unknown s t hx hy p q = cc
  pack_action_code unknown y s t hx hy p q = cc

  -- The hashed bytes determine the action with all its orders or cancels, the nonce, and the vault's
  -- flag and address bytes; for texts and lists below 2^32 in length and numbers that their C types
  -- hold.
  pub hash_input_injective :
      (x y : Action) (n m : ℕ) (v w : Option CString) {d : List ℕ}
      → ActionFits x
      → ActionFits y
      → n < 2 ^ 64
      → m < 2 ^ 64
      → hash_input pk x n v ≡ some d
      → hash_input pk y m w ≡ some d
      → (x ≡ y) × (n ≡ m) × (vault_bytes pk v ≡ vault_bytes pk w)
  unfolding hash_input
  hash_input_injective x y n m v w hx hy hn hm p q =
      let (vb, vp, p) = >>=-eq-some (vault_bytes pk v) _ p in
      let (wb, wq, q) = >>=-eq-some (vault_bytes pk w) _ q in
      let (xy, e) = pack_action_code x y (be_bytes n ++ vb) (be_bytes m ++ wb) hx hy p q in
      let (nonces, vaults) =
        append_cancel (be_bytes n) (be_bytes m) vb wb (length-be_bytes n ∙ sym (length-be_bytes m))
          e in
      (xy, be_bytes-injective n m hn hm nonces, vp ∙ (ap some vaults ∙ sym wq))

  build_action_hash-eq-some :
      (sha : Sha3) (allocated : Bool) (x : Action) (n : ℕ) (v : Option CString) {id : List ℕ}
      → hl_build_action_hash pk sha allocated x n v ≡ some id
      → (d : List ℕ) × (hash_input pk x n v ≡ some d) × (checked (keccak256 sha d []) ≡ some id)
  unfolding hl_build_action_hash
  build_action_hash-eq-some sha allocated x n v h =
      let (b, e, h) = >>=-eq-some (pack_action pk x []) _ h in
      let (u, e, h) = >>=-eq-some (guard allocated) _ h in >>=-eq-some (hash_input pk x n v) _ h

  -- Two actions with one connection id are the same action with the same nonce and vault, or two
  -- different inputs of one Keccak hash are at hand; for inputs below 4 GiB.
  pub build_action_hash_binding :
      (sha : Sha3) (allocated : Bool) (x y : Action) (n m : ℕ) (v w : Option CString)
      {id d d' : List ℕ}
      → ActionFits x
      → ActionFits y
      → n < 2 ^ 64
      → m < 2 ^ 64
      → hash_input pk x n v ≡ some d
      → hash_input pk y m w ≡ some d'
      → length d < 2 ^ 32
      → length d' < 2 ^ 32
      → hl_build_action_hash pk sha allocated x n v ≡ some id
      → hl_build_action_hash pk sha allocated y m w ≡ some id
      → ((x ≡ y) × (n ≡ m) × (vault_bytes pk v ≡ vault_bytes pk w)) ⊎ Collision sha
  build_action_hash_binding sha allocated x y n m v w {id} {d} {d'} hx hy hn hm p q ld ld' h k =
      elim (eq_or_Collision sha d d' (hash_of x n v d p ld h ∙ sym (hash_of y m w d' q ld' k))) [
        | inr col ↦ inr col
        | inl e ↦ inl (hash_input_injective x y n m v w hx hy hn hm p (rw e q))
      ]
    where
      hash_of :
          (z : Action) (l : ℕ) (u : Option CString) (bytes : List ℕ)
          → hash_input pk z l u ≡ some bytes
          → length bytes < 2 ^ 32
          → hl_build_action_hash pk sha allocated z l u ≡ some id
          → sha.hash_buffer bytes ≡ some id
      hash_of z l u bytes p short h =
          let (a, pa, ha) = build_action_hash-eq-some sha allocated z l u h in
          let e : bytes ≡ a = cc (pa, p) in
          sym (checked-keccak256 sha bytes [] short)
          ∙ (ap (λ b. checked (keccak256 sha b [])) e ∙ ha)
