-- ===== src/Msgpack/Buffer.antt =====
-- The bytes that are hashed fit the allocation, and when a connection id is returned.
use mathlib.Core.List.{append_assoc}
use hyperliquid_c.Prelude.{
  ℕ, ◌≤◌, ◌≡◌, refl, Bool, Option, none, some, List, [], ◌∷◌, ◌++◌, arith, >>=-eq-some, length,
  length-append,
}
use hyperliquid_c.Prelude.Text.{CString}
use hyperliquid_c.Prelude.Words.{be_bytes, length-be_bytes}
use hyperliquid_c.Crypto.Hex.{parse_eth_address}
use hyperliquid_c.Crypto.Hex.Accepts.{length-parse_eth_address}
use hyperliquid_c.Msgpack.{
  Order, Limit, Cancel, OrderAction, CancelAction, Action, order, cancel, unknown, Packer, put_str,
  put_bool, pack_limit, pack_order, pack_orders, pack_cancels, pack_action, vault_bytes, hash_input,
  pack_order_action, pack_cancel_action, alloc_size,
}

module _ (pk : Packer) where
  vault_bytes-length :
      (v : Option CString) {tail : List ℕ}
      → vault_bytes pk v ≡ some tail
      → length tail ≤ elim v [ none ↦ 1 | some a ↦ 21 ]
  unfolding vault_bytes
  vault_bytes-length none h = ground arith
  vault_bytes-length (some []) h = ground arith
  vault_bytes-length (some (c ∷ a)) h =
      let (addr, e, h) = >>=-eq-some (parse_eth_address (c ∷ a)) _ h in
      ground (arith, length-parse_eth_address (c ∷ a) e)

  -- What is packed first does not depend on what is packed after it.
  put_str-append : (a : CString) (s t : List ℕ) → put_str pk a s ++ t ≡ put_str pk a (s ++ t)
  unfolding put_str
  put_str-append a s t = simp append_assoc

  put_bool-append : (b : Bool) (s t : List ℕ) → put_bool pk b s ++ t ≡ put_bool pk b (s ++ t)
  unfolding put_bool
  put_bool-append b s t = simp append_assoc

  pack_limit-append : (l : Limit) (s t : List ℕ) → pack_limit pk l s ++ t ≡ pack_limit pk l (s ++ t)
  unfolding pack_limit
  pack_limit-append l s t = simp (append_assoc, put_str-append)

  pack_order-append : (o : Order) (s t : List ℕ) → pack_order pk o s ++ t ≡ pack_order pk o (s ++ t)
  unfolding pack_order
  pack_order-append o s t = simp (append_assoc, put_str-append, put_bool-append, pack_limit-append)

  pack_orders-append :
      (os : List Order) (s t : List ℕ) → pack_orders pk os s ++ t ≡ pack_orders pk os (s ++ t)
  unfolding pack_orders
  pack_orders-append [] s t = refl
  pack_orders-append (o ∷ os) s t = simp (pack_order-append, pack_orders-append os s t)

  pack_cancels-append :
      (cs : List Cancel) (s t : List ℕ) → pack_cancels pk cs s ++ t ≡ pack_cancels pk cs (s ++ t)
  unfolding pack_cancels
  pack_cancels-append [] s t = refl
  pack_cancels-append (c ∷ cs) s t = simp (append_assoc, put_str-append, pack_cancels-append cs s t)

  pack_order_action-append :
      (x : OrderAction) (s t : List ℕ)
      → pack_order_action pk x s ++ t ≡ pack_order_action pk x (s ++ t)
  unfolding pack_order_action
  pack_order_action-append x s t = simp (append_assoc, put_str-append, pack_orders-append)

  pack_cancel_action-append :
      (x : CancelAction) (s t : List ℕ)
      → pack_cancel_action pk x s ++ t ≡ pack_cancel_action pk x (s ++ t)
  unfolding pack_cancel_action
  pack_cancel_action-append x s t = simp (append_assoc, put_str-append, pack_cancels-append)

  pack_action-append :
      (x : Action) (t : List ℕ) {packed : List ℕ}
      → pack_action pk x [] ≡ some packed
      → pack_action pk x t ≡ some (packed ++ t)
  unfolding pack_action
  pack_action-append (order x) t h = cc (h, pack_order_action-append x [] t)
  pack_action-append (cancel x) t h = cc (h, pack_cancel_action-append x [] t)
  pack_action-append unknown t h = cc

  -- The input is the packed action, the eight bytes of the nonce and the vault's bytes, and all of
  -- it fits the block that was allocated, whatever the vault address.
  pub hash_input_fits :
      (x : Action) (nonce : ℕ) (v : Option CString) {packed d : List ℕ}
      → pack_action pk x [] ≡ some packed
      → hash_input pk x nonce v ≡ some d
      → ((tail : List ℕ) × (vault_bytes pk v ≡ some tail)
          × (d ≡ packed ++ (be_bytes nonce ++ tail)))
        × (length d ≤ alloc_size (length packed) v)
  unfolding hash_input alloc_size
  hash_input_fits x nonce v {packed} {d} hp h =
      let (tail, e, h) = >>=-eq-some (vault_bytes pk v) _ h in
      let split : d ≡ packed ++ (be_bytes nonce ++ tail) =
        cc (h, pack_action-append x (be_bytes nonce ++ tail) hp) in
      (
        (tail, e, split),
        rw split (
            omega (
              arith,
              length-append packed (be_bytes nonce ++ tail),
              length-append (be_bytes nonce) tail,
              length-be_bytes nonce,
              vault_bytes-length v e,
            )),
      )
