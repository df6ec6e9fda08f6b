-- ===== src/Msgpack.antt =====
-- src/msgpack/serialize.c: the bytes of an action, and the hash that becomes its connection id.
pub mod Prefix
pub mod Binding
pub mod Buffer
use hyperliquid_c.Prelude.{
  ℕ, zero, suc, ◌+◌, ◌-◌, ◌*◌, ◌/◌, ◌%◌, ◌^◌, ◌≤◌, ◌<◌, min, String, ◌≡◌, refl, sym, ap, ap₂, ◌∙◌,
  ◌≢◌, ◌↔◌, ◌⊎◌, inl, inr, Bool, true, false, not, ◌&&◌, ◌||◌, Option, none, some, List, [], ◌∷◌,
  ◌++◌, map, arith, ltb, leb, ◌==◌, if◌then◌else◌, ltb→lt, lt→ltb, leb→le, ==_iff, ==_refl,
  Bool-cases, Option-cases, &&-eq-true, ◌>>=◌, ◌>>◌, guard, >>=-eq-some, guard-eq-some, length,
  get_elem?, set, take, drop, replicate, length-append, length-set, length-take, length-drop,
  length-replicate, take_all, take-append_le, take-append-drop, append_cancel, All,
}
use hyperliquid_c.Prelude.Text.{
  CString, str, str_eq, str_eq_refl, str_eq→eq, str_eq_iff, split_at_char, strncpy, c_str,
}
use hyperliquid_c.Prelude.Words.{be_bytes}
use hyperliquid_c.Crypto.Hex.{parse_eth_address}
use hyperliquid_c.Crypto.Keccak.{checked, Sha3, keccak256}

-- `hl_limit_t`, `hl_order_t`, `hl_cancel_t` and the two actions of include/hl_msgpack.h.
pub record Limit : Type 0 where
  pub tif : CString

pub record Order : Type 0 where
  pub a : ℕ
  pub b : Bool
  pub p : CString
  pub s : CString
  pub r : Bool
  pub limit : Limit

pub record OrderAction : Type 0 where
  pub orders : List Order
  pub grouping : CString

pub record Cancel : Type 0 where
  pub a : ℕ
  pub o : ℕ

pub record CancelAction : Type 0 where
  pub cancels : List Cancel

-- `action_type` and `action_data`: the type decides how the data is read.
pub data Action : Type 0 where
  order : OrderAction → Action
  cancel : CancelAction → Action
  unknown : Action

-- msgpack-c: what each call of a packer appends to its buffer.
pub record Packer : Type 0 where
  pub pack_map : ℕ → List ℕ
  pub pack_array : ℕ → List ℕ
  pub pack_str : ℕ → List ℕ
  pub pack_str_body : CString → ℕ → List ℕ
  pub pack_uint32 : ℕ → List ℕ
  pub pack_uint64 : ℕ → List ℕ
  pub pack_true : List ℕ
  pub pack_false : List ℕ

-- Each function is given `rest`, the bytes that are packed after it.
module _ (pk : Packer) where
  open pk use {
    pack_map, pack_array, pack_str, pack_str_body, pack_uint32, pack_uint64, pack_true, pack_false,
  }

  -- `msgpack_pack_str` and `msgpack_pack_str_body` with the length of the text.
  unfoldable pub put_str : CString → List ℕ → List ℕ
  put_str text rest = pack_str (length text) ++ (pack_str_body text (length text) ++ rest)

  unfoldable pub put_bool : Bool → List ℕ → List ℕ
  put_bool b rest = (if b then pack_true else pack_false) ++ rest

  unfoldable pub pack_limit : Limit → List ℕ → List ℕ
  pack_limit limit rest =
      pack_map 1
      ++ put_str (str "limit") (pack_map 1 ++ put_str (str "tif") (put_str limit.tif rest))

  unfoldable pub pack_order : Order → List ℕ → List ℕ
  pack_order o rest =
      pack_map 6
      ++ put_str (str "a") (
          pack_uint32 o.a
          ++ put_str (str "b") (
              put_bool o.b (
                put_str (str "p") (
                  put_str o.p (
                    put_str (str "s") (
                      put_str o.s (
                        put_str (str "r")
                          (put_bool o.r (put_str (str "t") (pack_limit o.limit rest))))))))))

  unfoldable pub pack_orders : List Order → List ℕ → List ℕ
  pack_orders [] rest = rest
  pack_orders (o ∷ orders) rest = pack_order o (pack_orders orders rest)

  unfoldable pub pack_order_action : OrderAction → List ℕ → List ℕ
  pack_order_action action rest =
      pack_map 3
      ++ put_str (str "type") (
          put_str (str "order") (
            put_str (str "orders") (
              pack_array (length action.orders)
              ++ pack_orders action.orders
                  (put_str (str "grouping") (put_str action.grouping rest)))))

  unfoldable pub pack_cancels : List Cancel → List ℕ → List ℕ
  pack_cancels [] rest = rest
  pack_cancels (c ∷ cancels) rest =
      pack_map 2
      ++ put_str (str "a")
          (pack_uint32 c.a ++ put_str (str "o") (pack_uint64 c.o ++ pack_cancels cancels rest))

  unfoldable pub pack_cancel_action : CancelAction → List ℕ → List ℕ
  pack_cancel_action action rest =
      pack_map 2
      ++ put_str (str "type") (
          put_str (str "cancel") (
            put_str (str "cancels")
              (pack_array (length action.cancels) ++ pack_cancels action.cancels rest)))

  -- The packed action before `rest`; `none` for an unknown type.
  unfoldable pub pack_action : Action → List ℕ → Option (List ℕ)
  pack_action (order action) rest = some (pack_order_action action rest)
  pack_action (cancel action) rest = some (pack_cancel_action action rest)
  pack_action unknown rest = none

  -- The flag and the address behind the nonce. An empty address counts as none.
  unfoldable pub vault_bytes : Option CString → Option (List ℕ)
  vault_bytes none = some (0x00 ∷ [])
  vault_bytes (some []) = some (0x00 ∷ [])
  vault_bytes (some (c ∷ address)) = do
    addr_bytes ← parse_eth_address (c ∷ address)
    some (0x01 ∷ addr_bytes)

  -- The bytes that are hashed: the action, the nonce in big-endian order, and the vault.
  unfoldable pub hash_input : Action → ℕ → Option CString → Option (List ℕ)
  hash_input action nonce vault_address = do
    tail ← vault_bytes vault_address
    pack_action action (be_bytes nonce ++ tail)

  -- The connection id, `none` for -1. Whether the allocation succeeds is `allocated`.
  unfoldable pub hl_build_action_hash : Sha3 → Bool → Action → ℕ → Option CString → Option (List ℕ)
  hl_build_action_hash sha allocated action nonce vault_address = do
    pack_action action []
    guard allocated
    data' ← hash_input action nonce vault_address
    checked (keccak256 sha data' [])

  unfoldable pub hl_build_order_hash :
      Sha3 → Bool → List Order → CString → ℕ → Option CString → Option (List ℕ)
  hl_build_order_hash sha allocated orders grouping nonce vault_address =
      hl_build_action_hash sha allocated (order (record { orders = orders; grouping = grouping }))
        nonce vault_address

  unfoldable pub hl_build_cancel_hash :
      Sha3 → Bool → List Cancel → ℕ → Option CString → Option (List ℕ)
  hl_build_cancel_hash sha allocated cancels nonce vault_address =
      hl_build_action_hash sha allocated (cancel (record { cancels = cancels })) nonce vault_address

-- `malloc(data_len + (vault_address ? 21 : 1))` for a packed action of `size` bytes.
unfoldable pub alloc_size : ℕ → Option CString → ℕ
alloc_size size vault_address = size + 8 + elim vault_address [ none ↦ 1 | some v ↦ 21 ]
