-- ===== src/Plain.antt =====
-- src/types.c: new orders, the current time, and freeing. What is freed is a list of addresses.
pub mod Freed
use hyperliquid_c.Prelude.{
  ℕ, zero, suc, ◌+◌, ◌-◌, ◌*◌, ◌/◌, ◌%◌, ◌^◌, ◌≤◌, ◌<◌, min, String, ◌≡◌, refl, sym, ap, ap₂, ◌∙◌,
  ◌≢◌, ◌↔◌, ◌⊎◌, inl, inr, Bool, true, false, not, ◌&&◌, ◌||◌, Option, none, some, List, [], ◌∷◌,
  ◌++◌, map, arith, ltb, leb, ◌==◌, if◌then◌else◌, ltb→lt, lt→ltb, leb→le, ==_iff, ==_refl,
  Bool-cases, Option-cases, Sum-cases, &&-eq-true, ◌>>=◌, ◌>>◌, guard, some-injective, >>=-eq-some,
  guard-eq-some, length, get_elem?, set, take, drop, replicate, length-append, length-set,
  length-take, length-drop, length-replicate, get_elem?-drop, get_elem?-lt, drop-head, All-append,
  All-map, All-get_elem?, take_all, take-append_le, take-append-drop, append_cancel, All,
}
use hyperliquid_c.Prelude.Text.{
  CString, str, str_eq, str_eq_refl, str_eq→eq, str_eq_iff, split_at_char, strncpy, c_str, snprintf,
}
use hyperliquid_c.Types.{Doubles, decimal}
use hyperliquid_c.Orders.{HlOrder, zero_order}

module _ (d : Doubles) where
  unfoldable pub hl_order_new : Bool → Option (HlOrder d)
  hl_order_new calloc =
      if calloc
      then some (record (zero_order d) {
        time_in_force = str "GTC";
        status = str "open";
        leverage = d.of_nat 1;
      })
      else none

-- `size` is that of the buffer and `time` is time(NULL), which is no negative number.
unfoldable pub hl_current_timestamp : ℕ → ℕ → CString
hl_current_timestamp size time = if size == 0 then [] else snprintf size (decimal (time * 1000))

-- The addresses that the loop over an array frees, from element `i` on: `order` is the size of one.
unfoldable pub free_loop : ℕ → ℕ → ℕ → ℕ → List ℕ
free_loop base order i zero = []
free_loop base order i (suc n) = (base + i * order) ∷ free_loop base order (suc i) n

-- What hl_free_orders frees, hl_free_trades likewise: 0 is the null pointer.
unfoldable pub hl_free_orders : ℕ → ℕ → ℕ → List ℕ
hl_free_orders base order count =
    if base == 0 then [] else free_loop base order 0 count ++ base ∷ []
