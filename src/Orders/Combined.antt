-- ===== src/Orders/Combined.antt =====
-- hl_fetch_orders of src/orders.c: two requests, and both arrays in one.
use hyperliquid_c.Prelude.{
  ℕ, ◌+◌, ◌-◌, ◌≡◌, refl, ap, ap₂, ◌∙◌, inl, inr, Bool, true, not, ◌&&◌, some, List, [], ◌++◌,
  arith, ◌==◌, if◌then◌else◌, Bool-cases, Option-cases, Sum-cases, length, take, drop, replicate,
  length-append, length-drop, length-replicate, take_all, take-append_le,
}
use hyperliquid_c.Prelude.Text.{str}
use hyperliquid_c.Types.{HlError, success, memory, is_success, Doubles, CJson}
use mathlib.Core.Logic.{inl, inr}
use mathlib.Core.List.{append-nil}
use hyperliquid_c.Orders.{
  OrdersApi, HlOrder, Orders, no_orders, zero_order, listed, is_closed, copy_orders, user_request,
  combine_orders,
}
use hyperliquid_c.Orders.Parse.{reply_items}
use hyperliquid_c.Orders.Fetches.{
  hl_fetch_open_orders, hl_fetch_orders, hl_fetch_canceled_and_closed_orders,
}
use hyperliquid_c.Orders.Copies.{keep, drop_all, copy_orders_lem}
use hyperliquid_c.Orders.History.{history, fetch_history_lem, IsCounted, packed, packed-IsCounted}

module _ (d : Doubles) where
  -- What the two queries should combine to.
  abbrev pub combined : Bool → HlError × Orders d → HlError × Orders d → HlError × Orders d
  combined calloc a b =
      if not (is_success a.0) && not (is_success b.0)
      then (a.0, no_orders d)
      else if a.1.count + b.1.count == 0
      then (success, no_orders d)
      else if not calloc
      then (memory, no_orders d)
      else (
        success,
        record { orders = some (listed d a.1 ++ listed d b.1); count = a.1.count + b.1.count },
      )

  copy_both :
      (xs ys : List (HlOrder d)) (n m : ℕ)
      → n ≡ length xs
      → m ≡ length ys
      → (os : List (HlOrder d)) × (copy_orders d xs n 0 0 (replicate (n + m) (zero_order d))
          ≡ some os)
        × (copy_orders d ys m 0 n os ≡ some (xs ++ ys))
  copy_both xs ys n m e f =
      let T = replicate (n + m) (zero_order d) in
      let size : length T ≡ n + m = length-replicate (n + m) (zero_order d) in
      let D = drop n T in
      let size_D : length D ≡ length T - n = length-drop n T in
      let all_xs : take n xs ≡ xs = take_all n xs (omega arith) in
      let all_ys : take m ys ≡ ys = take_all m ys (omega arith) in
      let z : 0 + 0 + n ≡ n = omega arith in
      let first : copy_orders d xs n 0 0 T ≡ some (xs ++ D) =
        copy_orders_lem d xs n 0 0 T (omega arith) (omega arith)
        ∙ ap some (ap₂ (λ l k. l ++ drop k T) all_xs z) in
      let whole : length (xs ++ D) ≡ length xs + length D = length-append xs D in
      let t : take (n + 0) (xs ++ D) ≡ xs =
        take-append_le (n + 0) xs D (omega arith) ∙ take_all (n + 0) xs (omega arith) in
      let r : drop (n + 0 + m) (xs ++ D) ≡ [] = drop_all (n + 0 + m) (xs ++ D) (omega arith) in
      (
        xs ++ D,
        first,
        copy_orders_lem d ys m 0 n (xs ++ D) (omega arith) (omega arith)
            ∙ ap some (ap₂ ◌++◌ t (ap₂ ◌++◌ all_ys r ∙ append-nil ys)),
      )

  combine_orders_lem :
      (calloc : Bool) (a b : Orders d)
      → IsCounted d a
      → IsCounted d b
      → combine_orders d calloc a b
        ≡ some (
            if a.count + b.count == 0
            then (success, no_orders d)
            else if not calloc
            then (memory, no_orders d)
            else (
              success,
              record { orders = some (listed d a ++ listed d b); count = a.count + b.count },
            ))
  unfolding combine_orders
  combine_orders_lem calloc a b h k = elim (Bool-cases (a.count + b.count == 0)) [
    | inl nothing ↦ simp (combine_orders, nothing) refl
    | inr some_there ↦ elim (Bool-cases calloc) [
      | inr full ↦ simp (combine_orders, some_there, full) refl
      | inl room ↦
          let (os, p, q) = copy_both (listed d a) (listed d b) a.count b.count h k in
          simp (combine_orders, some_there, room, p, q) refl
    ]
  ]

module _ (d : Doubles) (j : CJson d) where
  open_orders-IsCounted : (x : OrdersApi) → IsCounted d (hl_fetch_open_orders d j x).1
  unfolding hl_fetch_open_orders
  open_orders-IsCounted x = elim (Option-cases x.wallet_address) [
    | inl a ↦ simp (hl_fetch_open_orders, a) refl
    | inr (user, a) ↦
        elim (Sum-cases
          (reply_items d j (x.post (str "/info") (user_request (str "frontendOpenOrders") user)))) [
            | inl (e, b) ↦ simp (hl_fetch_open_orders, a, b) refl
            | inr (items, b) ↦ elim (Bool-cases (length items == 0)) [
              | inl c ↦ simp (hl_fetch_open_orders, a, b, c) refl
              | inr c ↦ elim (Bool-cases x.calloc_parsed) [
                | inr m ↦ simp (hl_fetch_open_orders, a, b, c, m) refl
                | inl m ↦ simp (hl_fetch_open_orders, a, b, c, m) refl
              ]
            ]
          ]
  ]

  -- Where there is memory for the historical orders, fetching all orders never reads or writes out
  -- of bounds. It returns the first error where both queries fail. Else it has the open orders, then
  -- the canceled and closed ones, with a query that fails taken for no orders; it is a success unless
  -- there are some and no memory for them.
  pub hl_fetch_orders_lem :
      (calloc : Bool) (x : OrdersApi)
      → x.calloc_kept ≡ true
      → (r : HlError × Orders d) × (hl_fetch_canceled_and_closed_orders d j x ≡ some r)
        × (hl_fetch_orders d j calloc x ≡ some (combined d calloc (hl_fetch_open_orders d j x) r))
  unfolding hl_fetch_orders hl_fetch_canceled_and_closed_orders
  hl_fetch_orders_lem calloc x h =
      let r : HlError × Orders d =
        ((history d j x).0, packed d (keep (is_closed d) (history d j x).1)) in
      let e : hl_fetch_canceled_and_closed_orders d j x ≡ some r =
        fetch_history_lem d j (is_closed d) x h in
      let open_orders = hl_fetch_open_orders d j x in
      (
        r,
        e,
        elim (Bool-cases (not (is_success open_orders.0) && not (is_success r.0))) [
          | inl both ↦ simp (hl_fetch_orders, combined, e, both) refl
          | inr one ↦
              simp (hl_fetch_orders, combined, e, one)
                (combine_orders_lem d calloc open_orders.1 r.1 (open_orders-IsCounted x)
                  (packed-IsCounted d (keep (is_closed d) (history d j x).1)))
        ],
      )
