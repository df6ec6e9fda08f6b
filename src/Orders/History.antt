-- ===== src/Orders/History.antt =====
-- The three queries of the order history in src/orders.c.
use hyperliquid_c.Prelude.{
  ◌+◌, ◌<◌, ◌≡◌, refl, sym, ap, ◌∙◌, inl, inr, Bool, true, not, none, some, List, [], ◌∷◌, arith,
  ltb, ◌==◌, if◌then◌else◌, Bool-cases, Option-cases, Sum-cases, length, replicate,
  length-replicate, All,
}
use hyperliquid_c.Prelude.Text.{str, str_eq, str_eq→eq}
use hyperliquid_c.Types.{HlError, success, auth, memory, Doubles, CJson}
use hyperliquid_c.Orders.Parse.{parse_orders, reply_items}
use hyperliquid_c.Orders.{
  user_request, HlError, OrdersApi, CJson, HlOrder, Orders, no_orders, zero_order, listed,
  is_closed, is_canceled, count_kept, copy_kept, kept_orders,
}
use hyperliquid_c.Orders.Fetches.{
  hl_fetch_canceled_and_closed_orders, hl_fetch_canceled_orders, fetch_history,
  hl_fetch_closed_orders,
}
use mathlib.Core.List.{append-nil}
use mathlib.Core.Logic.{inl, inr}
use hyperliquid_c.Orders.Copies.{keep, drop_all, count_kept-eq-length, copy_kept_lem}

module _ {ℓ} {A : Type ℓ} where
  keep-All : (p : A → Bool) (xs : List A) → All (λ x. p x ≡ true) (keep p xs)
  keep-All p [] = tt
  keep-All p (x ∷ xs) = elim (Bool-cases (p x)) [
    | inl y ↦ rw y (y, keep-All p xs)
    | inr n ↦ rw n (keep-All p xs)
  ]

  keep-keep :
      (p q : A → Bool)
      → ((x : A) → p x ≡ true → q x ≡ true)
      → (xs : List A) → keep p (keep q xs) ≡ keep p xs
  keep-keep p q h [] = refl
  keep-keep p q h (x ∷ xs) = elim (Bool-cases (p x)) [
    | inl y ↦ simp (y, h x y, keep-keep p q h xs) refl
    | inr n ↦ elim (Bool-cases (q x)) [
      | inl z ↦ simp (n, z, keep-keep p q h xs) refl
      | inr z ↦ simp (n, z, keep-keep p q h xs) refl
    ]
  ]

module _ (d : Doubles) where
  -- The count is the length of the array.
  abbrev pub IsCounted : Orders d → Type 0
  IsCounted os = os.count ≡ length (listed d os)

  -- The array for a list, which is null for no orders.
  abbrev pub packed : List (HlOrder d) → Orders d
  packed [] = no_orders d
  packed (o ∷ os) = record { orders = some (o ∷ os); count = length (o ∷ os) }

  pub packed-IsCounted : (os : List (HlOrder d)) → IsCounted (packed os)
  packed-IsCounted [] = refl
  packed-IsCounted (o ∷ os) = refl

  pub listed-packed : (os : List (HlOrder d)) → listed d (packed os) ≡ os
  listed-packed [] = refl
  listed-packed (o ∷ os) = refl

  packed_empty : (os : List (HlOrder d)) → length os ≡ 0 → packed os ≡ no_orders d
  packed_empty [] h = refl
  packed_empty (o ∷ os) h = absurd (omega arith)

  packed_full :
      (os : List (HlOrder d))
      → 0 < length os
      → packed os ≡ record { orders = some os; count = length os }
  packed_full [] h = absurd (omega arith)
  packed_full (o ∷ os) h = refl

  is_canceled-closed : (o : HlOrder d) → is_canceled d o ≡ true → is_closed d o ≡ true
  unfolding is_canceled is_closed str_eq
  is_canceled-closed o h =
      let e : o.status ≡ str "canceled" = str_eq→eq _ _ h in simp (is_closed, e) refl

  copy_all :
      (p : HlOrder d → Bool) (os : List (HlOrder d))
      → copy_kept d p os 0 (replicate (count_kept d p os) (zero_order d)) ≡ some (keep p os)
  copy_all p os =
      let n = count_kept d p os in
      let same : n ≡ length (keep p os) = count_kept-eq-length d p os in
      let room = length-replicate n (zero_order d) in
      copy_kept_lem d p os 0 (replicate n (zero_order d)) (omega arith)
      ∙ ap some (
          rw (drop_all (0 + length (keep p os)) (replicate n (zero_order d)) (omega arith))
            (append-nil (keep p os)))

  kept_orders_lem :
      (p : HlOrder d → Bool) (os : List (HlOrder d))
      → kept_orders d true p os ≡ some (success, packed (keep p os))
  unfolding kept_orders
  kept_orders_lem p os = elim (Bool-cases (ltb 0 (count_kept d p os))) [
    | inr nothing ↦
        let same : count_kept d p os ≡ length (keep p os) = count_kept-eq-length d p os in
        rw (kept_orders, nothing)
          (ap (λ l. some (success, l)) (sym (packed_empty (keep p os) (ground arith))))
    | inl some_kept ↦
        let same : count_kept d p os ≡ length (keep p os) = count_kept-eq-length d p os in
        rw (kept_orders, some_kept, copy_all p os)
          (rw same (ap (λ l. some (success, l)) (sym (packed_full (keep p os) (ground arith)))))
  ]

module _ (d : Doubles) (j : CJson d) where
  -- The result and the orders that the answer to the query of the history holds.
  abbrev pub history : OrdersApi → HlError × List (HlOrder d)
  history x = elim x.wallet_address [
    | none ↦ (auth, [])
    | some user ↦
        elim (reply_items d j (x.post (str "/info") (user_request (str "historicalOrders") user))) [
          | inl e ↦ (e, [])
          | inr items ↦
              if length items == 0
              then (success, [])
              else if not x.calloc_parsed
              then (memory, [])
              else (success, parse_orders d j (λ o. o) (length items) items)
        ]
  ]

  pub fetch_history_lem :
      (p : HlOrder d → Bool) (x : OrdersApi)
      → x.calloc_kept ≡ true
      → fetch_history d j p x ≡ some ((history x).0, packed d (keep p (history x).1))
  unfolding fetch_history
  fetch_history_lem p x h = elim (Option-cases x.wallet_address) [
    | inl a ↦ simp (fetch_history, history, a) refl
    | inr (user, a) ↦
        elim (Sum-cases
          (reply_items d j (x.post (str "/info") (user_request (str "historicalOrders") user)))) [
            | inl (e, b) ↦ simp (fetch_history, history, a, b) refl
            | inr (items, b) ↦ elim (Bool-cases (length items == 0)) [
              | inl c ↦ simp (fetch_history, history, a, b, c) refl
              | inr c ↦ elim (Bool-cases x.calloc_parsed) [
                | inr m ↦ simp (fetch_history, history, a, b, c, m) refl
                | inl m ↦
                    simp (fetch_history, history, a, b, c, m, h)
                      (kept_orders_lem d p (parse_orders d j (λ o. o) (length items) items))
              ]
            ]
          ]
  ]

  -- Where there is memory for the kept orders, the three queries of the history return the same
  -- result, and no write is out of bounds. The closed orders and the canceled and closed orders are
  -- the same: those of the answer, in order, whose status is not "open"; the canceled orders are
  -- those of the closed orders whose status is "canceled". The counts are the lengths of the arrays.
  pub hl_fetch_canceled_orders_lem :
      (x : OrdersApi)
      → x.calloc_kept ≡ true
      → (code : HlError) × (closed : Orders d) × (canceled : Orders d) × (hl_fetch_closed_orders d j
            x
          ≡ some (code, closed))
        × (hl_fetch_canceled_and_closed_orders d j x ≡ some (code, closed))
        × (hl_fetch_canceled_orders d j x ≡ some (code, canceled))
        × (listed d closed ≡ keep (is_closed d) (history x).1)
        × (listed d canceled ≡ keep (is_canceled d) (listed d closed))
        × IsCounted d closed
        × IsCounted d canceled
  unfolding hl_fetch_closed_orders hl_fetch_canceled_orders hl_fetch_canceled_and_closed_orders
  hl_fetch_canceled_orders_lem x h =
      let os = (history x).1 in
      let closed = keep (is_closed d) os in
      let canceled = keep (is_canceled d) os in
      let e : listed d (packed d closed) ≡ closed = listed-packed d closed in
      (
        (history x).0,
        packed d closed,
        packed d canceled,
        fetch_history_lem (is_closed d) x h,
        fetch_history_lem (is_closed d) x h,
        fetch_history_lem (is_canceled d) x h,
        e,
        listed-packed d canceled
            ∙ sym (keep-keep (is_canceled d) (is_closed d) (is_canceled-closed d) os)
            ∙ ap (keep (is_canceled d)) (sym e),
        packed-IsCounted d closed,
        packed-IsCounted d canceled,
      )
