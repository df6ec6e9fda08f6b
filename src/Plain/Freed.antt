-- ===== src/Plain/Freed.antt =====
-- What src/types.c frees of an array of orders.
use hyperliquid_c.Prelude.{
  ℕ, zero, suc, ◌+◌, ◌*◌, ◌<◌, ◌≡◌, refl, sym, ap, ◌∙◌, false, some, List, [], ◌∷◌, ◌++◌, arith,
  ◌==◌, some-injective, length, get_elem?,
}
use hyperliquid_c.Plain.{free_loop, hl_free_orders}

length-free_loop : (base order i n : ℕ) → length (free_loop base order i n) ≡ n
unfolding free_loop
length-free_loop base order i zero = refl
length-free_loop base order i (suc n) = ap suc (length-free_loop base order (suc i) n)

free_loop-address :
    (base order i n k a : ℕ)
    → get_elem? (free_loop base order i n) k ≡ some a
    → a ≡ base + (i + k) * order
unfolding free_loop
free_loop-address base order i zero k a h = cc h
free_loop-address base order i (suc n) zero a h =
    sym (some-injective _ _ h) ∙ ap (λ m. base + m * order) (omega arith)
free_loop-address base order i (suc n) (suc k) a h =
    free_loop-address base order (suc i) n k a h ∙ ap (λ m. base + m * order) (omega arith)

freed :
    (base order count : ℕ)
    → 0 < base
    → 0 < count
    → (others : List ℕ) × (hl_free_orders base order count ≡ base ∷ others ++ base ∷ [])
      × (suc (length others) ≡ count)
      × ((i : ℕ) (a : ℕ) → get_elem? others i ≡ some a → a ≡ base + (1 + i) * order)
unfolding hl_free_orders free_loop
freed base order zero b c = absurd (omega arith)
freed base order (suc n) b c =
    let not_null : (base == 0) ≡ false = ground arith in
    let first : base + 0 * order ≡ base = omega arith in
    (
      free_loop base order 1 n,
      simp (hl_free_orders, not_null, first) refl,
      ap suc (length-free_loop base order 1 n),
      λ i a h. free_loop-address base order 1 n i a h,
    )

freed_none : (base order : ℕ) → 0 < base → hl_free_orders base order 0 ≡ base ∷ []
unfolding hl_free_orders free_loop
freed_none base order b =
    let not_null : (base == 0) ≡ false = ground arith in simp (hl_free_orders, not_null) refl

-- Freeing an array that is not empty frees its first address twice, first as an order and at the end
-- as the array, and between the two every other order, whose address no allocation returned; an
-- empty array is freed once, and a null pointer never.
pub hl_free_orders_lem :
    (base order count : ℕ)
    → (0 < base
        → 0 < count
        → (others : List ℕ) × (hl_free_orders base order count ≡ base ∷ others ++ base ∷ [])
          × (suc (length others) ≡ count)
          × ((i : ℕ) (a : ℕ) → get_elem? others i ≡ some a → a ≡ base + (1 + i) * order))
      × (0 < base → hl_free_orders base order 0 ≡ base ∷ [])
      × (hl_free_orders 0 order count ≡ [])
unfolding hl_free_orders free_loop
hl_free_orders_lem base order count =
    (λ b c. freed base order count b c, λ b. freed_none base order b, refl)
