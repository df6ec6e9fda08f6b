-- ===== src/Orderbook/Volumes.antt =====
-- The volumes of src/orderbook.c are sums over the first levels, read in bounds.
use hyperliquid_c.Prelude.{
  ℕ, zero, suc, ◌+◌, ◌≤◌, ◌≡◌, refl, sym, ap, ◌∙◌, inl, inr, Option, none, some, List, [], ◌∷◌,
  arith, ltb, ◌==◌, if◌then◌else◌, Bool-cases, length, take, drop, get_elem?-drop, take_all,
}
use hyperliquid_c.Types.{Doubles}
use hyperliquid_c.Orderbook.{
  Level, Book, volume_loop, side_volume, hl_orderbook_get_bid_volume, hl_orderbook_get_ask_volume,
}

module _ (d : Doubles) where
  -- The quantities added from the left.
  abbrev pub total_from : d.Real → List (Level d) → d.Real
  total_from s [] = s
  total_from s (l ∷ ls) = total_from (d.add s l.quantity) ls

  -- What a side of a book should give at a depth, of which 0 is all of it.
  abbrev pub total : Option (List (Level d)) → ℕ → d.Real
  total none depth = d.zero_real
  total (some ls) depth = total_from d.zero_real (if depth == 0 then ls else take depth ls)

  volume_loop_lem :
      (ls : List (Level d)) (n i : ℕ) (s : d.Real)
      → i + n ≤ length ls
      → volume_loop d ls n i s ≡ some (total_from s (take n (drop i ls)))
  unfolding volume_loop
  volume_loop_lem ls zero i s h = refl
  volume_loop_lem ls (suc n) i s h =
      let (l, p, q) = get_elem?-drop ls i (omega arith) in
      rw (volume_loop, p, q) (volume_loop_lem ls n (suc i) (d.add s l.quantity) (omega arith))

  take_min :
      (ls : List (Level d)) (n : ℕ)
      → take (if ltb (length ls) n then length ls else n) ls ≡ take n ls
  take_min ls n = elim (Bool-cases (ltb (length ls) n)) [
    | inl long ↦
        rw long (take_all (length ls) ls (omega arith) ∙ sym (take_all n ls (ground arith)))
    | inr short ↦ rw short refl
  ]

  take_depth :
      (ls : List (Level d)) (depth : ℕ)
      → take (if depth == 0 then length ls else depth) ls
        ≡ (if depth == 0 then ls else take depth ls)
  take_depth ls depth = elim (Bool-cases (depth == 0)) [
    | inl whole ↦ simp whole (take_all (length ls) ls (omega arith))
    | inr part ↦ simp part refl
  ]

  side_volume_lem :
      (side : Option (List (Level d))) (depth : ℕ)
      → side_volume d side depth ≡ some (total side depth)
  unfolding side_volume
  side_volume_lem none depth = refl
  side_volume_lem (some ls) depth =
      let levels = if depth == 0 then length ls else depth in
      volume_loop_lem ls (if ltb (length ls) levels then length ls else levels) 0 d.zero_real
        (ground arith)
      ∙ ap (λ l. some (total_from d.zero_real l)) (take_min ls levels ∙ take_depth ls depth)

  -- Both volumes of a book are the sum of the quantities of its first `depth` levels, or of all
  -- where the depth is 0 or larger than the side; no read is out of bounds.
  pub hl_orderbook_get_volume_lem :
      (b : Book d) (depth : ℕ)
      → (hl_orderbook_get_bid_volume d b depth ≡ some (total b.bids depth))
        × (hl_orderbook_get_ask_volume d b depth ≡ some (total b.asks depth))
  unfolding hl_orderbook_get_bid_volume hl_orderbook_get_ask_volume
  hl_orderbook_get_volume_lem b depth = (side_volume_lem b.bids depth, side_volume_lem b.asks depth)
