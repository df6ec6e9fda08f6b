-- ===== src/Ohlcv/Candles/Extremes.antt =====
-- The highest high and the lowest low of src/ohlcv.c.
use mathlib.Core.Path.{subst}
use hyperliquid_c.Prelude.{
  get_elem?-lt, ℕ, zero, suc, ◌+◌, ◌-◌, ◌^◌, ◌≤◌, ◌<◌, ◌≡◌, refl, sym, ap, ◌∙◌, ◌⊎◌, inl, inr, Bool,
  true, false, ◌||◌, some, List, arith, leb, ◌==◌, if◌then◌else◌, ==_iff, Bool-cases,
  some-injective, length, get_elem?, get_elem?-drop,
}
use hyperliquid_c.Types.{Doubles, IsOrdered}
use hyperliquid_c.Ohlcv.Candles.{
  Candle, extreme_loop, hl_ohlcvs_highest_high, hl_ohlcvs_lowest_low, end_index,
}

-- What is beaten by nothing that was read: the promise of the loop from `i` on with `n` rounds.
record IsBest (d : Doubles) (key : Candle d → d.Real) (beaten : d.Real → d.Real → Bool)
    (cs : List (Candle d)) (n i : ℕ) (a r : d.Real) : Type 0 where
  keeps : (x : d.Real) → beaten a x ≡ false → beaten r x ≡ false
  bounds :
      (j : ℕ) (c : Candle d)
      → i ≤ j
      → j < i + n
      → get_elem? cs j ≡ some c
      → beaten r (key c) ≡ false
  source :
      (r ≡ a)
      ⊎ ((j : ℕ) × (c : Candle d) × (get_elem? cs j ≡ some c) × (i ≤ j) × (j < i + n) × (r ≡ key c))

-- The end of a range that does not wrap is the end of the array or before.
range_end :
    (d : Doubles) (size start_index count j : ℕ)
    → start_index < size
    → start_index + count < 2 ^ 64
    → j < start_index + count
    → j < size
    → (start_index + (end_index d size start_index count - start_index) ≤ size)
      × (j < start_index + (end_index d size start_index count - start_index))
      × (start_index + (end_index d size start_index count - start_index) ≤ start_index + count)
range_end d size start_index count j h small m l = ground arith

module _ (d : Doubles) (key : Candle d → d.Real) (beaten : d.Real → d.Real → Bool)
    (irreflexive : (x : d.Real) → beaten x x ≡ false)
    (transitive : (x y z : d.Real)
      → beaten x y ≡ true
      → beaten y z ≡ true
      → beaten x z ≡ true) where
  larger-keeps :
      (a b x : d.Real) → beaten a x ≡ false → beaten (if beaten a b then b else a) x ≡ false
  larger-keeps a b x h = elim (Bool-cases (beaten a b)) [
    | inr less ↦ simp less h
    | inl more ↦ elim (Bool-cases (beaten b x)) [
      | inr stop ↦ simp more stop
      | inl next ↦ let e = transitive a b x more next in cc
    ]
  ]

  larger-new : (a b : d.Real) → beaten (if beaten a b then b else a) b ≡ false
  larger-new a b = elim (Bool-cases (beaten a b)) [
    | inr less ↦ subst (λ t. beaten (if t then b else a) b ≡ false) (sym less) less
    | inl more ↦ simp more (irreflexive b)
  ]

  larger-source :
      (a b : d.Real) → ((if beaten a b then b else a) ≡ a) ⊎ ((if beaten a b then b else a) ≡ b)
  larger-source a b = elim (Bool-cases (beaten a b)) [
    | inr less ↦ inl (simp less refl)
    | inl more ↦ inr (simp more refl)
  ]

  IsBest-step :
      (cs : List (Candle d)) (n i : ℕ) (a r : d.Real) (c : Candle d)
      → get_elem? cs i ≡ some c
      → IsBest d key beaten cs n (suc i) (if beaten a (key c) then key c else a) r
      → IsBest d key beaten cs (suc n) i a r
  IsBest-step cs n i a r c p v = record {
    keeps = λ x k. v.keeps x (larger-keeps a (key c) x k);
    bounds = λ j c2 l m q. elim (Bool-cases (i == j)) [
      | inl same ↦
          let eq : c ≡ c2 =
            some-injective _ _ (sym p ∙ ap (λ k. get_elem? cs k) ((==_iff i j).0 same) ∙ q) in
          v.keeps (key c2) (rw (← eq) (larger-new a (key c)))
      | inr other ↦ v.bounds j c2 (ground arith) (omega arith) q
    ];
    source = elim v.source [
      | inr (j, c2, q, l, m, e) ↦ inr (j, c2, q, omega arith, omega arith, e)
      | inl e ↦ elim (larger-source a (key c)) [
        | inl f ↦ inl (e ∙ f)
        | inr f ↦ inr (i, c, p, omega arith, omega arith, e ∙ f)
      ]
    ];
  }

  extreme_loop-IsBest :
      (cs : List (Candle d)) (n i : ℕ) (a : d.Real)
      → i + n ≤ length cs
      → (r : d.Real) × (extreme_loop d key beaten cs n i a ≡ some r)
        × IsBest d key beaten cs n i a r
  unfolding extreme_loop
  extreme_loop-IsBest cs zero i a h = (
    a,
    refl,
    record { keeps = λ x k. k; bounds = λ j c l m q. absurd (omega arith); source = inl refl },
  )
  extreme_loop-IsBest cs (suc n) i a h =
      let (c, p, _) = get_elem?-drop cs i (omega arith) in
      let (r, e, v) =
        extreme_loop-IsBest cs n (suc i) (if beaten a (key c) then key c else a) (omega arith) in
      (r, rw (extreme_loop, p) e, IsBest-step cs n i a r c p v)

-- For a range that begins in the array and does not wrap, the highest high is not below the high
-- of any candle of the range, and it is the high of one of them or 0.0; no read is out of bounds.
pub hl_ohlcvs_highest_high_lem :
    (d : Doubles) (o : IsOrdered d) (cs : List (Candle d)) (start_index count j : ℕ) (c : Candle d)
    → start_index < length cs
    → start_index + count < 2 ^ 64
    → start_index ≤ j
    → j < start_index + count
    → get_elem? cs j ≡ some c
    → (r : d.Real) × (hl_ohlcvs_highest_high d (some cs) start_index count ≡ some r)
      × (d.less r c.high ≡ false)
      × ((r ≡ d.zero_real)
          ⊎ ((k : ℕ) × (b : Candle d) × (get_elem? cs k ≡ some b)
              × (start_index ≤ k)
              × (k < start_index + count)
              × (r ≡ b.high)))
unfolding hl_ohlcvs_highest_high
hl_ohlcvs_highest_high_lem d o cs start_index count j c h small l m q =
    let open_range : (leb (length cs) start_index || count == 0) ≡ false = ground arith in
    let n = end_index d (length cs) start_index count - start_index in
    let j_lt = get_elem?-lt cs j q in
    let (fits, below, inside) = range_end d (length cs) start_index count j h small m j_lt in
    let (r, e, v) =
      extreme_loop-IsBest d (λ x. x.high) d.less o.less_irreflexive o.less_transitive cs n
        start_index d.zero_real fits in
    (
      r,
      simp open_range e,
      v.bounds j c l below q,
      elim v.source [
        | inl z ↦ inl z
        | inr (k, b, p, k_le, k_lt, s) ↦ inr (k, b, p, k_le, omega arith, s)
      ],
    )

-- For a range that begins in the array and does not wrap, the lowest low is not above the low of
-- any candle of the range, and it is the low of one of them; no read is out of bounds.
pub hl_ohlcvs_lowest_low_lem :
    (d : Doubles) (o : IsOrdered d) (cs : List (Candle d)) (start_index count j : ℕ) (c : Candle d)
    → start_index + count < 2 ^ 64
    → start_index ≤ j
    → j < start_index + count
    → get_elem? cs j ≡ some c
    → (r : d.Real) × (hl_ohlcvs_lowest_low d (some cs) start_index count ≡ some r)
      × (d.less c.low r ≡ false)
      × ((k : ℕ) × (b : Candle d) × (get_elem? cs k ≡ some b)
          × (start_index ≤ k)
          × (k < start_index + count)
          × (r ≡ b.low))
unfolding hl_ohlcvs_lowest_low
hl_ohlcvs_lowest_low_lem d o cs start_index count j c small l m q =
    let j_lt = get_elem?-lt cs j q in
    let open_range : (leb (length cs) start_index || count == 0) ≡ false = ground arith in
    let n = end_index d (length cs) start_index count - (start_index + 1) in
    let (fits, below, inside) =
      range_end d (length cs) start_index count j (omega arith) small m j_lt in
    let (c0, p0, _) = get_elem?-drop cs start_index (omega arith) in
    let (r, e, v) =
      extreme_loop-IsBest d (λ x. x.low) (λ a b. d.less b a) o.less_irreflexive
        (λ x y z f g. o.less_transitive z y x g f) cs n (start_index + 1) c0.low (omega arith) in
    (
      r,
      simp (open_range, p0) e,
      elim (Bool-cases (start_index == j)) [
        | inl same ↦
            let eq : c0 ≡ c =
              some-injective _ _
                (sym p0 ∙ ap (λ k. get_elem? cs k) ((==_iff start_index j).0 same) ∙ q) in
            v.keeps c.low (rw (← eq) (o.less_irreflexive c0.low))
        | inr other ↦ v.bounds j c (ground arith) (omega arith) q
      ],
      elim v.source [
        | inl z ↦ (start_index, c0, p0, omega arith, omega arith, z)
        | inr (k, b, p, k_le, k_lt, s) ↦ (k, b, p, omega arith, omega arith, s)
      ],
    )
