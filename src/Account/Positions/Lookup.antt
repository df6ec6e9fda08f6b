-- ===== src/Account/Positions/Lookup.antt =====
-- The two definitions of hl_fetch_position in src/account.c: what they find.
use hyperliquid_c.Prelude.{
  ℕ, suc, ◌<◌, min, ◌≡◌, refl, sym, ap, ◌∙◌, ◌≢◌, ◌⊎◌, inl, inr, true, false, none, some, List, [],
  ◌∷◌, ◌++◌, arith, leb, ◌==◌, Bool-cases, Option-cases, Sum-cases, ◌>>=◌, ◌>>◌, guard,
  some-injective, >>=-eq-some, guard-eq-some, length, get_elem?, drop, length-take, drop-head,
  All-map, All, All-middle,
}
use hyperliquid_c.Prelude.Text.{CString, str, str_eq, str_eq→eq, str_eq_iff}
use hyperliquid_c.Types.{success, not_found, is_success, Doubles, CJson}
use hyperliquid_c.Account.Positions.Names.{
  market_name, market_name-IsText, market_name-not, first_coin-IsWithout, first_coin-length,
}
use hyperliquid_c.Markets.AssetIds.{coin_of}
use mathlib.Core.Path.{subst}
use mathlib.Core.Logic.{inl, inr}
use hyperliquid_c.Prelude.Buffers.{IsText, buffer_lem}
use hyperliquid_c.Trades.{copied}
use hyperliquid_c.Markets.{before_slash}
use hyperliquid_c.Account.{AccountApi, account_json, real_value}
use hyperliquid_c.Account.Positions.{
  PositionSide, long, short, Position, find_by_symbol, find_by_coin, first_coin, size_and_side,
  parse_position, parse_positions, hl_fetch_positions, listed_positions, first_fetch_position,
  hl_fetch_position,
}

-- The texts that cJSON hands out have no zero before their end.
pub record HasTexts (d : Doubles) (j : CJson d) : Type 0 where
  pub text : (n : j.Node) (s : CString) → j.valuestring n ≡ some s → IsText s

module _ (d : Doubles) (j : CJson d) where
  -- The size and the side of a position: 0 and LONG without a signed size, and else its absolute
  -- value, LONG exactly where it is above 0.
  abbrev pub IsSized : j.Node → d.Real → PositionSide → Type 0
  IsSized pos size side =
      ((j.get_object_item pos (str "szi") ≡ none) × (size ≡ d.zero_real) × (side ≡ long))
      ⊎ ((szi : j.Node) × (j.get_object_item pos (str "szi") ≡ some szi)
          × (size ≡ d.fabs (real_value d j szi))
          × (((d.less d.zero_real (real_value d j szi) ≡ true) × (side ≡ long))
              ⊎ ((d.less d.zero_real (real_value d j szi) ≡ false) × (side ≡ short))))

  size_and_side-IsSized :
      (pos : j.Node) → IsSized pos (size_and_side d j pos).0 (size_and_side d j pos).1
  unfolding size_and_side
  size_and_side-IsSized pos = elim (Option-cases (j.get_object_item pos (str "szi"))) [
    | inl x ↦ rw (size_and_side, x) (inl (refl, refl, refl))
    | inr (szi, x) ↦ elim (Bool-cases (d.less d.zero_real (real_value d j szi))) [
      | inl y ↦ rw (size_and_side, x, y) (inr (szi, refl, refl, inl (y, refl)))
      | inr y ↦ rw (size_and_side, x, y) (inr (szi, refl, refl, inr (y, refl)))
    ]
  ]

  -- What parsing gives to every position: it is one of the items, with its name, its coin, its size
  -- and its side.
  abbrev pub IsParsed : List j.Node → Position d → Type 0
  IsParsed items p =
      (k : ℕ) × (item : j.Node) × (pos : j.Node) × (coin : j.Node) × (name : CString) × (get_elem?
          items k
        ≡ some item)
      × (j.get_object_item item (str "position") ≡ some pos)
      × (j.get_object_item pos (str "coin") ≡ some coin)
      × (j.valuestring coin ≡ some name)
      × (p.coin ≡ copied 32 name)
      × (p.symbol ≡ copied 64 (market_name name))
      × IsSized pos p.size p.side

  parse_position-IsParsed :
      (items : List j.Node) (k : ℕ) (item : j.Node) (p : Position d)
      → get_elem? items k ≡ some item
      → parse_position d j item ≡ some p
      → IsParsed items p
  unfolding parse_position
  parse_position-IsParsed items k item p at h =
      let (pos, h0, h1) = >>=-eq-some (j.get_object_item item (str "position")) _ h in
      let (coin, h2, h3) = >>=-eq-some (j.get_object_item pos (str "coin")) _ h1 in
      let (u, _, h4) = >>=-eq-some (guard (j.is_string coin)) _ h3 in
      let (name, h5, h6) = >>=-eq-some (j.valuestring coin) _ h4 in
      subst (λ z. IsParsed items z) (some-injective _ _ h6)
        (k, item, pos, coin, name, at, h0, h2, h5, refl, refl, size_and_side-IsSized pos)

  parse_positions-All :
      (all items : List j.Node) (k : ℕ)
      → drop k all ≡ items
      → All (IsParsed all) (parse_positions d j items)
  unfolding parse_positions
  parse_positions-All all [] k h = tt
  parse_positions-All all (item ∷ items) k h =
      let (at, next) = drop-head all k h in
      elim (Option-cases (parse_position d j item)) [
        | inl x ↦ rw (parse_positions, x) (parse_positions-All all items (suc k) next)
        | inr (p, x) ↦
            rw (parse_positions, x)
              (
                parse_position-IsParsed all k item p at x,
                parse_positions-All all items (suc k) next,
              )
      ]

  -- A position that is parsed from an item of the array in the answer of the exchange.
  abbrev pub IsAnswered : AccountApi → Position d → Type 0
  IsAnswered x p =
      (answer : j.Node) × (list : j.Node) × (account_json d j x (str "clearinghouseState")
        ≡ inr answer)
      × (j.get_object_item answer (str "assetPositions") ≡ some list)
      × (j.is_array list ≡ true)
      × IsParsed (j.items list) p

  hl_fetch_positions-All :
      (x : AccountApi) → All (IsAnswered x) (listed_positions d j (hl_fetch_positions d j x).1)
  unfolding hl_fetch_positions
  hl_fetch_positions-All x = elim (Sum-cases (account_json d j x (str "clearinghouseState"))) [
    | inl (e, p) ↦ simp (hl_fetch_positions, p) tt
    | inr (n, p) ↦
        elim (Option-cases (
          j.get_object_item n (str "assetPositions") >>= λ a.
          guard (j.is_array a) >> some (j.items a))) [
            | inl q ↦ simp (hl_fetch_positions, p, q) tt
            | inr (items, q) ↦ elim (Bool-cases (length items == 0)) [
              | inl r ↦ simp (hl_fetch_positions, p, q, r) tt
              | inr r ↦ elim (Bool-cases x.calloc) [
                | inr s ↦ simp (hl_fetch_positions, p, q, r, s) tt
                | inl s ↦
                    let (list, q0, q1) =
                      >>=-eq-some (j.get_object_item n (str "assetPositions")) _ q in
                    let (u, q2, q3) = >>=-eq-some (guard (j.is_array list)) _ q1 in
                    let whole : All (IsParsed (j.items list)) (parse_positions d j items) =
                      parse_positions-All (j.items list) items 0 (some-injective _ _ q3) in
                    simp (hl_fetch_positions, p, q, r, s)
                      (All-map (IsParsed (j.items list)) (IsAnswered x) (parse_positions d j items)
                        (λ z f. (n, list, p, q0, guard-eq-some _ q2, f)) whole)
              ]
            ]
          ]
  ]

  find_by_symbol-none :
      (coin : CString) (ps : List (Position d))
      → All (λ p. p.symbol ≢ coin) ps
      → find_by_symbol d coin ps ≡ none
  unfolding find_by_symbol
  find_by_symbol-none coin [] a = refl
  find_by_symbol-none coin (p ∷ ps) a = elim (Bool-cases (str_eq p.symbol coin)) [
    | inl e ↦ absurd (a.0 (str_eq→eq _ _ e))
    | inr n ↦ rw (find_by_symbol, n) (find_by_symbol-none coin ps a.1)
  ]

  -- No position has the name that the first definition looks for.
  IsParsed-symbol :
      (items : List j.Node) (symbol : CString) (p : Position d)
      → HasTexts d j
      → IsParsed items p
      → p.symbol ≢ first_coin symbol
  IsParsed-symbol items symbol p t (k, item, pos, coin, name, at, h0, h1, v, c, named, s) e =
      let text = market_name-IsText name (t.text coin name v) in
      let whole : CString = name ++ str "/USDC:USDC" in
      let m : length (market_name name) ≡ min 63 (length whole) = length-take 63 whole in
      let kept : copied 64 (market_name name) ≡ market_name name =
        buffer_lem 64 (market_name name) text (omega arith) in
      market_name-not name (first_coin symbol) (first_coin-IsWithout symbol)
        (first_coin-length symbol) (sym kept ∙ sym named ∙ e)

  -- The first definition of hl_fetch_position never finds a position: it compares a coin with the
  -- names of markets, which have a slash.
  pub first_fetch_position-fails :
      (x : AccountApi) (symbol : CString)
      → HasTexts d j
      → is_success (first_fetch_position d j x symbol).0 ≡ false
  unfolding first_fetch_position is_success
  first_fetch_position-fails x symbol t =
      elim (Bool-cases (is_success (hl_fetch_positions d j x).0)) [
        | inr e ↦ simp (first_fetch_position, e) refl
        | inl o ↦
            let ps = listed_positions d j (hl_fetch_positions d j x).1 in
            let missing = find_by_symbol-none (first_coin symbol) ps (
              All-map (IsAnswered x) (λ p. p.symbol ≢ first_coin symbol) ps
                (λ p (answer, list, _, _, _, q). IsParsed-symbol (j.items list) symbol p t q)
                (hl_fetch_positions-All x)) in
            simp (first_fetch_position, o, missing) refl
      ]

  -- The first position of the list with the coin.
  abbrev pub IsFirst : CString → List (Position d) → Position d → Type 0
  IsFirst coin ps p =
      (before : List (Position d)) × (after : List (Position d)) × (ps ≡ before ++ p ∷ after)
      × (p.coin ≡ coin)
      × All (λ q. q.coin ≢ coin) before

  find_by_coin_lem :
      (coin : CString) (ps : List (Position d))
      → ((find_by_coin d coin ps ≡ none) × All (λ q. q.coin ≢ coin) ps)
        ⊎ ((p : Position d) × (find_by_coin d coin ps ≡ some p) × IsFirst coin ps p)
  unfolding find_by_coin
  find_by_coin_lem coin [] = inl (refl, tt)
  find_by_coin_lem coin (q ∷ ps) = elim (Bool-cases (str_eq q.coin coin)) [
    | inl e ↦ inr (q, rw (find_by_coin, e) refl, ([], ps, refl, str_eq→eq _ _ e, tt))
    | inr n ↦
        let other : q.coin ≢ coin = λ e. cc (rw ((str_eq_iff q.coin coin).1 e) at n) in
        elim (find_by_coin_lem coin ps) [
          | inl (e, all) ↦ inl (rw (find_by_coin, n) e, (other, all))
          | inr (p, e, (before, after, f, g, all)) ↦
              inr
                (p, rw (find_by_coin, n) e, (q ∷ before, after, ap (λ l. q ∷ l) f, g, (other, all)))
        ]
  ]

  hl_fetch_position-find :
      (x : AccountApi) (symbol : CString)
      → length (coin_of symbol) < 32
      → is_success (hl_fetch_positions d j x).0 ≡ true
      → hl_fetch_position d j x symbol
        ≡ elim (find_by_coin d
            (coin_of symbol)
            (listed_positions d j (hl_fetch_positions d j x).1)) [
              | none ↦ (not_found, none)
              | some p ↦ (success, some p)
            ]
  unfolding hl_fetch_position
  hl_fetch_position-find x symbol fits ok = elim (Option-cases (before_slash symbol)) [
    | inl n ↦ simp (hl_fetch_position, coin_of, n, ok) refl
    | inr (c, e) ↦
        let room : length c < 32 = simp (coin_of, e) at fits in
        let short : leb 32 (length c) ≡ false = ground arith in
        simp (hl_fetch_position, coin_of, e, ok, short) refl
  ]

  -- For a symbol whose coin fits its buffer, once the positions have been fetched, the second
  -- definition of hl_fetch_position returns success with the first position of that coin. It is one
  -- of the items of the array in the answer; its size is the absolute value of the signed size there,
  -- and it is LONG exactly where that is above 0, or it has size 0 and is LONG where there is no
  -- signed size. Or the call returns NOT_FOUND, and no position has the coin.
  pub hl_fetch_position_lem :
      (x : AccountApi) (symbol : CString)
      → length (coin_of symbol) < 32
      → is_success (hl_fetch_positions d j x).0 ≡ true
      → ((p : Position d) × (hl_fetch_position d j x symbol ≡ (success, some p))
          × IsFirst (coin_of symbol) (listed_positions d j (hl_fetch_positions d j x).1) p
          × IsAnswered x p)
        ⊎ ((hl_fetch_position d j x symbol ≡ (not_found, none))
            × All
                (λ q. q.coin ≢ coin_of symbol)
                (listed_positions d j (hl_fetch_positions d j x).1))
  hl_fetch_position_lem x symbol fits ok =
      let ps = listed_positions d j (hl_fetch_positions d j x).1 in
      let found = hl_fetch_position-find x symbol fits ok in
      elim (find_by_coin_lem (coin_of symbol) ps) [
        | inl (e, all) ↦ inr (rw e at found, all)
        | inr (p, e, first) ↦
            let (before, after, f, g, h) = first in
            inl (
              p,
              rw e at found,
              first,
              All-middle (IsAnswered x) before after p
                  (subst (All (IsAnswered x)) f (hl_fetch_positions-All x)),
            )
      ]
