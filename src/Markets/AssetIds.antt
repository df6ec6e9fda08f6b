-- ===== src/Markets/AssetIds.antt =====
-- The ids that src/markets.c gives to swap markets, and the lookup of one by its symbol.
use hyperliquid_c.Prelude.{
  All-map, ℕ, suc, ◌≡◌, refl, sym, ap, ◌∙◌, inl, inr, Bool, true, false, ◌&&◌, Option, none, some,
  List, [], ◌∷◌, arith, ltb, leb, ◌==◌, if◌then◌else◌, Bool-cases, Option-cases, &&-eq-true, guard,
  some-injective, >>=-eq-some, length, get_elem?, drop, replicate, drop-head, All-append, All,
}
use mathlib.Core.Path.{subst}
use hyperliquid_c.Prelude.Text.{CString, str, str_eq, str_eq→eq, split_at_char, strncpy, c_str}
use hyperliquid_c.Types.{success, Doubles, CJson, HttpResult, is_success}
use hyperliquid_c.Markets.{Market, is_swap, before_slash, find_swap, hl_get_asset_id}
use hyperliquid_c.Markets.Parse.{
  parse_swap_market, parse_swaps, parse_spot_market, parse_spots, name_of, swap_content,
  spot_content, fetch_swap_markets, fetch_spot_markets, hl_fetch_markets, check_response,
}

-- The coin of a symbol: the part before the slash, or all of it.
abbrev pub coin_of : CString → CString
coin_of symbol = elim (before_slash symbol) [ none ↦ symbol | some c ↦ c ]

module _ (d : Doubles) where
  pub find_swap-All :
      (P : Market d → Type 0) (coin : CString) (ms : List (Market d)) {m : Market d}
      → All P ms
      → find_swap d coin ms ≡ some m
      → P m × (m.base ≡ coin) × (is_swap m.type ≡ true)
  unfolding find_swap
  find_swap-All P coin [] a h = cc
  find_swap-All P coin (m ∷ ms) {m = r} a h =
      elim (Bool-cases (str_eq m.base coin && is_swap m.type)) [
        | inl hit ↦
            let q : some m ≡ some r = rw hit at h in
            let (b, t) = &&-eq-true _ _ hit in
            subst (λ x. P x × (x.base ≡ coin) × (is_swap x.type ≡ true)) (some-injective _ _ q)
              (a.0, str_eq→eq _ _ b, t)
        | inr miss ↦ find_swap-All P coin ms a.1 (rw miss at h)
      ]

  module _ (j : CJson d) where
    -- A swap market whose id is the place of its item in the universe, and whose base is the first
    -- 31 bytes of the item's name.
    pub record IsItem (universe : List j.Node) (m : Market d) : Type 0 where
      pub item : j.Node
      pub name : CString
      pub place : get_elem? universe m.asset_id ≡ some item
      pub named : name_of d j item ≡ some name
      pub based : m.base ≡ c_str (strncpy (replicate 32 0) name 31)

    parse_swap_market-IsItem :
        (universe : List j.Node) (u c : j.Node) (k : ℕ) {m : Market d}
        → get_elem? universe k ≡ some u
        → parse_swap_market d j u c k ≡ some m
        → IsItem universe m
    unfolding parse_swap_market
    parse_swap_market-IsItem universe u c k p h = elim (Option-cases (name_of d j u)) [
      | inl x ↦ cc (rw (parse_swap_market, x) at h)
      | inr (name, x) ↦
          subst (λ z. IsItem universe z) (some-injective _ _ (rw (parse_swap_market, x) at h))
            (record { item = u; name = name; place = p; named = x; based = refl })
    ]

    parse_swaps-IsItem :
        (universe us contexts : List j.Node) (k : ℕ)
        → drop k universe ≡ us
        → All (λ m. is_swap m.type ≡ true → IsItem universe m) (parse_swaps d j us contexts k)
    unfolding parse_swaps
    parse_swaps-IsItem universe [] contexts k h = tt
    parse_swaps-IsItem universe (u ∷ us) contexts k h =
        let (p, q) = drop-head universe k h in
        let rest = parse_swaps-IsItem universe us contexts (suc k) q in
        elim (Option-cases (get_elem? contexts k)) [
          | inl x ↦ rw (parse_swaps, x) rest
          | inr (c, x) ↦ elim (Option-cases (parse_swap_market d j u c k)) [
            | inl y ↦ rw (parse_swaps, x, y) rest
            | inr (m, y) ↦
                rw (parse_swaps, x, y) ((λ _. parse_swap_market-IsItem universe u c k p y), rest)
          ]
        ]

    parse_spot_market-type :
        (u c : j.Node) (tokens : List j.Node) (old : Market d) {m : Market d}
        → parse_spot_market d j u c tokens old ≡ some m
        → is_swap m.type ≡ false
    unfolding parse_spot_market is_swap
    parse_spot_market-type u c tokens old h =
        let (name, _, h) = >>=-eq-some (j.get_object_item u (str "name")) _ h in
        let (at, _, h) = >>=-eq-some (j.get_object_item u (str "tokens")) _ h in
        let (_, _, h) = >>=-eq-some (guard (j.is_array at)) _ h in
        let (_, _, h) = >>=-eq-some (guard (leb 2 (length (j.items at)))) _ h in
        let (_, _, h) = >>=-eq-some (get_elem? (j.items at) 0) _ h in
        let (text, _, h) =
          >>=-eq-some (if j.is_string name then j.valuestring name else none) _ h in
        let (parts, _, h) = >>=-eq-some (split_at_char 47 text) _ h in
        let (_, _, h) = >>=-eq-some (guard (ltb (length parts.0) 32)) _ h in
        ap (λ z. is_swap z.type) (sym (some-injective _ _ h))

    parse_spots-All :
        (P : Market d → Type 0) (old : ℕ → Market d) (tokens us contexts : List j.Node) (i k : ℕ)
        → ((m : Market d) → is_swap m.type ≡ false → P m)
        → All P (parse_spots d j old tokens us contexts i k)
    unfolding parse_spots
    parse_spots-All P old tokens [] contexts i k never = tt
    parse_spots-All P old tokens (u ∷ us) contexts i k never =
        elim (Option-cases (get_elem? contexts i)) [
          | inl x ↦ rw (parse_spots, x) (parse_spots-All P old tokens us contexts (suc i) k never)
          | inr (c, x) ↦ elim (Option-cases (parse_spot_market d j u c tokens (old k))) [
            | inl y ↦
                rw (parse_spots, x, y) (parse_spots-All P old tokens us contexts (suc i) k never)
            | inr (m, y) ↦
                let is_spot = parse_spot_market-type u c tokens (old k) y in
                rw (parse_spots, x, y)
                  (never m is_spot, parse_spots-All P old tokens us contexts (suc i) (suc k) never)
          ]
        ]

    -- What a swap market of a fetched list comes from.
    pub record IsFetched (response : Option HttpResult) (m : Market d) : Type 0 where
      pub universe : List j.Node
      pub contexts : List j.Node
      pub content : swap_content d j response ≡ some (universe, contexts)
      pub is_item : IsItem universe m

    fetch_swap_markets-All :
        (calloc : Bool) (response : Option HttpResult)
        → All
            (λ m. is_swap m.type ≡ true → IsFetched response m)
            (fetch_swap_markets d j calloc response).1
    unfolding fetch_swap_markets
    fetch_swap_markets-All calloc response =
        elim (Bool-cases (is_success (check_response d j response))) [
          | inr failed ↦ rw (fetch_swap_markets, failed) tt
          | inl fine ↦ elim (Option-cases (swap_content d j response)) [
            | inl x ↦ rw (fetch_swap_markets, fine, x) tt
            | inr ((universe, contexts), x) ↦ elim (Bool-cases (length universe == 0)) [
              | inl empty ↦ rw (fetch_swap_markets, fine, x, empty) tt
              | inr items ↦ elim (Bool-cases calloc) [
                | inr full ↦ rw (fetch_swap_markets, fine, x, items, full) tt
                | inl room ↦
                    rw (fetch_swap_markets, fine, x, items, room)
                      (All-map _ _ (parse_swaps d j universe contexts 0)
                        (λ m f t. record {
                          universe = universe;
                          contexts = contexts;
                          content = x;
                          is_item = f t;
                        })
                        (parse_swaps-IsItem universe universe contexts 0 refl))
              ]
            ]
          ]
        ]

    fetch_spot_markets-All :
        (P : Market d → Type 0) (realloc : Option (ℕ → Market d)) (response : Option HttpResult)
        (ms : List (Market d))
        → ((m : Market d) → is_swap m.type ≡ false → P m)
        → All P ms
        → All P (fetch_spot_markets d j realloc response ms).1
    unfolding fetch_spot_markets
    fetch_spot_markets-All P realloc response ms never a =
        elim (Bool-cases (is_success (check_response d j response))) [
          | inr failed ↦ rw (fetch_spot_markets, failed) a
          | inl fine ↦ elim (Option-cases (spot_content d j response)) [
            | inl x ↦ rw (fetch_spot_markets, fine, x) a
            | inr ((universe, tokens, contexts), x) ↦ elim (Bool-cases (length universe == 0)) [
              | inl empty ↦ rw (fetch_spot_markets, fine, x, empty) a
              | inr items ↦ elim (Option-cases realloc) [
                | inl full ↦ rw (fetch_spot_markets, fine, x, items, full) a
                | inr (old, room) ↦
                    rw (fetch_spot_markets, fine, x, items, room)
                      (All-append P ms _ a
                        (parse_spots-All P old tokens universe contexts 0 0 never))
              ]
            ]
          ]
        ]

    hl_fetch_markets-All :
        (calloc : Bool) (realloc : Option (ℕ → Market d)) (swaps spots : Option HttpResult)
        → All
            (λ m. is_swap m.type ≡ true → IsFetched swaps m)
            (hl_fetch_markets d j calloc realloc swaps spots).1
    unfolding hl_fetch_markets
    hl_fetch_markets-All calloc realloc swaps spots =
        let first = fetch_swap_markets d j calloc swaps in
        let both =
          fetch_spot_markets-All (λ m. is_swap m.type ≡ true → IsFetched swaps m) realloc spots
            first.1 (λ m is_spot t. absurd (ground arith)) (fetch_swap_markets-All calloc swaps) in
        elim (Bool-cases (is_success first.0)) [
          | inr failed ↦ rw (hl_fetch_markets, failed) tt
          | inl fine ↦
              elim (Bool-cases (is_success (fetch_spot_markets d j realloc spots first.1).0)) [
                | inr failed ↦ rw (hl_fetch_markets, fine, failed) tt
                | inl done ↦ rw (hl_fetch_markets, fine, done) both
              ]
        ]

    -- A swap id that is looked up in fetched markets is the place, in the universe that the
    -- exchange sent, of an item whose name, cut to 31 bytes, is the coin of the symbol.
    pub hl_get_asset_id-IsItem :
        (calloc : Bool) (realloc : Option (ℕ → Market d)) (swaps spots : Option HttpResult)
        (symbol : CString) (id : ℕ)
        → hl_get_asset_id d (hl_fetch_markets d j calloc realloc swaps spots).1 symbol
          ≡ (success, some id)
        → (universe : List j.Node) × (contexts : List j.Node) × (item : j.Node) × (name : CString)
          × (swap_content d j swaps ≡ some (universe, contexts))
          × (get_elem? universe id ≡ some item)
          × (name_of d j item ≡ some name)
          × (c_str (strncpy (replicate 32 0) name 31) ≡ coin_of symbol)
    unfolding hl_get_asset_id hl_fetch_markets
    hl_get_asset_id-IsItem calloc realloc swaps spots symbol id h =
        let ms = (hl_fetch_markets d j calloc realloc swaps spots).1 in
        elim (Bool-cases
          (elim (before_slash symbol) [ none ↦ false | some c ↦ leb 32 (length c) ])) [
            | inl long ↦ cc (rw (hl_get_asset_id, long) at h)
            | inr short ↦ elim (Option-cases (find_swap d (coin_of symbol) ms)) [
              | inl x ↦ cc (rw (hl_get_asset_id, short, x) at h)
              | inr (m, x) ↦
                  let (origin, based, t) =
                    find_swap-All (λ z. is_swap z.type ≡ true → IsFetched swaps z) (coin_of symbol)
                      ms (hl_fetch_markets-All calloc realloc swaps spots) x in
                  let f = origin t in
                  let q : (success, some m.asset_id) ≡ (success, some id) =
                    rw (hl_get_asset_id, short, x) at h in
                  let same : m.asset_id ≡ id = some-injective _ _ (ap (λ z. z.1) q) in
                  (
                    f.universe,
                    f.contexts,
                    f.is_item.item,
                    f.is_item.name,
                    f.content,
                    subst (λ z. get_elem? f.universe z ≡ some f.is_item.item) same f.is_item.place,
                    f.is_item.named,
                    sym f.is_item.based ∙ based,
                  )
            ]
          ]
