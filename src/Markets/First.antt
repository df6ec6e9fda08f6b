-- ===== src/Markets/First.antt =====
-- The first swap market that src/markets.c fetches: it is found by its symbol, with the id 0.
use hyperliquid_c.Prelude.{
  ℕ, ◌+◌, ◌<◌, ◌≡◌, refl, ap, ◌∙◌, inl, inr, Bool, true, false, Option, some, List, [], ◌∷◌, ◌++◌,
  arith, leb, ◌==◌, ==_iff, ==_refl, Bool-cases, Option-cases, some-injective, length,
  length-append, take_all,
}
use hyperliquid_c.Prelude.Text.{CString, str, str_eq, str_eq_iff, split_at_char, snprintf}
use hyperliquid_c.Types.{success, is_success, Doubles, CJson, HttpResult}
use mathlib.Core.Path.{subst}
use mathlib.Core.Logic.{inl, inr}
use hyperliquid_c.Prelude.Buffers.{IsText, IsWithout, buffer_lem}
use hyperliquid_c.Markets.{Market, is_swap, before_slash, find_swap, hl_get_asset_id}
use hyperliquid_c.Markets.Parse.{
  parse_swap_market, parse_swaps, name_of, swap_content, spot_content, fetch_swap_markets,
  fetch_spot_markets, hl_fetch_markets, check_response, parse_spots,
}

fits : (n : ℕ) → n < 32 → leb 32 n ≡ false
fits n h = ground arith

split-append :
    (c : ℕ) (s t : CString) → IsWithout c s → split_at_char c (s ++ c ∷ t) ≡ some (s, c ∷ t)
unfolding split_at_char
split-append c [] t w = rw (==_refl c) refl
split-append c (b ∷ s) t w = elim (Bool-cases (b == c)) [
  | inl e ↦ absurd (w.0 ((==_iff b c).0 e))
  | inr n ↦ rw (split_at_char, n, split-append c s t w.1) refl
]

before_slash-split :
    (s : CString) {a b : CString} → split_at_char 47 s ≡ some (a, b) → before_slash s ≡ some a
unfolding before_slash
before_slash-split s e = rw (before_slash, e) refl

-- The text that is looked up for a short symbol is not cut, and its coin is the symbol.
pub before_slash-symbol :
    (symbol : CString)
    → IsWithout 47 symbol
    → length symbol < 32
    → before_slash (snprintf 64 (symbol ++ str "/USDC:USDC")) ≡ some symbol
before_slash-symbol symbol w short =
    let whole : CString = symbol ++ str "/USDC:USDC" in
    let n : length whole ≡ length symbol + length (str "/USDC:USDC") = length-append symbol _ in
    let kept : snprintf 64 whole ≡ whole = take_all 63 whole (omega arith) in
    ap before_slash kept ∙ before_slash-split whole (split-append 47 symbol (str "USDC:USDC") w)

module _ (d : Doubles) (j : CJson d) where
  -- The market of an item with a short name.
  abbrev pub IsNamed : CString → Market d → Type 0
  IsNamed symbol m = (m.base ≡ symbol) × (m.asset_id ≡ 0) × (is_swap m.type ≡ true)

  abbrev pub IsFirst : CString → List (Market d) → Type 0
  IsFirst symbol ms = (m : Market d) × (rest : List (Market d)) × (ms ≡ m ∷ rest) × IsNamed symbol m

  parse_swap_market-IsNamed :
      (u c : j.Node) (symbol : CString)
      → name_of d j u ≡ some symbol
      → IsText symbol
      → length symbol < 32
      → (m : Market d) × (parse_swap_market d j u c 0 ≡ some m) × IsNamed symbol m
  unfolding parse_swap_market is_swap
  parse_swap_market-IsNamed u c symbol named text short =
      elim (Option-cases (parse_swap_market d j u c 0)) [
        | inl x ↦ cc (rw (parse_swap_market, named) at x)
        | inr (m, x) ↦ (
          m,
          x,
          subst (IsNamed symbol) (some-injective _ _ (rw (parse_swap_market, named) at x))
              (buffer_lem 32 symbol text short, refl, refl),
        )
      ]

  parse_swaps-first :
      (u c : j.Node) (us cs : List j.Node) {m : Market d}
      → parse_swap_market d j u c 0 ≡ some m
      → parse_swaps d j (u ∷ us) (c ∷ cs) 0 ≡ m ∷ parse_swaps d j us (c ∷ cs) 1
  unfolding parse_swaps
  parse_swaps-first u c us cs e = rw (parse_swaps, e) refl

  fetch_swap_markets-IsFirst :
      (calloc : Bool) (response : Option HttpResult) (u c : j.Node) (us cs : List j.Node)
      (symbol : CString)
      → swap_content d j response ≡ some (u ∷ us, c ∷ cs)
      → name_of d j u ≡ some symbol
      → IsText symbol
      → length symbol < 32
      → is_success (fetch_swap_markets d j calloc response).0 ≡ true
      → IsFirst symbol (fetch_swap_markets d j calloc response).1
  unfolding fetch_swap_markets is_success
  fetch_swap_markets-IsFirst calloc response u c us cs symbol content named text short ok =
      let (m, e, f) = parse_swap_market-IsNamed u c symbol named text short in
      let items : (length (u ∷ us) == 0) ≡ false = ground arith in
      elim (Bool-cases (is_success (check_response d j response))) [
        | inr failed ↦ cc
        | inl fine ↦ elim (Bool-cases calloc) [
          | inr full ↦ cc (rw (fetch_swap_markets, fine, content, items, full) at ok)
          | inl room ↦ (
            m,
            parse_swaps d j us (c ∷ cs) 1,
            rw (fetch_swap_markets, fine, content, items, room) (parse_swaps-first u c us cs e),
            f,
          )
        ]
      ]

  fetch_spot_markets-IsFirst :
      (realloc : Option (ℕ → Market d)) (response : Option HttpResult) (symbol : CString)
      (ms : List (Market d))
      → IsFirst symbol ms
      → IsFirst symbol (fetch_spot_markets d j realloc response ms).1
  unfolding fetch_spot_markets
  fetch_spot_markets-IsFirst realloc response symbol ms first =
      elim (Bool-cases (is_success (check_response d j response))) [
        | inr failed ↦ rw (fetch_spot_markets, failed) first
        | inl fine ↦ elim (Option-cases (spot_content d j response)) [
          | inl x ↦ rw (fetch_spot_markets, fine, x) first
          | inr ((universe, tokens, contexts), x) ↦ elim (Bool-cases (length universe == 0)) [
            | inl empty ↦ rw (fetch_spot_markets, fine, x, empty) first
            | inr items ↦ elim (Option-cases realloc) [
              | inl full ↦ rw (fetch_spot_markets, fine, x, items, full) first
              | inr (old, room) ↦
                  let (m, rest, e, f) = first in
                  rw (fetch_spot_markets, fine, x, items, room)
                    (
                      m,
                      rest ++ parse_spots d j old tokens universe contexts 0 0,
                      ap (λ l. l ++ parse_spots d j old tokens universe contexts 0 0) e,
                      f,
                    )
            ]
          ]
        ]
      ]

  pub hl_fetch_markets-IsFirst :
      (calloc : Bool) (realloc : Option (ℕ → Market d)) (swaps spots : Option HttpResult)
      (u c : j.Node) (us cs : List j.Node) (symbol : CString)
      → swap_content d j swaps ≡ some (u ∷ us, c ∷ cs)
      → name_of d j u ≡ some symbol
      → IsText symbol
      → length symbol < 32
      → is_success (hl_fetch_markets d j calloc realloc swaps spots).0 ≡ true
      → IsFirst symbol (hl_fetch_markets d j calloc realloc swaps spots).1
  unfolding hl_fetch_markets
  hl_fetch_markets-IsFirst calloc realloc swaps spots u c us cs symbol content named text short ok =
      let first = fetch_swap_markets d j calloc swaps in
      elim (Bool-cases (is_success first.0)) [
        | inr failed ↦ cc
        | inl fine ↦
            let listed =
              fetch_swap_markets-IsFirst calloc swaps u c us cs symbol content named text short
                fine in
            elim (Bool-cases (is_success (fetch_spot_markets d j realloc spots first.1).0)) [
              | inr failed ↦ cc (rw (hl_fetch_markets, fine, failed) at ok)
              | inl done ↦
                  rw (hl_fetch_markets, fine, done)
                    (fetch_spot_markets-IsFirst realloc spots symbol first.1 listed)
            ]
      ]

  find_swap-first :
      (ms : List (Market d)) (symbol : CString)
      → IsFirst symbol ms
      → (m : Market d) × (find_swap d symbol ms ≡ some m) × (m.asset_id ≡ 0)
  unfolding find_swap
  find_swap-first ms symbol (m, rest, e, (based, id, swapped)) =
      let hit : str_eq m.base symbol ≡ true = (str_eq_iff m.base symbol).1 based in
      (m, rw (e, find_swap, hit, swapped) refl, id)

  pub hl_get_asset_id-first :
      (ms : List (Market d)) (text symbol : CString)
      → IsFirst symbol ms
      → before_slash text ≡ some symbol
      → length symbol < 32
      → hl_get_asset_id d ms text ≡ (success, some 0)
  unfolding hl_get_asset_id
  hl_get_asset_id-first ms text symbol first coin short =
      let room = fits (length symbol) short in
      let (m, found, id) = find_swap-first ms symbol first in
      rw (hl_get_asset_id, coin, room, found, id) refl

-- The parts of an answer of the exchange, and what it says of its first swap market: the symbol is the
-- whole text of its name, of at most 31 bytes, and without a slash.
pub record IsListedFirst (d : Doubles) (j : CJson d) (swaps : Option HttpResult) (symbol : CString)
    : Type 0 where
  pub item : j.Node
  pub context : j.Node
  pub items : List j.Node
  pub contexts : List j.Node
  pub content : swap_content d j swaps ≡ some (item ∷ items, context ∷ contexts)
  pub named : name_of d j item ≡ some symbol
  pub text : IsText symbol
  pub no_slash : IsWithout 47 symbol
  pub short : length symbol < 32
