-- ===== src/Orderbook/Fetched.antt =====
-- What a fetch of src/orderbook.c leaves behind.
use mathlib.Core.Logic.{inl, inr}
use hyperliquid_c.Prelude.{
  ℕ, zero, suc, ◌≤◌, ◌≡◌, refl, inl, inr, Bool, true, false, not, ◌&&◌, Option, none, some, List,
  [], ◌∷◌, arith, ltb, ◌==◌, if◌then◌else◌, Bool-cases, Option-cases, Sum-cases, length,
}
use hyperliquid_c.Prelude.Text.{CString}
use hyperliquid_c.Types.{HttpResult, Doubles, CJson, is_success, is_lv3_success}
use hyperliquid_c.Markets.{Market}
use hyperliquid_c.Markets.Lookup.{Api, info_url, lookup, coin_text}
use hyperliquid_c.Orderbook.{
  parse_levels, parse_orderbook_level, parse_orderbook_levels, book_parts, book_of, book_request,
  hl_fetch_order_book,
}

-- At most `depth` levels, of which 0 is no bound.
abbrev pub IsWithin {ℓ} : {A : Type ℓ} → ℕ → Option (List A) → Type 0
IsWithin depth none = Unit
IsWithin depth (some ls) = length ls ≤ (if depth == 0 then length ls else depth)

module _ (d : Doubles) (j : CJson d) where
  parse_levels-length : (n : ℕ) (items : List j.Node) → length (parse_levels d j n items) ≤ n
  unfolding parse_levels
  parse_levels-length zero items = omega arith
  parse_levels-length (suc n) [] = omega arith
  parse_levels-length (suc n) (item ∷ items) =
      let rest = parse_levels-length n items in
      elim (Option-cases (parse_orderbook_level d j item)) [
        | inl x ↦ rw (parse_levels, x) (omega arith)
        | inr (l, x) ↦ rw (parse_levels, x) (omega arith)
      ]

  parse_orderbook_levels-IsWithin :
      (calloc : Bool) (levels : j.Node) (depth : ℕ)
      → IsWithin depth (parse_orderbook_levels d j calloc levels depth).1
  unfolding parse_orderbook_levels
  parse_orderbook_levels-IsWithin calloc levels depth = elim (Bool-cases (j.is_array levels)) [
    | inr x ↦ rw (parse_orderbook_levels, x) tt
    | inl x ↦ elim (Bool-cases (length (j.items levels) == 0)) [
      | inl y ↦ rw (parse_orderbook_levels, x, y) tt
      | inr y ↦ elim (Bool-cases calloc) [
        | inr z ↦ rw (parse_orderbook_levels, x, y, z) tt
        | inl z ↦
            rw (parse_orderbook_levels, x, y, z)
              (let size = length (j.items levels) in
                let num = if ltb 0 depth && ltb depth size then depth else size in
                let short = parse_levels-length num (j.items levels) in ground (arith, short))
      ]
    ]
  ]

  -- The answer of the server, where one is asked for.
  abbrev pub asked : Api d → ℕ × Market d → HttpResult
  asked x found = x.post (info_url x.testnet) (book_request (coin_text d found))

  abbrev pub is_some {ℓ} : {A : Type ℓ} → Option A → Bool
  is_some none = false
  is_some (some a) = true

  -- The answer is one from which a book can be read.
  abbrev pub is_usable : HttpResult → Bool
  is_usable r = is_lv3_success r.err && r.status_code == 200 && is_some (book_parts d j r.body)

  book_of-left :
      (symbol_size : ℕ) (x : Api d) (symbol : CString) (depth : ℕ) (r : HttpResult)
      → (book_of d j symbol_size x symbol depth r).markets_left ≡ not (is_usable r)
  unfolding book_of
  book_of-left symbol_size x symbol depth r = elim (Bool-cases (is_lv3_success r.err)) [
    | inr p ↦ simp (book_of, p) refl
    | inl p ↦ elim (Bool-cases (r.status_code == 200)) [
      | inr q ↦ simp (book_of, p, q) refl
      | inl q ↦ elim (Option-cases (book_parts d j r.body)) [
        | inl y ↦ simp (book_of, p, q, y) refl
        | inr ((json, b, a), y) ↦
            elim (Bool-cases (is_success (parse_orderbook_levels d j x.calloc b depth).0)) [
              | inr u ↦ simp (book_of, p, q, y, u) refl
              | inl u ↦
                  elim (Bool-cases (is_success (parse_orderbook_levels d j x.calloc a depth).0)) [
                    | inr v ↦ simp (book_of, p, q, y, u, v) refl
                    | inl v ↦ simp (book_of, p, q, y, u, v) refl
                  ]
            ]
      ]
    ]
  ]

  -- Once the symbol has been found, a fetch leaves the fetched markets allocated exactly where the
  -- client has no HTTP handle or the answer of the server cannot be used: it failed, its status is
  -- not 200, or it has no two arrays of levels.
  pub hl_fetch_order_book-left :
      (symbol_size : ℕ) (x : Api d) (symbol : CString) (depth : ℕ) (found : ℕ × Market d)
      → is_success x.markets.0 ≡ true
      → lookup d x.markets.1 symbol ≡ inr found
      → (hl_fetch_order_book d j symbol_size x symbol depth).markets_left
        ≡ not (x.http && is_usable (asked x found))
  unfolding hl_fetch_order_book
  hl_fetch_order_book-left symbol_size x symbol depth found h l = elim (Bool-cases x.http) [
    | inr none_there ↦ simp (hl_fetch_order_book, h, l, none_there) refl
    | inl there ↦
        simp (hl_fetch_order_book, h, l, there)
          (book_of-left symbol_size x symbol depth (asked x found))
  ]

  book_of-IsWithin :
      (symbol_size : ℕ) (x : Api d) (symbol : CString) (depth : ℕ) (r : HttpResult)
      → IsWithin depth (book_of d j symbol_size x symbol depth r).book.bids
        × IsWithin depth (book_of d j symbol_size x symbol depth r).book.asks
  unfolding book_of
  book_of-IsWithin symbol_size x symbol depth r = elim (Bool-cases (is_lv3_success r.err)) [
    | inr p ↦ simp (book_of, p) (tt, tt)
    | inl p ↦ elim (Bool-cases (r.status_code == 200)) [
      | inr q ↦ simp (book_of, p, q) (tt, tt)
      | inl q ↦ elim (Option-cases (book_parts d j r.body)) [
        | inl y ↦ simp (book_of, p, q, y) (tt, tt)
        | inr ((json, b, a), y) ↦
            elim (Bool-cases (is_success (parse_orderbook_levels d j x.calloc b depth).0)) [
              | inr u ↦ simp (book_of, p, q, y, u) (tt, tt)
              | inl u ↦
                  elim (Bool-cases (is_success (parse_orderbook_levels d j x.calloc a depth).0)) [
                    | inr v ↦ simp (book_of, p, q, y, u, v) (tt, tt)
                    | inl v ↦
                        simp (book_of, p, q, y, u, v)
                          (
                            parse_orderbook_levels-IsWithin x.calloc b depth,
                            parse_orderbook_levels-IsWithin x.calloc a depth,
                          )
                  ]
            ]
      ]
    ]
  ]

  -- Whatever the exchange answers, the fetched book has at most `depth` levels on each side, where
  -- the depth is not 0.
  pub hl_fetch_order_book-IsWithin :
      (symbol_size : ℕ) (x : Api d) (symbol : CString) (depth : ℕ)
      → IsWithin depth (hl_fetch_order_book d j symbol_size x symbol depth).book.bids
        × IsWithin depth (hl_fetch_order_book d j symbol_size x symbol depth).book.asks
  unfolding hl_fetch_order_book
  hl_fetch_order_book-IsWithin symbol_size x symbol depth =
      elim (Bool-cases (is_success x.markets.0)) [
        | inr p ↦ simp (hl_fetch_order_book, p) (tt, tt)
        | inl p ↦ elim (Sum-cases (lookup d x.markets.1 symbol)) [
          | inl (e, q) ↦ simp (hl_fetch_order_book, p, q) (tt, tt)
          | inr (found, q) ↦ elim (Bool-cases x.http) [
            | inr r ↦ simp (hl_fetch_order_book, p, q, r) (tt, tt)
            | inl r ↦
                simp (hl_fetch_order_book, p, q, r)
                  (book_of-IsWithin symbol_size x symbol depth (asked x found))
          ]
        ]
      ]
