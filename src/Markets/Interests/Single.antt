-- ===== src/Markets/Interests/Single.antt =====
-- The open interest of one symbol in src/markets.c.
use hyperliquid_c.Prelude.{
  ℕ, ◌≡◌, refl, sym, ◌≢◌, ◌⊎◌, inl, inr, true, none, some, List, [], ◌∷◌, arith, guard,
  some-injective, >>=-eq-some, guard-eq-some, get_elem?,
}
use hyperliquid_c.Prelude.Text.{CString, str_eq_refl, str_eq→eq}
use hyperliquid_c.Types.{success, not_found, is_success, Doubles, CJson}
use mathlib.Core.Logic.{◌⊎◌, inl, inr}
use hyperliquid_c.Trades.{TradesApi}
use hyperliquid_c.Contexts.{usdc_symbol, context_loop, pair_name}
use hyperliquid_c.Contexts.Pairs.{context_loop-All, context_loop-none}
use hyperliquid_c.Funding.Rates.{contexts_reply}
use hyperliquid_c.Markets.Interests.{
  is_listed, include_symbol, open_interest_of, make_interest, hl_fetch_open_interests,
  hl_fetch_open_interest, OpenInterest,
}

include_symbol-eq :
    (symbol name : CString)
    → include_symbol (symbol ∷ []) name ≡ true
    → symbol ≡ usdc_symbol 64 name
unfolding include_symbol is_listed
include_symbol-eq symbol name h = str_eq→eq symbol (usdc_symbol 64 name) (ground arith)

List-cases {ℓ} : {A : Type ℓ} (xs : List A) → (xs ≡ []) ⊎ ((x : A) × (ys : List A) × (xs ≡ x ∷ ys))
List-cases [] = inl refl
List-cases (x ∷ xs) = inr (x, xs, refl)

module _ (d : Doubles) (j : CJson d) where
  -- It is what the context of an asset of that market says, at the index of the asset.
  abbrev pub IsInterest : ℕ → CString → List j.Node → List j.Node → OpenInterest d → Type 0
  IsInterest time symbol universe contexts r =
      (i : ℕ) × (u : j.Node) × (c : j.Node) × (name : CString) × (get_elem? universe i ≡ some u)
      × (get_elem? contexts i ≡ some c)
      × (pair_name d j u c ≡ some name)
      × (symbol ≡ usdc_symbol 64 name)
      × (r ≡ open_interest_of d j time name c)

  make_interest-some :
      (time : ℕ) (symbol : CString) (u c : j.Node) (r : OpenInterest d)
      → make_interest d j time (symbol ∷ []) u c ≡ some r
      → (name : CString) × (pair_name d j u c ≡ some name)
        × (symbol ≡ usdc_symbol 64 name)
        × (r ≡ open_interest_of d j time name c)
  unfolding make_interest
  make_interest-some time symbol u c r h =
      let (name, p, h1) = >>=-eq-some (pair_name d j u c) _ h in
      let (_, g, h2) = >>=-eq-some (guard (include_symbol (symbol ∷ []) name)) _ h1 in
      (name, p, include_symbol-eq symbol name (guard-eq-some _ g), sym (some-injective _ _ h2))

  make_interest-none :
      (time : ℕ) (symbol name : CString) (u c : j.Node)
      → make_interest d j time (symbol ∷ []) u c ≡ none
      → pair_name d j u c ≡ some name
      → symbol ≢ usdc_symbol 64 name
  unfolding make_interest include_symbol is_listed
  make_interest-none time symbol name u c h p e =
      let listed : include_symbol (symbol ∷ []) name ≡ true =
        simp (include_symbol, is_listed, e, str_eq_refl (usdc_symbol 64 name)) refl in
      cc (rw (make_interest, p, listed) at h)

  -- Where the answer has been read and there is memory, a fetch of one open interest gives what the
  -- context of an asset whose market has the symbol says, at the index of the asset; or it says
  -- NOT_FOUND, and no asset has a market with the symbol.
  pub hl_fetch_open_interest_lem :
      (x : TradesApi) (time : ℕ) (symbol : CString) (universe contexts : List j.Node)
      → contexts_reply d j x ≡ inr (universe, contexts)
      → x.calloc ≡ true
      → (((hl_fetch_open_interest d j x time symbol).0 ≡ success)
          × IsInterest time symbol universe contexts (hl_fetch_open_interest d j x time symbol).1)
        ⊎ (((hl_fetch_open_interest d j x time symbol).0 ≡ not_found)
            × ((i : ℕ) (u c : j.Node) (name : CString)
                → get_elem? universe i ≡ some u
                → get_elem? contexts i ≡ some c
                → pair_name d j u c ≡ some name
                → symbol ≢ usdc_symbol 64 name))
  unfolding hl_fetch_open_interest hl_fetch_open_interests is_success
  hl_fetch_open_interest_lem x time symbol universe contexts p m =
      let make = make_interest d j time (symbol ∷ []) in
      let (all, _) = context_loop-All d j make universe contexts in
      elim (List-cases (context_loop d j make universe contexts)) [
        | inl e ↦
            simp (hl_fetch_open_interest, hl_fetch_open_interests, p, m, e)
              (inr (
                refl,
                λ i u c name a b q.
                    make_interest-none time symbol name u c
                      (context_loop-none d j make universe contexts i u c e a b) q,
              ))
        | inr (r, rs, e) ↦
            let ((i, u, c, a, b, made), _) = rw e at all in
            let (name, q, s, f) = make_interest-some time symbol u c r made in
            simp (hl_fetch_open_interest, hl_fetch_open_interests, p, m, e)
              (inl (refl, (i, u, c, name, a, b, q, s, f)))
      ]
