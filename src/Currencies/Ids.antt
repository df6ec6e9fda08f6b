-- ===== src/Currencies/Ids.antt =====
-- The ids of the currencies of src/currencies.c.
use hyperliquid_c.Prelude.{
  ℕ, suc, ◌+◌, ◌≡◌, refl, sym, ap, ◌∙◌, inl, inr, some, List, [], ◌∷◌, arith, Option-cases, guard,
  some-injective, >>=-eq-some, get_elem?, All-map, All,
}
use hyperliquid_c.Prelude.Text.{CString, snprintf}
use mathlib.Core.Logic.{inl, inr}
use hyperliquid_c.Types.{Doubles, CJson, decimal}
use hyperliquid_c.Trades.{copied}
use hyperliquid_c.Markets.Parse.{name_of}
use hyperliquid_c.Currencies.{Currency, currency_of, parse_currency, currency_loop}

module _ (d : Doubles) (j : CJson d) where
  -- Its id is the place, counted from `i`, of an item of that name.
  abbrev pub IsNumbered : ℕ → List j.Node → Currency → Type 0
  IsNumbered i items c =
      (k : ℕ) × (u : j.Node) × (name : CString) × (get_elem? items k ≡ some u)
      × (name_of d j u ≡ some name)
      × (c.id ≡ snprintf 32 (decimal (i + k)))
      × (c.name ≡ copied 32 name)

  parse_currency-IsNumbered :
      (i : ℕ) (u : j.Node) (items : List j.Node) (c : Currency)
      → parse_currency d j i u ≡ some c
      → IsNumbered i (u ∷ items) c
  unfolding parse_currency currency_of
  parse_currency-IsNumbered i u items c h =
      let (_, _, h1) = >>=-eq-some (guard (j.is_object u)) _ h in
      let (name, n, h2) = >>=-eq-some (name_of d j u) _ h1 in
      let e = some-injective _ _ h2 in
      (
        0,
        u,
        name,
        refl,
        n,
        ap (λ x. x.id) (sym e) ∙ ap (λ k. snprintf 32 (decimal k)) (omega arith),
        ap (λ x. x.name) (sym e),
      )

  currency_loop-All :
      (i : ℕ) (items : List j.Node) → All (IsNumbered i items) (currency_loop d j i items)
  unfolding currency_loop
  currency_loop-All i [] = tt
  currency_loop-All i (u ∷ items) =
      let later =
        All-map (IsNumbered (suc i) items) (IsNumbered i (u ∷ items))
          (currency_loop d j (suc i) items)
          (λ c (k, v, name, p, n, e, f).
            (suc k, v, name, p, n, e ∙ ap (λ m. snprintf 32 (decimal m)) (omega arith), f))
          (currency_loop-All (suc i) items) in
      elim (Option-cases (parse_currency d j i u)) [
        | inl e ↦ simp (currency_loop, e) later
        | inr (c, e) ↦ simp (currency_loop, e) (parse_currency-IsNumbered i u items c e, later)
      ]
