-- ===== src/Funding/Rates.antt =====
-- The funding rates that src/funding.c fetches.
use hyperliquid_c.Prelude.{
  ℕ, ◌≤◌, ◌≡◌, refl, ◌⊎◌, inl, inr, some, List, Bool-cases, Sum-cases, length, All,
}
use hyperliquid_c.Prelude.Text.{str}
use hyperliquid_c.Types.{HlError, success, is_success, Doubles, CJson}
use mathlib.Core.Logic.{◌⊎◌, inl, inr}
use hyperliquid_c.Trades.{TradesApi}
use hyperliquid_c.Contexts.{reply_contexts, context_loop}
use hyperliquid_c.Contexts.Pairs.{
  IsPaired, context_loop-All, reply_contexts-length, reply_contexts-error,
}
use hyperliquid_c.Funding.{FundingRate, make_rate, hl_fetch_funding_rates}

module _ (d : Doubles) (j : CJson d) where
  -- What the request of the rates is answered with.
  abbrev pub contexts_reply : TradesApi → HlError ⊎ (List j.Node × List j.Node)
  contexts_reply x =
      reply_contexts d j (x.post (str "/info") (str "{\"type\":\"metaAndAssetCtxs\"}"))

  -- A fetch that succeeds gives an array, and each of its rates is made from an item of the universe
  -- and the context of the same index, which are as many; there are no more rates than items.
  pub hl_fetch_funding_rates_lem :
      (x : TradesApi) (time : ℕ)
      → (hl_fetch_funding_rates d j x time).0 ≡ success
      → (universe : List j.Node) × (contexts : List j.Node) × (rates : List (FundingRate d))
        × (contexts_reply x ≡ inr (universe, contexts))
        × (hl_fetch_funding_rates d j x time ≡ (success, some rates))
        × (length universe ≡ length contexts)
        × (length rates ≤ length universe)
        × All (IsPaired d j (make_rate d j time) universe contexts) rates
  unfolding hl_fetch_funding_rates is_success
  hl_fetch_funding_rates_lem x time h = elim (Sum-cases (contexts_reply x)) [
    | inl (e, p) ↦
        let failed = reply_contexts-error d j _ e p in
        let ok : e ≡ success = simp (hl_fetch_funding_rates, p) at h in
        cc (rw (ok, is_success) at failed)
    | inr ((universe, contexts), p) ↦ elim (Bool-cases x.calloc) [
      | inr m ↦ cc (simp (hl_fetch_funding_rates, p, m) at h)
      | inl m ↦
          let (all, l) = context_loop-All d j (make_rate d j time) universe contexts in
          (
            universe,
            contexts,
            context_loop d j (make_rate d j time) universe contexts,
            p,
            simp (hl_fetch_funding_rates, p, m) refl,
            reply_contexts-length d j _ universe contexts p,
            l,
            all,
          )
    ]
  ]
