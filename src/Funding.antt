-- ===== src/Funding.antt =====
-- src/funding.c: the rates of all markets, and the histories of a market and of a user. The arguments
-- that the file never reads are left out.
pub mod History
pub mod Rates
use hyperliquid_c.Prelude.{
  ℕ, zero, suc, ◌+◌, ◌-◌, ◌*◌, ◌/◌, ◌%◌, ◌^◌, ◌≤◌, ◌<◌, min, String, ◌≡◌, refl, sym, ap, ap₂, ◌∙◌,
  ◌≢◌, ◌↔◌, ◌⊎◌, inl, inr, Bool, true, false, not, ◌&&◌, ◌||◌, Option, none, some, List, [], ◌∷◌,
  ◌++◌, map, arith, ltb, leb, ◌==◌, if◌then◌else◌, ltb→lt, lt→ltb, leb→le, ==_iff, ==_refl,
  Bool-cases, Option-cases, Sum-cases, &&-eq-true, ◌>>=◌, ◌>>◌, guard, some-injective, >>=-eq-some,
  guard-eq-some, length, get_elem?, set, take, drop, replicate, length-append, length-set,
  length-take, length-drop, length-replicate, get_elem?-drop, get_elem?-lt, drop-head, All-append,
  All-map, All-get_elem?, take_all, take-append_le, take-append-drop, append_cancel, All,
}
use hyperliquid_c.Prelude.Text.{
  CString, str, str_eq, str_eq_refl, str_eq→eq, str_eq_iff, split_at_char, strncpy, c_str, snprintf,
}
use hyperliquid_c.Types.{
  HlError, success, auth, memory, network, json, api, parse, invalid_params, not_found, is_success,
  is_lv3_success, Doubles, CJson, decimal,
}
use mathlib.Core.Logic.{◌⊎◌, inl, inr}
use hyperliquid_c.Trades.{TradesApi, copied}
use hyperliquid_c.Plain.{hl_current_timestamp}
use hyperliquid_c.Contexts.{
  usdc_symbol, reply_contexts, pair_name, updated_real, info_text, context_loop,
}

module _ (d : Doubles) where
  pub record FundingRate : Type 0 where
    pub symbol : CString
    pub timestamp : CString
    pub datetime : CString
    pub funding_rate : d.Real
    pub mark_price : d.Real
    pub index_price : d.Real
    pub open_interest : d.Real
    pub premium : d.Real
    pub info : CString

module _ (d : Doubles) (j : CJson d) where
  -- A slot of the zeroed array; `time` is time(NULL).
  unfoldable pub funding_rate_of : ℕ → CString → j.Node → FundingRate d
  funding_rate_of time name ctx_item =
      let now = hl_current_timestamp 32 time in
      let real : CString → d.Real =
        λ key. updated_real d j (j.get_object_item ctx_item key) d.zero_real in
      record {
        symbol = usdc_symbol 32 name;
        timestamp = now;
        datetime = now;
        funding_rate = real (str "funding");
        mark_price = real (str "markPx");
        index_price = real (str "oraclePx");
        open_interest = real (str "openInterest");
        premium = real (str "premium");
        info = info_text d j 1024 ctx_item;
      }

  unfoldable pub make_rate : ℕ → j.Node → j.Node → Option (FundingRate d)
  make_rate time universe_item ctx_item = do
    name ← pair_name d j universe_item ctx_item
    some (funding_rate_of time name ctx_item)

  unfoldable pub hl_fetch_funding_rates : TradesApi → ℕ → HlError × Option (List (FundingRate d))
  hl_fetch_funding_rates x time =
      elim (reply_contexts d j (x.post (str "/info") (str "{\"type\":\"metaAndAssetCtxs\"}"))) [
        | inl e ↦ (e, none)
        | inr (universe, contexts) ↦
            if not x.calloc
            then (memory, none)
            else (success, some (context_loop d j (make_rate time) universe contexts))
      ]
