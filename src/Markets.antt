-- ===== src/Markets.antt =====
-- src/markets.c: the list of markets, and the lookups in it that the trading calls use.
pub mod Interests
pub mod Parse
pub mod First
pub mod AssetIds
pub mod Lookup
use hyperliquid_c.Prelude.{
  ℕ, zero, suc, ◌+◌, ◌-◌, ◌*◌, ◌/◌, ◌%◌, ◌^◌, ◌≤◌, ◌<◌, min, String, ◌≡◌, refl, sym, ap, ap₂, ◌∙◌,
  ◌≢◌, ◌↔◌, ◌⊎◌, inl, inr, Bool, true, false, not, ◌&&◌, ◌||◌, Option, none, some, List, [], ◌∷◌,
  ◌++◌, map, arith, ltb, leb, ◌==◌, if◌then◌else◌, ltb→lt, lt→ltb, leb→le, ==_iff, ==_refl,
  Bool-cases, Option-cases, &&-eq-true, ◌>>=◌, ◌>>◌, guard, some-injective, >>=-eq-some,
  guard-eq-some, length, get_elem?, set, take, drop, replicate, length-append, length-set,
  length-take, length-drop, length-replicate, get_elem?-drop, get_elem?-lt, take_all,
  take-append_le, take-append-drop, append_cancel, All,
}
use hyperliquid_c.Prelude.Text.{
  CString, str, str_eq, str_eq_refl, str_eq→eq, str_eq_iff, split_at_char, strncpy, c_str, snprintf,
}
use hyperliquid_c.Types.{HlError, success, invalid_params, not_found, Doubles}

-- `hl_market_type_t`
pub data MarketType : Type 0 where
  swap : MarketType
  spot : MarketType

unfoldable pub is_swap : MarketType → Bool
is_swap swap = true
is_swap spot = false

-- The part of a symbol before the slash, `none` where there is no slash.
unfoldable pub before_slash : CString → Option CString
before_slash symbol = elim (split_at_char 47 symbol) [ none ↦ none | some (a, b) ↦ some a ]

module _ (d : Doubles) where
  -- `struct hl_market`; the texts are what the buffers hold.
  pub record Market : Type 0 where
    pub symbol : CString
    pub base : CString
    pub quote : CString
    pub settle : CString
    pub base_id : CString
    pub asset_id : ℕ
    pub type : MarketType
    pub active : Bool
    pub amount_precision : ℕ
    pub price_precision : ℕ
    pub max_leverage : ℕ
    pub min_cost : d.Real
    pub mark_price : d.Real
    pub oracle_price : d.Real
    pub funding_rate : d.Real
    pub day_volume : d.Real
    pub open_interest : d.Real

  -- The loop of `hl_get_asset_id`.
  unfoldable pub find_swap : CString → List Market → Option Market
  find_swap coin [] = none
  find_swap coin (m ∷ ms) =
      let rest = find_swap coin ms in if str_eq m.base coin && is_swap m.type then some m else rest

  -- The result, and the id where it is written.
  unfoldable pub hl_get_asset_id : List Market → CString → HlError × Option ℕ
  hl_get_asset_id ms symbol =
      let coin : CString = elim (before_slash symbol) [ none ↦ symbol | some c ↦ c ] in
      let too_long : Bool = elim (before_slash symbol) [
        | none ↦ false
        | some c ↦ leb 32 (length c)
      ] in
      if too_long then (invalid_params, none) else elim (find_swap coin ms) [
        | none ↦ (not_found, none)
        | some m ↦ (success, some m.asset_id)
      ]

  unfoldable pub hl_get_market : List Market → CString → HlError × Option Market
  hl_get_market [] symbol = (not_found, none)
  hl_get_market (m ∷ ms) symbol =
      let rest = hl_get_market ms symbol in
      if str_eq m.symbol symbol then (success, some m) else rest

  unfoldable pub hl_get_market_by_id : List Market → ℕ → HlError × Option Market
  hl_get_market_by_id [] asset_id = (not_found, none)
  hl_get_market_by_id (m ∷ ms) asset_id =
      let rest = hl_get_market_by_id ms asset_id in
      if m.asset_id == asset_id then (success, some m) else rest
