-- ===== src/Markets/Interests.antt =====
-- The open interests of src/markets.c.
pub mod Single
use hyperliquid_c.Prelude.{
  ℕ, zero, suc, ◌+◌, ◌-◌, ◌*◌, ◌/◌, ◌%◌, ◌^◌, ◌≤◌, ◌<◌, min, String, ◌≡◌, refl, sym, ap, ap₂, ◌∙◌,
  ◌≢◌, ◌↔◌, ◌⊎◌, inl, inr, Bool, true, false, not, ◌&&◌, ◌||◌, Option, none, some, List, [], ◌∷◌,
  ◌++◌, map, arith, ltb, leb, ◌==◌, if◌then◌else◌, ltb→lt, lt→ltb, leb→le, ==_iff, ==_refl,
  Bool-cases, Option-cases, Sum-cases, &&-eq-true, ◌>>=◌, ◌>>◌, guard, some-injective, >>=-eq-some,
  guard-eq-some, length, get_elem?, set, take, drop, replicate, length-append, length-set,
  length-take, length-drop, length-replicate, get_elem?-drop, get_elem?-lt, drop-head, All-append,
  All-map, All-get_elem?, take_all, take-append_le, take-append-drop, append_cancel, All,
}
use hyperliquid_c.Prelude.Text.{
  CString, str, str_eq, str_eq_refl, str_eq→eq, str_eq_iff, split_at_char, strncpy, c_str, snprintf,
}
use hyperliquid_c.Types.{
  HlError, success, auth, memory, network, json, api, parse, invalid_params, not_found, is_success,
  is_lv3_success, Doubles, CJson,
}
use mathlib.Core.Logic.{inl, inr}
use hyperliquid_c.Trades.{TradesApi}
use hyperliquid_c.Plain.{hl_current_timestamp}
use hyperliquid_c.Contexts.{
  usdc_symbol, reply_contexts, pair_name, updated_real, info_text, context_loop,
}

-- Whether one of the symbols is `expected`.
unfoldable pub is_listed : List CString → CString → Bool
is_listed [] expected = false
is_listed (s ∷ symbols) expected = str_eq s expected || is_listed symbols expected

-- Without symbols all are included.
unfoldable pub include_symbol : List CString → CString → Bool
include_symbol [] name = true
include_symbol (s ∷ symbols) name = is_listed (s ∷ symbols) (usdc_symbol 64 name)

module _ (d : Doubles) where
  pub record OpenInterest : Type 0 where
    pub symbol : CString
    pub open_interest : d.Real
    pub timestamp : CString
    pub datetime : CString
    pub info : CString

  abbrev pub zero_interest : OpenInterest
  zero_interest = record {
    symbol = [];
    open_interest = d.zero_real;
    timestamp = [];
    datetime = [];
    info = [];
  }

module _ (d : Doubles) (j : CJson d) where
  unfoldable pub open_interest_of : ℕ → CString → j.Node → OpenInterest d
  open_interest_of time name ctx_item =
      let now = hl_current_timestamp 32 time in
      record {
        symbol = usdc_symbol 32 name;
        open_interest =
            updated_real d j (j.get_object_item ctx_item (str "openInterest")) d.zero_real;
        timestamp = now;
        datetime = now;
        info = info_text d j 512 ctx_item;
      }

  unfoldable pub make_interest : ℕ → List CString → j.Node → j.Node → Option (OpenInterest d)
  make_interest time symbols universe_item ctx_item = do
    name ← pair_name d j universe_item ctx_item
    guard (include_symbol symbols name)
    some (open_interest_of time name ctx_item)

  -- `time` is time(NULL).
  unfoldable pub hl_fetch_open_interests :
      TradesApi → ℕ → List CString → HlError × Option (List (OpenInterest d))
  hl_fetch_open_interests x time symbols =
      elim (reply_contexts d j (x.post (str "/info") (str "{\"type\":\"metaAndAssetCtxs\"}"))) [
        | inl e ↦ (e, none)
        | inr (universe, contexts) ↦
            if not x.calloc
            then (memory, none)
            else (success, some (context_loop d j (make_interest time symbols) universe contexts))
      ]

  -- The first of the open interests for the symbol alone.
  unfoldable pub hl_fetch_open_interest : TradesApi → ℕ → CString → HlError × OpenInterest d
  hl_fetch_open_interest x time symbol =
      let (err, interests) = hl_fetch_open_interests x time (symbol ∷ []) in
      if not (is_success err) then (err, zero_interest d) else elim interests [
        | none ↦ (not_found, zero_interest d)
        | some [] ↦ (not_found, zero_interest d)
        | some (i ∷ is) ↦ (success, i)
      ]
