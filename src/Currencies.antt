-- ===== src/Currencies.antt =====
-- src/currencies.c: the currencies of the universe.
pub mod Ids
use hyperliquid_c.Prelude.{
  ℕ, zero, suc, ◌+◌, ◌-◌, ◌*◌, ◌/◌, ◌%◌, ◌^◌, ◌≤◌, ◌<◌, min, String, ◌≡◌, refl, sym, ap, ap₂, ◌∙◌,
  ◌≢◌, ◌↔◌, ◌⊎◌, inl, inr, Bool, true, false, not, ◌&&◌, ◌||◌, Option, none, some, List, [], ◌∷◌,
  ◌++◌, map, arith, ltb, leb, ◌==◌, if◌then◌else◌, ltb→lt, lt→ltb, leb→le, ==_iff, ==_refl,
  Bool-cases, Option-cases, Sum-cases, &&-eq-true, ◌>>=◌, ◌>>◌, guard, some-injective, >>=-eq-some,
  guard-eq-some, length, get_elem?, set, take, drop, replicate, length-append, length-set,
  length-take, length-drop, length-replicate, get_elem?-drop, get_elem?-lt, drop-head, All-append,
  All-map, All-get_elem?, take_all, take-append_le, take-append-drop, append_cancel, All,
}
use hyperliquid_c.Prelude.Text.{
  CString, str, str_eq, str_eq_refl, str_eq→eq, str_eq_iff, split_at_char, strncpy, c_str, snprintf,
}
use hyperliquid_c.Types.{HlError, success, memory, json, Doubles, CJson, decimal}
use mathlib.Core.Logic.{◌⊎◌, inl, inr}
use hyperliquid_c.Trades.{TradesApi, copied}
use hyperliquid_c.Orders.Parse.{reply_json}
use hyperliquid_c.Markets.Parse.{name_of, universe_of}
use hyperliquid_c.Trader.Signing.{int_text}

-- `struct hl_currency`
pub record Currency : Type 0 where
  pub id : CString
  pub name : CString
  pub code : CString
  pub precision : ℕ
  pub active : Bool
  pub deposit : Bool
  pub withdraw : Bool
  pub type : CString
  pub info : CString

module _ (d : Doubles) (j : CJson d) where
  -- `szDecimals` as an `int`, and 8 where it is no number.
  unfoldable pub precision_of : j.Node → ℕ
  precision_of item = elim (j.get_object_item item (str "szDecimals")) [
    | none ↦ 8
    | some n ↦ if j.is_number n then d.to_int (j.valuedouble n) else 8
  ]

  unfoldable pub currency_of : ℕ → CString → ℕ → Currency
  currency_of i name precision = record {
    id = snprintf 32 (decimal i);
    name = copied 32 name;
    code = copied 16 name;
    precision = precision;
    active = true;
    deposit = true;
    withdraw = true;
    type = str "crypto";
    info = copied 1024 (
        snprintf 256 (
          str "{\"name\":\""
          ++ copied 32 name
          ++ str "\",\"szDecimals\":"
          ++ int_text precision
          ++ str "}"));
  }

  unfoldable pub parse_currency : ℕ → j.Node → Option Currency
  parse_currency i item = do
    guard (j.is_object item)
    name ← name_of d j item
    some (currency_of i name (precision_of item))

  -- The loop over the universe from index `i` on.
  unfoldable pub currency_loop : ℕ → List j.Node → List Currency
  currency_loop i [] = []
  currency_loop i (item ∷ items) =
      let rest = currency_loop (suc i) items in
      elim (parse_currency i item) [ none ↦ rest | some c ↦ c ∷ rest ]

  unfoldable pub hl_fetch_currencies : TradesApi → HlError × Option (List Currency)
  hl_fetch_currencies x = elim (reply_json d j (x.post (str "/info") (str "{\"type\":\"meta\"}"))) [
    | inl e ↦ (e, none)
    | inr n ↦ elim (universe_of d j n) [
      | none ↦ (json, none)
      | some items ↦
          if length items == 0
          then (success, none)
          else if not x.calloc
          then (memory, none)
          else (success, some (currency_loop 0 items))
    ]
  ]
