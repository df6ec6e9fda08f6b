-- ===== src/Funding/History.antt =====
-- src/funding.c: the histories. An entry has the amount and the currency that the file writes, which
-- its struct does not declare; their sizes are taken from the ledger of src/account.c.
pub mod Start
use hyperliquid_c.Prelude.{
  ℕ, zero, suc, ◌+◌, ◌-◌, ◌*◌, ◌/◌, ◌%◌, ◌^◌, ◌≤◌, ◌<◌, min, String, ◌≡◌, refl, sym, ap, ap₂, ◌∙◌,
  ◌≢◌, ◌↔◌, ◌⊎◌, inl, inr, Bool, true, false, not, ◌&&◌, ◌||◌, Option, none, some, List, [], ◌∷◌,
  ◌++◌, map, arith, ltb, leb, ◌==◌, if◌then◌else◌, ltb→lt, lt→ltb, leb→le, ==_iff, ==_refl,
  Bool-cases, Option-cases, Sum-cases, &&-eq-true, ◌>>=◌, ◌>>◌, guard, some-injective, >>=-eq-some,
  guard-eq-some, length, get_elem?, set, take, drop, replicate, length-append, length-set,
  length-take, length-drop, length-replicate, get_elem?-drop, get_elem?-lt, drop-head, All-append,
  All-map, All-get_elem?, take_all, take-append_le, take-append-drop, append_cancel, All,
}
use hyperliquid_c.Prelude.Text.{
  CString, str, str_eq, str_eq_refl, str_eq→eq, str_eq_iff, split_at_char, strncpy, c_str, snprintf,
}
use hyperliquid_c.Prelude.Words.{sub_u64}
use hyperliquid_c.Types.{HlError, success, auth, memory, network, json, Doubles, CJson, decimal}
use mathlib.Core.Logic.{◌⊎◌, inl, inr}
use hyperliquid_c.Trades.{TradesApi, copied}
use hyperliquid_c.Orders.Parse.{reply_items}
use hyperliquid_c.Account.Positions.{first_coin}
use hyperliquid_c.Account.Ledger.{since_request, is_filtered}
use hyperliquid_c.Contexts.{usdc_symbol, updated_real, info_text}

-- `hours_back * 60 * 60 * 1000` is computed with 32 bits.
unfoldable pub history_start : ℕ → ℕ → ℕ
history_start limit time =
    let hours_back = if ltb 0 limit then limit else 500 in
    sub_u64 (time * 1000 % 2 ^ 64) (hours_back * 60 * 60 * 1000 % 2 ^ 32)

unfoldable pub history_request : CString → Option CString → ℕ → ℕ → CString
history_request coin since limit time =
    let from : CString → CString = λ start. snprintf 512 (
      str "{\"type\":\"fundingHistory\",\"coin\":\""
      ++ coin
      ++ str "\",\"startTime\":"
      ++ start
      ++ str "}") in
    let default = from (decimal (history_start limit time)) in
    elim since [ none ↦ default | some s ↦ if length s == 0 then default else from s ]

module _ (d : Doubles) where
  pub record FundingEntry : Type 0 where
    pub symbol : CString
    pub timestamp : CString
    pub datetime : CString
    pub funding_rate : d.Real
    pub amount : d.Real
    pub currency : CString
    pub info : CString

  abbrev pub zero_funding : FundingEntry
  zero_funding = record {
    symbol = [];
    timestamp = [];
    datetime = [];
    funding_rate = d.zero_real;
    amount = d.zero_real;
    currency = [];
    info = [];
  }

module _ (d : Doubles) (j : CJson d) where
  unfoldable pub funding_time : Option j.Node → FundingEntry d → FundingEntry d
  funding_time none e = e
  funding_time (some n) e =
      if j.is_number n
      then (let text = snprintf 32 (decimal (d.to_u64 (j.valuedouble n))) in
          record e { timestamp = text; datetime = text })
      else e

  -- What the symbol and the currency are made of, where there is a text.
  unfoldable pub funding_coin : Option j.Node → FundingEntry d → FundingEntry d
  funding_coin none e = e
  funding_coin (some n) e =
      if j.is_string n
      then elim (j.valuestring n) [
        | none ↦ e
        | some s ↦ record e {
          symbol = usdc_symbol 32 s;
          currency = if str_eq s (str "USDC") then str "USDC" else copied 16 s;
        }
      ]
      else e

  unfoldable pub funding_real : j.Node → FundingEntry d → FundingEntry d
  funding_real item e = record e {
    funding_rate = updated_real d j (j.get_object_item item (str "fundingRate")) e.funding_rate;
  }

  unfoldable pub funding_info : j.Node → FundingEntry d → FundingEntry d
  funding_info item e = elim (j.print_unformatted item) [
    | none ↦ e
    | some text ↦ record e { info = copied 512 text }
  ]

  -- An entry of the history of a market.
  unfoldable pub market_entry : CString → j.Node → FundingEntry d
  market_entry coin item = funding_info item (
      funding_real item (
        funding_time (j.get_object_item item (str "time"))
          (record (zero_funding d) { symbol = usdc_symbol 32 coin })))

  unfoldable pub market_loop : CString → List j.Node → List (FundingEntry d)
  market_loop coin [] = []
  market_loop coin (item ∷ items) =
      let rest = market_loop coin items in
      if j.is_object item then market_entry coin item ∷ rest else rest

  unfoldable pub hl_fetch_funding_rate_history :
      TradesApi → CString → Option CString → ℕ → ℕ → HlError × Option (List (FundingEntry d))
  hl_fetch_funding_rate_history x symbol since limit time =
      let coin = first_coin symbol in
      elim (reply_items d j (x.post (str "/info") (history_request coin since limit time))) [
        | inl e ↦ (e, none)
        | inr items ↦
            if length items == 0
            then (success, none)
            else if not x.calloc
            then (memory, none)
            else (success, some (market_loop coin items))
      ]

  -- What the loop over the payments writes into the slot, over what the slot holds.
  unfoldable pub payment_entry : j.Node → FundingEntry d → FundingEntry d
  payment_entry item slot =
      let timed = funding_time (j.get_object_item item (str "time")) slot in
      let e = funding_real item (funding_coin (j.get_object_item item (str "coin")) timed) in
      record e { amount = updated_real d j (j.get_object_item item (str "sz")) e.amount }

  unfoldable pub payment_loop :
      Option CString → FundingEntry d → List j.Node → List (FundingEntry d)
  payment_loop symbol slot [] = []
  payment_loop symbol slot (item ∷ items) =
      let e = payment_entry item slot in
      let no_object = payment_loop symbol slot items in
      let skipped = payment_loop symbol e items in
      let kept = payment_loop symbol (zero_funding d) items in
      if not (j.is_object item)
      then no_object
      else if is_filtered symbol e.symbol
      then skipped
      else funding_info item e ∷ kept

  unfoldable pub hl_fetch_funding_history :
      TradesApi → Option CString → Option CString → HlError × Option (List (FundingEntry d))
  hl_fetch_funding_history x symbol since = elim x.wallet_address [
    | none ↦ (auth, none)
    | some user ↦
        elim (reply_items d j
          (x.post (str "/info") (since_request (str "userFunding") user since))) [
            | inl e ↦ (e, none)
            | inr items ↦
                if length items == 0
                then (success, none)
                else if not x.calloc
                then (memory, none)
                else (success, some (payment_loop symbol (zero_funding d) items))
          ]
  ]
