-- ===== src/WebSocket/Subscriptions/Calls.antt =====
-- The calls of src/websocket.c on a client, as a relation, and what they do to its table.
use hyperliquid_c.WebSocket.Client.{hl_ws_client_send}
use hyperliquid_c.WebSocket.Subscriptions.{
  Extension, Client, System, ensure_connected, watch, with_extension, hl_watch_ticker,
  hl_watch_tickers, hl_watch_order_book, hl_watch_ohlcv, hl_watch_trades, hl_watch_orders,
  hl_watch_my_trades,
}
use hyperliquid_c.WebSocket.Subscriptions.Table.{
  IsTable, entries, Added, unchanged, add_subscription-some,
}
use hyperliquid_c.Prelude.{
  ℕ, ◌≡◌, refl, inl, inr, Option, none, some, List, Bool-cases, Option-cases,
}
use hyperliquid_c.Prelude.Text.{CString, snprintf}

-- The seven calls that subscribe, with their arguments.
pub data Watch : Type 0 where
  ticker : (symbol : Option CString) → Watch
  tickers : (symbols : List CString) → Watch
  order_book : (symbol : Option CString) (depth : ℕ) → Watch
  ohlcv : (symbol timeframe : Option CString) → Watch
  trades : (symbol : Option CString) → Watch
  orders : (symbol : Option CString) → Watch
  my_trades : (symbol : Option CString) → Watch

-- What a call that returned `id` did to the extension: nothing where there is none.
pub data Outcome (channel_size symbol_size : ℕ) (sys : System) (c c1 : Client) (id : Option CString)
    : Type 0 where
  refused : c1 ≡ c → id ≡ none → Outcome channel_size symbol_size sys c c1 id
  handled :
      (e e1 : Extension)
      → c.ws_extension ≡ some e
      → c1.ws_extension ≡ some e1
      → IsTable e1
      → Added channel_size symbol_size sys (entries e) e1 id
      → Outcome channel_size symbol_size sys c c1 id

abbrev pub IsTables : Client → Type 0
IsTables c = (e : Extension) → c.ws_extension ≡ some e → IsTable e

module _ (channel_size symbol_size : ℕ) (sys : System) where
  abbrev pub run_watch : Watch → Client → Option ℕ → Option ℕ → Client × Option CString
  run_watch (ticker symbol) c f u = hl_watch_ticker channel_size symbol_size sys c symbol f u
  run_watch (tickers symbols) c f u = hl_watch_tickers channel_size symbol_size sys c symbols f u
  run_watch (order_book symbol depth) c f u =
      hl_watch_order_book channel_size symbol_size sys c symbol depth f u
  run_watch (ohlcv symbol timeframe) c f u =
      hl_watch_ohlcv channel_size symbol_size sys c symbol timeframe f u
  run_watch (trades symbol) c f u = hl_watch_trades channel_size symbol_size sys c symbol f u
  run_watch (orders symbol) c f u = hl_watch_orders channel_size symbol_size sys c symbol f u
  run_watch (my_trades symbol) c f u = hl_watch_my_trades channel_size symbol_size sys c symbol f u

  -- A table is kept by a call that changes the connection only.
  abbrev pub Kept : Extension → Extension × Option CString → Type 0
  Kept e r = IsTable r.0 × Added channel_size symbol_size sys (entries e) r.0 r.1

  watch-Kept :
      (e : Extension) (message : Option CString) (channel : CString) (symbol : Option CString)
      (callback : ℕ) (user_data : Option ℕ)
      → IsTable e
      → Kept e (watch channel_size symbol_size sys e message channel symbol callback user_data)
  unfolding watch
  watch-Kept e message channel symbol callback user_data v =
      let v1 : IsTable (record e { ws_client = (ensure_connected sys e.ws_client).0 }) = record {
        count_le = v.count_le;
        slots = v.slots;
      } in
      elim (Bool-cases (ensure_connected sys e.ws_client).1) [
        | inr x ↦ rw (watch, x) (v1, unchanged refl)
        | inl x ↦ elim (Option-cases message) [
          | inl m ↦ rw (watch, x, m) (v1, unchanged refl)
          | inr (text, m) ↦
              elim (Bool-cases
                (hl_ws_client_send (ensure_connected sys e.ws_client).0 (snprintf 256 text)).1) [
                  | inr y ↦
                      rw (watch, x, m, y)
                        (record { count_le = v.count_le; slots = v.slots }, unchanged refl)
                  | inl y ↦
                      rw (watch, x, m, y)
                        (let r =
                            add_subscription-some channel_size symbol_size sys
                              (record e {
                                ws_client =
                                    (hl_ws_client_send (ensure_connected sys e.ws_client).0
                                      (snprintf 256 text)).0;
                              })
                              channel symbol callback user_data
                              (record { count_le = v.count_le; slots = v.slots }) in
                          (r.0, r.1))
                ]
        ]
      ]

  with_extension-Outcome :
      (c : Client) (callback : Option ℕ) (f : Extension → ℕ → Extension × Option CString)
      → IsTables c
      → ((e : Extension) (cb : ℕ) → IsTable e → Kept e (f e cb))
      → let r = with_extension channel_size symbol_size c callback f in
        Outcome channel_size symbol_size sys c r.0 r.1
  unfolding with_extension
  with_extension-Outcome c none f v k = refused refl refl
  with_extension-Outcome c (some cb) f v k = elim (Option-cases c.ws_extension) [
    | inl x ↦ simp (with_extension, x) (refused refl refl)
    | inr (e, x) ↦
        let (v1, a) = k e cb (v e x) in simp (with_extension, x) (handled e (f e cb).0 x refl v1 a)
  ]

  -- Each of the seven subscribing calls, on a client whose table is well-formed, either does
  -- nothing and returns no id, or leaves a well-formed table whose entries are the ones before, with
  -- one active entry that has the returned id appended exactly where an id is returned.
  pub run_watch-Outcome :
      (call : Watch) (c : Client) (callback user_data : Option ℕ)
      → IsTables c
      → let r = run_watch call c callback user_data in
        Outcome channel_size symbol_size sys c r.0 r.1
  unfolding hl_watch_ticker hl_watch_tickers hl_watch_order_book hl_watch_ohlcv hl_watch_trades
      hl_watch_orders hl_watch_my_trades
  run_watch-Outcome (ticker none) c f u v = refused refl refl
  run_watch-Outcome (ticker (some s)) c f u v =
      with_extension-Outcome c f _ v (λ e cb t. watch-Kept e _ _ _ cb u t)
  run_watch-Outcome (tickers symbols) c f u v =
      with_extension-Outcome c f _ v (λ e cb t. watch-Kept e _ _ _ cb u t)
  run_watch-Outcome (order_book none depth) c f u v = refused refl refl
  run_watch-Outcome (order_book (some s) depth) c f u v =
      with_extension-Outcome c f _ v (λ e cb t. watch-Kept e _ _ _ cb u t)
  run_watch-Outcome (ohlcv none t) c f u v = refused refl refl
  run_watch-Outcome (ohlcv (some s) none) c f u v = refused refl refl
  run_watch-Outcome (ohlcv (some s) (some i)) c f u v =
      with_extension-Outcome c f _ v (λ e cb t. watch-Kept e _ _ _ cb u t)
  run_watch-Outcome (trades none) c f u v = refused refl refl
  run_watch-Outcome (trades (some s)) c f u v =
      with_extension-Outcome c f _ v (λ e cb t. watch-Kept e _ _ _ cb u t)
  run_watch-Outcome (orders symbol) c f u v =
      with_extension-Outcome c f _ v (λ e cb t. watch-Kept e _ _ _ cb u t)
  run_watch-Outcome (my_trades symbol) c f u v =
      with_extension-Outcome c f _ v (λ e cb t. watch-Kept e _ _ _ cb u t)
