-- ===== src/Trades/Fetched.antt =====
-- What the fetches of src/trades.c give, whatever the exchange answers.
use mathlib.Core.Path.{subst}
use mathlib.Core.Logic.{◌⊎◌, inl, inr}
use hyperliquid_c.Prelude.{
  ℕ, zero, suc, ◌≤◌, ◌<◌, ◌≡◌, refl, ap, ap₂, ◌∙◌, ◌⊎◌, inl, inr, Bool, true, false, not, ◌||◌,
  Option, none, some, List, [], ◌∷◌, arith, ◌==◌, Bool-cases, Option-cases, ◌>>=◌, ◌>>◌, guard,
  some-injective, >>=-eq-some, guard-eq-some, length, All,
}
use hyperliquid_c.Prelude.Text.{CString, str, str_eq, strncpy, c_str}
use hyperliquid_c.Types.{success, Lv3Error, Doubles, CJson, is_lv3_success}
use hyperliquid_c.Trades.{
  TradesApi, Trade, copied, side_text, user_fills_request, recent_trades_request, set_symbol,
  parse_trade_from_json, parse_trades, trades_of, hl_fetch_my_trades, hl_fetch_trades,
}

abbrev pub IsSide : CString → Type 0
IsSide s = (s ≡ []) ⊎ ((s ≡ str "buy") ⊎ (s ≡ str "sell"))

side_text-IsSide : (s : CString) → IsSide (side_text s)
unfolding side_text
side_text-IsSide s = elim (Bool-cases (str_eq s (str "B"))) [
  | inl buy ↦ rw buy (inr (inl refl))
  | inr other ↦ elim (Bool-cases (str_eq s (str "A") || str_eq s (str "Sell"))) [
    | inl sell ↦ rw (other, sell) (inr (inr refl))
    | inr neither ↦ rw (other, neither) (inl refl)
  ]
]

copied_named : (b : ℕ) (s : CString) → 0 < length (copied 32 (suc b ∷ s))
unfolding strncpy c_str
copied_named b s = grind arith

module _ (d : Doubles) where
  -- The fields of a trade fit each other.
  abbrev pub IsTrade : Trade d → Type 0
  IsTrade t = (t.cost ≡ d.mul t.price t.amount) × IsSide t.side

  -- A property of every trade that a fetch gives.
  abbrev pub Each : (Trade d → Type 0) → Option (List (Trade d)) → Type 0
  Each P none = Unit
  Each P (some ts) = All P ts

  abbrev pub IsNamed : Trade d → Type 0
  IsNamed t = IsTrade t × (0 < length t.symbol)

  set_symbol-IsNamed :
      (b : ℕ) (s : CString) (t : Trade d) → IsTrade t → IsNamed (set_symbol d (suc b ∷ s) t)
  unfolding set_symbol
  set_symbol-IsNamed b s t h = elim (Bool-cases (length t.symbol == 0)) [
    | inl empty ↦ rw (set_symbol, empty) (h, copied_named b s)
    | inr full ↦ rw (set_symbol, full) (h, ground arith)
  ]

  -- The number of trades that a fetch gives.
  abbrev pub total : Option (List (Trade d)) → ℕ
  total none = 0
  total (some ts) = length ts

module _ (d : Doubles) (j : CJson d) where
  parse_trade-IsTrade :
      (item : j.Node) (t : Trade d) → parse_trade_from_json d j item ≡ some t → IsTrade d t
  unfolding parse_trade_from_json
  parse_trade-IsTrade item t h =
      let (coin, _, h1) = >>=-eq-some (j.get_object_item item (str "coin")) _ h in
      let (u1, _, h2) = >>=-eq-some (guard (j.is_string coin)) _ h1 in
      let (side, _, h3) = >>=-eq-some (j.get_object_item item (str "side")) _ h2 in
      let (u2, _, h4) = >>=-eq-some (guard (j.is_string side)) _ h3 in
      let (coin_string, _, h5) = >>=-eq-some (j.valuestring coin) _ h4 in
      let (side_string, _, h6) = >>=-eq-some (j.valuestring side) _ h5 in
      subst (λ z. IsTrade d z) (some-injective _ _ h6) (refl, side_text-IsSide side_string)

  parse_trades-All :
      (finish : Trade d → Trade d) (P : Trade d → Type 0)
      → ((t : Trade d) → IsTrade d t → P (finish t))
      → (n : ℕ) (items : List j.Node) → All P (parse_trades d j finish n items)
  unfolding parse_trades
  parse_trades-All finish P f zero items = tt
  parse_trades-All finish P f (suc n) [] = tt
  parse_trades-All finish P f (suc n) (item ∷ items) =
      let kept = parse_trades-All finish P f n items in
      let skipped = parse_trades-All finish P f (suc n) items in
      elim (Option-cases (parse_trade_from_json d j item)) [
        | inl x ↦ rw (parse_trades, x) skipped
        | inr (t, x) ↦ rw (parse_trades, x) (f t (parse_trade-IsTrade item t x), kept)
      ]

  parse_trades-length :
      (finish : Trade d → Trade d) (n : ℕ) (items : List j.Node)
      → length (parse_trades d j finish n items) ≤ length items
  unfolding parse_trades
  parse_trades-length finish zero items = omega arith
  parse_trades-length finish (suc n) [] = omega arith
  parse_trades-length finish (suc n) (item ∷ items) =
      let kept = parse_trades-length finish n items in
      let skipped = parse_trades-length finish (suc n) items in
      elim (Option-cases (parse_trade_from_json d j item)) [
        | inl x ↦ rw (parse_trades, x) (omega arith)
        | inr (t, x) ↦ rw (parse_trades, x) (omega arith)
      ]

  -- The reply has status 200 and an array, and there are at most as many trades as it has items.
  abbrev pub IsAnswered : Lv3Error × Option (ℕ × Option CString) → Option (List (Trade d)) → Type 0
  IsAnswered reply ts =
      (text : CString) × (n : j.Node) × (reply.1 ≡ some (200, some text))
      × (is_lv3_success reply.0 ≡ true)
      × (j.parse_text text ≡ some n)
      × (j.is_array n ≡ true)
      × (total d ts ≤ length (j.items n))

  trades_of-Each :
      (calloc : Bool) (finish : Trade d → Trade d) (P : Trade d → Type 0)
      → ((t : Trade d) → IsTrade d t → P (finish t))
      → (reply : Lv3Error × Option (ℕ × Option CString))
      → Each d P (trades_of d j calloc finish reply).1
  unfolding trades_of
  trades_of-Each calloc finish P f (err, none) = tt
  trades_of-Each calloc finish P f (err, some (status_code, body)) =
      elim (Bool-cases (not (is_lv3_success err) || not (status_code == 200))) [
        | inl bad ↦ simp (trades_of, bad) tt
        | inr good ↦
            elim (Option-cases
              (body >>= λ text. j.parse_text text >>= λ n. guard (j.is_array n) >> some n)) [
                | inl y ↦ simp (trades_of, good, y) tt
                | inr (n, y) ↦ elim (Bool-cases (length (j.items n) == 0)) [
                  | inl u ↦ simp (trades_of, good, y, u) tt
                  | inr u ↦ elim (Bool-cases calloc) [
                    | inr v ↦ simp (trades_of, good, y, u, v) tt
                    | inl v ↦
                        simp (trades_of, good, y, u, v)
                          (parse_trades-All finish P f (length (j.items n)) (j.items n))
                  ]
                ]
              ]
      ]

  trades_of-length :
      (calloc : Bool) (finish : Trade d → Trade d) (err : Lv3Error) (status_code : ℕ)
      (body : Option CString) (n : j.Node)
      → (not (is_lv3_success err) || not (status_code == 200)) ≡ false
      → (body >>= λ text. j.parse_text text >>= λ n. guard (j.is_array n) >> some n) ≡ some n
      → total d (trades_of d j calloc finish (err, some (status_code, body))).1 ≤ length (j.items n)
  unfolding trades_of
  trades_of-length calloc finish err status_code body n good y =
      elim (Bool-cases (length (j.items n) == 0)) [
        | inl u ↦ simp (trades_of, good, y, u) (omega arith)
        | inr u ↦ elim (Bool-cases calloc) [
          | inr v ↦ simp (trades_of, good, y, u, v) (omega arith)
          | inl v ↦
              simp (trades_of, good, y, u, v)
                (parse_trades-length finish (length (j.items n)) (j.items n))
        ]
      ]

  trades_of-success :
      (calloc : Bool) (finish : Trade d → Trade d) (reply : Lv3Error × Option (ℕ × Option CString))
      → (trades_of d j calloc finish reply).0 ≡ success
      → IsAnswered reply (trades_of d j calloc finish reply).1
  unfolding trades_of
  trades_of-success calloc finish (err, none) h = cc
  trades_of-success calloc finish (err, some (status_code, body)) h =
      elim (Bool-cases (not (is_lv3_success err) || not (status_code == 200))) [
        | inl bad ↦ cc (simp (trades_of, bad) at h)
        | inr good ↦
            elim (Option-cases
              (body >>= λ text. j.parse_text text >>= λ n. guard (j.is_array n) >> some n)) [
                | inl y ↦ cc (simp (trades_of, good, y) at h)
                | inr (n, y) ↦
                    let (text, y1, y2) = >>=-eq-some body _ y in
                    let (m, y3, y4) = >>=-eq-some (j.parse_text text) _ y2 in
                    let (u, y5, y6) = >>=-eq-some (guard (j.is_array m)) _ y4 in
                    let same : m ≡ n = some-injective _ _ y6 in
                    let status : status_code ≡ 200 = ground arith in
                    let fine : is_lv3_success err ≡ true = ground arith in
                    let bound : total d
                          (trades_of d j calloc finish (err, some (status_code, body))).1
                        ≤ length (j.items n) =
                      trades_of-length calloc finish err status_code body n good y in
                    (
                      text,
                      n,
                      ap₂ (λ a b. some (a, b)) status y1,
                      fine,
                      y3 ∙ ap some same,
                      subst (λ z. j.is_array z ≡ true) same (guard-eq-some _ y5),
                      bound,
                    )
              ]
      ]

  -- A fetch of public trades for a symbol that is not empty gives trades whose cost is the price
  -- times the amount, whose side is empty, "buy" or "sell", and whose symbol is not empty. The
  -- user's own trades have the first two properties.
  pub hl_fetch_trades-All :
      (x : TradesApi) (b : ℕ) (s : CString) (limit : ℕ)
      → Each d (IsNamed d) (hl_fetch_trades d j x (suc b ∷ s) limit).1
        × Each d (IsTrade d) (hl_fetch_my_trades d j x).1
  unfolding hl_fetch_trades hl_fetch_my_trades
  hl_fetch_trades-All x b s limit = (
    trades_of-Each x.calloc (set_symbol d (suc b ∷ s)) (IsNamed d) (set_symbol-IsNamed d b s)
        (x.post (str "/info") (recent_trades_request (suc b ∷ s) limit)),
    elim (Option-cases x.wallet_address) [
      | inl p ↦ simp (hl_fetch_my_trades, p) tt
      | inr (user, p) ↦
          simp (hl_fetch_my_trades, p)
            (trades_of-Each x.calloc (λ t. t) (IsTrade d) (λ t h. h)
              (x.post (str "/info") (user_fills_request user)))
    ],
  )

  -- A fetch of the user's own trades that succeeds has asked for the fills of the wallet's address,
  -- and was answered with status 200 and an array of at least as many items as there are trades.
  pub hl_fetch_my_trades-success :
      (x : TradesApi)
      → (hl_fetch_my_trades d j x).0 ≡ success
      → (user : CString) × (x.wallet_address ≡ some user)
        × IsAnswered (x.post (str "/info") (user_fills_request user)) (hl_fetch_my_trades d j x).1
  unfolding hl_fetch_my_trades
  hl_fetch_my_trades-success x h = elim (Option-cases x.wallet_address) [
    | inl p ↦ cc (simp (hl_fetch_my_trades, p) at h)
    | inr (user, p) ↦ (
      user,
      p,
      simp (hl_fetch_my_trades, p)
          (trades_of-success x.calloc (λ t. t) (x.post (str "/info") (user_fills_request user))
            (simp (hl_fetch_my_trades, p) at h)),
    )
  ]
