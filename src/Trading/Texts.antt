-- ===== src/Trading/Texts.antt =====
-- The texts that src/trading_api.c posts, written out, and what it needs of the client.
use hyperliquid_c.Prelude.{
  ℕ, ◌≡◌, refl, ◌∙◌, ◌⊎◌, inl, inr, Bool, true, false, none, some, List, ◌++◌, if◌then◌else◌,
  Bool-cases, Option-cases, guard, >>=-eq-some, guard-eq-some, get_elem?, take, drop,
}
use hyperliquid_c.Prelude.Text.{CString, str}
use hyperliquid_c.Types.{decimal}
use hyperliquid_c.Trading.{cancel_body, Handles, ready_key, order_body, signature_text}
use mathlib.Core.Logic.{◌⊎◌, inl, inr}
use hyperliquid_c.Crypto.Hex.{bytes_to_hex}

-- The whole text of a request for one order.
abbrev pub order_request_text : ℕ → Bool → CString → CString → Bool → ℕ → List ℕ → CString
order_request_text id buy price_text size_text reduce_only nonce sig =
    str "{\"action\":{\"type\":\"order\",\"orders\":[{\"a\":"
    ++ decimal id
    ++ str ",\"b\":"
    ++ (if buy then str "true" else str "false")
    ++ str ",\"p\":\""
    ++ price_text
    ++ str "\",\"s\":\""
    ++ size_text
    ++ str "\",\"r\":"
    ++ (if reduce_only then str "true" else str "false")
    ++ str ",\"t\":{\"limit\":{\"tif\":\"Gtc\"}}}],\"grouping\":\"na\"},"
    ++ (str "\"nonce\":"
        ++ decimal nonce
        ++ str ",\"signature\":{\"r\":\""
        ++ bytes_to_hex (take 32 sig) true
        ++ str "\",\"s\":\""
        ++ bytes_to_hex (take 32 (drop 32 sig)) true
        ++ str "\",\"v\":"
        ++ decimal (elim (get_elem? sig 64) [ none ↦ 0 | some v ↦ v ])
        ++ str "},\"vaultAddress\":null}")

-- The whole text of a request to cancel one order.
abbrev pub cancel_request_text : ℕ → ℕ → ℕ → List ℕ → CString
cancel_request_text id order_id nonce sig =
    str "{\"action\":{\"type\":\"cancel\",\"cancels\":[{\"a\":"
    ++ decimal id
    ++ str ",\"o\":"
    ++ decimal order_id
    ++ str "}]},"
    ++ (str "\"nonce\":"
        ++ decimal nonce
        ++ str ",\"signature\":{\"r\":\""
        ++ bytes_to_hex (take 32 sig) true
        ++ str "\",\"s\":\""
        ++ bytes_to_hex (take 32 (drop 32 sig)) true
        ++ str "\",\"v\":"
        ++ decimal (elim (get_elem? sig 64) [ none ↦ 0 | some v ↦ v ])
        ++ str "},\"vaultAddress\":null}")

pub order_body_lem :
    (id : ℕ) (buy : Bool) (price_text size_text : CString) (reduce_only : Bool) (nonce : ℕ)
    (sig : List ℕ)
    → order_body
        (record {
          a = id;
          b = buy;
          p = price_text;
          s = size_text;
          r = reduce_only;
          limit = record { tif = str "Gtc" };
        })
        nonce
        sig
      ≡ order_request_text id buy price_text size_text reduce_only nonce sig
unfolding order_body signature_text
order_body_lem id buy price_text size_text reduce_only nonce sig = refl

pub cancel_body_lem :
    (id order_id nonce : ℕ) (sig : List ℕ)
    → cancel_body (record { a = id; o = order_id }) nonce sig
      ≡ cancel_request_text id order_id nonce sig
unfolding cancel_body signature_text
cancel_body_lem id order_id nonce sig = refl

-- A part of the client is missing.
abbrev pub IsMissing : Handles → Type 0
IsMissing h = (h.wallet ≡ none) ⊎ ((h.key ≡ none) ⊎ ((h.http ≡ false) ⊎ (h.mutex ≡ false)))

-- No part is missing, and the key is this one.
abbrev pub HasKey : Handles → CString → Type 0
HasKey h key =
    ((wallet : CString) × (h.wallet ≡ some wallet))
    × (h.key ≡ some key)
    × (h.http ≡ true)
    × (h.mutex ≡ true)

pub ready_key-none : (h : Handles) → ready_key h ≡ none → IsMissing h
unfolding ready_key
ready_key-none h e = elim (Option-cases h.wallet) [
  | inl p ↦ inl p
  | inr (wallet, p) ↦ elim (Option-cases h.key) [
    | inl q ↦ inr (inl q)
    | inr (key, q) ↦ elim (Bool-cases h.http) [
      | inr r ↦ inr (inr (inl r))
      | inl r ↦ elim (Bool-cases h.mutex) [
        | inr t ↦ inr (inr (inr t))
        | inl t ↦ cc (rw (ready_key, p, q, r, t) at e)
      ]
    ]
  ]
]

pub ready_key-some : (h : Handles) {key : CString} → ready_key h ≡ some key → HasKey h key
unfolding ready_key
ready_key-some h e =
    let (wallet, p, e) = >>=-eq-some h.wallet _ e in
    let (key, q, e) = >>=-eq-some h.key _ e in
    let (_, r, e) = >>=-eq-some (guard h.http) _ e in
    let (_, t, e) = >>=-eq-some (guard h.mutex) _ e in
    ((wallet, p), q ∙ e, guard-eq-some _ r, guard-eq-some _ t)
