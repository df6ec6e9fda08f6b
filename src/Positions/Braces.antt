-- ===== src/Positions/Braces.antt =====
-- The text that src/leverage.c and src/margin.c post is no JSON object: it closes one brace more than
-- it opens.
use hyperliquid_c.Prelude.{
  take_all, ℕ, zero, suc, ◌+◌, ◌-◌, ◌/◌, ◌%◌, ◌≤◌, ◌<◌, ◌≡◌, refl, ◌∙◌, inl, inr, some, [], ◌∷◌,
  ◌++◌, arith, ltb, ◌==◌, if◌then◌else◌, Bool-cases, length,
}
use hyperliquid_c.Prelude.Text.{CString, str, snprintf}
use hyperliquid_c.Types.{Doubles, decimal, decimal_loop}
use hyperliquid_c.Positions.{exchange_request, with_signature, Exchange, signed_body}

-- How often a byte stands in a text.
abbrev pub count : ℕ → CString → ℕ
count c [] = 0
count c (b ∷ s) = let rest = count c s in if b == c then rest + 1 else rest

count-append : (c : ℕ) (s t : CString) → count c (s ++ t) ≡ count c s + count c t
count-append c [] t = omega arith
count-append c (b ∷ s) t = let e = count-append c s t in ground arith

-- Digits are below 58.
count-decimal_loop : (c fuel n : ℕ) → 58 ≤ c → n ≤ fuel → count c (decimal_loop fuel n) ≡ 0
unfolding decimal_loop
count-decimal_loop c zero n h m = ground arith
count-decimal_loop c (suc fuel) n h m = elim (Bool-cases (ltb n 10)) [
  | inl p ↦ rw (decimal_loop, p) (ground arith)
  | inr p ↦
      let e = count-decimal_loop c fuel (n / 10) h (omega arith) in
      let f = count-append c (decimal_loop fuel (n / 10)) ((48 + n % 10) ∷ []) in
      rw (decimal_loop, p) (ground (arith, e, f))
]

count-appends :
    (c : ℕ) (p q r s t : CString)
    → count c (p ++ q ++ r ++ s ++ t) ≡ count c p + count c q + count c r + count c s + count c t
count-appends c p q r s t =
    let a = count-append c p q in
    let b = count-append c (p ++ q) r in
    let e = count-append c (p ++ q ++ r) s in
    let f = count-append c (p ++ q ++ r ++ s) t in omega arith

count-exchange_request :
    (c nonce : ℕ) (action : CString)
    → 58 ≤ c
    → count c (exchange_request nonce action)
      ≡ count c (str "{\"action\":{\"type\":\"batchModify\",\"modifies\":")
        + count c action
        + count c (str "},\"nonce\":")
        + count c (str "}")
unfolding exchange_request decimal
count-exchange_request c nonce action h =
    let all =
      count-appends c (str "{\"action\":{\"type\":\"batchModify\",\"modifies\":") action
        (str "},\"nonce\":") (decimal_loop nonce nonce) (str "}") in
    let g = count-decimal_loop c nonce nonce h (omega arith) in all ∙ omega arith

count-with_signature :
    (c : ℕ) (request sig : CString)
    → count c (with_signature request sig)
      ≡ count c request + count c (str ",\"signature\":\"") + count c sig + count c (str "\"}")
unfolding with_signature
count-with_signature c request sig =
    let a = count-append c (request ++ str ",\"signature\":\"" ++ sig) (str "\"}") in
    let b = count-append c (request ++ str ",\"signature\":\"") sig in
    let e = count-append c request (str ",\"signature\":\"") in a ∙ omega arith

-- Where the request is not cut off, its action is balanced and the signature too, the text that is
-- posted closes one brace more than it opens.
pub signed_body-count :
    (d : Doubles) (size : ℕ) (x : Exchange d) (key action sig : CString)
    → length (exchange_request x.now action) < size
    → x.sign (exchange_request x.now action) key ≡ some sig
    → count 125 action ≡ count 123 action
    → count 125 sig ≡ count 123 sig
    → (text : CString) × (signed_body d size x key action ≡ some text)
      × (count 125 text ≡ count 123 text + 1)
unfolding signed_body
signed_body-count d size x key action sig fits signs balanced plain =
    let whole : snprintf size (exchange_request x.now action) ≡ exchange_request x.now action =
      take_all (size - 1) (exchange_request x.now action) (omega arith) in
    let r = exchange_request x.now action in
    let a = count-with_signature 125 r sig in
    let b = count-with_signature 123 r sig in
    let e = count-exchange_request 125 x.now action (omega arith) in
    let f = count-exchange_request 123 x.now action (omega arith) in
    (with_signature r sig, simp (signed_body, whole, signs) refl, omega arith)
