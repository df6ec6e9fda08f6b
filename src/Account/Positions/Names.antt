-- ===== src/Account/Positions/Names.antt =====
-- The names that src/account.c gives to positions, against the coins it looks for.
use hyperliquid_c.Prelude.{
  ◌+◌, ◌≤◌, min, ◌≡◌, refl, sym, ap, ◌∙◌, ◌≢◌, inl, inr, [], ◌∷◌, ◌++◌, arith, ltb, Bool-cases,
  Option-cases, length, take, length-append, length-take, All-append, take_all,
}
use hyperliquid_c.Prelude.Text.{CString, str, split_at_char, snprintf}
use mathlib.Core.Path.{subst}
use mathlib.Core.Logic.{inl, inr}
use hyperliquid_c.Prelude.Buffers.{
  IsText, IsWithout, All-take, buffer-length, buffer-IsWithout, split-none, split-some,
}
use hyperliquid_c.Markets.{before_slash}
use hyperliquid_c.Account.Positions.{first_coin}

-- A name that a position gets has a slash, or is longer than any coin.
abbrev pub market_name : CString → CString
market_name name = snprintf 64 (name ++ str "/USDC:USDC")

pub market_name-IsText : (name : CString) → IsText name → IsText (market_name name)
market_name-IsText name a =
    All-take (λ b. b ≢ 0) 63 (name ++ str "/USDC:USDC")
      (All-append (λ b. b ≢ 0) name (str "/USDC:USDC") a (omega arith))

slash_inside : (a b : CString) → IsWithout 47 (a ++ 47 ∷ b) → ⊥
slash_inside [] b h = h.0 refl
slash_inside (x ∷ a) b h = slash_inside a b h.1

pub market_name-not : (name c : CString) → IsWithout 47 c → length c ≤ 31 → market_name name ≡ c → ⊥
market_name-not name c w l e =
    let whole : CString = name ++ str "/USDC:USDC" in
    let n : length whole ≡ length name + length (str "/USDC:USDC") = length-append name _ in
    let m : length (take 63 whole) ≡ min 63 (length whole) = length-take 63 whole in
    let k : length (take 63 whole) ≡ length c = ap length e in
    let short : take 63 whole ≡ whole = take_all 63 whole (omega arith) in
    slash_inside name (str "USDC:USDC") (subst (IsWithout 47) (sym (sym short ∙ e)) w)

pub first_coin-IsWithout : (symbol : CString) → IsWithout 47 (first_coin symbol)
unfolding first_coin before_slash
first_coin-IsWithout symbol = elim (Option-cases (split_at_char 47 symbol)) [
  | inl n ↦
      rw (first_coin, before_slash, n)
        (buffer-IsWithout 47 32 31 symbol (omega arith) (split-none 47 symbol n))
  | inr ((a, b), e) ↦ elim (Bool-cases (ltb (length a) 32)) [
    | inl fits ↦ rw (first_coin, before_slash, e, fits) (split-some 47 symbol e)
    | inr too_long ↦ rw (first_coin, before_slash, e, too_long) tt
  ]
]

pub first_coin-length : (symbol : CString) → length (first_coin symbol) ≤ 31
unfolding first_coin before_slash
first_coin-length symbol = elim (Option-cases (split_at_char 47 symbol)) [
  | inl n ↦ rw (length, first_coin, before_slash, n) (buffer-length 31 symbol)
  | inr ((a, b), e) ↦ elim (Bool-cases (ltb (length a) 32)) [
    | inl fits ↦ rw (first_coin, before_slash, e, fits) (ground arith)
    | inr too_long ↦ rw (first_coin, before_slash, e, too_long) (omega arith)
  ]
]
