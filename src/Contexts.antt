-- ===== src/Contexts.antt =====
-- The answer with the universe and the contexts of the assets, as src/funding.c and the open
-- interests of src/markets.c read it.
pub mod Pairs
use hyperliquid_c.Prelude.{
  ℕ, ◌⊎◌, inl, inr, Option, none, some, List, [], ◌∷◌, ◌++◌, ◌==◌, if◌then◌else◌, ◌>>=◌, ◌>>◌,
  guard, length, get_elem?,
}
use hyperliquid_c.Prelude.Text.{CString, str, snprintf}
use hyperliquid_c.Types.{HlError, json, Lv3Error, Doubles, CJson}
use mathlib.Core.Logic.{◌⊎◌, inl, inr}
use hyperliquid_c.Markets.Parse.{name_of}
use hyperliquid_c.Trades.{copied}
use hyperliquid_c.Orders.Parse.{reply_json}

-- The name of the market of a coin, in a buffer of `size` bytes.
unfoldable pub usdc_symbol : ℕ → CString → CString
usdc_symbol size coin = snprintf size (coin ++ str "/USDC:USDC")

module _ (d : Doubles) (j : CJson d) where
  -- The items of the universe and the contexts, which are as many.
  unfoldable pub context_parts : j.Node → Option (List j.Node × List j.Node)
  context_parts n = do
    guard (j.is_array n)
    guard (length (j.items n) == 2)
    meta ← get_elem? (j.items n) 0
    contexts ← get_elem? (j.items n) 1
    guard (j.is_object meta)
    guard (j.is_array contexts)
    universe ← j.get_object_item meta (str "universe")
    guard (j.is_array universe)
    guard (length (j.items universe) == length (j.items contexts))
    some (j.items universe, j.items contexts)

  unfoldable pub reply_contexts :
      Lv3Error × Option (ℕ × Option CString) → HlError ⊎ (List j.Node × List j.Node)
  reply_contexts reply = elim (reply_json d j reply) [
    | inl e ↦ inl e
    | inr n ↦ elim (context_parts n) [ none ↦ inl json | some parts ↦ inr parts ]
  ]

  -- The name of an item of the universe, where both it and its context are objects.
  unfoldable pub pair_name : j.Node → j.Node → Option CString
  pair_name universe_item ctx_item = do
    guard (j.is_object universe_item)
    guard (j.is_object ctx_item)
    name_of d j universe_item

  -- What a field that is a text or a number puts in the place of `old`.
  unfoldable pub updated_real : Option j.Node → d.Real → d.Real
  updated_real none old = old
  updated_real (some n) old =
      if j.is_string n
      then elim (j.valuestring n) [ none ↦ old | some s ↦ d.atof s ]
      else if j.is_number n
      then j.valuedouble n
      else old

  -- The text of a node in a zeroed buffer.
  unfoldable pub info_text : ℕ → j.Node → CString
  info_text size n = elim (j.print_unformatted n) [ none ↦ [] | some text ↦ copied size text ]

  -- The loop over both arrays: `make` gives what a pair fills a slot with, or skips the pair.
  unfoldable pub context_loop :
      {R : Type 0} → (j.Node → j.Node → Option R) → List j.Node → List j.Node → List R
  context_loop make [] contexts = []
  context_loop make (u ∷ universe) [] = []
  context_loop make (u ∷ universe) (c ∷ contexts) =
      let rest = context_loop make universe contexts in
      elim (make u c) [ none ↦ rest | some r ↦ r ∷ rest ]
