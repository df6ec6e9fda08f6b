-- ===== src/Account/Ledger/Entries.antt =====
-- The entries of the ledger in src/account.c.
use hyperliquid_c.Prelude.{
  ◌≤◌, ◌<◌, ◌≡◌, refl, ◌∙◌, ◌⊎◌, inl, inr, true, false, Option, none, some, List, [], ◌∷◌, arith,
  ◌==◌, Bool-cases, Option-cases, Sum-cases, length, All,
}
use hyperliquid_c.Prelude.Text.{CString, str, str_eq→eq}
use hyperliquid_c.Types.{success, Doubles, CJson}
use mathlib.Core.Logic.{inl, inr}
use hyperliquid_c.Trades.{TradesApi}
use hyperliquid_c.Orders.Parse.{reply_items}
use hyperliquid_c.Account.Ledger.{
  with_delta, with_coin, with_amount, with_time, with_hash, LedgerEntry, zero_entry, entry_type,
  ledger_request, is_filtered, with_type, fill_entry, with_info, ledger_loop, hl_fetch_ledger,
}

module _ (d : Doubles) (j : CJson d) where
  -- The text for the sign of an amount; one that is no number has none.
  abbrev pub IsSign : d.Real → CString → Type 0
  IsSign amount type =
      ((d.less d.zero_real amount ≡ true) × (type ≡ str "deposit"))
      ⊎ (((d.less d.zero_real amount ≡ false)
            × (d.less amount d.zero_real ≡ true)
            × (type ≡ str "withdrawal"))
          ⊎ ((d.less d.zero_real amount ≡ false)
              × (d.less amount d.zero_real ≡ false)
              × (type ≡ str "transfer")))

  -- The currency is the one that is asked for, and the type says the sign of the amount.
  abbrev pub IsEntry : CString → LedgerEntry d → Type 0
  IsEntry currency e = (e.currency ≡ currency) × IsSign e.amount e.type

  entry_type-IsSign : (amount : d.Real) → IsSign amount (entry_type d amount)
  unfolding entry_type
  entry_type-IsSign amount = elim (Bool-cases (d.less d.zero_real amount)) [
    | inl p ↦ rw (entry_type, p) (inl (refl, refl))
    | inr p ↦ elim (Bool-cases (d.less amount d.zero_real)) [
      | inl q ↦ rw (entry_type, p, q) (inr (inl (refl, refl, refl)))
      | inr q ↦ rw (entry_type, p, q) (inr (inr (refl, refl, refl)))
    ]
  ]

  fill_entry-IsSign :
      (item : j.Node) (slot : LedgerEntry d)
      → IsSign (fill_entry d j item slot).amount (fill_entry d j item slot).type
  unfolding fill_entry with_type
  fill_entry-IsSign item slot = entry_type-IsSign (fill_entry d j item slot).amount

  with_info-IsEntry :
      (currency : CString) (item : j.Node) (e : LedgerEntry d)
      → IsEntry currency e
      → IsEntry currency (with_info d j item e)
  unfolding with_info
  with_info-IsEntry currency item e h = elim (Option-cases (j.print_unformatted item)) [
    | inl x ↦ simp (with_info, x) h
    | inr (text, x) ↦ simp (with_info, x) h
  ]

  -- The id and the reference stay as they were.
  abbrev Keeps : LedgerEntry d → LedgerEntry d → Type 0
  Keeps e slot = (e.id ≡ slot.id) × (e.reference_id ≡ slot.reference_id)

  Keeps-trans : (a b c : LedgerEntry d) → Keeps a b → Keeps b c → Keeps a c
  Keeps-trans a b c p q = (p.0 ∙ q.0, p.1 ∙ q.1)

  with_info-Keeps : (item : j.Node) (e : LedgerEntry d) → Keeps (with_info d j item e) e
  unfolding with_info
  with_info-Keeps item e = ground arith

  with_time-Keeps : (n : Option j.Node) (e : LedgerEntry d) → Keeps (with_time d j n e) e
  unfolding with_time
  with_time-Keeps none e = (refl, refl)
  with_time-Keeps (some n) e = ground arith

  with_coin-Keeps : (n : Option j.Node) (e : LedgerEntry d) → Keeps (with_coin d j n e) e
  unfolding with_coin
  with_coin-Keeps none e = (refl, refl)
  with_coin-Keeps (some n) e = ground arith

  with_amount-Keeps : (n : Option j.Node) (e : LedgerEntry d) → Keeps (with_amount d j n e) e
  unfolding with_amount
  with_amount-Keeps none e = (refl, refl)
  with_amount-Keeps (some n) e = ground arith

  with_delta-Keeps : (n : Option j.Node) (e : LedgerEntry d) → Keeps (with_delta d j n e) e
  unfolding with_delta
  with_delta-Keeps none e = (refl, refl)
  with_delta-Keeps (some n) e = elim (Bool-cases (j.is_object n)) [
    | inr x ↦ simp (with_delta, x) (refl, refl)
    | inl x ↦
        let sz = j.get_object_item n (str "sz") in
        let coined = with_coin d j (j.get_object_item n (str "coin")) e in
        simp (with_delta, x)
          (Keeps-trans (with_amount d j sz coined) coined e (with_amount-Keeps sz coined)
            (with_coin-Keeps (j.get_object_item n (str "coin")) e))
  ]

  fill_entry-Keeps :
      (item : j.Node) (e : LedgerEntry d)
      → j.get_object_item item (str "hash") ≡ none
      → Keeps (fill_entry d j item e) e
  unfolding fill_entry with_type with_hash
  fill_entry-Keeps item e h =
      let timed = with_time d j (j.get_object_item item (str "time")) e in
      let delta = j.get_object_item item (str "delta") in
      simp (fill_entry, h)
        (Keeps-trans (with_delta d j delta timed) timed e (with_delta-Keeps delta timed)
          (with_time-Keeps (j.get_object_item item (str "time")) e))

  is_filtered-eq :
      (wanted currency : CString)
      → 0 < length wanted
      → is_filtered (some wanted) currency ≡ false
      → currency ≡ wanted
  unfolding is_filtered
  is_filtered-eq wanted currency n h = str_eq→eq currency wanted (ground arith)

  ledger_loop-All :
      (wanted : CString) (slot : LedgerEntry d) (items : List j.Node)
      → 0 < length wanted
      → All (IsEntry wanted) (ledger_loop d j (some wanted) slot items)
        × (length (ledger_loop d j (some wanted) slot items) ≤ length items)
  unfolding ledger_loop
  ledger_loop-All wanted slot [] n = (tt, omega arith)
  ledger_loop-All wanted slot (item ∷ items) n =
      let e = fill_entry d j item slot in
      elim (Bool-cases (j.is_object item)) [
        | inr no_object ↦
            let (a, l) = ledger_loop-All wanted slot items n in
            simp (ledger_loop, no_object) (a, omega arith)
        | inl object ↦ elim (Bool-cases (is_filtered (some wanted) e.currency)) [
          | inl skipped ↦
              let (a, l) = ledger_loop-All wanted e items n in
              simp (ledger_loop, object, skipped) (a, omega arith)
          | inr kept ↦
              let (a, l) = ledger_loop-All wanted (zero_entry d) items n in
              simp (ledger_loop, object, kept)
                (
                  (
                    with_info-IsEntry wanted item e
                        (is_filtered-eq wanted e.currency n kept, fill_entry-IsSign item slot),
                    a,
                  ),
                  omega arith,
                )
        ]
      ]

  abbrev pub entries : Option (List (LedgerEntry d)) → List (LedgerEntry d)
  entries none = []
  entries (some es) = es

  -- A ledger that is fetched for a currency has entries of that currency only. An entry is a
  -- "deposit" exactly where its amount is above zero, a "withdrawal" exactly where it is below, and
  -- a "transfer" otherwise. There are none where the call fails, and never more than the answer has
  -- items.
  pub hl_fetch_ledger-All :
      (x : TradesApi) (wanted : CString) (since : Option CString)
      → 0 < length wanted
      → All (IsEntry wanted) (entries (hl_fetch_ledger d j x (some wanted) since).1)
        × ((entries (hl_fetch_ledger d j x (some wanted) since).1 ≡ [])
            ⊎ ((user : CString) × (items : List j.Node) × (x.wallet_address ≡ some user)
                × (reply_items d j (x.post (str "/info") (ledger_request user since)) ≡ inr items)
                × ((hl_fetch_ledger d j x (some wanted) since).0 ≡ success)
                × (length (entries (hl_fetch_ledger d j x (some wanted) since).1) ≤ length items)))
  unfolding hl_fetch_ledger
  hl_fetch_ledger-All x wanted since n = elim (Option-cases x.wallet_address) [
    | inl a ↦ simp (hl_fetch_ledger, a) (tt, inl refl)
    | inr (user, a) ↦
        elim (Sum-cases (reply_items d j (x.post (str "/info") (ledger_request user since)))) [
          | inl (e, b) ↦ simp (hl_fetch_ledger, a, b) (tt, inl refl)
          | inr (items, b) ↦ elim (Bool-cases (length items == 0)) [
            | inl c ↦ simp (hl_fetch_ledger, a, b, c) (tt, inl refl)
            | inr c ↦ elim (Bool-cases x.calloc) [
              | inr m ↦ simp (hl_fetch_ledger, a, b, c, m) (tt, inl refl)
              | inl m ↦
                  let (all, l) = ledger_loop-All wanted (zero_entry d) items n in
                  simp (hl_fetch_ledger, a, b, c, m) (all, inr (user, items, refl, b, refl, l))
            ]
          ]
        ]
  ]

  -- An entry that is skipped for its currency leaves its id in the slot: where the next item is kept
  -- and has no hash, its entry has the id and the reference of the one that was skipped.
  pub ledger_loop-stale :
      (wanted : CString) (a b : j.Node) (items : List j.Node)
      → j.is_object a ≡ true
      → j.is_object b ≡ true
      → is_filtered (some wanted) (fill_entry d j a (zero_entry d)).currency ≡ true
      → is_filtered (some wanted) (fill_entry d j b (fill_entry d j a (zero_entry d))).currency
        ≡ false
      → j.get_object_item b (str "hash") ≡ none
      → (e : LedgerEntry d) × (ledger_loop d j (some wanted) (zero_entry d) (a ∷ b ∷ items)
          ≡ e ∷ ledger_loop d j (some wanted) (zero_entry d) items)
        × (e.id ≡ (fill_entry d j a (zero_entry d)).id)
        × (e.reference_id ≡ (fill_entry d j a (zero_entry d)).reference_id)
  unfolding ledger_loop
  ledger_loop-stale wanted a b items oa ob skipped kept no_hash =
      let slot = fill_entry d j a (zero_entry d) in
      let (i, r) = fill_entry-Keeps b slot no_hash in
      let (k, l) = with_info-Keeps b (fill_entry d j b slot) in
      (
        with_info d j b (fill_entry d j b slot),
        simp (ledger_loop, oa, ob, skipped, kept) refl,
        k ∙ i,
        l ∙ r,
      )
