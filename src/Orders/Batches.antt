-- ===== src/Orders/Batches.antt =====
-- The batch calls of src/orders.c. They call hl_place_order by a value where include/hyperliquid.h
-- declares a pointer, and hl_cancel_order without the symbol that it declares: here the first is
-- that of src/trading_api.c, and the second is the argument `cancel`.
use hyperliquid_c.Prelude.{
  ◌<◌, ◌≡◌, refl, sym, ap, ◌⊎◌, inl, inr, true, false, not, Option, none, some, List, [], ◌∷◌, ◌++◌,
  map, arith, ◌==◌, if◌then◌else◌, Bool-cases, length, All,
}
use hyperliquid_c.Types.{HlError, success, invalid_params, is_success, Doubles}
use mathlib.Core.Logic.{◌⊎◌, inl, inr}
use hyperliquid_c.Crypto.Keccak.{Sha3}
use hyperliquid_c.Crypto.Ecdsa.{Secp256k1}
use hyperliquid_c.Crypto.Eip712.{Locals}
use hyperliquid_c.Msgpack.{Packer}
use hyperliquid_c.Trading.{Handles, OrderRequest, OrderResult, CancelResult, System, hl_place_order}

-- The loop: each call in turn, the results, and the last error in `final_result`.
unfoldable pub batch_loop :
    {Call Result : Type 0} → (Call → HlError × Result) → HlError → List Call → HlError × List Result
batch_loop perform final_result [] = (final_result, [])
batch_loop perform final_result (c ∷ cs) =
    let (err, result) = perform c in
    let (final, results) =
      batch_loop perform (if not (is_success err) then err else final_result) cs in
    (final, result ∷ results)

unfoldable pub batch :
    {Call Result : Type 0} → (Call → HlError × Result) → List Call → HlError × List Result
batch perform calls =
    if length calls == 0 then (invalid_params, []) else batch_loop perform success calls

-- A call is the order's id with what the rest of the system answers.
unfoldable pub hl_cancel_orders :
    {Call : Type 0} → (Call → HlError × CancelResult) → List Call → HlError × List CancelResult
hl_cancel_orders cancel orders = batch cancel orders

module _ (d : Doubles) (pk : Packer) (sha : Sha3) (loc : Locals) (secp : Secp256k1) where
  unfoldable pub hl_create_orders :
      Handles → List (System d × OrderRequest d) → HlError × List OrderResult
  hl_create_orders h orders = batch (λ c. hl_place_order d pk sha loc secp c.0 h c.1) orders

  -- The result of placing is there only where the order was cancelled before.
  unfoldable pub hl_edit_order :
      {Call : Type 0}
      → (Call → HlError × CancelResult)
      → Call
      → System d
      → Handles
      → OrderRequest d
      → HlError × Option OrderResult
  hl_edit_order cancel order_id sys h request =
      let cancel_err = (cancel order_id).0 in
      if not (is_success cancel_err)
      then (cancel_err, none)
      else (let (err, result) = hl_place_order d pk sha loc secp sys h request in
          (err, some result))

module _ {Call Result : Type 0} (perform : Call → HlError × Result) where
  -- The result code is that of the last call that failed, or success where none did.
  abbrev pub IsLastError : HlError → List Call → Type 0
  IsLastError code calls =
      ((code ≡ success) × All (λ c. is_success (perform c).0 ≡ true) calls)
      ⊎ ((before : List Call) × (c : Call) × (after : List Call) × (calls ≡ before ++ c ∷ after)
          × ((perform c).0 ≡ code)
          × (is_success code ≡ false)
          × All (λ k. is_success (perform k).0 ≡ true) after)

  -- The same, where the loop starts with the result `start`.
  IsLastFrom : HlError → HlError → List Call → Type 0
  IsLastFrom start code calls =
      ((code ≡ start) × All (λ c. is_success (perform c).0 ≡ true) calls)
      ⊎ ((before : List Call) × (c : Call) × (after : List Call) × (calls ≡ before ++ c ∷ after)
          × ((perform c).0 ≡ code)
          × (is_success code ≡ false)
          × All (λ k. is_success (perform k).0 ≡ true) after)

  batch_loop-results :
      (start : HlError) (calls : List Call)
      → (batch_loop perform start calls).1 ≡ map (λ c. (perform c).1) calls
  unfolding batch_loop
  batch_loop-results start [] = refl
  batch_loop-results start (c ∷ cs) =
      ap (λ l. (perform c).1 ∷ l)
        (batch_loop-results (if not (is_success (perform c).0) then (perform c).0 else start) cs)

  batch_loop-IsLastFrom :
      (start : HlError) (calls : List Call)
      → IsLastFrom start (batch_loop perform start calls).0 calls
  unfolding batch_loop IsLastFrom
  batch_loop-IsLastFrom start [] = inl (refl, tt)
  batch_loop-IsLastFrom start (c ∷ cs) = elim (Bool-cases (is_success (perform c).0)) [
    | inl fine ↦ elim (batch_loop-IsLastFrom start cs) [
      | inl (e, all) ↦ rw (batch_loop, fine) (inl (e, (refl, all)))
      | inr (before, k, after, e, f, g, all) ↦
          rw (batch_loop, fine) (inr (c ∷ before, k, after, ap (λ l. c ∷ l) e, f, g, all))
    ]
    | inr failed ↦ elim (batch_loop-IsLastFrom (perform c).0 cs) [
      | inl (e, all) ↦ rw (batch_loop, failed) (inr ([], c, cs, refl, sym e, rw e failed, all))
      | inr (before, k, after, e, f, g, all) ↦
          rw (batch_loop, failed) (inr (c ∷ before, k, after, ap (λ l. c ∷ l) e, f, g, all))
    ]
  ]

  pub batch_lem :
      (calls : List Call)
      → 0 < length calls
      → ((batch perform calls).1 ≡ map (λ c. (perform c).1) calls)
        × IsLastError (batch perform calls).0 calls
  unfolding batch IsLastFrom
  batch_lem [] h = absurd (omega arith)
  batch_lem (c ∷ cs) h =
      let some_there : (length (c ∷ cs) == 0) ≡ false = ground arith in
      rw (batch, some_there)
        (batch_loop-results success (c ∷ cs), batch_loop-IsLastFrom success (c ∷ cs))

module _ (d : Doubles) (pk : Packer) (sha : Sha3) (loc : Locals) (secp : Secp256k1) where
  abbrev pub place : Handles → System d × OrderRequest d → HlError × OrderResult
  place h c = hl_place_order d pk sha loc secp c.0 h c.1

  -- A batch of at least one call makes every call, and its results are theirs in order. For new
  -- orders and for cancellations alike, the batch returns success exactly where no call failed, and
  -- else the error of the last call that failed.
  pub hl_create_orders_lem :
      {Call : Type 0} (cancel : Call → HlError × CancelResult) (h : Handles)
      (orders : List (System d × OrderRequest d)) (cancels : List Call)
      → 0 < length orders
      → 0 < length cancels
      → ((hl_create_orders d pk sha loc secp h orders).1 ≡ map (λ c. (place h c).1) orders)
        × IsLastError (place h) (hl_create_orders d pk sha loc secp h orders).0 orders
        × ((hl_cancel_orders cancel cancels).1 ≡ map (λ c. (cancel c).1) cancels)
        × IsLastError cancel (hl_cancel_orders cancel cancels).0 cancels
  unfolding hl_create_orders hl_cancel_orders
  hl_create_orders_lem cancel h orders cancels p q =
      let (r, e) = batch_lem (place h) orders p in
      let (s, f) = batch_lem cancel cancels q in (r, e, s, f)
