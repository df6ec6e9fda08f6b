-- ===== src/Msgpack/Prefix.antt =====
-- Packed values are read off the front of the bytes in one way only.
use hyperliquid_c.Prelude.{
  ℕ, ◌^◌, ◌<◌, ◌≡◌, refl, sym, ap, ap₂, ◌∙◌, ◌≢◌, Bool, true, false, List, [], ◌∷◌, ◌++◌, arith,
  length, append_cancel, All,
}
use hyperliquid_c.Prelude.Text.{CString}
use hyperliquid_c.Msgpack.{
  Limit, Order, OrderAction, Cancel, CancelAction, Packer, put_str, put_bool, pack_limit,
  pack_order, pack_orders, pack_order_action, pack_cancels, pack_cancel_action,
}

-- What the MessagePack format documents of the encoder: headers and numbers delimit themselves, the
-- body of a string is its bytes, and the two Booleans differ at the front.
pub record IsMsgpack (pk : Packer) : Type 0 where
  pub str_code :
      (n m : ℕ) (s t : List ℕ)
      → n < 2 ^ 32
      → m < 2 ^ 32
      → pk.pack_str n ++ s ≡ pk.pack_str m ++ t
      → (n ≡ m) × (s ≡ t)
  pub map_code :
      (n m : ℕ) (s t : List ℕ)
      → n < 2 ^ 32
      → m < 2 ^ 32
      → pk.pack_map n ++ s ≡ pk.pack_map m ++ t
      → (n ≡ m) × (s ≡ t)
  pub array_code :
      (n m : ℕ) (s t : List ℕ)
      → n < 2 ^ 32
      → m < 2 ^ 32
      → pk.pack_array n ++ s ≡ pk.pack_array m ++ t
      → (n ≡ m) × (s ≡ t)
  pub uint32_code :
      (n m : ℕ) (s t : List ℕ)
      → n < 2 ^ 32
      → m < 2 ^ 32
      → pk.pack_uint32 n ++ s ≡ pk.pack_uint32 m ++ t
      → (n ≡ m) × (s ≡ t)
  pub uint64_code :
      (n m : ℕ) (s t : List ℕ)
      → n < 2 ^ 64
      → m < 2 ^ 64
      → pk.pack_uint64 n ++ s ≡ pk.pack_uint64 m ++ t
      → (n ≡ m) × (s ≡ t)
  pub body : (text : CString) → pk.pack_str_body text (length text) ≡ text
  pub true_ne_false : (s t : List ℕ) → pk.pack_true ++ s ≢ pk.pack_false ++ t

-- The sizes that the C types and the format allow.
abbrev pub Fits : CString → Type 0
Fits text = length text < 2 ^ 32

pub record OrderFits (o : Order) : Type 0 where
  pub asset : o.a < 2 ^ 32
  pub price : Fits o.p
  pub size : Fits o.s
  pub tif : Fits o.limit.tif

pub record OrderActionFits (action : OrderAction) : Type 0 where
  pub count : length action.orders < 2 ^ 32
  pub each : All OrderFits action.orders
  pub grouping : Fits action.grouping

pub record CancelFits (c : Cancel) : Type 0 where
  pub asset : c.a < 2 ^ 32
  pub id : c.o < 2 ^ 64

pub record CancelActionFits (action : CancelAction) : Type 0 where
  pub count : length action.cancels < 2 ^ 32
  pub each : All CancelFits action.cancels

module _ (pk : Packer) (laws : IsMsgpack pk) where
  pub put_str_code :
      (a b : CString) (s t : List ℕ)
      → Fits a
      → Fits b
      → put_str pk a s ≡ put_str pk b t
      → (a ≡ b) × (s ≡ t)
  unfolding put_str
  put_str_code a b s t ha hb e =
      let (len, e) = laws.str_code (length a) (length b) _ _ ha hb e in
      append_cancel a b s t len
        (ap (λ z. z ++ s) (sym (laws.body a)) ∙ (e ∙ ap (λ z. z ++ t) (laws.body b)))

  -- The same text on both sides is taken off.
  pub put_str_same : (a : CString) (s t : List ℕ) → put_str pk a s ≡ put_str pk a t → s ≡ t
  unfolding put_str
  put_str_same a s t e =
      (append_cancel (pk.pack_str_body a (length a)) (pk.pack_str_body a (length a)) s t refl
        (append_cancel (pk.pack_str (length a)) (pk.pack_str (length a)) _ _ refl e).1).1

  pub map_same : (n : ℕ) (s t : List ℕ) → pk.pack_map n ++ s ≡ pk.pack_map n ++ t → s ≡ t
  map_same n s t e = (append_cancel (pk.pack_map n) (pk.pack_map n) s t refl e).1

  pub put_bool_code :
      (a b : Bool) (s t : List ℕ) → put_bool pk a s ≡ put_bool pk b t → (a ≡ b) × (s ≡ t)
  unfolding put_bool
  put_bool_code true true s t e = (refl, (append_cancel pk.pack_true pk.pack_true s t refl e).1)
  put_bool_code false false s t e = (refl, (append_cancel pk.pack_false pk.pack_false s t refl e).1)
  put_bool_code true false s t e = absurd (laws.true_ne_false s t e)
  put_bool_code false true s t e = absurd (laws.true_ne_false t s (sym e))

  pack_limit_code :
      (x y : Limit) (s t : List ℕ)
      → Fits x.tif
      → Fits y.tif
      → pack_limit pk x s ≡ pack_limit pk y t
      → (x ≡ y) × (s ≡ t)
  unfolding pack_limit
  pack_limit_code x y s t hx hy e =
      let e = put_str_same _ _ _ (map_same _ _ _ e) in
      let e = put_str_same _ _ _ (map_same _ _ _ e) in
      let (tif, rest) = put_str_code x.tif y.tif s t hx hy e in
      (ap (λ v. record { tif = v }) tif, rest)

  pub pack_order_code :
      (x y : Order) (s t : List ℕ)
      → OrderFits x
      → OrderFits y
      → pack_order pk x s ≡ pack_order pk y t
      → (x ≡ y) × (s ≡ t)
  unfolding pack_order
  pack_order_code x y s t hx hy e =
      let e = put_str_same _ _ _ (map_same _ _ _ e) in
      let (ea, e) = laws.uint32_code x.a y.a _ _ hx.asset hy.asset e in
      let (eb, e) = put_bool_code x.b y.b _ _ (put_str_same _ _ _ e) in
      let (ep, e) = put_str_code x.p y.p _ _ hx.price hy.price (put_str_same _ _ _ e) in
      let (es, e) = put_str_code x.s y.s _ _ hx.size hy.size (put_str_same _ _ _ e) in
      let (er, e) = put_bool_code x.r y.r _ _ (put_str_same _ _ _ e) in
      let (el, e) = pack_limit_code x.limit y.limit s t hx.tif hy.tif (put_str_same _ _ _ e) in
      (λ i. record { a = ea i; b = eb i; p = ep i; s = es i; r = er i; limit = el i }, e)

  pack_orders_code :
      (xs ys : List Order) (s t : List ℕ)
      → All OrderFits xs
      → All OrderFits ys
      → length xs ≡ length ys
      → pack_orders pk xs s ≡ pack_orders pk ys t
      → (xs ≡ ys) × (s ≡ t)
  unfolding pack_orders
  pack_orders_code [] [] s t hx hy len e = (refl, e)
  pack_orders_code [] (y ∷ ys) s t hx hy len e = absurd (omega arith)
  pack_orders_code (x ∷ xs) [] s t hx hy len e = absurd (omega arith)
  pack_orders_code (x ∷ xs) (y ∷ ys) s t hx hy len e =
      let (front, e) = pack_order_code x y _ _ hx.0 hy.0 e in
      let (back, e) = pack_orders_code xs ys s t hx.1 hy.1 (omega arith) e in
      (ap₂ ◌∷◌ front back, e)

  pub pack_order_action_code :
      (x y : OrderAction) (s t : List ℕ)
      → OrderActionFits x
      → OrderActionFits y
      → pack_order_action pk x s ≡ pack_order_action pk y t
      → (x ≡ y) × (s ≡ t)
  unfolding pack_order_action
  pack_order_action_code x y s t hx hy e =
      let e = put_str_same _ _ _ (put_str_same _ _ _ (put_str_same _ _ _ (map_same _ _ _ e))) in
      let (len, e) = laws.array_code (length x.orders) (length y.orders) _ _ hx.count hy.count e in
      let (eo, e) = pack_orders_code x.orders y.orders _ _ hx.each hy.each len e in
      let (eg, e) =
        put_str_code x.grouping y.grouping s t hx.grouping hy.grouping (put_str_same _ _ _ e) in
      (λ i. record { orders = eo i; grouping = eg i }, e)

  pack_cancels_code :
      (xs ys : List Cancel) (s t : List ℕ)
      → All CancelFits xs
      → All CancelFits ys
      → length xs ≡ length ys
      → pack_cancels pk xs s ≡ pack_cancels pk ys t
      → (xs ≡ ys) × (s ≡ t)
  unfolding pack_cancels
  pack_cancels_code [] [] s t hx hy len e = (refl, e)
  pack_cancels_code [] (y ∷ ys) s t hx hy len e = absurd (omega arith)
  pack_cancels_code (x ∷ xs) [] s t hx hy len e = absurd (omega arith)
  pack_cancels_code (x ∷ xs) (y ∷ ys) s t hx hy len e =
      let (ea, e) =
        laws.uint32_code x.a y.a _ _ hx.0.asset hy.0.asset
          (put_str_same _ _ _ (map_same _ _ _ e)) in
      let (eo, e) = laws.uint64_code x.o y.o _ _ hx.0.id hy.0.id (put_str_same _ _ _ e) in
      let (back, e) = pack_cancels_code xs ys s t hx.1 hy.1 (omega arith) e in
      (λ i. record { a = ea i; o = eo i } ∷ back i, e)

  pub pack_cancel_action_code :
      (x y : CancelAction) (s t : List ℕ)
      → CancelActionFits x
      → CancelActionFits y
      → pack_cancel_action pk x s ≡ pack_cancel_action pk y t
      → (x ≡ y) × (s ≡ t)
  unfolding pack_cancel_action
  pack_cancel_action_code x y s t hx hy e =
      let e = put_str_same _ _ _ (put_str_same _ _ _ (put_str_same _ _ _ (map_same _ _ _ e))) in
      let (len, e) =
        laws.array_code (length x.cancels) (length y.cancels) _ _ hx.count hy.count e in
      let (ec, e) = pack_cancels_code x.cancels y.cancels s t hx.each hy.each len e in
      (λ i. record { cancels = ec i }, e)

  -- An order action has three keys and a cancel action two.
  pub order_ne_cancel :
      (x : OrderAction) (y : CancelAction) (s t : List ℕ)
      → pack_order_action pk x s ≢ pack_cancel_action pk y t
  unfolding pack_order_action pack_cancel_action
  order_ne_cancel x y s t e =
      absurd (omega (arith, (laws.map_code 3 2 _ _ (omega arith) (omega arith) e).0))
