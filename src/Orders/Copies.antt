-- ===== src/Orders/Copies.antt =====
-- The array loops of src/orders.c: they write within their arrays, and build the lists that are meant.
use hyperliquid_c.Prelude.{
  ℕ, zero, suc, ◌+◌, ◌≤◌, ◌<◌, ◌≡◌, refl, sym, ap, ◌∙◌, inl, inr, Bool, some, List, [], ◌∷◌, ◌++◌,
  arith, if◌then◌else◌, lt→ltb, Bool-cases, length, set, take, drop, length-set, get_elem?-drop,
  take-append-drop,
}
use mathlib.Core.List.{append_assoc}
use hyperliquid_c.Types.{Doubles}
use hyperliquid_c.Orders.{HlOrder, count_kept, copy_kept, copy_orders}

module _ {ℓ} {A : Type ℓ} where
  -- The elements that pass a test, in order.
  abbrev pub keep : (A → Bool) → List A → List A
  keep p [] = []
  keep p (x ∷ xs) = if p x then x ∷ keep p xs else keep p xs

  pub set-take :
      (xs : List A) (i : ℕ) (v : A)
      → i < length xs
      → take (suc i) (set xs i v) ≡ take i xs ++ v ∷ []
  set-take [] i v h = absurd (omega arith)
  set-take (x ∷ xs) zero v h = refl
  set-take (x ∷ xs) (suc i) v h = ap (λ l. x ∷ l) (set-take xs i v (omega arith))

  pub set-drop : (xs : List A) (i k : ℕ) (v : A) → i < k → drop k (set xs i v) ≡ drop k xs
  set-drop xs i zero v h = absurd (omega arith)
  set-drop [] i (suc k) v h = refl
  set-drop (x ∷ xs) zero (suc k) v h = refl
  set-drop (x ∷ xs) (suc i) (suc k) v h = set-drop xs i k v (omega arith)

  pub drop_all : (n : ℕ) (xs : List A) → length xs ≤ n → drop n xs ≡ []
  drop_all zero [] h = refl
  drop_all (suc n) [] h = refl
  drop_all zero (x ∷ xs) h = absurd (omega arith)
  drop_all (suc n) (x ∷ xs) h = drop_all n xs (omega arith)

  -- One write, between what stands before and what is put behind it.
  pub write_step :
      (xs : List A) (i k : ℕ) (v : A) (ys : List A)
      → i < length xs
      → i < k
      → take (suc i) (set xs i v) ++ (ys ++ drop k (set xs i v))
        ≡ take i xs ++ ((v ∷ ys) ++ drop k xs)
  write_step xs i k v ys h l =
      rw (set-take xs i v h, set-drop xs i k v l)
        (append_assoc (take i xs) (v ∷ []) (ys ++ drop k xs))

module _ (d : Doubles) where
  pub count_kept-eq-length :
      (p : HlOrder d → Bool) (os : List (HlOrder d)) → count_kept d p os ≡ length (keep p os)
  unfolding count_kept
  count_kept-eq-length p [] = refl
  count_kept-eq-length p (o ∷ os) =
      let r = count_kept-eq-length p os in
      elim (Bool-cases (p o)) [ inl y ↦ rw y (omega (arith, r)) | inr n ↦ rw n r ]

  pub copy_kept_lem :
      (p : HlOrder d → Bool) (os : List (HlOrder d)) (i : ℕ) (result : List (HlOrder d))
      → i + length (keep p os) ≤ length result
      → copy_kept d p os i result
        ≡ some (take i result ++ (keep p os ++ drop (i + length (keep p os)) result))
  unfolding copy_kept
  copy_kept_lem p [] i result h =
      let e : i + 0 ≡ i = omega arith in rw e (ap some (sym (take-append-drop i result)))
  copy_kept_lem p (o ∷ os) i result h = elim (Bool-cases (p o)) [
    | inr skipped ↦ simp skipped (copy_kept_lem p os i result (rw skipped at h))
    | inl kept ↦
        let fits : i + suc (length (keep p os)) ≤ length result = rw kept at h in
        let e : i + suc (length (keep p os)) ≡ suc i + length (keep p os) = omega arith in
        let room : length (set result i o) ≡ length result = length-set result i o in
        let rest = copy_kept_lem p os (suc i) (set result i o) (omega arith) in
        let step =
          write_step result i (suc i + length (keep p os)) o (keep p os) (omega arith)
            (omega arith) in
        simp (kept, lt→ltb i (length result) (omega arith), e) (rest ∙ ap some step)
  ]

  pub copy_orders_lem :
      (source : List (HlOrder d)) (n i offset : ℕ) (target : List (HlOrder d))
      → i + n ≤ length source
      → offset + i + n ≤ length target
      → copy_orders d source n i offset target
        ≡ some
            (take (offset + i) target ++ (take n (drop i source) ++ drop (offset + i + n) target))
  unfolding copy_orders
  copy_orders_lem source zero i offset target h k =
      let e : offset + i + 0 ≡ offset + i = omega arith in
      rw e (ap some (sym (take-append-drop (offset + i) target)))
  copy_orders_lem source (suc n) i offset target h k =
      let (o, p, q) = get_elem?-drop source i (omega arith) in
      let e : offset + suc i ≡ suc (offset + i) = omega arith in
      let f : offset + i + suc n ≡ suc (offset + i) + n = omega arith in
      let room : length (set target (offset + i) o) ≡ length target =
        length-set target (offset + i) o in
      let rest =
        copy_orders_lem source n (suc i) offset (set target (offset + i) o) (omega arith)
          (omega arith) in
      let step =
        write_step target (offset + i) (suc (offset + i) + n) o (take n (drop (suc i) source))
          (omega arith) (omega arith) in
      rw (copy_orders, p, lt→ltb (offset + i) (length target) (omega arith), q, f)
        (rw e at rest ∙ ap some step)
