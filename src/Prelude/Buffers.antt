-- ===== src/Prelude/Buffers.antt =====
-- What a zeroed buffer holds after strncpy with one byte less than its size, and what splitting a C
-- string at a character gives.
use mathlib.Core.Path.{subst}
use mathlib.Core.List.{append_assoc}
use mathlib.Core.Logic.{inl, inr}
use hyperliquid_c.Prelude.Tests.{◌==◌, Bool-cases, Option-cases, ==_iff}
use hyperliquid_c.Prelude.Lists.{length, take, drop, replicate, All, All-append, length-take}
use Prim.Native.Nat.{ℕ, zero, suc, ◌+◌, ◌-◌, ◌≤◌, ◌<◌, min}
use mathlib.Core.Path.{◌≡◌, refl, sym, ap}
use mathlib.Core.Logic.{◌≢◌}
use mathlib.Core.Option.{none, some, some-injective}
use mathlib.Core.List.{List, [], ◌∷◌, ◌++◌}
use native.Mathlib.Omega.{arith}
use hyperliquid_c.Prelude.Text.{CString, split_at_char, strncpy, c_str}

-- A C string has no zero before its end.
abbrev pub IsText : CString → Type 0
IsText s = All (λ b. b ≢ 0) s

-- The bytes of `s` are all other than `c`.
abbrev pub IsWithout : ℕ → CString → Type 0
IsWithout c s = All (λ b. b ≢ c) s

module _ {ℓ} {A : Type ℓ} where
  pub All-take {κ} : (P : A → Type κ) (n : ℕ) (xs : List A) → All P xs → All P (take n xs)
  All-take P zero xs a = tt
  All-take P (suc n) [] a = tt
  All-take P (suc n) (x ∷ xs) a = (a.0, All-take P n xs a.1)

  All-replicate {κ} : (P : A → Type κ) (n : ℕ) (x : A) → P x → All P (replicate n x)
  All-replicate P zero x p = tt
  All-replicate P (suc n) x p = (p, All-replicate P n x p)

  All-prefix {κ} : (P : A → Type κ) (xs ys : List A) → All P (xs ++ ys) → All P xs
  All-prefix P [] ys a = tt
  All-prefix P (x ∷ xs) ys a = (a.0, All-prefix P xs ys a.1)

  All-drop {κ} : (P : A → Type κ) (n : ℕ) (xs : List A) → All P xs → All P (drop n xs)
  All-drop P zero xs a = a
  All-drop P (suc n) [] a = tt
  All-drop P (suc n) (x ∷ xs) a = All-drop P n xs a.1

take-append_replicate :
    (n k : ℕ) (s : CString)
    → n ≤ length s + k
    → length s ≤ n
    → take n (s ++ replicate k 0) ≡ s ++ take (n - length s) (replicate k 0)
take-append_replicate n k [] h l = let e : n - 0 ≡ n = omega arith in rw e refl
take-append_replicate zero k (b ∷ s) h l = absurd (omega arith)
take-append_replicate (suc n) k (b ∷ s) h l =
    let e : suc n - suc (length s) ≡ n - length s = omega arith in
    rw e (ap (λ t. b ∷ t) (take-append_replicate n k s (omega arith) (omega arith)))

c_str-text : (s zs : CString) → IsText s → All (λ z. z ≡ 0) zs → c_str (s ++ zs) ≡ s
unfolding c_str
c_str-text [] [] a z = refl
c_str-text [] (b ∷ zs) a z = rw z.0 refl
c_str-text (b ∷ s) zs a z = elim (Bool-cases (b == 0)) [
  | inl e ↦ absurd (a.0 ((==_iff b 0).0 e))
  | inr n ↦ rw (c_str, n) (ap (λ t. b ∷ t) (c_str-text s zs a.1 z))
]

-- A text that fits is copied whole.
pub buffer_lem :
    (size : ℕ) (s : CString)
    → IsText s
    → length s < size
    → c_str (strncpy (replicate size 0) s (size - 1)) ≡ s
unfolding strncpy
buffer_lem size s a h =
    let n = size - 1 in
    let zs : CString = take (n - length s) (replicate n 0) in
    let rest : CString = drop n (replicate size 0) in
    rw (take-append_replicate n n s (omega arith) (omega arith), append_assoc s zs rest)
      (c_str-text s (zs ++ rest) a (
        All-append (λ z. z ≡ 0) zs rest
          (All-take (λ z. z ≡ 0) (n - length s) (replicate n 0)
            (All-replicate (λ z. z ≡ 0) n 0 refl))
          (All-drop (λ z. z ≡ 0) n (replicate size 0) (All-replicate (λ z. z ≡ 0) size 0 refl))))

c_str-All {κ} : (P : ℕ → Type κ) (s : CString) → All P s → All P (c_str s)
unfolding c_str
c_str-All P [] a = tt
c_str-All P (b ∷ s) a = elim (Bool-cases (b == 0)) [
  | inl z ↦ rw (c_str, z) tt
  | inr n ↦ rw (c_str, n) (a.0, c_str-All P s a.1)
]

c_str-length_le : (a b : CString) → length (c_str (a ++ 0 ∷ b)) ≤ length a
unfolding c_str
c_str-length_le [] b = omega arith
c_str-length_le (x ∷ a) b = elim (Bool-cases (x == 0)) [
  | inl z ↦ rw (c_str, z) (omega arith)
  | inr n ↦ rw (c_str, n) (omega (arith, c_str-length_le a b))
]

drop-replicate : (n : ℕ) → drop {A = ℕ} n (replicate (suc n) 0) ≡ 0 ∷ []
drop-replicate zero = refl
drop-replicate (suc n) = drop-replicate n

-- What a buffer holds is shorter than the buffer.
pub buffer-length : (n : ℕ) (s : CString) → length (c_str (strncpy (replicate (suc n) 0) s n)) ≤ n
unfolding strncpy
buffer-length n s =
    let t = take n (s ++ replicate n 0) in
    let e : length t ≡ min n (length (s ++ replicate n 0)) = length-take n (s ++ replicate n 0) in
    rw (drop-replicate n) (omega (arith, c_str-length_le t []))

pub buffer-IsWithout :
    (c size n : ℕ) (s : CString)
    → c ≢ 0
    → IsWithout c s
    → IsWithout c (c_str (strncpy (replicate size 0) s n))
unfolding strncpy
buffer-IsWithout c size n s z a =
    let nz : 0 ≢ c = λ e. z (sym e) in
    c_str-All (λ b. b ≢ c) (take n (s ++ replicate n 0) ++ drop n (replicate size 0))
      (All-append (λ b. b ≢ c) (take n (s ++ replicate n 0)) (drop n (replicate size 0))
        (All-take (λ b. b ≢ c) n (s ++ replicate n 0)
          (All-append (λ b. b ≢ c) s (replicate n 0) a (All-replicate (λ b. b ≢ c) n 0 nz)))
        (All-drop (λ b. b ≢ c) n (replicate size 0) (All-replicate (λ b. b ≢ c) size 0 nz)))

pub split-none : (c : ℕ) (s : CString) → split_at_char c s ≡ none → IsWithout c s
unfolding split_at_char
split-none c [] h = tt
split-none c (b ∷ s) h = elim (Bool-cases (b == c)) [
  | inl e ↦ cc (rw (split_at_char, e) at h)
  | inr n ↦ elim (Option-cases (split_at_char c s)) [
    | inl x ↦ ((λ e. cc (rw ((==_iff b c).1 e) at n)), split-none c s x)
    | inr ((u, v), x) ↦ cc (rw (split_at_char, n, x) at h)
  ]
]

pub split-some :
    (c : ℕ) (s : CString) {a b : CString} → split_at_char c s ≡ some (a, b) → IsWithout c a
unfolding split_at_char
split-some c [] h = cc
split-some c (x ∷ s) {a} {b} h = elim (Bool-cases (x == c)) [
  | inl e ↦
      let q : ([], x ∷ s) ≡ (a, b) = some-injective _ _ (rw (split_at_char, e) at h) in
      subst (λ z. IsWithout c z.0) q tt
  | inr n ↦ elim (Option-cases (split_at_char c s)) [
    | inl y ↦ cc (rw (split_at_char, n, y) at h)
    | inr ((u, v), y) ↦
        let q : (x ∷ u, v) ≡ (a, b) = some-injective _ _ (rw (split_at_char, n, y) at h) in
        subst (λ z. IsWithout c z.0) q ((λ e. cc (rw ((==_iff x c).1 e) at n)), split-some c s y)
  ]
]
