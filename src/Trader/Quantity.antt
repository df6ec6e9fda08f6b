-- ===== src/Trader/Quantity.antt =====
-- The text of a quantity in src/trading.c: its loop ends, and cuts the zeros at the end and a point
-- that is left there, and nothing else.
use hyperliquid_c.Prelude.{
  ℕ, zero, suc, ◌+◌, ◌-◌, ◌<◌, ◌≡◌, refl, sym, ap, ap₂, ◌∙◌, ◌≢◌, ◌⊎◌, inl, inr, false, some, List,
  [], ◌∷◌, ◌++◌, arith, ◌==◌, if◌then◌else◌, ==_iff, Bool-cases, length, get_elem?, take, replicate,
  length-append, length-replicate, All-middle,
}
use hyperliquid_c.Prelude.Text.{CString}
use mathlib.Core.Path.{subst}
use mathlib.Core.List.{append_assoc}
use mathlib.Core.Logic.{◌⊎◌, inl, inr}
use hyperliquid_c.Prelude.Buffers.{IsWithout}
use hyperliquid_c.Trader.{strip_zeros, strip_dot, trim_quantity}

module _ {ℓ} {A : Type ℓ} where
  get_elem?-end : (q : List A) (x : A) → get_elem? (q ++ x ∷ []) (length q) ≡ some x
  get_elem?-end [] x = refl
  get_elem?-end (y ∷ q) x = get_elem?-end q x

  take-end : (q : List A) (x : A) → take (length q) (q ++ x ∷ []) ≡ q
  take-end [] x = refl
  take-end (y ∷ q) x = ap (λ l. y ∷ l) (take-end q x)

  replicate-end : (k : ℕ) (x : A) → replicate (suc k) x ≡ replicate k x ++ x ∷ []
  replicate-end zero x = refl
  replicate-end (suc k) x = ap (λ l. x ∷ l) (replicate-end k x)

-- It is empty or does not end in a zero.
abbrev pub EndsOther : CString → Type 0
EndsOther s = (s ≡ []) ⊎ ((before : CString) × (c : ℕ) × (s ≡ before ++ c ∷ []) × (c ≢ 48))

split_zeros :
    (s : CString) → (kept : CString) × (k : ℕ) × (s ≡ kept ++ replicate k 48) × EndsOther kept
split_zeros [] = ([], 0, refl, inl refl)
split_zeros (b ∷ s) =
    let (kept, k, e, other) = split_zeros s in
    elim other [
      | inr (before, c, f, n) ↦
          (b ∷ kept, k, ap (λ l. b ∷ l) e, inr (b ∷ before, c, ap (λ l. b ∷ l) f, n))
      | inl empty ↦
          let all : s ≡ replicate k 48 = rw empty at e in
          elim (Bool-cases (b == 48)) [
            | inl zero_byte ↦ ([], suc k, ap₂ ◌∷◌ ((==_iff b 48).0 zero_byte) all, inl refl)
            | inr n ↦ (
              b ∷ [],
              k,
              ap (λ l. b ∷ l) all,
              inr ([], b, refl, λ e. cc (rw ((==_iff b 48).1 e) at n)),
            )
          ]
    ]

strip_zeros_base :
    (p : CString) (c : ℕ) → c ≢ 48 → strip_zeros (length p) (p ++ c ∷ []) ≡ (length p, p ++ c ∷ [])
unfolding strip_zeros
strip_zeros_base [] c h = refl
strip_zeros_base (x ∷ p) c h =
    let e = get_elem?-end p c in
    let n : (c == 48) ≡ false = ground arith in rw (strip_zeros, e, n) refl

strip_zeros_lem :
    (k : ℕ) (p : CString) (c : ℕ)
    → c ≢ 48
    → strip_zeros (length p + k) (p ++ c ∷ replicate k 48) ≡ (length p, p ++ c ∷ [])
unfolding strip_zeros
strip_zeros_lem zero p c h =
    let e : length p + 0 ≡ length p = omega arith in rw e (strip_zeros_base p c h)
strip_zeros_lem (suc k) p c h =
    let q : CString = p ++ c ∷ replicate k 48 in
    let size : length q ≡ length p + suc (length (replicate {A = ℕ} k 48)) =
      length-append p (c ∷ replicate k 48) in
    let many : length (replicate {A = ℕ} k 48) ≡ k = length-replicate k 48 in
    let e : length p + suc k ≡ suc (length p + k) = omega arith in
    let l : suc (length p + k) ≡ length q = omega arith in
    let s : p ++ c ∷ replicate (suc k) 48 ≡ q ++ 48 ∷ [] =
      ap (λ t. p ++ c ∷ t) (replicate-end k 48)
      ∙ sym (append_assoc p (c ∷ replicate k 48) (48 ∷ [])) in
    let at_end : get_elem? (q ++ 48 ∷ []) (suc (length p + k)) ≡ some 48 =
      rw l (get_elem?-end q 48) in
    let before : take (suc (length p + k)) (q ++ 48 ∷ []) ≡ q = rw l (take-end q 48) in
    rw (e, s) (rw (strip_zeros, at_end, before) (strip_zeros_lem k p c h))

trim_lem :
    (k : ℕ) (p : CString) (c : ℕ)
    → c ≢ 48
    → trim_quantity (p ++ c ∷ replicate k 48) ≡ (if c == 46 then p else p ++ c ∷ [])
unfolding trim_quantity strip_dot
trim_lem k p c h =
    let many : length (replicate {A = ℕ} k 48) ≡ k = length-replicate k 48 in
    let size : length (p ++ c ∷ replicate k 48) ≡ length p + suc (length (replicate {A = ℕ} k 48)) =
      length-append p (c ∷ replicate k 48) in
    let e : length (p ++ c ∷ replicate k 48) - 1 ≡ length p + k = omega arith in
    rw (trim_quantity, e, strip_zeros_lem k p c h)
      (rw (strip_dot, get_elem?-end p c, take-end p c) refl)

-- A text with one point, behind at least one character, loses the zeros at its end, and the point if
-- only zeros stand behind it.
pub trim_quantity_lem :
    (whole fraction : CString)
    → 0 < length whole
    → IsWithout 46 fraction
    → (kept : CString) × (k : ℕ) × (fraction ≡ kept ++ replicate k 48)
      × EndsOther kept
      × (trim_quantity (whole ++ 46 ∷ fraction)
          ≡ (if length kept == 0 then whole else whole ++ 46 ∷ kept))
trim_quantity_lem whole fraction h w =
    let (kept, k, e, other) = split_zeros fraction in
    elim other [
      | inl empty ↦
          let all : fraction ≡ replicate k 48 = rw empty at e in
          ([], k, all, inl refl, rw all (trim_lem k whole 46 (omega arith)))
      | inr (before, c, f, n) ↦
          let zeros = replicate {A = ℕ} k 48 in
          let all : fraction ≡ before ++ c ∷ zeros =
            rw f at e ∙ append_assoc before (c ∷ []) zeros in
          let no_point : c ≢ 46 =
            All-middle (λ b. b ≢ 46) before zeros c (subst (IsWithout 46) all w) in
          let other_byte : (c == 46) ≡ false = ground arith in
          let some_kept : (length kept == 0) ≡ false =
            rw f (let l = length-append before (c ∷ []) in ground (arith, l)) in
          let text : whole ++ 46 ∷ fraction ≡ (whole ++ 46 ∷ before) ++ c ∷ zeros =
            ap (λ t. whole ++ 46 ∷ t) all ∙ sym (append_assoc whole (46 ∷ before) (c ∷ zeros)) in
          (
            kept,
            k,
            e,
            inr (before, c, f, n),
            ap trim_quantity text
                ∙ trim_lem k (whole ++ 46 ∷ before) c n
                ∙ rw (other_byte, some_kept, f) (append_assoc whole (46 ∷ before) (c ∷ [])),
          )
    ]
