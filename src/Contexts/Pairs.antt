-- ===== src/Contexts/Pairs.antt =====
-- What the loops over the universe and the contexts make is made from pairs of one index.
use hyperliquid_c.Prelude.{
  ℕ, zero, suc, ◌≤◌, ◌≡◌, refl, sym, ap, ◌∙◌, inl, inr, false, not, ◌||◌, Option, none, some, List,
  [], ◌∷◌, arith, ◌==◌, ==_iff, Bool-cases, Option-cases, Sum-cases, ◌>>=◌, guard, some-injective,
  >>=-eq-some, guard-eq-some, length, get_elem?, All-map, All,
}
use hyperliquid_c.Prelude.Text.{CString, str}
use hyperliquid_c.Types.{HlError, is_success, is_lv3_success, Doubles, CJson, Lv3Error}
use hyperliquid_c.Contexts.{HlError, reply_contexts, context_parts, context_loop}
use mathlib.Core.Logic.{inl, inr}
use hyperliquid_c.Orders.Parse.{reply_json}
use mathlib.Core.Sum.{inl-injective, inr-injective}

module _ (d : Doubles) (j : CJson d) {R : Type 0} where
  -- It is made from the item and the context of one index.
  abbrev pub IsPaired : (j.Node → j.Node → Option R) → List j.Node → List j.Node → R → Type 0
  IsPaired make universe contexts r =
      (i : ℕ) × (u : j.Node) × (c : j.Node) × (get_elem? universe i ≡ some u)
      × (get_elem? contexts i ≡ some c)
      × (make u c ≡ some r)

  pub context_loop-All :
      (make : j.Node → j.Node → Option R) (universe contexts : List j.Node)
      → All (IsPaired make universe contexts) (context_loop d j make universe contexts)
        × (length (context_loop d j make universe contexts) ≤ length universe)
  unfolding context_loop
  context_loop-All make [] contexts = (tt, omega arith)
  context_loop-All make (u ∷ universe) [] = (tt, omega arith)
  context_loop-All make (u ∷ universe) (c ∷ contexts) =
      let (all, l) = context_loop-All make universe contexts in
      let later =
        All-map (IsPaired make universe contexts) (IsPaired make (u ∷ universe) (c ∷ contexts))
          (context_loop d j make universe contexts) (λ r (i, v, w, p, q, m). (suc i, v, w, p, q, m))
          all in
      elim (Option-cases (make u c)) [
        | inl e ↦ simp (context_loop, e) (later, omega arith)
        | inr (r, e) ↦ simp (context_loop, e) (((0, u, c, refl, refl, e), later), omega arith)
      ]

  none_at :
      (make : j.Node → j.Node → Option R) (universe contexts : List j.Node) (i : ℕ)
      (u c v w : j.Node)
      → make v w ≡ none
      → ((k : ℕ) → get_elem? universe k ≡ some u → get_elem? contexts k ≡ some c → make u c ≡ none)
      → get_elem? (v ∷ universe) i ≡ some u
      → get_elem? (w ∷ contexts) i ≡ some c
      → make u c ≡ none
  none_at make universe contexts zero u c v w e later p q =
      rw (some-injective _ _ p, some-injective _ _ q) at e
  none_at make universe contexts (suc i) u c v w e later p q = later i p q

  -- Where it makes nothing, every pair is skipped.
  pub context_loop-none :
      (make : j.Node → j.Node → Option R) (universe contexts : List j.Node) (i : ℕ) (u c : j.Node)
      → context_loop d j make universe contexts ≡ []
      → get_elem? universe i ≡ some u
      → get_elem? contexts i ≡ some c
      → make u c ≡ none
  unfolding context_loop
  context_loop-none make [] contexts i u c h p q = cc p
  context_loop-none make (v ∷ universe) [] i u c h p q = cc q
  context_loop-none make (v ∷ universe) (w ∷ contexts) i u c h p q =
      elim (Option-cases (make v w)) [
        | inr (r, e) ↦ cc (rw (context_loop, e) at h)
        | inl e ↦
            let rest : context_loop d j make universe contexts ≡ [] = rw (context_loop, e) at h in
            none_at make universe contexts i u c v w e
              (λ k k_u k_c. context_loop-none make universe contexts k u c rest k_u k_c) p q
      ]

module _ (d : Doubles) (j : CJson d) where
  context_parts-length :
      (n : j.Node) (universe contexts : List j.Node)
      → context_parts d j n ≡ some (universe, contexts)
      → length universe ≡ length contexts
  unfolding context_parts
  context_parts-length n universe contexts h =
      let (_, _, h1) = >>=-eq-some (guard (j.is_array n)) _ h in
      let (_, _, h2) = >>=-eq-some (guard (length (j.items n) == 2)) _ h1 in
      let (meta, _, h3) = >>=-eq-some (get_elem? (j.items n) 0) _ h2 in
      let (ctxs, _, h4) = >>=-eq-some (get_elem? (j.items n) 1) _ h3 in
      let (_, _, h5) = >>=-eq-some (guard (j.is_object meta)) _ h4 in
      let (_, _, h6) = >>=-eq-some (guard (j.is_array ctxs)) _ h5 in
      let (node, _, h7) = >>=-eq-some (j.get_object_item meta (str "universe")) _ h6 in
      let (_, _, h8) = >>=-eq-some (guard (j.is_array node)) _ h7 in
      let (_, same, h9) =
        >>=-eq-some (guard (length (j.items node) == length (j.items ctxs))) _ h8 in
      let e = some-injective _ _ h9 in
      ap (λ p. length p.0) (sym e) ∙ (==_iff _ _).0 (guard-eq-some _ same) ∙ ap (λ p. length p.1) e

  pub reply_contexts-length :
      (reply : Lv3Error × Option (ℕ × Option CString)) (universe contexts : List j.Node)
      → reply_contexts d j reply ≡ inr (universe, contexts)
      → length universe ≡ length contexts
  unfolding reply_contexts
  reply_contexts-length reply universe contexts h = elim (Sum-cases (reply_json d j reply)) [
    | inl (e, p) ↦ cc (rw (reply_contexts, p) at h)
    | inr (n, p) ↦ elim (Option-cases (context_parts d j n)) [
      | inl q ↦ cc (rw (reply_contexts, p, q) at h)
      | inr (parts, q) ↦
          let e = inr-injective _ _ (rw (reply_contexts, p, q) at h) in
          context_parts-length n universe contexts (q ∙ ap some e)
    ]
  ]

  reply_json-error :
      (reply : Lv3Error × Option (ℕ × Option CString)) (e : HlError)
      → reply_json d j reply ≡ inl e
      → is_success e ≡ false
  unfolding reply_json is_success
  reply_json-error (err, none) e h = rw (sym (inl-injective _ _ h)) refl
  reply_json-error (err, some (status_code, body)) e h =
      elim (Bool-cases (not (is_lv3_success err) || not (status_code == 200))) [
        | inl b ↦ rw (sym (inl-injective _ _ (rw (reply_json, b) at h))) refl
        | inr b ↦ elim (Option-cases (body >>= j.parse_text)) [
          | inl q ↦ rw (sym (inl-injective _ _ (rw (reply_json, b, q) at h))) refl
          | inr (n, q) ↦ cc (rw (reply_json, b, q) at h)
        ]
      ]

  pub reply_contexts-error :
      (reply : Lv3Error × Option (ℕ × Option CString)) (e : HlError)
      → reply_contexts d j reply ≡ inl e
      → is_success e ≡ false
  unfolding reply_contexts is_success
  reply_contexts-error reply e h = elim (Sum-cases (reply_json d j reply)) [
    | inl (e', p) ↦
        rw (sym (inl-injective _ _ (rw (reply_contexts, p) at h))) (reply_json-error reply e' p)
    | inr (n, p) ↦ elim (Option-cases (context_parts d j n)) [
      | inl q ↦ rw (sym (inl-injective _ _ (rw (reply_contexts, p, q) at h))) refl
      | inr (parts, q) ↦ cc (rw (reply_contexts, p, q) at h)
    ]
  ]
