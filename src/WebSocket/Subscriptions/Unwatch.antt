-- ===== src/WebSocket/Subscriptions/Unwatch.antt =====
-- `hl_unwatch` of src/websocket.c against an independent description of what it should do.
use hyperliquid_c.WebSocket.Subscriptions.{
  Subscription, Extension, Client, unwatch_loop, hl_unwatch,
}
use hyperliquid_c.WebSocket.Subscriptions.Table.{IsTable, entries}
use mathlib.Core.Path.{subst}
use hyperliquid_c.Prelude.{
  some-injective, sym, ap, ◌∙◌, ℕ, zero, suc, ◌≡◌, refl, inl, inr, Bool, true, false, ◌||◌, none,
  some, List, [], ◌∷◌, arith, if◌then◌else◌, Bool-cases, Option-cases, length, take,
}
use hyperliquid_c.Prelude.Text.{CString, str_eq, str_eq→eq}

-- The entries with the first one of that id deactivated.
abbrev pub deactivate : CString → List Subscription → List Subscription
deactivate id [] = []
deactivate id (s ∷ subs) =
    let rest = deactivate id subs in
    if str_eq s.subscription_id id then record s { active = false } ∷ subs else s ∷ rest

abbrev pub has_id : CString → List Subscription → Bool
has_id id [] = false
has_id id (s ∷ subs) = str_eq s.subscription_id id || has_id id subs

unwatch_loop-none :
    (id : CString) (n : ℕ) (subs : List Subscription)
    → unwatch_loop id n subs ≡ none
    → has_id id (take n subs) ≡ false
unfolding unwatch_loop
unwatch_loop-none id zero subs h = refl
unwatch_loop-none id (suc n) [] h = refl
unwatch_loop-none id (suc n) (s ∷ subs) h = elim (Option-cases (unwatch_loop id n subs)) [
  | inl x ↦ let r = unwatch_loop-none id n subs x in ground (arith, r)
  | inr (y, x) ↦ ground arith
]

deactivate-absent :
    (id : CString) (subs : List Subscription) → has_id id subs ≡ false → deactivate id subs ≡ subs
deactivate-absent id [] h = refl
deactivate-absent id (s ∷ subs) h = elim (Bool-cases (str_eq s.subscription_id id)) [
  | inl hit ↦ ground (arith, hit)
  | inr miss ↦ simp miss (ap (λ l. s ∷ l) (deactivate-absent id subs (simp miss at h)))
]

-- What the loop returns when it found a match.
record Found (id : CString) (n : ℕ) (subs : List Subscription)
    (r : List Subscription × Subscription) : Type 0 where
  found : has_id id (take n subs) ≡ true
  same : take n r.0 ≡ deactivate id (take n subs)
  same_length : length r.0 ≡ length subs
  match_id : r.1.subscription_id ≡ id

unwatch_loop-Found :
    (id : CString) (n : ℕ) (subs : List Subscription) {r : List Subscription × Subscription}
    → unwatch_loop id n subs ≡ some r
    → Found id n subs r
unfolding unwatch_loop
unwatch_loop-Found id zero subs h = cc
unwatch_loop-Found id (suc n) [] h = cc
unwatch_loop-Found id (suc n) (s ∷ subs) {r = r} h =
    elim (Bool-cases (str_eq s.subscription_id id)) [
      | inl hit ↦
          let q : some (record s { active = false } ∷ subs, s) ≡ some r = rw hit at h in
          subst (λ x. Found id (suc n) (s ∷ subs) x) (some-injective _ _ q)
            (record {
              found = rw hit refl;
              same = rw hit refl;
              same_length = refl;
              match_id = str_eq→eq _ _ hit;
            })
      | inr miss ↦ elim (Option-cases (unwatch_loop id n subs)) [
        | inl x ↦ cc (rw (miss, x) at h)
        | inr (y, x) ↦
            let k = unwatch_loop-Found id n subs x in
            let q : some (s ∷ y.0, y.1) ≡ some r = rw (miss, x) at h in
            subst (λ z. Found id (suc n) (s ∷ subs) z) (some-injective _ _ q)
              (record {
                found = rw miss k.found;
                same = rw miss (ap (λ l. s ∷ l) k.same);
                same_length = ap suc k.same_length;
                match_id = k.match_id;
              })
      ]
    ]

-- `hl_unwatch` on a client with a well-formed table returns true exactly where an entry has the
-- id; the table stays well-formed, and its entries are those before with the first match inactive.
pub hl_unwatch_lem :
    (c : Client) (e : Extension) (id : CString)
    → c.ws_extension ≡ some e
    → IsTable e
    → ((hl_unwatch c (some id)).1 ≡ has_id id (entries e))
      × ((e1 : Extension) × ((hl_unwatch c (some id)).0.ws_extension ≡ some e1)
          × IsTable e1
          × (entries e1 ≡ deactivate id (entries e)))
unfolding hl_unwatch
hl_unwatch_lem c e id h v =
    elim (Option-cases (unwatch_loop id e.subscription_count e.subscriptions)) [
      | inl x ↦
          let none_has = unwatch_loop-none id e.subscription_count e.subscriptions x in
          simp (hl_unwatch, h, x)
            (sym none_has, (e, refl, v, sym (deactivate-absent id (entries e) none_has)))
      | inr ((subs, s), x) ↦
          let k = unwatch_loop-Found id e.subscription_count e.subscriptions x in
          simp (hl_unwatch, h, x)
            (
              sym k.found,
              (_, refl, record { count_le = v.count_le; slots = k.same_length ∙ v.slots }, k.same),
            )
    ]
