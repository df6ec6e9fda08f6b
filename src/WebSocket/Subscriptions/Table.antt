-- ===== src/WebSocket/Subscriptions/Table.antt =====
-- What the table of src/websocket.c promises: slots in use never exceed the memory, a call either
-- appends one entry and returns its id or leaves the entries as they were.
use hyperliquid_c.WebSocket.Subscriptions.{
  new_capacity, grow, Subscription, Extension, System, garbage, expand, fill, add_subscription,
}
use mathlib.Core.Path.{subst}
use hyperliquid_c.Prelude.{
  ℕ, zero, suc, ◌-◌, ◌≤◌, ◌<◌, ◌≡◌, refl, ap, ◌∙◌, inl, inr, Option, none, some, List, [], ◌∷◌,
  ◌++◌, arith, leb, Bool-cases, Option-cases, some-injective, length, get_elem?, set, take,
  length-append, length-set, take-append_le,
}
use hyperliquid_c.Prelude.Text.{CString}

-- The slots in use fit in the memory.
pub record IsTable (e : Extension) : Type 0 where
  pub count_le : e.subscription_count ≤ e.subscription_capacity
  pub slots : length e.subscriptions ≡ e.subscription_capacity

-- The entries that the slots in use hold: what the table stands for.
abbrev pub entries : Extension → List Subscription
entries e = take e.subscription_count e.subscriptions

-- What a subscribing call may do to a table that held `before`, by the id that it returns.
pub data Added (channel_size symbol_size : ℕ) (sys : System) (before : List Subscription)
    (e : Extension) : Option CString → Type 0 where
  unchanged : entries e ≡ before → Added channel_size symbol_size sys before e none
  appended :
      (channel : CString) (symbol : Option CString) (callback : ℕ) (user_data : Option ℕ)
      (old : Subscription)
      → entries e
        ≡ before ++ fill channel_size symbol_size sys channel symbol callback user_data old ∷ []
      → Added channel_size symbol_size sys before e (some sys.uuid)

length-garbage : (f : ℕ → Subscription) (n : ℕ) → length (garbage f n) ≡ n
length-garbage f zero = refl
length-garbage f (suc n) = ap suc (length-garbage f n)

new_capacity_gt : (n : ℕ) → n < new_capacity n
new_capacity_gt n = ground arith

-- The grown array has room for one more and holds the same entries.
grow_lem :
    (f : ℕ → Subscription) (e : Extension)
    → IsTable e
    → IsTable (grow f e)
      × (e.subscription_count < new_capacity e.subscription_capacity)
      × (entries (grow f e) ≡ entries e)
grow_lem f e v =
    let h = v.count_le in
    let g = new_capacity_gt e.subscription_capacity in
    let fits =
      length-append e.subscriptions
        (garbage f (new_capacity e.subscription_capacity - e.subscription_capacity)) in
    let new = length-garbage f (new_capacity e.subscription_capacity - e.subscription_capacity) in
    let s = v.slots in
    (
      record { count_le = omega arith; slots = omega arith },
      omega arith,
      take-append_le e.subscription_count e.subscriptions
          (garbage f (new_capacity e.subscription_capacity - e.subscription_capacity))
          (omega arith),
    )

-- What `expand` promises of the array that it returns.
pub record Expanded (e g : Extension) : Type 0 where
  pub table : IsTable g
  pub has_room : g.subscription_count < g.subscription_capacity
  pub same_entries : entries g ≡ entries e
  pub same_count : g.subscription_count ≡ e.subscription_count
  pub same_client : g.ws_client ≡ e.ws_client

expand_lem : (sys : System) (e g : Extension) → IsTable e → expand sys e ≡ some g → Expanded e g
unfolding expand
expand_lem sys e g v h = elim (Bool-cases (leb e.subscription_capacity e.subscription_count)) [
  | inl full ↦ elim (Option-cases sys.realloc) [
    | inl r ↦ cc (rw (full, r) at h)
    | inr (f, r) ↦
        let q : some (grow f e) ≡ some g = rw (full, r) at h in
        let (t, room, same) = grow_lem f e v in
        subst (λ x. Expanded e x) (some-injective _ _ q)
          (record {
            table = t;
            has_room = room;
            same_entries = same;
            same_count = refl;
            same_client = refl;
          })
  ]
  | inr room ↦
      let q : some e ≡ some g = rw room at h in
      subst (λ x. Expanded e x) (some-injective _ _ q)
        (record {
          table = v;
          has_room = ground arith;
          same_entries = refl;
          same_count = refl;
          same_client = refl;
        })
]

module _ {ℓ} {A : Type ℓ} where
  get_elem?-some : (xs : List A) (i : ℕ) → i < length xs → (x : A) × (get_elem? xs i ≡ some x)
  get_elem?-some [] i h = absurd (omega arith)
  get_elem?-some (x ∷ xs) zero h = (x, refl)
  get_elem?-some (x ∷ xs) (suc i) h = get_elem?-some xs i (omega arith)

  -- Writing the first free slot appends to the entries.
  take-set :
      (xs : List A) (n : ℕ) (v : A)
      → n < length xs
      → take (suc n) (set xs n v) ≡ take n xs ++ v ∷ []
  take-set [] n v h = absurd (omega arith)
  take-set (x ∷ xs) zero v h = refl
  take-set (x ∷ xs) (suc n) v h = ap (λ l. x ∷ l) (take-set xs n v (omega arith))

module _ (channel_size symbol_size : ℕ) (sys : System) where
  pub add_subscription-some :
      (e : Extension) (channel : CString) (symbol : Option CString) (callback : ℕ)
      (user_data : Option ℕ)
      → IsTable e
      → let r = add_subscription channel_size symbol_size sys e channel symbol callback user_data in
        IsTable r.0
        × Added channel_size symbol_size sys (entries e) r.0 r.1
        × (r.0.ws_client ≡ e.ws_client)
  unfolding add_subscription
  add_subscription-some e channel symbol callback user_data v = elim (Option-cases (expand sys e)) [
    | inl x ↦ rw (add_subscription, x) (v, unchanged refl, refl)
    | inr (g, x) ↦
        let p = expand_lem sys e g v x in
        let room : g.subscription_count < length g.subscriptions =
          rw (← p.table.slots) at p.has_room in
        let (old, q) = get_elem?-some g.subscriptions g.subscription_count room in
        let new = fill channel_size symbol_size sys channel symbol callback user_data old in
        let written = take-set g.subscriptions g.subscription_count new room in
        rw (add_subscription, x, q)
          (
            record {
              count_le = p.has_room;
              slots = length-set g.subscriptions g.subscription_count new ∙ p.table.slots;
            },
            appended channel symbol callback user_data old
                (written ∙ ap (λ l. l ++ new ∷ []) p.same_entries),
            p.same_client,
          )
  ]
