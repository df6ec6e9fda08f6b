-- ===== src/Tests/Instances.antt =====
-- Concrete functions for the code outside the repository, and proofs of what is assumed of it.
use mathlib.Core.Path.{refl}
use hyperliquid_c.Prelude.{
  ℕ, zero, suc, ◌+◌, ◌-◌, ◌/◌, ◌^◌, ◌<◌, ◌≡◌, refl, sym, ap, ◌∙◌, inl, inr, Bool, true, false, not,
  ◌&&◌, ◌||◌, Option, none, some, List, [], ◌∷◌, ◌++◌, arith, ltb, ◌==◌, if◌then◌else◌, ==_iff,
  Bool-cases, some-injective, length, take, drop, replicate, length-append, length-take, take_all,
  take-append_le, append_cancel,
}
use hyperliquid_c.Prelude.Text.{CString, str, str_eq}
use hyperliquid_c.Prelude.Words.{be_bytes, be_bytes-injective, length-be_bytes}
use hyperliquid_c.Types.{Doubles, CJson, IsOrdered, IsNegated, ℤ, pos, negsuc, decimal}
use hyperliquid_c.Crypto.Keccak.{Sha3, IsTotal, Is32}
use hyperliquid_c.Crypto.Ecdsa.{Secp256k1}
use hyperliquid_c.Crypto.Ecdsa.Recovery.{RecoversSigner}
use hyperliquid_c.Crypto.Eip712.{Locals}
use hyperliquid_c.Msgpack.{Packer}
use hyperliquid_c.Msgpack.Prefix.{IsMsgpack}

-- A hash that is the first 32 bytes.
abbrev pub sha : Sha3
sha = record { hash_buffer = λ input. some (take 32 (input ++ replicate 32 0)) }

pub sha-IsTotal : IsTotal sha
sha-IsTotal input = (take 32 (input ++ replicate 32 0), refl)

pub sha-Is32 : Is32 sha
sha-Is32 input hash h =
    let e = some-injective _ _ h in
    ap length (sym e)
    ∙ (length-take 32 (input ++ replicate 32 0)
        ∙ (let f = length-append input (replicate 32 0) in omega arith))

abbrev pub locals : Locals
locals = record {
  name_hash = [];
  version_hash = [];
  source_hash = [];
  actual_addr_hash = [];
  recovered_addr_hash = [];
}

-- A signature and a public key that are the secret key.
abbrev pub secp : Secp256k1
secp = record {
  Signature = List ℕ;
  Pubkey = List ℕ;
  context_create = true;
  sign_recoverable = λ hash priv. some priv;
  serialize_compact = λ sig. (sig ++ sig, 1);
  parse_compact = λ bytes id. if id == 1 then some (take 32 bytes) else none;
  recover = λ sig hash. some sig;
  pubkey_create = λ priv. if length priv == 32 then some priv else none;
  pubkey_serialize = λ key. 4 ∷ key ++ key;
}

key_of : (priv : List ℕ) {key : List ℕ} → secp.pubkey_create priv ≡ some key → priv ≡ key
key_of priv h = elim (Bool-cases (length priv == 32)) [
  | inl y ↦ some-injective _ _ (rw y at h)
  | inr n ↦ cc (rw n at h)
]

length_of : (priv : List ℕ) {key : List ℕ} → secp.pubkey_create priv ≡ some key → length key ≡ 32
length_of priv h = elim (Bool-cases (length priv == 32)) [
  | inl y ↦ ap length (sym (key_of priv h)) ∙ (==_iff (length priv) 32).0 y
  | inr n ↦ cc (rw n at h)
]

pub secp-RecoversSigner : RecoversSigner sha secp
secp-RecoversSigner = record {
  recovery = λ hash priv sig key s p.
      let same : sig ≡ key = some-injective _ _ (sym s) ∙ key_of priv p in
      let size = length_of priv p in
      (
        key,
        ap some (
            ap (λ l. take 32 (l ++ l)) same
            ∙ (take-append_le 32 key key (omega arith) ∙ take_all 32 key (omega arith))),
        refl,
        omega arith,
      );
}

abbrev pub header : ℕ → ℕ → List ℕ
header tag n = tag ∷ be_bytes n

-- An encoder whose numbers all take eight bytes.
abbrev pub packer : Packer
packer = record {
  pack_map = header 0xdf;
  pack_array = header 0xdd;
  pack_str = header 0xdb;
  pack_str_body = λ text n. take n text;
  pack_uint32 = header 0xce;
  pack_uint64 = header 0xcf;
  pack_true = 0xc3 ∷ [];
  pack_false = 0xc2 ∷ [];
}

header_code :
    (tag n m : ℕ) (s t : List ℕ)
    → n < 2 ^ 64
    → m < 2 ^ 64
    → header tag n ++ s ≡ header tag m ++ t
    → (n ≡ m) × (s ≡ t)
header_code tag n m s t hn hm e =
    let (a, b) =
      append_cancel (header tag n) (header tag m) s t
        (ap suc (length-be_bytes n ∙ sym (length-be_bytes m))) e in
    (be_bytes-injective n m hn hm (ap (drop 1) a), b)

pub packer-IsMsgpack : IsMsgpack packer
packer-IsMsgpack = record {
  str_code = λ n m s t hn hm e. header_code 0xdb n m s t (omega arith) (omega arith) e;
  map_code = λ n m s t hn hm e. header_code 0xdf n m s t (omega arith) (omega arith) e;
  array_code = λ n m s t hn hm e. header_code 0xdd n m s t (omega arith) (omega arith) e;
  uint32_code = λ n m s t hn hm e. header_code 0xce n m s t (omega arith) (omega arith) e;
  uint64_code = λ n m s t hn hm e. header_code 0xcf n m s t hn hm e;
  body = λ text. take_all (length text) text (omega arith);
  true_ne_false = λ s t e. ground arith;
}

-- Integers for numbers.
unfoldable pub less : ℤ → ℤ → Bool
less (pos m) (pos n) = ltb m n
less (pos m) (negsuc n) = false
less (negsuc m) (pos n) = true
less (negsuc m) (negsuc n) = ltb n m

unfoldable pub negated : ℤ → ℤ
negated (pos zero) = pos 0
negated (pos (suc n)) = negsuc n
negated (negsuc n) = pos (n + 1)

unfoldable pub added : ℤ → ℤ → ℤ
added (pos m) (pos n) = pos (m + n)
added (pos m) (negsuc n) = if ltb n m then pos (m - n - 1) else negsuc (n - m)
added (negsuc m) (pos n) = if ltb m n then pos (n - m - 1) else negsuc (m - n)
added (negsuc m) (negsuc n) = negsuc (m + n + 1)

unfoldable pub halved : ℤ → ℤ → ℤ
halved (pos m) (pos n) = pos (m / n)
halved x y = x

unfoldable pub shown : ℤ → CString
shown (pos n) = decimal n
shown (negsuc n) = 45 ∷ decimal (n + 1)

unfoldable pub bits : ℤ → ℕ
bits (pos n) = n
bits (negsuc n) = 0

abbrev pub reals : Doubles
reals = record {
  Real = ℤ;
  zero_real = pos 0;
  of_nat = pos;
  negate = negated;
  fabs = λ x. if less x (pos 0) then negated x else x;
  add = added;
  sub = λ x y. added x (negated y);
  mul = λ x y. x;
  divide = halved;
  less = less;
  less_equal = λ x y. not (less y x);
  atof = λ s. pos (length s);
  fixed = λ n x. shown x;
  general = λ n x. shown x;
  atoi = length;
  atoll = length;
  strtoull = length;
  scan_int = λ s. if length s == 0 then none else some (take 1 s);
  to_u32 = bits;
  to_int = bits;
  to_u64 = bits;
}

less_irreflexive : (x : ℤ) → less x x ≡ false
unfolding less
less_irreflexive (pos n) = ground arith
less_irreflexive (negsuc n) = ground arith

less_transitive : (x y z : ℤ) → less x y ≡ true → less y z ≡ true → less x z ≡ true
unfolding less
less_transitive x y z h k = ground arith

pub reals-IsOrdered : IsOrdered reals
reals-IsOrdered = record { less_irreflexive = less_irreflexive; less_transitive = less_transitive }

negate_positive : (x : ℤ) → less (pos 0) x ≡ true → not (less (pos 0) (negated x)) ≡ true
unfolding less negated
negate_positive (pos zero) h = ground arith
negate_positive (pos (suc n)) h = refl
negate_positive (negsuc n) h = ground arith

pub reals-IsNegated : IsNegated reals
reals-IsNegated = record { negate_positive = negate_positive }

-- A response of the exchange: nodes are numbers. 0 is the array, 1 its meta object, 2 the contexts,
-- 3 the universe, 4 and 5 its items, 6 and 7 their names, 8 is an empty object, 9 holds no
-- tokens, 10 is two arrays of levels, 11 and 12, whose levels are 13,
-- which is a trade too. Node 2 is a candle too.
unfoldable pub node_items : ℕ → List ℕ
node_items n =
    if n == 0
    then 1 ∷ 2 ∷ []
    else if n == 2
    then 8 ∷ 8 ∷ []
    else if n == 3
    then 4 ∷ 5 ∷ []
    else if n == 10
    then 11 ∷ 12 ∷ []
    else if n == 11
    then 13 ∷ 13 ∷ []
    else if n == 12
    then 13 ∷ []
    else []

unfoldable pub node_text : ℕ → Option CString
node_text n = if n == 6 then some (str "BTC") else if n == 7 then some (str "ETH") else none

unfoldable pub node_field : ℕ → CString → Option ℕ
node_field n key =
    if n == 0 && str_eq key (str "levels")
    then some 10
    else if n == 2 && length key == 1
    then some 6
    else if n == 13 && str_eq key (str "px")
    then some 6
    else if n == 13 && (str_eq key (str "sz") || str_eq key (str "side"))
    then some 7
    else if n == 13 && str_eq key (str "coin")
    then some 6
    else if n == 1 && str_eq key (str "universe")
    then some 3
    else if n == 1 && str_eq key (str "tokens")
    then some 9
    else if n == 4 && str_eq key (str "name")
    then some 6
    else if n == 5 && str_eq key (str "name")
    then some 7
    else none

abbrev pub cjson : CJson reals
cjson = record {
  Node = ℕ;
  parse_text = λ s. some 0;
  get_object_item = node_field;
  is_string = λ n. n == 6 || n == 7;
  is_number = λ n. false;
  is_array = λ n. n == 0 || n == 2 || n == 3 || n == 9 || n == 10 || n == 11 || n == 12;
  is_object = λ n. n == 1 || n == 4 || n == 5 || n == 8;
  valuestring = node_text;
  valuedouble = λ n. pos 0;
  get_number_value = λ n. pos 0;
  valueint = λ n. n;
  items = node_items;
  print_unformatted = λ n. some (decimal n);
}
