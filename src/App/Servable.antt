-- ===== src/App/Servable.antt =====
-- What services/gateway/internal/app/app.go accepts as a configuration.
use chain_forge.Common.{
  ℕ, ◌≤◌, ◌≡◌, ◌≢◌, ◌⊎◌, inl, inr, refl, subst, arith, Bool, true, false, ◌||◌, not, ltb, leb, ◌==◌,
  Bool-cases,
}
use chain_forge.Common.{List, [], ◌∷◌, length, Option, none, some, String, All}
use chain_forge.Common.Bytes.{bytes_eq, bytes_eq_same}
use chain_forge.JsonRpc.{trim_space}
use chain_forge.Metrics.{Text, assigned}
use chain_forge.App.{
  Readers, Config, Refusal, Loaded, loaded, refused, ◌>>=◌, require, wanted, entries, add_pair,
  read_keys, is_positive, checked, count_set, is_filled, evm, solana, load_config, split, cut,
}

-- A setting that is given.
abbrev IsGiven : Text → Type 0
IsGiven t = t ≢ []

-- What the gateway relies on in its configuration.
pub record IsServable {F : Type 0} (rd : Readers F) (c : Config F) : Type 0 where
  pub upstreams : c.upstreams ≢ []
  pub urls : All IsGiven c.upstreams
  pub keys : c.api_keys ≢ []
  pub long_keys : All (λ e. (8 ≤ length e.0) × IsGiven e.1) c.api_keys
  pub secret : 16 ≤ length c.signer_secret
  pub rate : rd.is_low c.rate_rps ≡ false
  pub burst : is_positive c.rate_burst ≡ true
  pub poll : is_positive c.poll ≡ true
  pub chain : (c.chain ≡ evm) ⊎ (c.chain ≡ solana)
  pub tls :
      ((c.engine_cert ≡ []) × (c.engine_key ≡ []) × (c.engine_ca ≡ []))
      ⊎ (IsGiven c.engine_cert × IsGiven c.engine_key × IsGiven c.engine_ca)
  pub relays : All IsGiven c.relay_urls

bind-loaded :
    {A B : Type 0} (m : Loaded A) (f : A → Loaded B) (b : B)
    → m >>= f ≡ loaded b
    → (a : A) × (m ≡ loaded a) × (f a ≡ loaded b)
unfolding ◌>>=◌
bind-loaded (loaded a) f b e = (a, refl, e)
bind-loaded (refused x) f b e = absurd (cc e)

loaded-injective : {A : Type 0} {a b : A} → loaded a ≡ loaded b → a ≡ b
loaded-injective e = cc e

leb→le : (a b : ℕ) → leb a b ≡ true → a ≤ b
leb→le a b h = ground arith

not-true : (b : Bool) → not b ≡ true → b ≡ false
not-true true h = absurd (cc h)
not-true false h = refl

require-loaded : (t : Bool) (x : Refusal) {b : Bool} → require t x ≡ loaded b → t ≡ true
unfolding require
require-loaded true x e = refl
require-loaded false x e = absurd (cc e)

wanted-checked :
    {A : Type 0} (p : A → Bool) (o : Option A) (x : Refusal) (a : A)
    → wanted (checked p o) x ≡ loaded a
    → p a ≡ true
unfolding wanted checked
wanted-checked p none x a e = absurd (cc e)
wanted-checked p (some v) x a e = elim (Bool-cases (p v)) [
  | inl good ↦ let same : v ≡ a = cc (rw (good, wanted) at e) in subst (λ y. p y ≡ true) same good
  | inr bad ↦ absurd (cc (rw (bad, wanted) at e))
]

is_filled-given : {A : Type 0} (l : List A) → is_filled l ≡ true → l ≢ []
unfolding is_filled
is_filled-given [] e = absurd (cc e)
is_filled-given (a ∷ l) e = λ q. cc

kept-All :
    (t : Text) (rest : List Text)
    → All IsGiven rest
    → All IsGiven (elim t [ [] ↦ rest | c ∷ t' ↦ (c ∷ t') ∷ rest ])
kept-All [] rest h = h
kept-All (c ∷ t) rest h = (λ q. cc, h)

entries-All : (us : List Text) → All IsGiven (entries us)
unfolding entries
entries-All [] = tt
entries-All (u ∷ us) = kept-All (trim_space u) (entries us) (entries-All us)

abbrev IsKey : Text × Text → Type 0
IsKey e = (8 ≤ length e.0) × IsGiven e.1

assigned-All :
    (m : List (Text × Text)) (k v : Text) → All IsKey m → IsKey (k, v) → All IsKey (assigned m k v)
unfolding assigned
assigned-All [] k v h new = (new, tt)
assigned-All (e ∷ m) k v h new = elim (Bool-cases (bytes_eq e.0 k)) [
  | inl is ↦ rw (is, assigned) (new, h.1)
  | inr isnt ↦ rw (isnt, assigned) (h.0, assigned-All m k v h.1 new)
]

add_pair-All :
    (m : List (Text × Text)) (p : Option (Text × Text)) → All IsKey m → All IsKey (add_pair m p)
unfolding add_pair
add_pair-All m none h = h
add_pair-All m (some ([], key)) h = h
add_pair-All m (some (c ∷ name, key)) h = elim (Bool-cases (ltb (length key) 8)) [
  | inl short ↦ rw (short, add_pair) h
  | inr long ↦ rw (long, add_pair) (assigned-All m key (c ∷ name) h (ground arith, λ q. cc))
]

read_keys-All :
    (kvs : List Text) (m : List (Text × Text)) → All IsKey m → All IsKey (read_keys m kvs)
unfolding read_keys
read_keys-All [] m h = h
read_keys-All (kv ∷ kvs) m h =
    read_keys-All kvs (add_pair m (cut b'=' (trim_space kv)))
      (add_pair-All m (cut b'=' (trim_space kv)) h)

chain-known : (t : Text) → bytes_eq t evm || bytes_eq t solana ≡ true → (t ≡ evm) ⊎ (t ≡ solana)
chain-known t h = elim (Bool-cases (bytes_eq t evm)) [
  | inl e ↦ inl (bytes_eq_same t evm e)
  | inr e ↦ inr (bytes_eq_same t solana (rw e at h))
]

count_set-three :
    (cert key ca : Text)
    → (let set = count_set (cert ∷ key ∷ ca ∷ []) in set == 0 || set == 3) ≡ true
    → ((cert ≡ []) × (key ≡ []) × (ca ≡ [])) ⊎ (IsGiven cert × IsGiven key × IsGiven ca)
unfolding count_set
count_set-three [] [] [] h = inl (refl, refl, refl)
count_set-three (a ∷ x) (b ∷ y) (c ∷ z) h = inr ((λ q. cc), (λ q. cc), (λ q. cc))
count_set-three (a ∷ x) [] [] h = absurd (cc h)
count_set-three [] (b ∷ y) [] h = absurd (cc h)
count_set-three [] [] (c ∷ z) h = absurd (cc h)
count_set-three (a ∷ x) (b ∷ y) [] h = absurd (cc h)
count_set-three (a ∷ x) [] (c ∷ z) h = absurd (cc h)
count_set-three [] (b ∷ y) (c ∷ z) h = absurd (cc h)

-- A configuration that LoadConfig accepts has an upstream and no empty url, a named key of at least 8
-- bytes and none that is shorter, a secret of at least 16 bytes, a rate that the test `<= 0` does not
-- refuse, a positive burst and interval, one of the two chains, and all of the TLS material or none.
pub load_config-IsServable :
    {F : Type 0} (rd : Readers F) (getenv : String → Text) (c : Config F)
    → load_config rd getenv ≡ loaded c
    → IsServable rd c
unfolding load_config
load_config-IsServable rd getenv c e =
    let (_, upstreams, e) = bind-loaded _ _ c e in
    let (_, keys, e) = bind-loaded _ _ c e in
    let (_, secret, e) = bind-loaded _ _ c e in
    let (rate, rated, e) = bind-loaded _ _ c e in
    let (burst, bursts, e) = bind-loaded _ _ c e in
    let (poll, polls, e) = bind-loaded _ _ c e in
    let (_, chain, e) = bind-loaded _ _ c e in
    let (_, tls, e) = bind-loaded _ _ c e in
    subst (IsServable rd) (loaded-injective e) (record {
      upstreams = is_filled-given _ (require-loaded _ _ upstreams);
      urls = entries-All (split b',' (getenv "GATEWAY_UPSTREAMS"));
      keys = is_filled-given _ (require-loaded _ _ keys);
      long_keys = read_keys-All (split b',' (getenv "GATEWAY_API_KEYS")) [] tt;
      secret = leb→le 16 _ (require-loaded _ _ secret);
      rate = not-true _ (wanted-checked _ _ _ rate rated);
      burst = wanted-checked is_positive _ _ burst bursts;
      poll = wanted-checked is_positive _ _ poll polls;
      chain = chain-known _ (require-loaded _ _ chain);
      tls = count_set-three _ _ _ (require-loaded _ _ tls);
      relays = entries-All (split b',' (getenv "RELAY_URLS"));
    })
