-- ===== src/App.antt =====
-- services/gateway/internal/app/app.go: the configuration that the gateway reads from its environment, whose
-- values are lists of bytes. strconv's ParseFloat with the test of a float and time's ParseDuration
-- are the record `Readers`; a duration is its nanoseconds.
pub mod Servable
pub mod Sim
pub mod Ticks
mod Tests
use chain_forge.Common.{
  ℕ, ◌+◌, ◌-◌, ◌<◌, ◌^◌, ◌==◌, Bool, true, false, ◌&&◌, ◌||◌, not, ltb, leb, if◌then◌else◌,
}
use chain_forge.Common.{List, [], ◌∷◌, ◌++◌, length, Option, none, some, String}
use chain_forge.Common.Bytes.{bytes_eq}
use chain_forge.Common.Int.{ℤ, pos, negsuc}
use chain_forge.Intent.Text.{set_string}
use chain_forge.JsonRpc.{trim_space}
use chain_forge.Metrics.{Text, assigned}

-- `is_low` is the test `<= 0`.
pub record Readers (F : Type 0) : Type 0 where
  pub parse_float : Text → Option F
  pub is_low : F → Bool
  pub parse_duration : Text → Option ℤ

pub record Config (F : Type 0) : Type 0 where
  pub addr : Text
  pub upstreams : List Text
  pub api_keys : List (Text × Text)
  pub signer_url : Text
  pub signer_secret : Text
  pub rate_rps : F
  pub rate_burst : ℤ
  pub cors_origin : Text
  pub poll : ℤ
  pub hooks_private : Bool
  pub chain : Text
  pub engine_addr : Text
  pub engine_cert : Text
  pub engine_key : Text
  pub engine_ca : Text
  pub engine_server_name : Text
  pub relay_urls : List Text

-- The errors of `LoadConfig`, and those of `SimMain`, in their order.
pub data Refusal : Type 0 where
  no_upstreams no_api_keys short_secret bad_rate bad_burst bad_poll bad_chain partial_tls : Refusal
  bad_chain_id bad_block_ms bad_reorg_every : Refusal

pub data Loaded (A : Type 0) : Type 0 where
  loaded : A → Loaded A
  refused : Refusal → Loaded A

infixl 5 ◌>>=◌
unfoldable pub ◌>>=◌ : {A B : Type 0} → Loaded A → (A → Loaded B) → Loaded B
loaded a >>= f = f a
refused e >>= f = refused e

-- An early return unless a test holds, or unless there is a value.
unfoldable pub require : Bool → Refusal → Loaded Bool
require true e = loaded true
require false e = refused e

unfoldable pub wanted : {A : Type 0} → Option A → Refusal → Loaded A
wanted none e = refused e
wanted (some a) e = loaded a

unfoldable pub or : Text → Text → Text
or [] d = d
or (c ∷ v) d = c ∷ v

-- strings.Split at a byte.
unfoldable pub onto : ℕ → List Text → List Text
onto c [] = (c ∷ []) ∷ []
onto c (p ∷ ps) = (c ∷ p) ∷ ps

unfoldable pub split : ℕ → Text → List Text
split sep [] = [] ∷ []
split sep (c ∷ s) = let parts = split sep s in if c == sep then [] ∷ parts else onto c parts

-- The loop that keeps the entries that are not empty behind strings.TrimSpace.
unfoldable pub entries : List Text → List Text
entries [] = []
entries (u ∷ us) = elim (trim_space u) [ [] ↦ entries us | c ∷ t ↦ (c ∷ t) ∷ entries us ]

-- strings.Cut at a byte: none if there is none.
unfoldable pub cut : ℕ → Text → Option (Text × Text)
cut sep [] = none
cut sep (c ∷ s) =
    if c == sep
    then some ([], s)
    else elim (cut sep s) [ none ↦ none | some p ↦ some (c ∷ p.0, p.1) ]

-- A pair `name=key` is stored unless the name is empty or the key has fewer than 8 bytes.
unfoldable pub add_pair : List (Text × Text) → Option (Text × Text) → List (Text × Text)
add_pair keys none = keys
add_pair keys (some ([], key)) = keys
add_pair keys (some (c ∷ name, key)) =
    if ltb (length key) 8 then keys else assigned keys key (c ∷ name)

unfoldable pub read_keys : List (Text × Text) → List Text → List (Text × Text)
read_keys keys [] = keys
read_keys keys (kv ∷ kvs) = read_keys (add_pair keys (cut b'=' (trim_space kv))) kvs

-- strconv.Atoi: an integer in the 64 bits of an int.
unfoldable pub in_word : ℤ → Bool
in_word (pos n) = ltb n (2 ^ 63)
in_word (negsuc n) = ltb n (2 ^ 63)

unfoldable pub atoi : Text → Option ℤ
atoi s = elim (set_string 10 s) [ none ↦ none | some v ↦ if in_word v then some v else none ]

unfoldable pub is_positive : ℤ → Bool
is_positive (pos n) = ltb 0 n
is_positive (negsuc n) = false

-- Those of a value that pass a test.
unfoldable pub checked {ℓ} : {A : Type ℓ} → (A → Bool) → Option A → Option A
checked p none = none
checked p (some a) = if p a then some a else none

unfoldable pub count_set : List Text → ℕ
count_set [] = 0
count_set ([] ∷ vs) = count_set vs
count_set ((c ∷ v) ∷ vs) = count_set vs + 1

unfoldable pub is_filled : {A : Type 0} → List A → Bool
is_filled [] = false
is_filled (a ∷ as_) = true

-- ":8080", "http://localhost:8081", "50", "100", "1s", "evm", "solana", "engine" and "true".
abbrev pub default_addr : Text
default_addr = b':' ∷ b'8' ∷ b'0' ∷ b'8' ∷ b'0' ∷ []

abbrev pub default_signer : Text
default_signer =
    b'h' ∷ b't' ∷ b't' ∷ b'p' ∷ b':' ∷ b'/' ∷ b'/' ∷ b'l' ∷ b'o' ∷ b'c' ∷ b'a' ∷ b'l' ∷ b'h' ∷ b'o'
    ∷ b's' ∷ b't' ∷ b':' ∷ b'8' ∷ b'0' ∷ b'8' ∷ b'1' ∷ []

abbrev pub default_rps : Text
default_rps = b'5' ∷ b'0' ∷ []

abbrev pub default_burst : Text
default_burst = b'1' ∷ b'0' ∷ b'0' ∷ []

abbrev pub default_poll : Text
default_poll = b'1' ∷ b's' ∷ []

abbrev pub evm : Text
evm = b'e' ∷ b'v' ∷ b'm' ∷ []

abbrev pub solana : Text
solana = b's' ∷ b'o' ∷ b'l' ∷ b'a' ∷ b'n' ∷ b'a' ∷ []

abbrev pub engine : Text
engine = b'e' ∷ b'n' ∷ b'g' ∷ b'i' ∷ b'n' ∷ b'e' ∷ []

abbrev pub yes_text : Text
yes_text = b't' ∷ b'r' ∷ b'u' ∷ b'e' ∷ []

module _ {F : Type 0} (rd : Readers F) where
  -- `LoadConfig`
  unfoldable pub load_config : (String → Text) → Loaded (Config F)
  load_config getenv = do
    let upstreams = entries (split b',' (getenv "GATEWAY_UPSTREAMS"))
    _ ← require (is_filled upstreams) no_upstreams
    let keys = read_keys [] (split b',' (getenv "GATEWAY_API_KEYS"))
    _ ← require (is_filled keys) no_api_keys
    let secret = getenv "SIGNER_SHARED_SECRET"
    _ ← require (leb 16 (length secret)) short_secret
    let rps = rd.parse_float (or (getenv "RATE_LIMIT_RPS") default_rps)
    rate ← wanted (checked (λ x. not (rd.is_low x)) rps) bad_rate
    let bursts = atoi (or (getenv "RATE_LIMIT_BURST") default_burst)
    burst ← wanted (checked is_positive bursts) bad_burst
    let interval = rd.parse_duration (or (getenv "POLL_INTERVAL") default_poll)
    poll ← wanted (checked is_positive interval) bad_poll
    let chain = or (getenv "GATEWAY_CHAIN") evm
    _ ← require (bytes_eq chain evm || bytes_eq chain solana) bad_chain
    let cert = getenv "ENGINE_TLS_CERT"
    let key = getenv "ENGINE_TLS_KEY"
    let ca = getenv "ENGINE_TLS_CA"
    let set = count_set (cert ∷ key ∷ ca ∷ [])
    _ ← require (set == 0 || set == 3) partial_tls
    loaded (record {
      addr = or (getenv "GATEWAY_ADDR") default_addr;
      upstreams = upstreams;
      api_keys = keys;
      signer_url = or (getenv "SIGNER_URL") default_signer;
      signer_secret = secret;
      rate_rps = rate;
      rate_burst = burst;
      cors_origin = getenv "CORS_ORIGIN";
      poll = poll;
      hooks_private = bytes_eq (getenv "WEBHOOK_ALLOW_PRIVATE") yes_text;
      chain = chain;
      engine_addr = getenv "ENGINE_ADDR";
      engine_cert = cert;
      engine_key = key;
      engine_ca = ca;
      engine_server_name = or (getenv "ENGINE_SERVER_NAME") engine;
      relay_urls = entries (split b',' (getenv "RELAY_URLS"));
    })
