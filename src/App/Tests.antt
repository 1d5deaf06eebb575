-- ===== src/App/Tests.antt =====
-- An environment that is accepted and some that are not, a run of the simulated node, and the theorems
-- there.
use chain_forge.Common.{
  ℕ, ◌+◌, ◌==◌, ◌≡◌, refl, false, str_eq, if◌then◌else◌, List, [], ◌∷◌, length, some, String,
  reverse, reverse_onto,
}
use chain_forge.Common.Bytes.{bytes_eq}
use chain_forge.Common.Int.{pos}
use chain_forge.Chainsim.Chain.{IsChain}
use chain_forge.Indexer.Quantity.{digit_value}
use chain_forge.Intent.Text.{set_string, some_digits, digits, negated}
use chain_forge.JsonRpc.{trim_space}
use chain_forge.Metrics.{Text, assigned}
use chain_forge.App.{
  Readers, Config, Loaded, loaded, refused, ◌>>=◌, require, wanted, or, onto, split, entries, cut,
  add_pair, read_keys, in_word, atoi, is_positive, checked, count_set, is_filled, load_config,
  no_api_keys, partial_tls, bad_burst, default_addr, default_signer, engine, evm,
}
use chain_forge.App.Servable.{IsServable, load_config-IsServable}
use chain_forge.App.Sim.{Settings, is_natural, sim_settings, sim_run}
use chain_forge.App.Ticks.{IsStamped, sim_run-IsChain}

program : Unit {0}
unfolding ◌>>=◌ require wanted or onto split entries cut add_pair read_keys in_word atoi is_positive
    checked count_set is_filled load_config sim_settings is_natural trim_space reverse reverse_onto
    assigned bytes_eq set_string some_digits digits negated digit_value str_eq
program = tt

-- Every float is 50, every duration a second.
abbrev rd : Readers ℕ
rd = record {
  parse_float = λ t. some 50;
  is_low = λ x. x == 0;
  parse_duration = λ t. some (pos 1000000000);
}

-- Two urls with blanks and an empty entry, a short key and a long one, and a secret of 16 bytes.
abbrev base : String → Text
base v =
    if str_eq v "GATEWAY_UPSTREAMS"
    then (b'a' ∷ b',' ∷ b' ' ∷ b'b' ∷ b' ' ∷ b',' ∷ b',' ∷ [])
    else if str_eq v "GATEWAY_API_KEYS"
    then (b'x' ∷ b'=' ∷ b's' ∷ b'h' ∷ b'o' ∷ b'r' ∷ b't' ∷ b',' ∷ b' ' ∷ b'm' ∷ b'=' ∷ b'l' ∷ b'o'
        ∷ b'n' ∷ b'g' ∷ b'k' ∷ b'e' ∷ b'y' ∷ b'8' ∷ b',' ∷ b'y' ∷ [])
    else if str_eq v "SIGNER_SHARED_SECRET"
    then (b'0' ∷ b'1' ∷ b'2' ∷ b'3' ∷ b'4' ∷ b'5' ∷ b'6' ∷ b'7' ∷ b'8' ∷ b'9' ∷ b'a' ∷ b'b' ∷ b'c'
        ∷ b'd' ∷ b'e' ∷ b'f' ∷ [])
    else []

abbrev with_cert : String → Text
with_cert v = if str_eq v "ENGINE_TLS_CERT" then b'c' ∷ [] else base v

abbrev with_burst : String → Text
with_burst v = if str_eq v "RATE_LIMIT_BURST" then b'-' ∷ b'1' ∷ [] else base v

upstreams_of : Loaded (Config ℕ) → List Text
upstreams_of (loaded c) = c.upstreams
upstreams_of (refused e) = []

keys_of : Loaded (Config ℕ) → List (Text × Text)
keys_of (loaded c) = c.api_keys
keys_of (refused e) = []

read_upstreams : upstreams_of (load_config rd base) ≡ (b'a' ∷ []) ∷ (b'b' ∷ []) ∷ []
unfolding program upstreams_of
read_upstreams = refl

read_key :
    keys_of (load_config rd base)
    ≡ ((b'l' ∷ b'o' ∷ b'n' ∷ b'g' ∷ b'k' ∷ b'e' ∷ b'y' ∷ b'8' ∷ []), b'm' ∷ []) ∷ []
unfolding program keys_of
read_key = refl

nothing_set :
    load_config rd (λ v. if str_eq v "GATEWAY_API_KEYS" then [] else base v) ≡ refused no_api_keys
unfolding program
nothing_set = refl

part_of_tls : load_config rd with_cert ≡ refused partial_tls
unfolding program
part_of_tls = refl

below_one : load_config rd with_burst ≡ refused bad_burst
unfolding program
below_one = refl

abbrev base_config : Config ℕ
base_config = record {
  addr = default_addr;
  upstreams = (b'a' ∷ []) ∷ (b'b' ∷ []) ∷ [];
  api_keys = ((b'l' ∷ b'o' ∷ b'n' ∷ b'g' ∷ b'k' ∷ b'e' ∷ b'y' ∷ b'8' ∷ []), b'm' ∷ []) ∷ [];
  signer_url = default_signer;
  signer_secret =
      b'0' ∷ b'1' ∷ b'2' ∷ b'3' ∷ b'4' ∷ b'5' ∷ b'6' ∷ b'7' ∷ b'8' ∷ b'9' ∷ b'a' ∷ b'b' ∷ b'c'
      ∷ b'd' ∷ b'e' ∷ b'f' ∷ [];
  rate_rps = 50;
  rate_burst = pos 100;
  cors_origin = [];
  poll = pos 1000000000;
  hooks_private = false;
  chain = evm;
  engine_addr = [];
  engine_cert = [];
  engine_key = [];
  engine_ca = [];
  engine_server_name = engine;
  relay_urls = [];
}

base_accepted : load_config rd base ≡ loaded base_config
unfolding program
base_accepted = refl

load_config-IsServable_example : IsServable rd base_config
load_config-IsServable_example = load_config-IsServable rd base base_config base_accepted

sim_defaults :
    sim_settings (λ v. [])
    ≡ loaded (record { chain_id = 1337; block_ms = pos 2000; reorg_every = pos 0 })
unfolding program
sim_defaults = refl

sim_run-IsChain_example :
    let s : Settings = record { chain_id = 1337; block_ms = pos 2000; reorg_every = pos 3 } in
    IsChain (sim_run s 7) × (length (sim_run s 7).blocks ≡ 7 + 1) × IsStamped (sim_run s 7)
sim_run-IsChain_example =
    sim_run-IsChain (record { chain_id = 1337; block_ms = pos 2000; reorg_every = pos 3 }) 7
