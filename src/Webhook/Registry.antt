-- ===== src/Webhook/Registry.antt =====
-- services/gateway/internal/webhook/webhook.go: the registrations of a dispatcher, which a caller adds,
-- removes and lists. net/url and net are the record `Net`. The map from identifiers is the list of its
-- values; the order in which a range visits them is any rearrangement of that list.
pub mod Identifiers
pub mod Without
pub mod Listing
pub mod Delivered
mod Tests
use chain_forge.Common.{ℕ, ◌+◌, ◌-◌, Bool, true, false, ◌&&◌, ◌||◌, not, str_eq, if◌then◌else◌}
use chain_forge.Common.{List, [], ◌∷◌, ◌++◌, Option, none, some, String, length, replicate}
use chain_forge.Common.Bytes.{bytes_eq}
use chain_forge.Common.Int.{pos}
use chain_forge.Common.Sorting.{sort_by}
use chain_forge.Intent.Text.{decimal_text}
use chain_forge.Webhook.{Registration, Env, Dispatcher, deliver}

-- What `Parse` of net/url gives of a url.
pub record Url : Type 0 where
  pub scheme : String
  pub hostname : String

-- What is asked of an address that `ParseIP` reads.
pub record Ip : Type 0 where
  pub is_loopback : Bool
  pub is_private : Bool
  pub is_link_local : Bool
  pub is_unspecified : Bool

pub record Net : Type 0 where
  pub parse : String → Option Url
  pub equal_fold : String → String → Bool
  pub parse_ip : String → Option Ip

pub record Registry : Type 0 where
  pub regs : List Registration
  pub seq : ℕ
  pub allow_private : Bool

unfoldable pub empty : Bool → Registry
empty allow_private = record { regs = []; seq = 0; allow_private = allow_private }

-- `%04d` of a number that is not negative.
unfoldable pub padded : ℕ → List ℕ
padded n = let digits = decimal_text (pos n) in replicate (4 - length digits) b'0' ++ digits

unfoldable pub id_of : ℕ → List ℕ
id_of n = b'w' ∷ b'h' ∷ b'_' ∷ padded n

-- `delete` on the map.
unfoldable pub without : List ℕ → List Registration → List Registration
without id [] = []
without id (r ∷ rs) = if bytes_eq r.id id then without id rs else r ∷ without id rs

unfoldable pub has : List ℕ → List Registration → Bool
has id [] = false
has id (r ∷ rs) = bytes_eq r.id id || has id rs

-- Whether an address is of the kinds that `validate` refuses.
unfoldable pub is_internal : Option Ip → Bool
is_internal none = false
is_internal (some ip) = ip.is_loopback || ip.is_private || ip.is_link_local || ip.is_unspecified

module _ (net : Net) where
  unfoldable pub is_allowed : Bool → Option Url → Bool
  is_allowed allow_private none = false
  is_allowed allow_private (some u) =
      if (not (str_eq u.scheme "https") && not (str_eq u.scheme "http")) || str_eq u.hostname ""
      then false
      else if allow_private
      then true
      else if net.equal_fold u.hostname "localhost"
      then false
      else not (is_internal (net.parse_ip u.hostname))

  -- Whether the error of `validate` is nil.
  unfoldable pub validate : Bool → String → Bool
  validate allow_private raw = is_allowed allow_private (net.parse raw)

  unfoldable pub register : Registry → String → List ℕ → Option Registration × Registry
  register d raw secret =
      let r : Registration = record { id = id_of (d.seq + 1); url = raw; secret = secret } in
      if validate d.allow_private raw
      then (some r, record d { regs = r ∷ without r.id d.regs; seq = d.seq + 1 })
      else (none, d)

unfoldable pub remove : Registry → List ℕ → Bool × Registry
remove d id = (has id d.regs, record d { regs = without id d.regs })

-- `List`, on the values of the map in the order of its range.
unfoldable pub list : List Registration → List Registration
list order = sort_by (λ r. r.id) order

-- `Deliver` to the registrations of `List`.
unfoldable pub deliver_listed :
    {W : Type 0} → Env W → Dispatcher → List Registration → String → List ℕ → W → ℕ × ℕ × W
deliver_listed env d order typ body w = deliver env d typ body (list order) w

-- `Run` over the events, by their types and bodies, that the subscription gives until it is closed or
-- the context ends.
unfoldable pub run :
    {W : Type 0} → Env W → Dispatcher → List Registration → List (String × List ℕ) → W → W
run env d order [] w = w
run env d order (ev ∷ more) w = run env d order more (deliver_listed env d order ev.0 ev.1 w).2
