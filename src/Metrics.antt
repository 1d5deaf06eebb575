-- ===== src/Metrics.antt =====
-- services/gateway/internal/metrics/metrics.go: counters and gauges under a name with labels, and their
-- exposition as text. Numbers of type float64 are a type of their own; their operations, and what the
-- package fmt makes of a value for %q and %g, are the record `Values`. A map is its entries, in which a
-- key occurs once; the order in which a range visits its keys is any rearrangement of them.
pub mod Identity
pub mod Series
pub mod Exposition
mod Tests
use chain_forge.Common.{ℕ, Bool, true, false, ◌&&◌, ◌||◌, not, ◌==◌, if◌then◌else◌}
use chain_forge.Common.{List, [], ◌∷◌, ◌++◌, map, Option, none, some}
use chain_forge.Common.Bytes.{bytes_eq}
use chain_forge.Common.Sorting.{sort_by}

abbrev pub Text : Type 0
Text = List ℕ

pub record Values (F : Type 0) : Type 0 where
  pub zero_value : F
  pub one_value : F
  pub add : F → F → F
  pub show : F → Text
  pub quote : Text → Text

-- The labels of a series: their names in the order of a range, and the value of each.
pub record Labels : Type 0 where
  pub names : List Text
  pub value_of : Text → Text

pub record Registry (F : Type 0) : Type 0 where
  pub vals : List (Text × F)
  pub help : List (Text × Text)

unfoldable pub new : {F : Type 0} → Registry F
new = record { vals = []; help = [] }

module _ {A : Type 0} where
  unfoldable pub entry : List (Text × A) → Text → Option A
  entry [] k = none
  entry (e ∷ more) k = if bytes_eq e.0 k then some e.1 else entry more k

  unfoldable pub assigned : List (Text × A) → Text → A → List (Text × A)
  assigned [] k v = (k, v) ∷ []
  assigned (e ∷ more) k v = if bytes_eq e.0 k then (k, v) ∷ more else e ∷ assigned more k v

-- strings.Join with a comma.
unfoldable pub join : List Text → Text
join [] = []
join (t ∷ []) = t
join (t ∷ u ∷ more) = t ++ (b',' ∷ join (u ∷ more))

-- `k[:strings.IndexByte(k, '{')]`, or all of the key if it has no such byte.
unfoldable pub family : Text → Text
family [] = []
family (c ∷ k) = if c == b'{' then [] else c ∷ family k

abbrev pub help_words : Text
help_words = b'#' ∷ b' ' ∷ b'H' ∷ b'E' ∷ b'L' ∷ b'P' ∷ b' ' ∷ []

-- `seen[fam]`
unfoldable pub is_seen : Text → List Text → Bool
is_seen t [] = false
is_seen t (s ∷ more) = bytes_eq s t || is_seen t more

module _ {F : Type 0} (fl : Values F) where
  unfoldable pub part : Labels → Text → Text
  part labels k = k ++ (b'=' ∷ fl.quote (labels.value_of k))

  unfoldable pub braced : Text → Labels → List Text → Text
  braced name labels [] = name
  braced name labels (k ∷ ks) =
      name ++ (b'{' ∷ (join (map (part labels) (sort_by (λ t. t) (k ∷ ks))) ++ (b'}' ∷ [])))

  unfoldable pub key : Text → Labels → Text
  key name labels = braced name labels labels.names

  unfoldable pub describe : Registry F → Text → Text → Registry F
  describe r name help = record r { help = assigned r.help name help }

  -- The value at a key of the map, zero if there is none.
  unfoldable pub at : Registry F → Text → F
  at r k = elim (entry r.vals k) [ none ↦ fl.zero_value | some v ↦ v ]

  unfoldable pub add : Registry F → Text → Labels → F → Registry F
  add r name labels v =
      let k = key name labels in record r { vals = assigned r.vals k (fl.add (at r k) v) }

  unfoldable pub inc : Registry F → Text → Labels → Registry F
  inc r name labels = add r name labels fl.one_value

  unfoldable pub set : Registry F → Text → Labels → F → Registry F
  set r name labels v = record r { vals = assigned r.vals (key name labels) v }

  unfoldable pub value : Registry F → Text → Labels → F
  value r name labels = at r (key name labels)

  unfoldable pub help_line : Text → Text → Text
  help_line fam h = help_words ++ fam ++ (b' ' ∷ (h ++ (b'\n' ∷ [])))

  unfoldable pub sample_line : Registry F → Text → Text
  sample_line r k = k ++ (b' ' ∷ (fl.show (at r k) ++ (b'\n' ∷ [])))

  -- The line of help in front of a key's own, if its family has one that is not written yet, and the
  -- families whose help is written then.
  unfoldable pub help_due : Registry F → List Text → Text → Text
  help_due r seen fam = elim (entry r.help fam) [
    | none ↦ []
    | some h ↦ if is_seen fam seen then [] else help_line fam h
  ]

  unfoldable pub seen_after : Registry F → List Text → Text → List Text
  seen_after r seen fam = elim (entry r.help fam) [
    | none ↦ seen
    | some h ↦ if is_seen fam seen then seen else fam ∷ seen
  ]

  -- The loop of `Write` over the sorted keys.
  unfoldable pub write_from : Registry F → List Text → List Text → Text
  write_from r seen [] = []
  write_from r seen (k ∷ ks) =
      let rest = write_from r (seen_after r seen (family k)) ks in
      help_due r seen (family k) ++ sample_line r k ++ rest

  -- `Write` on the keys in the order of the range.
  unfoldable pub write : Registry F → List Text → Text
  write r order = write_from r [] (sort_by (λ t. t) order)
