-- ===== src/Server/Access.antt =====
-- Who is let in by services/gateway/internal/server/server.go, and what it tells of its state: `auth`,
-- `ready` and `blocks`. SHA-256 and strconv.Atoi are parameters; a key is its list of bytes.
use chain_forge.Common.{ℕ, ◌+◌, ◌==◌, ◌≡◌, refl, sym, ap, ◌∙◌, Bool, true, false}
use chain_forge.Common.{◌||◌, not, ltb, str_eq, if◌then◌else◌}
use chain_forge.Common.{
  List, [], ◌∷◌, Option, none, some, String, All, Bool-cases, Option-cases, inl, inr,
}
use chain_forge.Common.Int.{ℤ, pos, negsuc}
use chain_forge.Common.Bytes.{bytes_eq, bytes_eq_refl, bytes_eq_same}
use chain_forge.Upstream.{Pool, Status, health}
use chain_forge.Indexer
use chain_forge.Indexer.{Indexer, Block, newest}

-- A header or a query parameter that is not there is empty.
unfoldable pub credential : List ℕ → List ℕ → List ℕ
credential [] query = query
credential (c ∷ header) query = c ∷ header

-- The name under a key in a Go map, as its list of pairs.
unfoldable pub name_of : List (List ℕ × String) → List ℕ → Option String
name_of [] key = none
name_of ((k, name) ∷ more) key = if bytes_eq k key then some name else name_of more key

-- No two pairs have the same key.
unfoldable pub IsMap : List (List ℕ × String) → Type 0
IsMap [] = Unit
IsMap ((k, name) ∷ more) = name_of more k ≡ none × IsMap more

module _ (sha256 : List ℕ → List ℕ) where
  -- The loop of `New` over the pairs of a key and its client's name, for the map from the hashes.
  unfoldable pub add_keys :
      (List ℕ → Option String) → List (List ℕ × String) → List ℕ → Option String
  add_keys keys [] = keys
  add_keys keys ((k, name) ∷ more) =
      add_keys (λ h. if bytes_eq (sha256 k) h then some name else keys h) more

  unfoldable pub new_keys : List (List ℕ × String) → List ℕ → Option String
  new_keys api_keys = add_keys (λ h. none) api_keys

  -- The client that is let in by `auth`, or none for the status 401.
  unfoldable pub auth : (List ℕ → Option String) → List ℕ → List ℕ → Option String
  auth keys header query = keys (sha256 (credential header query))

  -- No key hashes to what the one that is presented hashes to, but for itself.
  unfoldable pub NoCollision : List ℕ → List (List ℕ × String) → Type 0
  NoCollision key api_keys = All (λ (k, _). sha256 k ≡ sha256 key → k ≡ key) api_keys

  absent :
      (keys : List ℕ → Option String) (api_keys : List (List ℕ × String)) (key : List ℕ)
      → NoCollision key api_keys
      → name_of api_keys key ≡ none
      → add_keys keys api_keys (sha256 key) ≡ keys (sha256 key)
  unfolding add_keys name_of NoCollision
  absent keys [] key safe h = refl
  absent keys ((k, name) ∷ more) key (safe, rest) h = elim (Bool-cases (bytes_eq k key)) [
    | inl is ↦ absurd (cc (rw (is, name_of) at h))
    | inr isnt ↦ elim (Bool-cases (bytes_eq (sha256 k) (sha256 key))) [
      | inl clash ↦
          let same : k ≡ key = safe (bytes_eq_same _ _ clash) in
          let is : bytes_eq k key ≡ true = ap (λ x. bytes_eq x key) same ∙ bytes_eq_refl key in
          absurd (cc (is, isnt))
      | inr apart ↦
          absent (λ h. if bytes_eq (sha256 k) h then some name else keys h) more key rest
            (rw (isnt, name_of) at h)
          ∙ ap (λ t. if t then some name else keys (sha256 key)) apart
    ]
  ]

  present :
      (keys : List ℕ → Option String) (api_keys : List (List ℕ × String)) (key : List ℕ)
      (name : String)
      → NoCollision key api_keys
      → IsMap api_keys
      → name_of api_keys key ≡ some name
      → add_keys keys api_keys (sha256 key) ≡ some name
  unfolding add_keys name_of NoCollision IsMap
  present keys [] key name safe map h = absurd (cc h)
  present keys ((k, n) ∷ more) key name (safe, rest) (fresh, map) h =
      elim (Bool-cases (bytes_eq k key)) [
        | inl is ↦
            let same : k ≡ key = bytes_eq_same k key is in
            let n_is : some n ≡ some name = rw (is, name_of) at h in
            let hit : bytes_eq (sha256 k) (sha256 key) ≡ true =
              ap (λ x. bytes_eq (sha256 x) (sha256 key)) same ∙ bytes_eq_refl (sha256 key) in
            absent (λ h. if bytes_eq (sha256 k) h then some n else keys h) more key rest
              (ap (name_of more) (sym same) ∙ fresh)
            ∙ ap (λ t. if t then some n else keys (sha256 key)) hit
            ∙ n_is
        | inr isnt ↦
            present (λ h. if bytes_eq (sha256 k) h then some n else keys h) more key name rest map
              (rw (isnt, name_of) at h)
      ]

  -- A caller is let in, under a name, exactly when the configured map has the key that it presents
  -- under that name, where the key has no SHA-256 collision with a configured one. The key is that of
  -- the header, or that of the query where the header has none.
  pub auth-new_keys :
      (api_keys : List (List ℕ × String)) (header query : List ℕ)
      → IsMap api_keys
      → NoCollision (credential header query) api_keys
      → auth (new_keys api_keys) header query ≡ name_of api_keys (credential header query)
  unfolding auth new_keys
  auth-new_keys api_keys header query map safe =
      let key = credential header query in
      elim (Option-cases (name_of api_keys key)) [
        | inl miss ↦ absent (λ h. none) api_keys key safe miss ∙ sym miss
        | inr (name, hit) ↦ present (λ h. none) api_keys key name safe map hit ∙ sym hit
      ]

unfoldable pub healthy : List Status → ℕ
healthy [] = 0
healthy (e ∷ es) = let more = healthy es in if not (str_eq e.state "open") then more + 1 else more

-- What `ready` answers, for the pool and the index.
unfoldable pub ready : Pool → Indexer → Bool
ready p ix = elim (newest ix) [ none ↦ false | some _ ↦ not (healthy (health p) == 0) ]

-- `n < 1 || n > 500` is refused.
unfoldable pub bounded : Option ℤ → Option ℤ
bounded none = none
bounded (some (negsuc n)) = none
bounded (some (pos n)) = if ltb n 1 || ltb 500 n then none else some (pos n)

-- The limit of `blocks`, with its text parsed where it is given: none for the status 400.
unfoldable pub limit_of : (String → Option ℤ) → String → Option ℤ
limit_of atoi v = if str_eq v "" then some (pos 20) else bounded (atoi v)

unfoldable pub blocks : (String → Option ℤ) → Indexer → String → Option (List Block)
blocks atoi ix v = elim (limit_of atoi v) [ none ↦ none | some n ↦ some (Indexer.blocks ix n) ]
