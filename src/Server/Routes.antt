-- ===== src/Server/Routes.antt =====
-- The routes of services/gateway/internal/server/server.go and who gets through to them: `New` with the
-- middleware `cors` in front of the router and `auth` around all routes but three. net/http's router
-- is the function from a method and a path to a route.
use chain_forge.Common.{
  ℕ, ◌≡◌, ◌≢◌, ◌↔◌, refl, ap, ◌∙◌, sym, Bool, true, false, Bool-cases, inl, inr, str_eq,
  if◌then◌else◌, List, Option, none, some, String,
}
use chain_forge.Server.Access.{
  credential, name_of, IsMap, new_keys, auth, NoCollision, auth-new_keys,
}

pub data Route : Type 0 where
  healthz readyz metrics rpc status blocks stream sign simulate intent broadcast : Route
  list_hooks add_hook del_hook : Route

-- Whether a route is behind `auth`.
unfoldable pub is_guarded : Route → Bool
is_guarded healthz = false
is_guarded readyz = false
is_guarded metrics = false
is_guarded _ = true

-- A request with its key in the header and in the query.
pub record KeyedRequest : Type 0 where
  pub method : String
  pub path : List ℕ
  pub header_key : List ℕ
  pub query_key : List ℕ

-- What becomes of a request: `served` is a guarded route with the name of the client.
pub data Outcome : Type 0 where
  preflight unmatched unauthorized : Outcome
  opened : Route → Outcome
  served : Route → String → Outcome

-- A route that is not one of the three that need no key.
pub record IsBehindAuth (route : Route) : Type 0 where
  pub no_health : route ≢ healthz
  pub no_ready : route ≢ readyz
  pub no_metrics : route ≢ metrics

is_guarded_iff : (route : Route) → (is_guarded route ≡ true) ↔ IsBehindAuth route
unfolding is_guarded
is_guarded_iff route = (outside, inside route)
  where
    outside : is_guarded route ≡ true → IsBehindAuth route
    outside e = record {
      no_health = λ q. absurd (cc (ap is_guarded q, e));
      no_ready = λ q. absurd (cc (ap is_guarded q, e));
      no_metrics = λ q. absurd (cc (ap is_guarded q, e));
    }

    inside : (at : Route) → IsBehindAuth at → is_guarded at ≡ true
    inside healthz h = absurd (h.no_health refl)
    inside readyz h = absurd (h.no_ready refl)
    inside metrics h = absurd (h.no_metrics refl)
    inside rpc h = refl
    inside status h = refl
    inside blocks h = refl
    inside stream h = refl
    inside sign h = refl
    inside simulate h = refl
    inside intent h = refl
    inside broadcast h = refl
    inside list_hooks h = refl
    inside add_hook h = refl
    inside del_hook h = refl

module _ (sha256 : List ℕ → List ℕ) (router : String → List ℕ → Option Route) where
  unfoldable pub let_in : Route → Option String → Outcome
  let_in route none = unauthorized
  let_in route (some client) = served route client

  unfoldable pub routed : (List ℕ → Option String) → KeyedRequest → Option Route → Outcome
  routed keys r none = unmatched
  routed keys r (some route) =
      if is_guarded route
      then let_in route (auth sha256 keys r.header_key r.query_key)
      else opened route

  unfoldable pub dispatch : (List ℕ → Option String) → KeyedRequest → Outcome
  dispatch keys r =
      if str_eq r.method "OPTIONS" then preflight else routed keys r (router r.method r.path)

  let_in-served :
      (route route' : Route) (o : Option String) (client : String)
      → let_in route o ≡ served route' client
      → (route ≡ route') × (o ≡ some client)
  unfolding let_in
  let_in-served route route' none client e = absurd (cc e)
  let_in-served route route' (some name) client e = (cc e, cc e)

  routed-served :
      (keys : List ℕ → Option String) (r : KeyedRequest) (o : Option Route) (route : Route)
      (client : String)
      → (routed keys r o ≡ served route client) ↔ (
          (o ≡ some route)
          × (is_guarded route ≡ true)
          × (auth sha256 keys r.header_key r.query_key ≡ some client))
  unfolding routed let_in
  routed-served keys r none route client = (λ e. absurd (cc e), λ h. absurd (cc h.0))
  routed-served keys r (some at) route client = elim (Bool-cases (is_guarded at)) [
    | inl guarded ↦ (
      λ e.
          let (same, known) =
            let_in-served at route (auth sha256 keys r.header_key r.query_key) client
              (rw (guarded, routed) at e) in
          (ap some same, ap is_guarded (sym same) ∙ guarded, known),
      λ (found, _, known).
          let same : at ≡ route = cc found in
          rw (guarded, known, routed) (ap (λ x. served x client) same),
    )
    | inr free ↦ (
      λ e. absurd (cc (rw (free, routed) at e)),
      λ (found, guarded, _).
          let same : at ≡ route = cc found in absurd (cc (ap is_guarded same, free, guarded)),
    )
  ]

  -- A route is run for a client exactly when the request is no OPTIONS request, the router has that route
  -- for it, the route is not one of healthz, readyz and metrics, and the configured map has the key that
  -- the request presents under the client's name, if the key has no SHA-256 collision with a configured
  -- one.
  pub dispatch_served_iff :
      (api_keys : List (List ℕ × String)) (r : KeyedRequest) (route : Route) (client : String)
      → IsMap api_keys
      → NoCollision sha256 (credential r.header_key r.query_key) api_keys
      → (dispatch (new_keys sha256 api_keys) r ≡ served route client) ↔ (
          (str_eq r.method "OPTIONS" ≡ false)
          × (router r.method r.path ≡ some route)
          × IsBehindAuth route
          × (name_of api_keys (credential r.header_key r.query_key) ≡ some client))
  unfolding dispatch
  dispatch_served_iff api_keys r route client map safe =
      let known = auth-new_keys sha256 api_keys r.header_key r.query_key map safe in
      let keys = new_keys sha256 api_keys in
      let through = routed-served keys r (router r.method r.path) route client in
      elim (Bool-cases (str_eq r.method "OPTIONS")) [
        | inl asks ↦ (λ e. absurd (cc (rw (asks, dispatch) at e)), λ h. absurd (cc (asks, h.0)))
        | inr calls ↦ (
          λ e.
              let (found, guarded, named) = through.0 (rw (calls, dispatch) at e) in
              (calls, found, (is_guarded_iff route).0 guarded, sym known ∙ named),
          λ (_, found, guarded, named).
              rw (calls, dispatch)
                (through.1 (found, (is_guarded_iff route).1 guarded, known ∙ named)),
        )
      ]
