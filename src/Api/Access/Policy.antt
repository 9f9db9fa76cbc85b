-- ===== src/Api/Access/Policy.antt =====
-- internal/domain/api/server.go: who may reach which handler through Router, and the paths that
-- a pattern of the mux stands for.
pub mod Paths
use hatchet_workflow.Base.Text.{trim_prefix, has_prefix, apart, join}
use hatchet_workflow.Api.Access.Policy.Paths.{Fits, openness, is_public_path-openness}
use hatchet_workflow.Base.{
  ℕ, String, Bool, true, false, not, ◌&&◌, ◌||◌, if◌then◌else◌, ◌≡◌, refl, ◌≢◌, ap, List, [], ◌∷◌,
  Memᴰ, map, map-Memᴰ, arith, Option-cases, Bool-cases, String-cases, eq_false, leb, inl, inr,
  eq_iff, Option, none, some, ◌==◌, arith,
}
use hatchet_workflow.Auth.{
  Handler, Claims, role_level, Reply, reached, stopped, Request, Verifier, claims_of, credentials,
  is_public_path, auth_middleware, tenant_required, require_role, require_root,
}
use hatchet_workflow.Api.Access.Endpoints.{
  Endpoint, Audience, anyone, signed_in, member, operator, owner, root, audience, serve_spa,
}
use hatchet_workflow.Api.Access.{Guard, Route, router, behind, serve}

-- Whom the code takes the request to come from.
unfoldable pub identity : Verifier → Request → Option Claims
unfolding credentials
identity v r =
    if credentials r == "" then none else claims_of v (trim_prefix "Bearer " (credentials r))

-- Who belongs to an audience.
unfoldable pub granted : Audience → Option Claims → Bool
granted anyone _ = true
granted signed_in none = false
granted signed_in (some c) = true
granted member none = false
granted member (some c) = not (c.tenant_id == "")
granted operator none = false
granted operator (some c) =
    not (c.tenant_id == "") && (c.is_root || (c.role == "operator" || c.role == "owner"))
granted owner none = false
granted owner (some c) = not (c.tenant_id == "") && (c.is_root || c.role == "owner")
granted root none = false
granted root (some c) = c.is_root

-- The middlewares that keep a handler for its audience.
guards_for : Audience → List Guard
guards_for anyone = []
guards_for signed_in = []
guards_for member = Guard.tenant_required ∷ []
guards_for operator = Guard.tenant_required ∷ Guard.role_required "operator" ∷ []
guards_for owner = Guard.tenant_required ∷ Guard.role_required "owner" ∷ []
guards_for root = Guard.root_required ∷ []

-- Do the paths of an audience's routes pass without credentials?
is_open_to : Audience → Bool
is_open_to anyone = true
is_open_to signed_in = false
is_open_to member = false
is_open_to operator = false
is_open_to owner = false
is_open_to root = false

-- Every route of Router, with the application left aside, has the middlewares of its audience, and
-- its paths are public when it is for anyone.
placed : Route → Option Bool × List Guard
unfolding openness
placed x = (openness x.pattern, x.guards)

due : Route → Option Bool × List Guard
unfolding is_open_to guards_for audience
due x = (some (is_open_to (audience x.endpoint)), guards_for (audience x.endpoint))

routes-placed : map placed (router false) ≡ map due (router false)
unfolding placed due router Paths.literal Paths.settled is_public_path join has_prefix apart
routes-placed = refl

-- The handler that a request reaches, with the claims in its context.
unfoldable pub outcome : Reply Endpoint → Option (Endpoint × Option Claims)
outcome (reached e who) = some (e, who)
outcome (stopped _ _) = none

-- Public paths pass with no claims, whatever the credentials.
unfoldable pub shown : Audience → Option Claims → Option Claims
shown anyone _ = none
shown signed_in who = who
shown member who = who
shown operator who = who
shown owner who = who
shown root who = who

-- The roles of at least an operator's level, and of an owner's.
operator_level :
    (role : String)
    → leb (role_level "operator") (role_level role) ≡ (role == "operator" || role == "owner")
unfolding role_level
operator_level role = elim (String-cases role "viewer") [
  | inl e ↦ rw e refl
  | inr ne ↦ ground (arith, eq_false role "viewer" ne)
]

owner_level : (role : String) → leb (role_level "owner") (role_level role) ≡ (role == "owner")
unfolding role_level
owner_level role = elim (String-cases role "viewer") [
  | inl e ↦ rw e refl
  | inr ne ↦ elim (String-cases role "operator") [
    | inl e ↦ rw e refl
    | inr ne' ↦ ground (arith, eq_false role "viewer" ne, eq_false role "operator" ne')
  ]
]

-- The middlewares due to an audience let through exactly those that belong to it.
module _ (e : Endpoint) (c : Claims) where
  LetThrough : Audience → Type 0
  unfolding granted outcome behind
  LetThrough a =
      outcome (behind (guards_for a) e (some c))
      ≡ (if granted a (some c) then some (e, some c) else none)

  behind-member : LetThrough member
  unfolding LetThrough guards_for granted outcome behind tenant_required
  behind-member = elim (Bool-cases (c.tenant_id == "")) [
    | inl p ↦ ground (arith, p)
    | inr p ↦ ground (arith, p)
  ]

  behind-operator : LetThrough operator
  unfolding LetThrough guards_for granted outcome behind tenant_required require_role
  behind-operator = ground (arith, operator_level c.role)

  behind-owner : LetThrough owner
  unfolding LetThrough guards_for granted outcome behind tenant_required require_role
  behind-owner = ground (arith, owner_level c.role)

  behind-root : LetThrough root
  unfolding LetThrough guards_for granted outcome behind require_root
  behind-root = ground arith

  behind-guards_for : (a : Audience) → LetThrough a
  unfolding LetThrough guards_for granted outcome behind
  behind-guards_for anyone = refl
  behind-guards_for signed_in = refl
  behind-guards_for member = behind-member
  behind-guards_for operator = behind-operator
  behind-guards_for owner = behind-owner
  behind-guards_for root = behind-root

-- Serving a request whose route is known, by the audience of the route.
module _ (find : Request → Option Route) (unrouted : Request → Handler Endpoint) (v : Verifier)
    (r : Request) (x : Route) where
  ServedTo : Audience → Type 0
  unfolding granted shown outcome serve identity
  ServedTo a =
      outcome (serve find unrouted v r)
      ≡ (if granted a (identity v r) then some (x.endpoint, shown a (identity v r)) else none)

  serve-anyone : find r ≡ some x → x.guards ≡ [] → is_public_path r.path ≡ true → ServedTo anyone
  unfolding ServedTo serve auth_middleware behind granted shown outcome
  serve-anyone found bare open_path = rw (open_path, found, bare) refl

  -- What the middlewares after the authentication do with claims they find.
  serve-guarded :
      (a : Audience)
      → find r ≡ some x
      → x.guards ≡ guards_for a
      → is_public_path r.path ≡ false
      → granted a none ≡ false
      → ((c : Claims) → shown a (some c) ≡ some c)
      → ServedTo a
  unfolding ServedTo serve auth_middleware identity outcome LetThrough
  serve-guarded a found kept closed_path nobody full = elim (Bool-cases (credentials r == "")) [
    | inl e ↦ rw (closed_path, e, nobody) refl
    | inr e ↦ elim (Option-cases (claims_of v (trim_prefix "Bearer " (credentials r)))) [
      | inl p ↦ rw (closed_path, e, p, nobody) refl
      | inr (c, p) ↦ rw (closed_path, e, p, found, kept, full c) (behind-guards_for x.endpoint c a)
    ]
  ]

  serve-audience :
      (a : Audience)
      → find r ≡ some x
      → x.guards ≡ guards_for a
      → is_public_path r.path ≡ is_open_to a
      → ServedTo a
  unfolding guards_for is_open_to granted shown
  serve-audience anyone found kept path = serve-anyone found kept path
  serve-audience signed_in found kept path =
      serve-guarded signed_in found kept path refl (λ c. refl)
  serve-audience member found kept path = serve-guarded member found kept path refl (λ c. refl)
  serve-audience operator found kept path = serve-guarded operator found kept path refl (λ c. refl)
  serve-audience owner found kept path = serve-guarded owner found kept path refl (λ c. refl)
  serve-audience root found kept path = serve-guarded root found kept path refl (λ c. refl)

-- Let a request's route be one that Router mounts, other than the one of the single-page
-- application, and let its path fit the route's pattern. The handler of the route is reached exactly
-- when whom the credentials prove belongs to the handler's audience: anyone; whoever signs in; the
-- members of a tenant; its operators or owners, or root users, with a tenant selected; its owners,
-- or root users, with a tenant selected; root users. The handler finds those claims in its context,
-- except on the routes for anyone, where it finds none; no other handler is reached.
pub serve-granted :
    (find : Request → Option Route) (unrouted : Request → Handler Endpoint) (v : Verifier)
    (r : Request) (x : Route)
    → find r ≡ some x
    → Memᴰ x (router false)
    → Fits x.pattern r.path
    → outcome (serve find unrouted v r) ≡ (
        if granted (audience x.endpoint) (identity v r)
        then some (x.endpoint, shown (audience x.endpoint) (identity v r))
        else none)
unfolding placed due ServedTo
serve-granted find unrouted v r x found mounted fits =
    let agree : placed x ≡ due x = map-Memᴰ placed due (router false) routes-placed x mounted in
    serve-audience find unrouted v r x (audience x.endpoint) found (ap (λ p. p.1) agree) (
      is_public_path-openness x.pattern r.path (is_open_to (audience x.endpoint))
        (ap (λ p. p.0) agree) fits)
