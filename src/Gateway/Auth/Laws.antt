-- ===== src/Gateway/Auth/Laws.antt =====
-- Who passes the middleware of the admin routes.
use go_folio.Prelude.{
  ◌≡◌, ◌∷◌, [], none, some, List, String, true, arith, Bool-cases, ◌⊎◌, ◌==◌, eq_iff, ◌≢◌, inl, sym,
  inr, ℕ, ==_of_ne, Option-cases, ne_of_==, refl,
}
use mathlib.Core.List.{Mem, mem-cons, not-mem-nil}
use mathlib.Core.Logic.Or
use go_folio.Gateway.Auth.{
  TokenVerifier, Verifier, contains_role, Request, Handler, unauthorized, bearer_token,
  require_auth, require_role, forbidden, has_role, verified,
}

contains_role-mem :
    (roles : List String) (role : String) → contains_role roles role ≡ true → Mem role roles
unfolding contains_role
contains_role-mem [] role e = absurd (cc)
contains_role-mem (r ∷ roles) role e = elim (Bool-cases (r == role)) [
  | inl same ↦ mem-cons.1 (Or.inl (sym ((eq_iff r role).0 same)))
  | inr differs ↦ mem-cons.1 (Or.inr (contains_role-mem roles role (ground arith)))
]

mem-contains_role :
    (roles : List String) (role : String) → Mem role roles → contains_role roles role ≡ true
unfolding contains_role
mem-contains_role [] role m = absurd (not-mem-nil m)
mem-contains_role (r ∷ roles) role m =
    Or.elim (hlevel) (mem-cons.0 m) (λ e. ground (arith, eq_iff r role))
      (λ later. ground (arith, mem-contains_role roles role later))

-- A request with a token that verifies, and whose claims list the role.
pub record IsAuthorized (v : TokenVerifier) (role : String) (r : Request) (roles : List String)
    : Type 0 where
  pub id : v.IdToken
  pub present : bearer_token r ≢ ""
  pub genuine : v.verify (bearer_token r) ≡ some id
  pub decoded : v.claims id ≡ some roles
  pub listed : Mem role roles

module _ {ℓ} {R : Type ℓ} (refuse : ℕ → String → String → R) (v : TokenVerifier) (role : String)
    (next : Handler R) where
  abbrev pub protect : Handler R
  protect = require_auth refuse (some v) (require_role refuse (some v) role next)

  -- An authorized request is passed on, with the roles of its own token as its context, whatever the
  -- context was.
  pub protect-passes :
      (r : Request) (roles : List String)
      → IsAuthorized v role r roles
      → protect r ≡ next (record r { context = some roles })
  unfolding require_auth require_role has_role verified
  protect-passes r roles a =
      let ok_role = mem-contains_role roles role a.listed in
      let token = ==_of_ne (bearer_token r) "" a.present in
      rw (token, a.genuine, a.decoded) (rw ok_role refl)

  pub protect-verified :
      (r : Request)
      → (protect r ≡ unauthorized refuse)
        ⊎ (protect r ≡ forbidden refuse)
        ⊎ ((roles : List String) × IsAuthorized v role r roles
            × (protect r ≡ next (record r { context = some roles })))
  unfolding require_auth require_role has_role verified
  protect-verified r = elim (Bool-cases (bearer_token r == "")) [
    | inl absent ↦ inl (rw absent refl)
    | inr present ↦ elim (Option-cases (v.verify (bearer_token r))) [
      | inl forged ↦ inl (rw (present, forged) refl)
      | inr (id, genuine) ↦ elim (Option-cases (v.claims id)) [
        | inl undecoded ↦ inl (rw (present, genuine, undecoded) refl)
        | inr (roles, decoded) ↦ elim (Bool-cases (contains_role roles role)) [
          | inl listed ↦
              let a : IsAuthorized v role r roles = record {
                id = id;
                present = ne_of_== (bearer_token r) "" present;
                genuine = genuine;
                decoded = decoded;
                listed = contains_role-mem roles role listed;
              } in
              inr (inr (roles, a, protect-passes r roles a))
          | inr unlisted ↦ inr (inl (rw (present, genuine, decoded) (rw unlisted refl)))
        ]
      ]
    ]
  ]

module _ {ℓ} {R : Type ℓ} (refuse : ℕ → String → String → R) (role : String)
    (next : Handler R) where
  -- What the two guards make of a request, with tokens verified and in the permissive mode.
  abbrev pub IsAnswered : Verifier → Request → R → Type (ℓ ⊔ 1)
  IsAnswered mode r out =
      ((mode ≡ none) × (out ≡ next r))
      ⊎ ((v : TokenVerifier) × (mode ≡ some v)
          × ((out ≡ unauthorized refuse)
              ⊎ (out ≡ forbidden refuse)
              ⊎ ((roles : List String) × IsAuthorized v role r roles
                  × (out ≡ next (record r { context = some roles }))))
          × ((roles : List String)
              → IsAuthorized v role r roles
              → out ≡ next (record r { context = some roles })))

  -- In the permissive mode, which has no verifier, every request reaches the handler, whatever its
  -- token. With a verifier, every request is answered 401, 403, or by the handler, and the last only
  -- if the request is authorized: it has a token that verifies, and whose claims list the role. Each
  -- authorized request reaches the handler, with the roles of its token as its context.
  pub protect-cases :
      (mode : Verifier) (r : Request)
      → IsAnswered mode r (require_auth refuse mode (require_role refuse mode role next) r)
  unfolding require_auth require_role
  protect-cases none r = inl (refl, refl)
  protect-cases (some v) r = inr (
    v,
    refl,
    protect-verified refuse v role next r,
    λ roles a. protect-passes refuse v role next r roles a,
  )
