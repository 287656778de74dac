-- ===== src/Gateway/Auth.antt =====
-- server/gateway-service/internal/middleware/auth.go. The OIDC library is a parameter: what it makes
-- of a token, and the role list it decodes from a verified one.
pub mod Laws
use Prim.Native.Char.{code}
use go_folio.Prelude.{
  ℕ, Bool, false, ◌||◌, Option, none, some, List, [], ◌∷◌, String, ◌==◌, eqb, if◌then◌else◌,
}

pub record TokenVerifier : Type 1 where
  pub IdToken : Type 0
  pub verify : String → Option IdToken
  -- `realm_access.roles` of the token's claims, or the failure to decode them
  pub claims : IdToken → Option (List String)

-- `none` is the permissive mode.
abbrev pub Verifier : Type 1
Verifier = Option TokenVerifier

-- A request: its Authorization header and the claims that its context holds.
pub record Request : Type 0 where
  pub authorization : String
  pub context : Option (List String)

-- A handler with what it makes of a request, an answer or a change of states with one.
abbrev pub Handler {ℓ} : Type ℓ → Type ℓ
Handler R = Request → R

-- The text behind a prefix.
unfoldable pub strip_prefix : String → String → Option String
strip_prefix String.[] s = some s
strip_prefix (String.◌∷◌ c p) String.[] = none
strip_prefix (String.◌∷◌ c p) (String.◌∷◌ d s) =
    if eqb (code c) (code d) then strip_prefix p s else none

unfoldable pub bearer_token : Request → String
unfolding strip_prefix
bearer_token r = elim (strip_prefix "Bearer " r.authorization) [ none ↦ "" | some token ↦ token ]

unfoldable pub contains_role : List String → String → Bool
contains_role [] target = false
contains_role (r ∷ roles) target = r == target || contains_role roles target

unfoldable pub has_role : Option (List String) → String → Bool
unfolding contains_role
has_role none role = false
has_role (some roles) role = contains_role roles role

-- `refuse` is authError, on what the handlers make.
module _ {ℓ} {R : Type ℓ} (refuse : ℕ → String → String → R) where
  abbrev pub unauthorized : R
  unauthorized = refuse 401 "UNAUTHORIZED" "missing or invalid token"

  abbrev pub forbidden : R
  forbidden = refuse 403 "FORBIDDEN" "insufficient permissions"

  -- Behind the decoding of the claims, and behind the verification of a token that is there.
  unfoldable pub with_claims : Handler R → Request → Option (List String) → R
  with_claims next r none = unauthorized
  with_claims next r (some roles) = next (record r { context = some roles })

  unfoldable pub verified : (v : TokenVerifier) → Handler R → Request → Option v.IdToken → R
  unfolding with_claims
  verified v next r none = unauthorized
  verified v next r (some id) = with_claims next r (v.claims id)

  unfoldable pub require_auth : Verifier → Handler R → Handler R
  unfolding bearer_token verified
  require_auth none next r = next r
  require_auth (some v) next r =
      let raw = bearer_token r in
      if raw == "" then unauthorized else verified v next r (v.verify raw)

  unfoldable pub require_role : Verifier → String → Handler R → Handler R
  unfolding has_role
  require_role none role next r = next r
  require_role (some v) role next r = if has_role r.context role then next r else forbidden
