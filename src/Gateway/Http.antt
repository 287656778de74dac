-- ===== src/Gateway/Http.antt =====
-- The answers of the gateway: server/gateway-service/internal/server/response.go and `authError` of
-- internal/middleware/auth.go, which write one error envelope. Headers are left out but for what a
-- body implies.
use go_folio.Prelude.{ℕ, String}

pub data Body {ℓ} (P : Type ℓ) : Type ℓ where
  error_body : (code message : String) → Body P
  payload : P → Body P
  raw : String → Body P
  no_body : Body P

pub record Response {ℓ} (P : Type ℓ) : Type ℓ where
  pub status : ℕ
  pub body : Body P

module _ {ℓ} {P : Type ℓ} where
  abbrev pub write_json : ℕ → P → Response P
  write_json status v = record { status = status; body = payload v }

  abbrev pub write_error : ℕ → String → String → Response P
  write_error status code message = record { status = status; body = error_body code message }
