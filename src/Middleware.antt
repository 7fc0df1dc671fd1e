-- ===== src/Middleware.antt =====
-- `AuthMiddleware` of internal/middleware/auth.go: who a request is from, by its header
-- `Authorization`. The text is empty where the header is missing.
pub mod Bearer
use void_link_tunnels.Base.{
  ℕ, Bool, not, Option, none, some, List, [], ◌∷◌, Bytes, codes, ◌==◌, bytes_eq, ◌⊎◌, inl, inr,
  if◌then◌else◌,
}
use void_link_tunnels.Text.{to_lower, split}
use void_link_tunnels.Accounts.{Claims, Primitives, Answer, failure}
use void_link_tunnels.Accounts.Tokens.{JwtManager, validate_access_token}

-- The keys `user_id` and `user_email` of the context.
pub record Identity : Type 0 where
  pub user_id : Bytes
  pub user_email : Bytes

abbrev unauthorized : Bytes → Answer
unauthorized text = failure 401 text

-- `ValidateAccessToken`, and what is set in the context.
abbrev pub identity : Option Claims → Answer ⊎ Identity
identity none = inl (unauthorized (codes "Invalid or expired token"))
identity (some claims) = inr (record { user_id = claims.user_id; user_email = claims.email })

-- The second of exactly two parts, of which the first is the scheme.
abbrev pub bearer_token : List Bytes → Option Bytes
bearer_token (scheme ∷ token ∷ []) = if to_lower scheme == codes "bearer" then some token else none
bearer_token _ = none

module _ (lib : Primitives) (m : JwtManager) where
  abbrev pub validated : ℕ → Option Bytes → Answer ⊎ Identity
  validated now none = inl (unauthorized (codes "Invalid authorization header format"))
  validated now (some token) = identity (validate_access_token lib m now token)

  unfoldable pub auth_middleware : ℕ → Bytes → Answer ⊎ Identity
  auth_middleware now header =
      if header == []
      then inl (unauthorized (codes "Authorization header required"))
      else validated now (bearer_token (split b' ' header))
