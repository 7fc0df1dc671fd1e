-- ===== src/Middleware/Bearer.antt =====
-- Which headers the middleware accepts.
use void_link_tunnels.Base.{
  ℕ, ◌≡◌, ◌≤◌, ◌<◌, ◌+◌, ◌*◌, refl, ◌∙◌, true, false, Option, none, some, List, [], ◌∷◌, ◌++◌,
  Bytes, codes, Lacks, bytes_eq, bytes_beq, bytes_beq_iff, inl, inr, Bool-cases, Option-cases,
  arith,
}
use void_link_tunnels.Text.{to_lower, lower_byte, split}
use void_link_tunnels.Text.Split.{split-append, split_of_Lacks}
use void_link_tunnels.Accounts.{Claims, Primitives, failure}
use void_link_tunnels.Accounts.Tokens.{
  JwtManager, claims_for, generate_access_token, validate_access_token, second,
}
use void_link_tunnels.Middleware.{Identity, identity, bearer_token, auth_middleware}

bearer_text : to_lower (codes "Bearer") ≡ codes "bearer"
unfolding to_lower lower_byte
bearer_text = refl

bearer_solid : Lacks b' ' (codes "Bearer")
bearer_solid = omega arith

append-ne-nil : (s t : Bytes) (c : ℕ) → bytes_beq (s ++ c ∷ t) [] ≡ false
unfolding bytes_beq
append-ne-nil [] t c = refl
append-ne-nil (d ∷ s) t c = refl

bearer_token_sound :
    (parts : List Bytes) (token : Bytes)
    → bearer_token parts ≡ some token
    → (scheme : Bytes) × (parts ≡ scheme ∷ token ∷ []) × (to_lower scheme ≡ codes "bearer")
bearer_token_sound [] token e = absurd (cc)
bearer_token_sound (a ∷ []) token e = absurd (cc)
bearer_token_sound (a ∷ b ∷ c ∷ rest) token e = absurd (cc)
bearer_token_sound (a ∷ b ∷ []) token e =
    elim (Bool-cases (bytes_beq (to_lower a) (codes "bearer"))) [
      | inl hit ↦ (a, ground arith, (bytes_beq_iff (to_lower a) (codes "bearer")).0 hit)
      | inr miss ↦ absurd (ground arith)
    ]

module _ (lib : Primitives) (m : JwtManager) where
  -- A header of a scheme, a space and a token, the scheme `bearer` in any case.
  pub auth_middleware-append :
      (now : ℕ) (scheme token : Bytes)
      → to_lower scheme ≡ codes "bearer"
      → Lacks b' ' scheme
      → Lacks b' ' token
      → auth_middleware lib m now (scheme ++ b' ' ∷ token)
        ≡ identity (validate_access_token lib m now token)
  unfolding auth_middleware
  auth_middleware-append now scheme token bearer solid_scheme solid_token = rw (
    append-ne-nil scheme token b' ',
    split-append b' ' scheme token solid_scheme,
    split_of_Lacks b' ' token solid_token,
    (bytes_beq_iff (to_lower scheme) (codes "bearer")).1 bearer,
  )

  identity_sound :
      (claims : Option Claims) (who : Identity)
      → identity claims ≡ inr who
      → (c : Claims) × (claims ≡ some c)
        × (who ≡ record { user_id = c.user_id; user_email = c.email })
  identity_sound none who e = absurd (cc)
  identity_sound (some c) who e = (c, refl, ground arith)

  -- The one who is let in has shown, behind the word `bearer` in any case and one space, a token
  -- that is valid at that time, and is the user whom the token names.
  pub auth_middleware_sound :
      (now : ℕ) (header : Bytes) (who : Identity)
      → auth_middleware lib m now header ≡ inr who
      → (scheme : Bytes) × (token : Bytes) × (claims : Claims) × (split b' ' header
          ≡ scheme ∷ token ∷ [])
        × (to_lower scheme ≡ codes "bearer")
        × (validate_access_token lib m now token ≡ some claims)
        × (who ≡ record { user_id = claims.user_id; user_email = claims.email })
  unfolding auth_middleware
  auth_middleware_sound now header who e = elim (Bool-cases (bytes_beq header [])) [
    | inl empty ↦ absurd (ground arith)
    | inr given ↦ elim (Option-cases (bearer_token (split b' ' header))) [
      | inl bad ↦ absurd (cc (rw (given, bad) at e))
      | inr (token, shown) ↦
          let (scheme, parts, bearer) = bearer_token_sound _ token shown in
          let let_in : identity (validate_access_token lib m now token) ≡ inr who =
            rw (given, shown) at e in
          let (claims, valid, same) = identity_sound _ who let_in in
          (scheme, token, claims, parts, bearer, valid, same)
    ]
  ]

  -- Suppose that the library accepts the tokens that it has signed until they expire. Then an access
  -- token names its user to the middleware until a second before its lifetime is over.
  pub auth_middleware-generate_access_token :
      (now later : ℕ) (user_id email token : Bytes)
      → ((claims : Claims) (key tok : Bytes) (at_time : ℕ)
          → lib.sign claims key ≡ some tok
          → at_time < claims.expires_at * second
          → lib.parse_with_claims at_time tok key ≡ some (claims, true))
      → generate_access_token lib m user_id email now ≡ some token
      → Lacks b' ' token
      → later + second ≤ now + m.access_ttl
      → auth_middleware lib m later (codes "Bearer" ++ b' ' ∷ token)
        ≡ inr (record { user_id = user_id; user_email = email })
  unfolding generate_access_token validate_access_token
  auth_middleware-generate_access_token now later user_id email token accepts signed solid soon =
      let valid =
        accepts (claims_for lib m user_id email now) m.secret_key token later signed
          (omega arith) in
      auth_middleware-append later (codes "Bearer") token bearer_text bearer_solid solid ∙ rw valid

  -- Suppose that the library refuses the tokens that it has signed once they have expired. Then an
  -- access token is refused by the middleware when its lifetime is over.
  pub auth_middleware-expired :
      (now later : ℕ) (user_id email token : Bytes)
      → ((claims : Claims) (key tok : Bytes) (at_time : ℕ)
          → lib.sign claims key ≡ some tok
          → claims.expires_at * second ≤ at_time
          → lib.parse_with_claims at_time tok key ≡ none)
      → generate_access_token lib m user_id email now ≡ some token
      → Lacks b' ' token
      → now + m.access_ttl ≤ later
      → auth_middleware lib m later (codes "Bearer" ++ b' ' ∷ token)
        ≡ inl (failure 401 (codes "Invalid or expired token"))
  unfolding generate_access_token validate_access_token
  auth_middleware-expired now later user_id email token refuses signed solid over =
      let gone =
        refuses (claims_for lib m user_id email now) m.secret_key token later signed
          (omega arith) in
      auth_middleware-append later (codes "Bearer") token bearer_text bearer_solid solid ∙ rw gone
