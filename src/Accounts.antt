-- ===== src/Accounts.antt =====
-- The accounts of the API: what the handlers of internal/handlers/auth.go and
-- internal/handlers/twofactor.go share. The tables `users`, `refresh_tokens` and
-- `password_reset_tokens` are lists of rows. A handler is a chain of steps on them, each of which may
-- answer the request and so end the chain.
pub mod Tokens
pub mod Auth
pub mod Reset
pub mod TwoFactor
pub mod Rules
pub mod Moves
use void_link_tunnels.Base.{
  ℕ, Bool, true, false, Option, none, some, List, Bytes, codes, if◌then◌else◌, ◌⊎◌, inl, inr, ◌++◌,
}
use void_link_tunnels.Base.Rows.{select_row, update_rows, delete_rows}
use void_link_tunnels.Models.User.{User, UserResponse, AuthResponse, TotpSetupResponse}

-- A row of `refresh_tokens`.
pub record RefreshToken : Type 0 where
  pub id : Bytes
  pub user_id : Bytes
  pub token_hash : Bytes
  pub expires_at : ℕ

-- A row of `password_reset_tokens`.
pub record ResetToken : Type 0 where
  pub id : Bytes
  pub user_id : Bytes
  pub token_hash : Bytes
  pub expires_at : ℕ
  pub used : Bool

pub record Db : Type 0 where
  pub users : List User
  pub refresh_tokens : List RefreshToken
  pub reset_tokens : List ResetToken

-- The claims of an access token; the times are whole seconds.
pub record Claims : Type 0 where
  pub user_id : Bytes
  pub email : Bytes
  pub expires_at : ℕ
  pub issued_at : ℕ
  pub issuer : Bytes

-- A key of the TOTP library: its URL, and what drawing the QR code and encoding it as a PNG yield.
pub record OtpKey : Type 0 where
  pub url : Bytes
  pub image : Option Bytes
  pub png : Option Bytes

-- What the handlers call of other modules: bcrypt's comparison, SHA-256, the signing and parsing of
-- JSON web tokens (the parser is given the time, and yields the claims and the field `Valid`), the
-- making of a TOTP key from issuer, account and secret, the check of a code, and base 32 and 64.
pub record Primitives : Type 0 where
  pub compare_hash : Bytes → Bytes → Bool
  pub sha256 : Bytes → Bytes
  pub sign : Claims → Bytes → Option Bytes
  pub parse_with_claims : ℕ → Bytes → Bytes → Option (Claims × Bool)
  pub generate_otp : Bytes → Bytes → Bytes → Option OtpKey
  pub validate_otp : ℕ → Bytes → Bytes → Bool
  pub base32 : Bytes → Bytes
  pub base32_decode : Bytes → Option Bytes
  pub base64 : Bytes → Bytes

-- What the environment decides for one request: the time, which of its statements the database
-- carries out (counted from 0), the id of a row that is inserted, what the source of random bytes
-- yields, and what bcrypt, with the salt that it draws, makes of a password.
pub record Env : Type 0 where
  pub now : ℕ
  pub up : ℕ → Bool
  pub new_id : Bytes
  pub random : Option Bytes
  pub hashed : Bytes → Option Bytes

-- What is sent back.
pub data Answer : Type 0 where
  failure : ℕ → Bytes → Answer
  needs_code : Answer
  success : ℕ → Bytes → Answer
  registered : Bytes → Answer
  session : AuthResponse → Answer
  profile : UserResponse → Answer
  setup_started : TotpSetupResponse → Answer

-- A step goes on with a value, or answers.
pub data Outcome (A : Type 0) : Type 0 where
  value : A → Outcome A
  answered : Answer → Outcome A

abbrev pub Action : Type 0 → Type 0
Action A = Db → Outcome A × Db

unfoldable pub and_then : {A B : Type 0} → Outcome A → (A → Action B) → Action B
and_then (value a) f db = f a db
and_then (answered r) f db = (answered r, db)

infixl 5 ◌>>=◌ ◌>>◌
unfoldable pub ◌>>=◌ : {A B : Type 0} → Action A → (A → Action B) → Action B
unfolding and_then
◌>>=◌ m f db = let (o, db') = m db in and_then o f db'

unfoldable pub ◌>>◌ : {A B : Type 0} → Action A → Action B → Action B
unfolding ◌>>=◌
m >> k = m >>= λ _. k

abbrev pub pure : {A : Type 0} → A → Action A
pure a db = (value a, db)

-- `c.JSON(…); return`
abbrev pub answer : {A : Type 0} → Answer → Action A
answer r db = (answered r, db)

-- `if !test { c.JSON(…); return }`
unfoldable pub require : Bool → Answer → Action (Unit {0})
require test r db = (if test then value tt else answered r, db)

unfoldable pub value_or : {A : Type 0} → Option A → Answer → Outcome A
value_or none r = answered r
value_or (some a) r = value a

-- `v, err := …; if err != nil { c.JSON(…); return }`
unfoldable pub expect : {A : Type 0} → Option A → Answer → Action A
unfolding value_or
expect o r db = (value_or o r, db)

-- What `ShouldBindJSON` yields, after its validation of the `binding` tags: the request, or the text
-- of the error.
unfoldable pub bind_json : {A : Type 0} → Bytes ⊎ A → (Bytes → Answer) → Action A
bind_json (inl e) r db = (answered (r e), db)
bind_json (inr req) r db = (value req, db)

-- A query of one row: no row, and a failure of the database, are answered alike.
unfoldable pub query : {A : Type 0} → Bool → (Db → Option A) → Answer → Action A
unfolding value_or
query up f r db = (value_or (if up then f db else none) r, db)

-- A statement whose error is answered.
unfoldable pub exec : Bool → (Db → Db) → Answer → Action (Unit {0})
exec up f r db = if up then (value tt, f db) else (answered r, db)

-- A statement whose error is ignored.
unfoldable pub try_exec : Bool → (Db → Db) → Action (Unit {0})
try_exec up f db = (value tt, if up then f db else db)

-- The answer of a chain that ends in one.
abbrev pub Chain : Type 0
Chain = Action Answer

abbrev pub final : Outcome Answer → Answer
final (value r) = r
final (answered r) = r

abbrev pub run : Chain → Db → Answer × Db
run m db = let (o, db') = m db in (final o, db')

abbrev pub done : Answer → Chain
done r db = (value r, db)

-- `"Invalid request: " + err.Error()`
abbrev pub invalid_request : Bytes → Answer
invalid_request e = failure 400 (codes "Invalid request: " ++ e)
