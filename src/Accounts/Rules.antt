-- ===== src/Accounts/Rules.antt =====
-- What holds after a chain of steps: one rule for each kind of step. `Q` speaks of the outcome and
-- of the tables after the chain.
use void_link_tunnels.Base.{
  Bool, true, false, not, Option, none, some, Bytes, ◌⊎◌, inl, inr, ◌≡◌, refl, arith,
}
use void_link_tunnels.Accounts.{
  Db, Answer, Outcome, answered, Action, ◌>>=◌, ◌>>◌, require, expect, bind_json, query, exec,
  try_exec,
}
use void_link_tunnels.Models.User.{User}
use void_link_tunnels.Accounts.TwoFactor.{stored_secret}

module _ {B : Type 0} (Q : Outcome B × Db → Type 0) where
  pub after-bind_json :
      {A : Type 0} (body : Bytes ⊎ A) (r : Bytes → Answer) (k : A → Action B) (db : Db)
      → ((e : Bytes) → Q (answered (r e), db))
      → ((req : A) → body ≡ inr req → Q (k req db))
      → Q ((bind_json body r >>= k) db)
  unfolding ◌>>=◌ bind_json
  after-bind_json (inl e) r k db no_request go = no_request e
  after-bind_json (inr req) r k db no_request go = go req refl

  pub after-expect :
      {A : Type 0} (o : Option A) (r : Answer) (k : A → Action B) (db : Db)
      → Q (answered r, db)
      → ((a : A) → o ≡ some a → Q (k a db))
      → Q ((expect o r >>= k) db)
  unfolding ◌>>=◌ expect
  after-expect none r k db stop go = stop
  after-expect (some a) r k db stop go = go a refl

  pub after-query :
      {A : Type 0} (up : Bool) (f : Db → Option A) (r : Answer) (k : A → Action B) (db : Db)
      → Q (answered r, db)
      → ((a : A) → f db ≡ some a → Q (k a db))
      → Q ((query up f r >>= k) db)
  unfolding ◌>>=◌ query expect
  after-query true f r k db stop go = after-expect (f db) r k db stop go
  after-query false f r k db stop go = stop

  pub after-require :
      (test : Bool) (r : Answer) (k : Action B) (db : Db)
      → Q (answered r, db)
      → (test ≡ true → Q (k db))
      → Q ((require test r >> k) db)
  unfolding ◌>>◌ require
  after-require true r k db stop go = go refl
  after-require false r k db stop go = stop

  pub after-exec :
      (up : Bool) (f : Db → Db) (r : Answer) (k : Action B) (db : Db)
      → Q (answered r, db)
      → Q (k (f db))
      → Q ((exec up f r >> k) db)
  unfolding ◌>>◌ exec
  after-exec true f r k db stop go = go
  after-exec false f r k db stop go = stop

  pub after-try_exec :
      (up : Bool) (f : Db → Db) (k : Action B) (db : Db)
      → Q (k db)
      → Q (k (f db))
      → Q ((try_exec up f >> k) db)
  unfolding ◌>>◌ try_exec
  after-try_exec true f k db failed go = go
  after-try_exec false f k db failed go = failed

-- What the tests of the handlers say.
pub not-eq-true : (b : Bool) → not b ≡ true → b ≡ false
not-eq-true b h = ground arith

pub secret_stored :
    (o : Option User) (s : Bytes × Bool)
    → stored_secret o ≡ some s
    → (u : User) × (o ≡ some u) × (u.totp_secret ≡ some s.0) × (u.totp_enabled ≡ s.1)
secret_stored none s h = absurd (cc)
secret_stored (some u) s h = (u, refl, ground arith, ground arith)
