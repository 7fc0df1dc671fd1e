-- ===== src/Accounts/Moves/Invariant.antt =====
-- What the table of users keeps over any number of requests.
use void_link_tunnels.Base.{
  true, false, some, List, [], ◌∷◌, Bytes, ◌≡◌, refl, is_some, Bool-cases, bytes_beq, ◌==◌,
  bytes_eq, ◌⊎◌, inl, inr, if◌then◌else◌,
}
use void_link_tunnels.Base.Lists.{All}
use void_link_tunnels.Base.Rows.{All-update_rows, update_rows}
use void_link_tunnels.Base.Distinct.{
  Distinct, Distinct-update_rows, Distinct-insert, Distinct-select_row,
}
use void_link_tunnels.Models.User.{User}
use void_link_tunnels.Accounts.{Db, Primitives}
use void_link_tunnels.Accounts.Tokens.{JwtManager}
use void_link_tunnels.Accounts.Moves.{
  Request, handle, changed, Move, stays, joins, renews, prepares, turns_on, turns_off,
}
use void_link_tunnels.Accounts.Moves.Steps.{handle-Move}

-- Where the second factor is on, a secret is stored.
abbrev pub HasSecret : User → Type 0
HasSecret u = (u.totp_enabled ≡ false) ⊎ (is_some u.totp_secret ≡ true)

-- No two users have the same id, and no two the same email.
pub record IsSound (users : List User) : Type 0 where
  pub ids : Distinct (λ u. u.id) users
  pub emails : Distinct (λ u. u.email) users
  pub secrets : All HasSecret users

changed-IsSound :
    (id : Bytes) (f : User → User) (users : List User)
    → ((u : User) → (f u).id ≡ u.id)
    → ((u : User) → (f u).email ≡ u.email)
    → All HasSecret (changed id f users)
    → IsSound users
    → IsSound (changed id f users)
changed-IsSound id f users same_id same_email secrets sound = record {
  ids = Distinct-update_rows (λ u. u.id) _ f users same_id sound.ids;
  emails = Distinct-update_rows (λ u. u.email) _ f users same_email sound.emails;
  secrets = secrets;
}

-- The one row that the update reaches has a secret.
enabled-HasSecret :
    (id secret : Bytes) (f : User → User) (u : User) (users : List User)
    → u.totp_secret ≡ some secret
    → ((v : User) → (f v).totp_secret ≡ v.totp_secret)
    → All (λ v. (v ≡ u) ⊎ ((v.id == id) ≡ false)) users
    → All HasSecret users
    → All HasSecret (changed id f users)
unfolding update_rows
enabled-HasSecret id secret f u [] stored keep only has = tt
enabled-HasSecret id secret f u (v ∷ users) stored keep (o, only) (h, has) =
    (row o, enabled-HasSecret id secret f u users stored keep only has)
  where
    row : (v ≡ u) ⊎ ((v.id == id) ≡ false) → HasSecret (if v.id == id then f v else v)
    row (inl same) = elim (Bool-cases (bytes_beq v.id id)) [
      | inl hit ↦ rw hit (inr (rw (keep v, same, stored)))
      | inr miss ↦ rw miss h
    ]
    row (inr miss) = rw miss h

module _ (lib : Primitives) where
  Move-IsSound :
      (db : Db) (after : List User) → Move lib db after → IsSound db.users → IsSound after
  Move-IsSound db after (stays same) sound = rw same sound
  Move-IsSound db after (joins u free fresh off same) sound = rw same (record {
    ids = Distinct-insert (λ v. v.id) u db.users fresh sound.ids;
    emails = Distinct-insert (λ v. v.email) u db.users free sound.emails;
    secrets = (inl off, sound.secrets);
  })
  Move-IsSound db after (renews id now hash same) sound = rw same (
      changed-IsSound id _ db.users (λ u. refl) (λ u. refl)
        (All-update_rows HasSecret _ _ db.users (λ u h. h) sound.secrets) sound)
  Move-IsSound db after (prepares u id now secret found off same) sound = rw same (
      changed-IsSound id _ db.users (λ u. refl) (λ u. refl)
        (All-update_rows HasSecret _ _ db.users (λ u h. inr refl) sound.secrets) sound)
  Move-IsSound db after (turns_on u id now secret code found off stored valid same) sound =
      rw same (
        changed-IsSound id _ db.users (λ u. refl) (λ u. refl)
          (enabled-HasSecret id secret _ u db.users stored (λ v. refl)
            (Distinct-select_row (λ v. v.id) id db.users u sound.ids found) sound.secrets)
          sound)
  Move-IsSound db after (turns_off u id now password code found on matched valid same) sound =
      rw same (
        changed-IsSound id _ db.users (λ u. refl) (λ u. refl)
          (All-update_rows HasSecret _ _ db.users (λ u h. inl refl) sound.secrets) sound)

module _ (lib : Primitives) (m : JwtManager) where
  -- The requests, one after another.
  abbrev pub serve : List Request → Db → Db
  serve [] db = db
  serve (request ∷ rest) db = serve rest (handle lib m request db)

  -- Over any sequence of requests, no two users share an id or an email, and a user whose second
  -- factor is on has a secret.
  pub serve-IsSound :
      (requests : List Request) (db : Db) → IsSound db.users → IsSound (serve requests db).users
  serve-IsSound [] db sound = sound
  serve-IsSound (request ∷ rest) db sound =
      serve-IsSound rest (handle lib m request db)
        (Move-IsSound lib db _ (handle-Move lib db m request) sound)
