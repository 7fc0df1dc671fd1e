-- ===== src/Tests/Accounts/Flows.antt =====
-- Ann and Bob register, log in, renew their sessions and passwords.
use void_link_tunnels.Base.{
  ◌*◌, ◌≡◌, ◌≢◌, refl, sym, ap, ◌∙◌, true, false, none, some, [], ◌∷◌, Bytes, codes, ◌==◌, bytes_eq,
  nat_eq, bytes_beq, bytes_beq_iff, arith, inr, All, ◌⊎◌,
}
use void_link_tunnels.Base.Rows.{select_row}
use void_link_tunnels.Text.{to_lower, lower_byte, trim_space}
use void_link_tunnels.Text.Hex.{encode_to_string, hex_digit}
use void_link_tunnels.Models.User.{
  RegisterRequest, LoginRequest, RefreshRequest, ForgotRequest, ResetRequest,
}
use void_link_tunnels.Accounts.{
  Env, session, failure, run, ◌>>=◌, ◌>>◌, bind_json, query, expect, exec, try_exec, require,
}
use void_link_tunnels.Accounts.Tokens.{
  NewToken, second, hash_token, generate_access_token, generate_refresh_token,
}
use void_link_tunnels.Accounts.Auth.{
  normalize_email, new_user, auth_response, login, register, refresh, logout, user_by_email,
  user_by_id, delete_refresh, refuse_expired, issue,
}
use void_link_tunnels.Accounts.Auth.Login.{
  LoginEnd, login-LoginEnd, login-register, is_session, IsRepeated, IsBcrypt,
}
use void_link_tunnels.Accounts.Auth.Rotation.{refresh-refresh, refresh-logout}
use void_link_tunnels.Accounts.Reset.{
  reset_by_hash, reset_password, refuse_old, forgot_password, sent_message,
}
use void_link_tunnels.Accounts.Reset.Codes.{
  ResetEnd, reset_password-ResetEnd, reset_password-reset_password, refresh_tokens-reset_password,
  is_success,
}
use void_link_tunnels.Accounts.Reset.Mails.{forgot_answer, forgot_password-uniform}
use void_link_tunnels.Accounts.Moves.{Request, Move, handle, disables}
use void_link_tunnels.Accounts.Moves.Steps.{handle-Move}
use void_link_tunnels.Accounts.Moves.Invariant.{IsSound, serve, serve-IsSound}
use void_link_tunnels.Tests.Accounts.{
  ann_reset, manager, lib, env, later, ann_token, db, no_one, db-IsSound, differ,
}

-- Bob turns the second factor off.
abbrev bob_disables : Request
bob_disables =
    disables env (codes "u2") (inr (record { code = codes "123456"; password = codes "xanadu22" }))

handle-Move_example : Move lib db (handle lib manager bob_disables db).users
handle-Move_example = handle-Move lib db manager bob_disables

serve-IsSound_example : IsSound (serve lib manager (bob_disables ∷ bob_disables ∷ []) db).users
serve-IsSound_example = serve-IsSound lib manager (bob_disables ∷ bob_disables ∷ []) db db-IsSound

abbrev bob_logs_in : Bytes ⊎ LoginRequest
bob_logs_in =
    inr
      (record { email = codes "BOB@x.io"; password = codes "xanadu22"; totp_code = codes "000000" })

login-LoginEnd_example :
    LoginEnd lib manager env bob_logs_in db (run (login lib manager env bob_logs_in) db)
login-LoginEnd_example = login-LoginEnd lib manager env bob_logs_in db

-- A new user u1, who logs in with the email in another case.
abbrev arrival : RegisterRequest
arrival = record { email = codes "Ann@X.io"; password = codes "newpass9" }

abbrev again : LoginRequest
again = record { email = codes "ANN@x.io"; password = codes "newpass9"; totp_code = [] }

abbrev new_token : NewToken
new_token = record {
  token = codes "1fa0";
  token_hash = codes "31666130";
  expires_at = 605800 * second;
}

drawn : generate_refresh_token lib manager env.random env.now ≡ some new_token
unfolding generate_refresh_token hash_token encode_to_string hex_digit
drawn = refl

repeated : IsRepeated arrival again
unfolding to_lower lower_byte trim_space
repeated = record { plain = refl; plain_again = refl; email = refl; password = refl }

signed :
    generate_access_token lib manager (codes "u1") (to_lower (codes "Ann@X.io")) env.now
    ≡ some ann_token
unfolding generate_access_token normalize_email to_lower lower_byte trim_space bytes_beq
signed = refl

abbrev joining : Env
joining = record env { new_id = codes "u1" }

none_named : user_by_email (to_lower (codes "Ann@X.io")) no_one ≡ none
unfolding select_row
none_named = refl

none_known : user_by_id (codes "u1") no_one ≡ none
unfolding select_row
none_known = refl

matching : IsBcrypt lib env
unfolding bytes_beq
matching password hash e = ground (arith, bytes_beq_iff hash password)

login-register_example :
    (run (login lib manager env (inr again)) (run (register joining (inr arrival)) no_one).1).0
    ≡ session (
        auth_response lib manager
          (new_user joining (to_lower (codes "Ann@X.io")) (codes "newpass9"))
          ann_token
          new_token)
login-register_example =
    login-register lib manager joining env arrival again (codes "newpass9") ann_token new_token
      no_one repeated matching refl refl none_named none_known refl refl signed drawn

-- The refresh token of Ann.
abbrev ann_renews : RefreshRequest
ann_renews = record { refresh_token = codes "ff" }

beq_false : bytes_beq (codes "31666130") (codes "6666") ≡ false
unfolding bytes_beq
beq_false = refl

drawn_other :
    (new : NewToken)
    → generate_refresh_token lib manager env.random env.now ≡ some new
    → new.token_hash ≢ hash_token lib manager (codes "ff")
unfolding hash_token encode_to_string hex_digit
drawn_other new e =
    let same : new ≡ new_token = cc (drawn) in
    λ h. differ (codes "31666130") (codes "6666") beq_false (sym (ap (λ n. n.token_hash) same) ∙ h)

renewed : is_session (run (refresh lib manager env (inr ann_renews)) db).0 ≡ true
unfolding refresh refuse_expired issue select_row hash_token encode_to_string hex_digit bytes_beq
    bind_json query expect exec try_exec ◌>>=◌ ◌>>◌ generate_access_token generate_refresh_token
renewed = refl

refresh-refresh_example :
    (run
      (refresh lib manager later (inr ann_renews))
      (run (refresh lib manager env (inr ann_renews)) db).1).0
    ≡ failure 401 (codes "Invalid refresh token")
refresh-refresh_example =
    refresh-refresh lib manager env later ann_renews db (tt, tt) refl drawn_other renewed

refresh-logout_example :
    run
      (refresh lib manager later (inr ann_renews))
      (run (logout lib manager env (inr ann_renews)) db).1
    ≡ (
      failure 401 (codes "Invalid refresh token"),
      delete_refresh (λ t. t.token_hash == hash_token lib manager (codes "ff")) db,
    )
refresh-logout_example = refresh-logout lib manager env later ann_renews db refl

-- The reset code of Ann.
abbrev ann_resets : ResetRequest
ann_resets = record { token = codes "gg"; new_password = codes "newpass9" }

was_reset : is_success (run (reset_password lib manager env (inr ann_resets)) db).0 ≡ true
unfolding reset_password refuse_old select_row hash_token encode_to_string hex_digit bytes_beq
    bind_json query expect exec try_exec require ◌>>=◌ ◌>>◌
was_reset = refl

reset_password-ResetEnd_example :
    ResetEnd lib manager env
      (inr ann_resets)
      db
      (run (reset_password lib manager env (inr ann_resets)) db)
reset_password-ResetEnd_example = reset_password-ResetEnd lib manager env (inr ann_resets) db

reset_password-reset_password_example :
    (run
      (reset_password lib manager later (inr ann_resets))
      (run (reset_password lib manager env (inr ann_resets)) db).1).0
    ≡ failure 400 (codes "Reset token already used")
reset_password-reset_password_example =
    reset_password-reset_password lib manager env later ann_resets ann_resets db refl refl refl
      was_reset

ann_stored : reset_by_hash (hash_token lib manager (codes "gg")) db ≡ some ann_reset
unfolding select_row hash_token encode_to_string hex_digit bytes_beq
ann_stored = refl

refresh_tokens-reset_password_example :
    All
      (λ r. r.user_id == codes "u1" ≡ false)
      (run (reset_password lib manager env (inr ann_resets)) db).1.refresh_tokens
refresh_tokens-reset_password_example =
    refresh_tokens-reset_password lib manager env ann_resets ann_reset db ann_stored refl was_reset

abbrev ann_forgets : ForgotRequest
ann_forgets = record { email = codes " Ann@X.io" }

forgot_password-uniform_example :
    forgot_answer (forgot_password lib manager true env (inr ann_forgets) no_one).0 ≡ sent_message
forgot_password-uniform_example =
    forgot_password-uniform lib manager true env ann_forgets (0x1f ∷ 0xa0 ∷ []) no_one refl refl
