-- ===== src/Tests/Environment.antt =====
-- An environment that sets the limit of tunnels to -12 and a port to a number that no `int` holds.
use void_link_tunnels.Base.{
  ◌≡◌, refl, [], Bytes, codes, ◌==◌, bytes_eq, bytes_beq, if◌then◌else◌, arith,
}
use void_link_tunnels.Base.Int.{pos, negsuc, int_text, decimal}
use void_link_tunnels.Base.{List, ◌∷◌, Bool, true, false, some, ◌++◌}
use void_link_tunnels.Services.Email.{
  Command, rcpt_to, dial, new_client, close_client, close_conn, is_configured, attempts, plan,
  mail_message, reset_subject, html_body, send_email, send_password_reset,
}
use void_link_tunnels.Services.Email.Sent.{AttemptsEnd, dialogue, send_password_reset-secure}
use void_link_tunnels.Config.{
  Config, Environment, get_env_int, load_config, atoi, unsigned, digits_after,
}
use void_link_tunnels.Config.Numbers.{get_env_int-int_text}

abbrev limit_name : Bytes
limit_name = codes "MAX_TUNNELS"

abbrev settings : Environment
settings name =
    if name == limit_name
    then codes "-12"
    else if name == codes "MAX_PORT"
    then codes "9223372036854775808"
    else []

is_set : settings limit_name ≡ int_text (negsuc 11)
unfolding bytes_beq int_text decimal
is_set = refl

get_env_int-int_text_example : get_env_int settings limit_name (pos 3) ≡ negsuc 11
get_env_int-int_text_example =
    get_env_int-int_text settings limit_name (negsuc 11) (pos 3) is_set (omega arith)

-- The text that is out of range gives the default.
max_port_default : (load_config settings).max_port ≡ pos 30000
unfolding load_config get_env_int bytes_beq atoi unsigned digits_after
max_port_default = refl

-- A server on port 465 that refuses the recipient.
abbrev mail_config : Config
mail_config = record (load_config (λ name. [])) {
  smtp_host = codes "mail.x.io";
  smtp_port = pos 465;
  smtp_user = codes "robot";
}

abbrev no_recipient : Command → Bool
no_recipient (rcpt_to to) = false
no_recipient _ = true

mail_configured : is_configured mail_config ≡ true
unfolding is_configured bytes_beq
mail_configured = refl

send_password_reset-secure_example :
    let (failed, said) =
      send_password_reset mail_config no_recipient (codes "ann@x.io") (codes "1fa0") in
    (given : List Command) × AttemptsEnd no_recipient
      (dialogue mail_config (codes "ann@x.io") (
        mail_message mail_config.smtp_from
          (codes "ann@x.io")
          reset_subject
          (html_body (codes "1fa0"))))
      (failed, given)
    × (said
        ≡ dial (codes "mail.x.io:465") (codes "mail.x.io")
          ∷ new_client (codes "mail.x.io")
          ∷ (given ++ close_client ∷ close_conn ∷ []))
send_password_reset-secure_example =
    send_password_reset-secure mail_config no_recipient (codes "ann@x.io") (codes "1fa0")
      mail_configured refl refl refl

-- The recipient is the last that is said.
mail_refused :
    (send_password_reset mail_config no_recipient (codes "ann@x.io") (codes "1fa0")).0
    ≡ some (codes "rcpt to failed: ")
unfolding send_password_reset send_email is_configured attempts plan bytes_beq int_text decimal
mail_refused = refl
