-- ===== src/Services/Email.antt =====
-- `EmailService` of internal/services/email.go. What goes to the SMTP server is a list of commands;
-- which of them succeed is up to the environment, and no command is given twice.
pub mod Template
pub mod Sent
use void_link_tunnels.Base.{
  Bool, true, false, not, ◌&&◌, Option, none, some, List, [], ◌∷◌, ◌++◌, map, Bytes, codes, ◌==◌,
  bytes_eq, if◌then◌else◌,
}
use void_link_tunnels.Base.Int.{ℤ, pos, int_text}
use void_link_tunnels.Config.{Config}
use void_link_tunnels.Services.Email.Template.{lines_before, lines_between, lines_behind}

pub data Command : Type 0 where
  dial : Bytes → Bytes → Command
  new_client : Bytes → Command
  auth : Bytes → Bytes → Bytes → Command
  mail_from : Bytes → Command
  rcpt_to : Bytes → Command
  start_data : Command
  write_data : Bytes → Command
  close_data : Command
  quit : Command
  send_mail : Bytes → Bytes → Bytes → Bytes → Command
  close_client : Command
  close_conn : Command

-- A command with the words that an error of it is wrapped in.
abbrev pub Attempt : Type 0
Attempt = Command × Bytes

-- The commands up to the first that fails, and the words of that error.
unfoldable pub attempts : (Command → Bool) → List Attempt → Option Bytes × List Command
attempts works [] = (none, [])
attempts works ((command, words) ∷ rest) =
    let (failed, given) = attempts works rest in
    if works command then (failed, command ∷ given) else (some words, command ∷ [])

-- `IsConfigured`
unfoldable pub is_configured : Config → Bool
is_configured cfg = not (cfg.smtp_host == []) && not (cfg.smtp_user == [])

-- The lines of a text, joined by line feeds.
abbrev pub unlines : List Bytes → Bytes
unlines [] = []
unlines (line ∷ []) = line
unlines (line ∷ next ∷ rest) = line ++ 10 ∷ unlines (next ∷ rest)

-- `htmlBody`
unfoldable pub html_body : Bytes → Bytes
html_body token =
    unlines lines_before ++ token ++ unlines lines_between ++ token ++ unlines lines_behind

abbrev pub crlf : Bytes
crlf = 13 ∷ 10 ∷ []

-- `message`
unfoldable pub mail_message : Bytes → Bytes → Bytes → Bytes → Bytes
mail_message from to subject body =
    codes "From: "
    ++ from
    ++ crlf
    ++ codes "To: "
    ++ to
    ++ crlf
    ++ codes "Subject: "
    ++ subject
    ++ crlf
    ++ codes "MIME-Version: 1.0"
    ++ crlf
    ++ codes "Content-Type: text/html; charset=\"utf-8\""
    ++ crlf
    ++ crlf
    ++ body

-- The port of implicit TLS.
abbrev pub is_tls_port : ℤ → Bool
is_tls_port port = int_text port == codes "465"

-- The commands of `sendEmail`, for the port 465 and for any other.
unfoldable pub plan : Config → Bytes → Bytes → List Attempt
unfolding int_text
plan cfg to message =
    let addr = cfg.smtp_host ++ b':' ∷ int_text cfg.smtp_port in
    if is_tls_port cfg.smtp_port
    then (dial addr cfg.smtp_host, codes "failed to connect: ")
      ∷ (new_client cfg.smtp_host, codes "failed to create client: ")
      ∷ (auth cfg.smtp_user cfg.smtp_password cfg.smtp_host, codes "auth failed: ")
      ∷ (mail_from cfg.smtp_from, codes "mail from failed: ")
      ∷ (rcpt_to to, codes "rcpt to failed: ")
      ∷ (start_data, codes "data failed: ")
      ∷ (write_data message, codes "write failed: ")
      ∷ (close_data, codes "close failed: ")
      ∷ (quit, [])
      ∷ []
    else (send_mail addr cfg.smtp_from to message, []) ∷ []

-- The deferred calls: where a client was attempted, the connection was made, and where more was
-- attempted, so was the client.
unfoldable pub deferred : List Command → List Command
deferred (dial addr host ∷ new_client name ∷ []) = close_conn ∷ []
deferred (dial addr host ∷ new_client name ∷ _ ∷ _) = close_client ∷ close_conn ∷ []
deferred _ = []

-- `sendEmail`; `none` is success.
unfoldable pub send_email :
    Config → (Command → Bool) → Bytes → Bytes → Bytes → Option Bytes × List Command
send_email cfg works to subject body =
    let (failed, given) =
      attempts works (plan cfg to (mail_message cfg.smtp_from to subject body)) in
    (failed, given ++ deferred given)

abbrev pub reset_subject : Bytes
reset_subject = codes "VoidLink - Password Reset Code"

-- `SendPasswordReset`
unfoldable pub send_password_reset :
    Config → (Command → Bool) → Bytes → Bytes → Option Bytes × List Command
send_password_reset cfg works to token =
    if not (is_configured cfg)
    then (some (codes "SMTP not configured"), [])
    else send_email cfg works to reset_subject (html_body token)
