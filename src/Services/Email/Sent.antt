-- ===== src/Services/Email/Sent.antt =====
-- What it means that a mail is reported as sent, or not.
use void_link_tunnels.Base.{
  ◌≡◌, refl, ap, Bool, true, false, Option, none, some, List, [], ◌∷◌, ◌++◌, Bytes, codes, bytes_eq,
  bytes_beq, Bool-cases, inl, inr,
}
use void_link_tunnels.Base.Int.{pos, int_text, decimal}
use void_link_tunnels.Config.{Config}
use void_link_tunnels.Services.Email.{
  Command, dial, new_client, auth, mail_from, rcpt_to, start_data, write_data, close_data, quit,
  close_client, close_conn, Attempt, attempts, plan, is_configured, html_body, mail_message,
  reset_subject, deferred, send_email, send_password_reset,
}

abbrev pub commands : List Attempt → List Command
commands [] = []
commands ((command, words) ∷ rest) = command ∷ commands rest

-- Each of the commands succeeds.
pub data Succeeded (works : Command → Bool) : List Command → Type 0 where
  nothing : Succeeded works []
  also :
      (command : Command) (rest : List Command)
      → works command ≡ true
      → Succeeded works rest
      → Succeeded works (command ∷ rest)

-- How a list of attempts ends: all succeed, or those up to one that fails are made, and no more.
pub data AttemptsEnd (works : Command → Bool) (list : List Attempt)
    (end : Option Bytes × List Command) : Type 0 where
  all_made :
      Succeeded works (commands list)
      → end.0 ≡ none
      → end.1 ≡ commands list
      → AttemptsEnd works list end
  stopped :
      (before after : List Attempt) (last : Command) (words : Bytes)
      → list ≡ before ++ (last, words) ∷ after
      → Succeeded works (commands before)
      → works last ≡ false
      → end.0 ≡ some words
      → end.1 ≡ commands before ++ last ∷ []
      → AttemptsEnd works list end

pub attempts-AttemptsEnd :
    (works : Command → Bool) (list : List Attempt) → AttemptsEnd works list (attempts works list)
unfolding attempts
attempts-AttemptsEnd works [] = all_made nothing refl refl
attempts-AttemptsEnd works ((command, words) ∷ rest) = elim (Bool-cases (works command)) [
  | inr failed ↦ rw failed (stopped [] rest command words refl nothing failed refl refl)
  | inl made ↦ rw made (later made (attempts-AttemptsEnd works rest))
]
  where
    later :
        {end : Option Bytes × List Command}
        → works command ≡ true
        → AttemptsEnd works rest end
        → AttemptsEnd works ((command, words) ∷ rest) (end.0, command ∷ end.1)
    later made (all_made done none_failed given) =
        all_made (also command (commands rest) made done) none_failed (ap (λ l. command ∷ l) given)
    later made (stopped before after last text split done failed reported given) =
        stopped ((command, words) ∷ before) after last text (ap (λ l. (command, words) ∷ l) split)
          (also command (commands before) made done) failed reported (ap (λ l. command ∷ l) given)

-- The commands to a server that is connected, with the words of their errors.
abbrev pub dialogue : Config → Bytes → Bytes → List Attempt
dialogue cfg to message =
    (auth cfg.smtp_user cfg.smtp_password cfg.smtp_host, codes "auth failed: ")
    ∷ (mail_from cfg.smtp_from, codes "mail from failed: ")
    ∷ (rcpt_to to, codes "rcpt to failed: ")
    ∷ (start_data, codes "data failed: ")
    ∷ (write_data message, codes "write failed: ")
    ∷ (close_data, codes "close failed: ")
    ∷ (quit, [])
    ∷ []

plan_secure :
    (cfg : Config) (to message : Bytes)
    → cfg.smtp_port ≡ pos 465
    → plan cfg to message
      ≡ (dial (cfg.smtp_host ++ codes ":465") cfg.smtp_host, codes "failed to connect: ")
        ∷ (new_client cfg.smtp_host, codes "failed to create client: ")
        ∷ dialogue cfg to message
unfolding plan int_text decimal bytes_beq
plan_secure cfg to message port = rw (port, plan)

-- A connection that is made and given a client is closed after the client.
deferred-dialogue :
    (name : Bytes) (works : Command → Bool) (cfg : Config) (to message : Bytes)
    → deferred (
        dial (cfg.smtp_host ++ codes ":465") cfg.smtp_host
        ∷ new_client name
        ∷ (attempts works (dialogue cfg to message)).1)
      ≡ close_client ∷ close_conn ∷ []
unfolding deferred attempts
deferred-dialogue name works cfg to message =
    elim (Bool-cases (works (auth cfg.smtp_user cfg.smtp_password cfg.smtp_host))) [
      | inl made ↦ rw made
      | inr failed ↦ rw failed
    ]

-- On the port 465, where the mail service is configured, the TLS connection is made and the SMTP
-- client is created: the mail with the reset code is authenticated, addressed, written and ended
-- with QUIT, in this order, up to the first command that fails; it is reported as sent exactly
-- where none has failed, and otherwise the error is that of the failed command; and in each case the
-- client and then the connection are closed.
pub send_password_reset-secure :
    (cfg : Config) (works : Command → Bool) (to token : Bytes)
    → is_configured cfg ≡ true
    → cfg.smtp_port ≡ pos 465
    → works (dial (cfg.smtp_host ++ codes ":465") cfg.smtp_host) ≡ true
    → works (new_client cfg.smtp_host) ≡ true
    → let (failed, said) = send_password_reset cfg works to token in
      (given : List Command) × AttemptsEnd works
        (dialogue cfg to (mail_message cfg.smtp_from to reset_subject (html_body token)))
        (failed, given)
      × (said
          ≡ dial (cfg.smtp_host ++ codes ":465") cfg.smtp_host
            ∷ new_client cfg.smtp_host
            ∷ (given ++ close_client ∷ close_conn ∷ []))
unfolding send_password_reset send_email attempts
send_password_reset-secure cfg works to token configured port dialled made =
    let message = mail_message cfg.smtp_from to reset_subject (html_body token) in
    let given = (attempts works (dialogue cfg to message)).1 in
    rw configured (
      rw (plan_secure cfg to message port) (
        rw (dialled, made)
          (
            given,
            attempts-AttemptsEnd works (dialogue cfg to message),
            ap
                (λ l.
                  dial (cfg.smtp_host ++ codes ":465") cfg.smtp_host
                  ∷ new_client cfg.smtp_host
                  ∷ (given ++ l))
                (deferred-dialogue cfg.smtp_host works cfg to message),
          )))
