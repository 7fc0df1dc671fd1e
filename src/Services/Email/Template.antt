-- ===== src/Services/Email/Template.antt =====
-- The text of the mail with a reset code, in internal/services/email.go: its lines before the code,
-- between the two places of the code, and behind them.
use void_link_tunnels.Base.{List, [], ◌∷◌, Bytes, codes}

unfoldable pub lines_before : List Bytes
lines_before =
    []
    ∷ codes "<!DOCTYPE html>"
    ∷ codes "<html>"
    ∷ codes "<head>"
    ∷ codes "    <meta charset=\"UTF-8\">"
    ∷ codes "    <style>"
    ∷ codes
        "        body { font-family: 'Segoe UI', Tahoma, Geneva, Verdana, sans-serif; background-color: #f4f4f9; margin: 0; padding: 0; }"
    ∷ codes
        "        .container { max-width: 600px; margin: 40px auto; background-color: #ffffff; border-radius: 12px; box-shadow: 0 4px 20px rgba(0,0,0,0.05); overflow: hidden; }"
    ∷ codes
        "        .header { background: linear-gradient(135deg, #3b82f6 0%, #2dd4bf 100%); padding: 30px; text-align: center; }"
    ∷ codes
        "        .header h1 { color: white; margin: 0; font-size: 24px; font-weight: 600; letter-spacing: 0.5px; }"
    ∷ codes "        .content { padding: 40px; color: #334155; text-align: center; }"
    ∷ codes "        .message { font-size: 16px; line-height: 1.6; margin-bottom: 30px; }"
    ∷ codes
        "        .code-box { background-color: #f1f5f9; border: 2px dashed #cbd5e1; border-radius: 8px; padding: 20px; margin: 20px 0; display: inline-block; }"
    ∷ codes
        "        .code { font-family: 'Consolas', 'Monaco', monospace; font-size: 32px; font-weight: bold; color: #0f172a; letter-spacing: 4px; }"
    ∷ codes "        .note { font-size: 13px; color: #94a3b8; margin-top: 30px; }"
    ∷ codes
        "        .footer { background-color: #f8fafc; padding: 20px; text-align: center; color: #94a3b8; font-size: 12px; border-top: 1px solid #e2e8f0; }"
    ∷ codes "    </style>"
    ∷ codes "</head>"
    ∷ codes "<body>"
    ∷ codes "    <div class=\"container\">"
    ∷ codes "        <div class=\"header\">"
    ∷ codes "            <h1>VoidLink</h1>"
    ∷ codes "        </div>"
    ∷ codes "        <div class=\"content\">"
    ∷ codes "            <h2>Password Reset Request</h2>"
    ∷ codes
        "            <p class=\"message\">We received a request to reset your password. Use the code below to complete the process. This code will expire in 1 hour.</p>"
    ∷ codes "            "
    ∷ codes "            <div class=\"code-box\">"
    ∷ codes "                <div class=\"code\">"
    ∷ []

unfoldable pub lines_between : List Bytes
lines_between =
    codes "</div>"
    ∷ codes "            </div>"
    ∷ []
    ∷ codes "            <div style=\"margin: 30px 0;\">"
    ∷ codes "                <a href=\"voidlink://reset-password?code="
    ∷ []

unfoldable pub lines_behind : List Bytes
lines_behind =
    codes
      "\" style=\"background-color: #3b82f6; border: 1px solid #3b82f6; color: #ffffff; padding: 12px 24px; text-decoration: none; border-radius: 6px; font-weight: bold; display: inline-block;\">Reset Password in App</a>"
    ∷ codes "            </div>"
    ∷ codes "            "
    ∷ codes
        "            <p class=\"message\" style=\"margin-bottom:0\">If you didn't request this, you can safely ignore this email.</p>"
    ∷ codes "        </div>"
    ∷ codes "        <div class=\"footer\">"
    ∷ codes "            &copy; 2026 MakotoPD. All rights reserved.<br>"
    ∷ codes "            This is an automated message, please do not reply."
    ∷ codes "        </div>"
    ∷ codes "    </div>"
    ∷ codes "</body>"
    ∷ codes "</html>"
    ∷ []
