-- ===== src/Identity/Email/Message.antt =====
-- internal/service/identity/email.go: the text of the mail that carries a registration code.
use Prim.Native.String.{String, ◌++◌}
use ktauth.Prelude.{List, [], ◌∷◌}

concat : List String → String
concat [] = ""
concat (s ∷ rest) = s ++ concat rest

-- The HTML body, with the code twice.
pub html_body : String → String
unfolding concat
html_body code = concat (
    "<!doctype html>\n" ∷ "<html lang=\"en\">\n"
    ∷ "<body style=\"margin:0;padding:0;background:#f3f5f7;font-family:Arial,Helvetica,sans-serif;color:#20252b;\">\n"
    ∷ "  <div style=\"display:none;max-height:0;overflow:hidden;opacity:0;\">Use " ∷ code
    ∷ " to complete your KTAUTH registration.</div>\n"
    ∷ "  <table role=\"presentation\" width=\"100%\" cellspacing=\"0\" cellpadding=\"0\" border=\"0\" style=\"background:#f3f5f7;padding:32px 16px;\">\n"
    ∷ "    <tr><td align=\"center\">\n"
    ∷ "      <table role=\"presentation\" width=\"100%\" cellspacing=\"0\" cellpadding=\"0\" border=\"0\" style=\"max-width:560px;background:#ffffff;border:1px solid #dfe3e8;\">\n"
    ∷ "        <tr><td style=\"padding:24px 32px;background:#17202a;color:#ffffff;font-size:20px;font-weight:bold;\">KTAUTH</td></tr>\n"
    ∷ "        <tr><td style=\"padding:36px 32px 20px;font-size:24px;font-weight:bold;line-height:1.3;\">Verify your email address</td></tr>\n"
    ∷ "        <tr><td style=\"padding:0 32px 24px;font-size:15px;line-height:1.6;color:#525b65;\">Enter this verification code to complete your registration:</td></tr>\n"
    ∷ "        <tr><td align=\"center\" style=\"padding:0 32px 28px;\">\n"
    ∷ "          <div style=\"display:inline-block;padding:16px 24px;border:1px solid #b8c2cc;background:#f7f9fa;font-family:Consolas,'Courier New',monospace;font-size:32px;font-weight:bold;letter-spacing:8px;color:#17202a;\">"
    ∷ code ∷ "</div>\n" ∷ "        </td></tr>\n"
    ∷ "        <tr><td style=\"padding:0 32px 36px;font-size:13px;line-height:1.6;color:#69737d;\">This code expires in 15 minutes and can only be used once. If you did not request it, you can safely ignore this email.</td></tr>\n"
    ∷ "        <tr><td style=\"padding:18px 32px;border-top:1px solid #e5e8eb;font-size:12px;color:#8a939c;\">KTAUTH account security</td></tr>\n"
    ∷ "      </table>\n" ∷ "    </td></tr>\n" ∷ "  </table>\n" ∷ "</body>\n" ∷ "</html>" ∷ [])

-- The headers and the body; `from` and `to` are printed addresses.
unfoldable pub mail_message : String → String → String → String → String → String → String
unfolding html_body
mail_message from to date id host code = concat (
    "From: "
    ∷ from
    ∷ "\r\n"
    ∷ "To: "
    ∷ to
    ∷ "\r\n"
    ∷ "Date: "
    ∷ date
    ∷ "\r\n"
    ∷ "Message-ID: <"
    ∷ id
    ∷ "@"
    ∷ host
    ∷ ">\r\n"
    ∷ "Subject: KTAUTH verification code\r\n"
    ∷ "MIME-Version: 1.0\r\n"
    ∷ "Content-Type: text/html; charset=UTF-8\r\n"
    ∷ "Content-Transfer-Encoding: 8bit\r\n\r\n"
    ∷ html_body code
    ∷ "\r\n"
    ∷ [])
