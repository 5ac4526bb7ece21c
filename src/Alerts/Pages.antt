-- ===== src/Alerts/Pages.antt =====
-- The pages of the link in an email: src/modules/job-alerts/unsubscribe.controller.ts.
use gov_jobs_backend.Base.{
  ℕ, Option, none, some, List, [], ◌∷◌, ◌++◌, ◌==◌, if◌then◌else◌, String, str_eq, Text, codes,
}
use gov_jobs_backend.Models.{JobAlert}
use gov_jobs_backend.Emails.{concat_texts}
use gov_jobs_backend.Alerts.Links.{UnsubscribeResult, PeekResult, peek, unsubscribe}

unfoldable pub page : Text → Text → Text
unfolding concat_texts
page title body = concat_texts (
    codes
      "<!doctype html>\n<html lang=\"th\">\n<head>\n<meta charset=\"utf-8\"><meta name=\"viewport\" content=\"width=device-width,initial-scale=1\">\n<title>"
    ∷ title
    ∷ codes
        "</title>\n</head>\n<body style=\"margin:0;padding:48px 16px;background:#f9fafb;font-family:'Noto Sans Thai','Sarabun','Leelawadee UI',Tahoma,-apple-system,sans-serif;color:#111827\">\n<div style=\"max-width:480px;margin:0 auto;background:#fff;border:1px solid #e5e7eb;border-radius:12px;padding:28px\">\n"
    ∷ body
    ∷ codes "\n</div>\n</body>\n</html>"
    ∷ [])

-- One pass over the characters, unlike `escapeHtml` of the emails.
abbrev pub escape_char : ℕ → Text
escape_char c =
    if c == b'&'
    then codes "&amp;"
    else if c == b'<'
    then codes "&lt;"
    else if c == b'>'
    then codes "&gt;"
    else if c == b'"'
    then codes "&quot;"
    else if c == b'\''
    then codes "&#39;"
    else c ∷ []

unfoldable pub escape_html : Text → Text
escape_html [] = []
escape_html (c ∷ value) = escape_char c ++ escape_html value

unfoldable pub confirmation : String → Text → Text
unfolding concat_texts escape_html
confirmation token alert_name = concat_texts (
    codes
      "<h1 style=\"margin:0 0 12px;font-size:20px\">ยกเลิกการแจ้งเตือน</h1>\n\t\t\t<p style=\"margin:0 0 20px;font-size:15px;line-height:1.7;color:#374151\">\n\t\t\t\tต้องการหยุดรับอีเมลแจ้งเตือนจาก “"
    ∷ escape_html alert_name
    ∷ codes
        "” ใช่หรือไม่\n\t\t\t</p>\n\t\t\t<form method=\"post\">\n\t\t\t\t<input type=\"hidden\" name=\"token\" value=\""
    ∷ escape_html (codes token)
    ∷ codes
        "\">\n\t\t\t\t<button type=\"submit\" style=\"background:#4f46e5;color:#fff;border:0;border-radius:8px;padding:11px 18px;font-size:15px;cursor:pointer\">\n\t\t\t\t\tยืนยันการยกเลิก\n\t\t\t\t</button>\n\t\t\t</form>"
    ∷ [])

unfoldable pub already_off : Text → Text
unfolding concat_texts escape_html
already_off alert_name = concat_texts (
    codes
      "<h1 style=\"margin:0 0 12px;font-size:20px\">ยกเลิกแล้ว</h1>\n\t\t\t<p style=\"margin:0;font-size:15px;line-height:1.7;color:#374151\">\n\t\t\t\tการแจ้งเตือน “"
    ∷ escape_html alert_name
    ∷ codes "” ถูกปิดอยู่แล้ว คุณจะไม่ได้รับอีเมลจากรายการนี้อีก\n\t\t\t</p>"
    ∷ [])

unfoldable pub switched_off : Text → Text
unfolding concat_texts escape_html
switched_off alert_name = concat_texts (
    codes
      "<h1 style=\"margin:0 0 12px;font-size:20px\">ยกเลิกเรียบร้อย</h1>\n\t\t\t<p style=\"margin:0;font-size:15px;line-height:1.7;color:#374151\">\n\t\t\t\tคุณจะไม่ได้รับอีเมลแจ้งเตือนจาก “"
    ∷ escape_html alert_name
    ∷ codes "” อีก\n\t\t\t</p>"
    ∷ [])

unfoldable pub page_of : String → PeekResult → Text
unfolding page confirmation already_off
page_of token seen = page (codes "ยกเลิกการแจ้งเตือน") (
    if seen.is_active
    then confirmation token (codes seen.alert_name)
    else already_off (codes seen.alert_name))

abbrev pub confirmed : String → Option PeekResult → Option Text
confirmed token none = none
confirmed token (some seen) = some (page_of token seen)

-- A query without a token has the empty one. `none` is the answer 404.
unfoldable pub confirm : String → List JobAlert → Option Text
unfolding peek
confirm token alerts = confirmed token (peek token alerts)

-- `queryToken || bodyToken`
abbrev pub token_sent : String → String → String
token_sent query_token body_token = if str_eq query_token "" then body_token else query_token

unfoldable pub page_done : Option UnsubscribeResult → Option Text
unfolding page switched_off
page_done none = none
page_done (some r) =
    some (page (codes "ยกเลิกการแจ้งเตือนแล้ว") (switched_off (codes r.alert_name)))

unfoldable pub post_unsubscribe : String → String → List JobAlert → List JobAlert × Option Text
unfolding unsubscribe
post_unsubscribe query_token body_token alerts =
    let (alerts', result) = unsubscribe (token_sent query_token body_token) alerts in
    (alerts', page_done result)
