-- ===== src/Router/Replies.antt =====
-- The texts of src/services/cg_router.c.
use compuguessr.Base.{ℕ, List, ◌++◌}
use compuguessr.Base.Text.{codes}

abbrev pub json : List ℕ
json = codes "Content-Type: application/json\r\n\r\n"

abbrev pub ok_json : List ℕ
ok_json = codes "Status: 200 OK\r\n" ++ json

abbrev pub not_found : List ℕ
not_found =
    codes "Status: 404 Not Found\r\nContent-Type: text/plain\r\n\r\n404 - Endpoint not configured."

abbrev pub bad_method : List ℕ
bad_method = codes "Status: 405 Method Not Allowed\r\n" ++ json ++ codes "{\"error\":\"405\"}"

abbrev pub needs_post : List ℕ
needs_post =
    codes "Status: 405 Method Not Allowed\r\n"
    ++ json
    ++ codes "{\"error\":\"405 - This endpoint requires a POST request.\"}"

abbrev pub bad_method_plain : List ℕ
bad_method_plain = codes "Status: 405 Method Not Allowed\r\n\r\n"

abbrev pub unauthorized_plain : List ℕ
unauthorized_plain = codes "Status: 401 Unauthorized\r\n\r\n"

-- A status line, and the message of the JSON object.
abbrev pub unauthorized : List ℕ → List ℕ
unauthorized message =
    codes "Status: 401 Unauthorized\r\n" ++ json ++ codes "{\"error\":\"" ++ message ++ codes "\"}"

abbrev pub bad_request : List ℕ → List ℕ
bad_request message =
    codes "Status: 400 Bad Request\r\n" ++ json ++ codes "{\"error\":\"" ++ message ++ codes "\"}"

abbrev pub missing : List ℕ → List ℕ
missing message =
    codes "Status: 404 Not Found\r\n" ++ json ++ codes "{\"error\":\"" ++ message ++ codes "\"}"

abbrev pub conflict : List ℕ
conflict =
    codes "Status: 409 Conflict\r\n" ++ json ++ codes "{\"error\":\"User exists or DB full\"}"

abbrev pub success : List ℕ
success = ok_json ++ codes "{\"status\":\"success\"}"

abbrev pub deleted : List ℕ
deleted =
    codes "Status: 200 OK\r\nContent-Type: application/json\r\n"
    ++ codes "Set-Cookie: SESSION=; expires=Thu, 01 Jan 1970 00:00:00 UTC; path=/;\r\n\r\n"
    ++ codes "{\"status\":\"success\"}"

-- The replies that set the cookie, up to the session id and behind it.
abbrev pub set_cookie : List ℕ
set_cookie = codes "Status: 200 OK\r\nContent-Type: application/json\r\nSet-Cookie: SESSION="

abbrev pub guest_in : List ℕ
guest_in =
    codes
      "; Path=/; SameSite=Lax\r\n\r\n{\"status\":\"success\",\"message\":\"Guest authenticated\"}"

abbrev pub user_in : List ℕ
user_in = codes "; Path=/; SameSite=Lax\r\n\r\n{\"status\":\"success\",\"username\":\""

abbrev pub guest_profile : List ℕ
guest_profile =
    codes
      "{\"status\":\"success\",\"username\":\"Guest\",\"is_guest\":true,\"total_points\":0,\"description\":\"\","
    ++ codes "\"completed_count\":0,\"completed_hashes\":[]}"
