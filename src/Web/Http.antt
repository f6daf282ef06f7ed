-- ===== src/Web/Http.antt =====
-- The requests of Client-Web-RestAPI/helpers.c. A C string is the list of its bytes without the
-- final 0, a null pointer is `none`, and `cookies` is a pointer to two strings. The result `none` is
-- a write past the end of a buffer, or a null pointer that is printed.
pub mod Split
pub mod Requests
pub mod Post
mod Tests
use communication_protocols.Base.{
  fits, ◌>>=◌, decimal, ℕ, zero, suc, ◌+◌, ◌/◌, ◌%◌, Bool, true, false, ◌&&◌, Option, none, some,
  [], ◌∷◌, ◌++◌, Bytes, codes, length, ltb, ◌==◌, if◌then◌else◌,
}

-- `LINELEN` and `BUFLEN`
abbrev pub line_len : ℕ
line_len = 1000

abbrev pub buf_len : ℕ
buf_len = 4096

abbrev pub Cookies : Type 0
Cookies = Option (Option Bytes × Option Bytes)

unfoldable pub compute_message : Bytes → Bytes → Option Bytes
compute_message message line = fits buf_len ((message ++ line) ++ 13 ∷ 10 ∷ [])

-- `sprintf(line, ...)` and `compute_message(message, line)`
unfoldable pub add_line : Bytes → Bytes → Option Bytes
add_line message text = do line ← fits line_len text; compute_message message line

abbrev pub request_line : Bytes → Bytes → Bytes
request_line method url = method ++ (url ++ codes " HTTP/1.1")

abbrev pub host_line : Bytes → Bytes
host_line host = codes "Host: " ++ host

abbrev pub authorization : Bytes → Bytes
authorization token = codes "Authorization: Bearer " ++ token

abbrev pub cookie_line : Bytes → Bytes
cookie_line cookie = codes "Cookie: " ++ cookie

-- The two lines that a GET request may have.
unfoldable pub get_cookies : Cookies → ℕ → Bytes → Option Bytes
get_cookies none count message = some message
get_cookies (some (none, token)) count message = some message
get_cookies (some (some cookie, none)) count message = add_line message (cookie_line cookie)
get_cookies (some (some cookie, some token)) count message = do
  message ← if count == 2 then add_line message (authorization token) else some message
  add_line message (cookie_line cookie)

unfoldable pub compute_get_request : Bytes → Bytes → Cookies → ℕ → Option Bytes
compute_get_request host url cookies count = do
  message ← add_line [] (request_line (codes "GET ") url)
  message ← add_line message (host_line host)
  message ← get_cookies cookies count message
  compute_message message []

-- A null pointer that is printed is a `none` here.
unfoldable pub post_cookies : Cookies → ℕ → Bytes → Option Bytes
post_cookies none count message = some message
post_cookies (some (cookie, token)) count message = do
  message ←
      if count == 2 then (do text ← token; add_line message (authorization text)) else some message
  text ← cookie
  add_line message (cookie_line text)

unfoldable pub compute_post_request : Bytes → Bytes → Bytes → Bytes → Cookies → ℕ → Option Bytes
compute_post_request host url content_type body cookies count = do
  message ← add_line [] (request_line (codes "POST ") url)
  message ← add_line message (host_line host)
  message ← add_line message (codes "Content-Type: " ++ content_type)
  message ← add_line message (codes "Content-Length: " ++ decimal (length body))
  message ← if count == 2 then some message else compute_message message []
  message ← post_cookies cookies count message
  message ← if count == 2 then compute_message message [] else some message
  compute_message message body

unfoldable pub delete_cookies : Cookies → ℕ → Bytes → Option Bytes
delete_cookies none count message = some message
delete_cookies (some (cookie, none)) count message = some message
delete_cookies (some (cookie, some token)) count message =
    if count == 2 then add_line message (authorization token) else some message

unfoldable pub compute_delete_request : Bytes → Bytes → Cookies → ℕ → Option Bytes
compute_delete_request host url cookies count = do
  message ← add_line [] (request_line (codes "DELETE ") url)
  message ← add_line message (host_line host)
  message ← delete_cookies cookies count message
  compute_message message []

unfoldable pub starts_with : Bytes → Bytes → Bool
starts_with [] text = true
starts_with (c ∷ cs) [] = false
starts_with (c ∷ cs) (d ∷ text) = (c == d) && starts_with cs text

-- The text from the first place on where the pattern is.
unfoldable pub strstr : Bytes → Bytes → Option Bytes
strstr [] pattern = if starts_with pattern [] then some [] else none
strstr (c ∷ text) pattern = elim (starts_with pattern (c ∷ text)) [
  | true ↦ some (c ∷ text)
  | false ↦ strstr text pattern
]

unfoldable pub basic_extract_json_response : Bytes → Option Bytes
basic_extract_json_response response = strstr response (codes "{\"")
