-- ===== src/Web/Http/Tests.antt =====
-- A GET, a DELETE and a POST request, with a cookie and a token.
use communication_protocols.Base.{
  fits, decimal_loop, ◌≡◌, refl, Option, none, some, [], ◌∷◌, ◌++◌, Bytes, codes, ◌==◌, arith,
}
use communication_protocols.Web.Http.{
  Cookies, request_line, host_line, compute_get_request, compute_post_request,
  compute_delete_request, add_line, compute_message, get_cookies, post_cookies,
}
use communication_protocols.Web.Http.Split.{Built, no_cr}
use communication_protocols.Web.Http.Requests.{
  IsShort, ShortCookies, cookie_lines, token_lines, requests-Built,
}
use communication_protocols.Web.Http.Post.{
  cookies_of, cookie_part, head, compute_post_request-Built,
}

abbrev host : Bytes
host = codes "example.org"

abbrev url : Bytes
url = codes "/books"

abbrev both : Cookies
both = some (some (codes "sid=1"), some (codes "abc"))

host-IsShort : IsShort host
unfolding no_cr
host-IsShort = record { plain = refl; small = omega arith }

url-IsShort : IsShort url
unfolding no_cr
url-IsShort = record { plain = refl; small = omega arith }

both_short : ShortCookies both
unfolding no_cr
both_short =
    (record { plain = refl; small = omega arith }, record { plain = refl; small = omega arith })

get_text :
    compute_get_request host url both 2
    ≡ some (
        codes
          "GET /books HTTP/1.1\r\nHost: example.org\r\nAuthorization: Bearer abc\r\nCookie: sid=1\r\n\r\n")
unfolding compute_get_request add_line compute_message fits get_cookies
get_text = refl

-- Here the cookie stands behind the blank line.
post_text :
    compute_post_request host url (codes "text") (codes "{}") (some (some (codes "sid=1"), none)) 1
    ≡ some (
        codes
          "POST /books HTTP/1.1\r\nHost: example.org\r\nContent-Type: text\r\nContent-Length: 2\r\n\r\nCookie: sid=1\r\n{}\r\n")
unfolding compute_post_request add_line compute_message fits post_cookies decimal_loop
post_text = refl

requests-Built_example :
    Built
      (compute_get_request host url both 2)
      ((request_line (codes "GET ") url ∷ host_line host ∷ cookie_lines both 2) ++ [] ∷ [])
      3800
    × Built
        (compute_delete_request host url both 2)
        ((request_line (codes "DELETE ") url ∷ host_line host ∷ token_lines both 2) ++ [] ∷ [])
        3800
requests-Built_example = requests-Built host url both 2 host-IsShort url-IsShort both_short

abbrev both_texts : Option (Bytes × Bytes)
both_texts = some (codes "sid=1", codes "abc")

compute_post_request-Built_example :
    Built
      (compute_post_request host url (codes "text") (codes "{}") (cookies_of both_texts) 2)
      (head host url (codes "text") (codes "{}")
        ++ cookie_part both_texts (2 == 2)
        ++ codes "{}" ∷ [])
      4050
compute_post_request-Built_example =
    compute_post_request-Built host url (codes "text") (codes "{}") (omega arith)
      (unfold no_cr in refl) both_texts 2 host-IsShort url-IsShort (unfold no_cr in refl)
      (omega arith) both_short
