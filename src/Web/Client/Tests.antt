-- ===== src/Web/Client/Tests.antt =====
-- A session with a login, the entry into the library, and a logout.
use communication_protocols.Base.{
  fits, ℕ, ◌+◌, ◌*◌, ◌-◌, ◌≡◌, refl, none, some, [], ◌∷◌, ◌++◌, Bytes, codes, true,
}
use communication_protocols.Web.Http.{
  compute_get_request, add_line, compute_message, get_cookies, strstr, starts_with,
  basic_extract_json_response,
}
use communication_protocols.Web.Client.{
  Session, Library, login, enter_library, get_books, logout, host, books_url, token_before,
  is_number, ask_pages, request, logout_request, receive, round, rounds,
}
use communication_protocols.Web.Client.Tokens.{all_out, rounds-logout}
use communication_protocols.Web.Client.Pages.{Asked, ask_pages-Asked}

abbrev digits_value : ℕ → Bytes → ℕ
digits_value n [] = n
digits_value n (c ∷ text) = digits_value (n * 10 + (c - 48)) text

abbrev pub library : Library
library = record {
  credentials = λ u p. u ++ codes ":" ++ p;
  book = λ t a g p n. t;
  token_of = λ text. some (codes "jwt");
  atoi = digits_value 0;
}

abbrev unknown : Session
unknown = record { cookie = none; token = none }

abbrev pub logged_in : Session
logged_in = record { cookie = some (codes "connect.sid=s3"); token = some (codes "jwt") }

abbrev logged_out : Session
logged_out = record { cookie = some (codes "connect.sid=s3"); token = none }

enters :
    (receive library unknown
        (login (codes "u") (codes "p"))
        (codes "Set-Cookie: connect.sid=s3; Path=/")
      ≡ some
          (record { cookie = some (codes "connect.sid=s3"); token = none }, codes "connect.sid=s3"))
    × (receive library logged_out enter_library (codes "x{\"token\":1}")
        ≡ some (logged_in, codes "{\"token\":1}"))
unfolding receive basic_extract_json_response strstr starts_with token_before
enters = (refl, refl)

abbrev books_answer : Bytes
books_answer = codes "[]"

abbrev pub logout_text : Bytes
logout_text =
    codes
      "GET /api/v1/tema/auth/logout HTTP/1.1\r\nHost: ec2-3-8-116-10.eu-west-2.compute.amazonaws.com\r\nCookie: connect.sid=s3\r\n\r\n"

abbrev books_text : Bytes
books_text =
    codes
      "GET /api/v1/tema/library/books HTTP/1.1\r\nHost: ec2-3-8-116-10.eu-west-2.compute.amazonaws.com\r\nCookie: connect.sid=s3\r\n\r\n"

two_rounds :
    rounds library logged_in ((logout, []) ∷ (get_books, books_answer) ∷ [])
    ≡ some (logged_out, logout_text ∷ books_text ∷ [])
unfolding rounds round request logout_request receive compute_get_request add_line compute_message
    fits get_cookies basic_extract_json_response strstr starts_with
two_rounds = refl

only_books : all_out ((get_books, books_answer) ∷ []) ≡ true
unfolding all_out
only_books = refl

rounds-logout_example :
    (logged_out.token ≡ none)
    × (request library logged_out get_books
        ≡ compute_get_request host books_url (some (some (codes "connect.sid=s3"), none)) 2)
rounds-logout_example =
    rounds-logout library logged_in logged_out [] ((get_books, books_answer) ∷ [])
      (logout_text ∷ books_text ∷ []) only_books two_rounds

pages_asked :
    ask_pages library (codes "ten") (codes "0" ∷ codes "12" ∷ codes "x" ∷ [])
    ≡ some (12, codes "x" ∷ [])
unfolding ask_pages is_number
pages_asked = refl

ask_pages-Asked_example :
    Asked library
      (codes "ten" ∷ codes "0" ∷ codes "12" ∷ [])
      (ask_pages library (codes "ten") (codes "0" ∷ codes "12" ∷ []))
ask_pages-Asked_example = ask_pages-Asked library (codes "ten") (codes "0" ∷ codes "12" ∷ [])
