-- ===== src/Web/Client.antt =====
-- `main` of Client-Web-RestAPI/client.c. A command comes with the words that are typed for it and
-- the response of the server. `none` is a null pointer that is printed, a request that does not fit,
-- or the end of the input. The JSON library and `atoi` are parameters.
pub mod Tokens
pub mod Pages
pub mod Tests
use communication_protocols.Base.{
  fits, ◌>>=◌, ℕ, Bool, true, false, ◌&&◌, not, Option, none, some, List, [], ◌∷◌, ◌++◌, Bytes,
  codes, leb, ◌==◌,
}
use communication_protocols.Web.Http.{
  Cookies, strstr, basic_extract_json_response, compute_get_request, compute_post_request,
  compute_delete_request,
}

-- The two pointers of `cookies`: the session's cookie and the library's token.
pub record Session : Type 0 where
  pub cookie : Option Bytes
  pub token : Option Bytes

-- The serialized objects, the member "token" of a parsed text, and `atoi`, where a negative result
-- counts as 0.
pub record Library : Type 0 where
  pub credentials : Bytes → Bytes → Bytes
  pub book : Bytes → Bytes → Bytes → Bytes → ℕ → Bytes
  pub token_of : Bytes → Option Bytes
  pub atoi : Bytes → ℕ

-- A command with its words. For `add_book`: the title, the author, the genre, the publisher, the
-- page count, and the words that are typed when one is refused.
pub data Command : Type 0 where
  register : Bytes → Bytes → Command
  login : Bytes → Bytes → Command
  enter_library : Command
  get_books : Command
  get_book : Bytes → Command
  add_book : Bytes → Bytes → Bytes → Bytes → Bytes → List Bytes → Command
  delete_book : Bytes → Command
  logout : Command

abbrev pub host : Bytes
host = codes "ec2-3-8-116-10.eu-west-2.compute.amazonaws.com"

abbrev pub books_url : Bytes
books_url = codes "/api/v1/tema/library/books"

-- `url`, in a block of 80 bytes.
unfoldable pub book_url : Bytes → Option Bytes
book_url id = fits 80 (codes "/api/v1/tema/library/books/" ++ id)

unfoldable pub is_number : Bytes → Bool
is_number [] = true
is_number (c ∷ s) = (leb b'0' c && leb c b'9') && is_number s

-- `cookies`
abbrev pub cookies_of : Session → Cookies
cookies_of s = some (s.cookie, s.token)

-- `strtok(text, ";")` of a text that does not begin with a `;`.
unfoldable pub token_before : Bytes → Bytes
token_before [] = []
token_before (c ∷ text) = elim (c == b';') [ true ↦ [] | false ↦ c ∷ token_before text ]

-- The requests for one book.
unfoldable pub get_book_request : Session → Bytes → Option Bytes
get_book_request s id = do url ← book_url id; compute_get_request host url (cookies_of s) 2

unfoldable pub delete_book_request : Session → Bytes → Option Bytes
delete_book_request s id = do url ← book_url id; compute_delete_request host url (cookies_of s) 2

unfoldable pub logout_request : Session → Option Bytes
logout_request s = compute_get_request host (codes "/api/v1/tema/auth/logout") (cookies_of s) 1

-- `cookies[1] = NULL`
abbrev pub without_token : Session → Session
without_token s = record s { token = none }

-- The loop that asks for an author: a word of digits is refused.
unfoldable pub ask_author : Bytes → List Bytes → Option Bytes
ask_author author [] = elim (is_number author) [ true ↦ none | false ↦ some author ]
ask_author author (word ∷ words) = elim (is_number author) [
  | true ↦ ask_author word words
  | false ↦ some author
]

-- The JSON text of the response, or "OK".
abbrev pub json_or_ok : Bytes → Bytes
json_or_ok response = elim (basic_extract_json_response response) [
  | none ↦ codes "OK"
  | some json ↦ json
]

-- The JSON text of the response, or the text from the pattern on.
abbrev pub json_or : Bytes → Bytes → Option Bytes
json_or pattern response = elim (basic_extract_json_response response) [
  | none ↦ strstr response pattern
  | some json ↦ some json
]

module _ (lib : Library) where
  -- The loop that asks for a page count, with the words still to be typed.
  unfoldable pub ask_pages : Bytes → List Bytes → Option (ℕ × List Bytes)
  ask_pages page_count [] = elim (is_number page_count && not (lib.atoi page_count == 0)) [
    | true ↦ some (lib.atoi page_count, [])
    | false ↦ none
  ]
  ask_pages page_count (word ∷ words) =
      elim (is_number page_count && not (lib.atoi page_count == 0)) [
        | true ↦ some (lib.atoi page_count, word ∷ words)
        | false ↦ ask_pages word words
      ]

  -- The request for a new book, after its words are asked for.
  unfoldable pub add_book_request :
      Session → Bytes → Bytes → Bytes → Bytes → Bytes → List Bytes → Option Bytes
  add_book_request s title author genre publisher page_count words = do
    (count, words') ← ask_pages page_count words
    author' ← ask_author author words'
    compute_post_request host books_url (codes "application/json")
        (lib.book title author' genre publisher count) (cookies_of s) 2

  -- The request that a command sends.
  unfoldable pub request : Session → Command → Option Bytes
  request s (register username password) =
      compute_post_request host (codes "/api/v1/tema/auth/register") (codes "application/json")
        (lib.credentials username password) none 0
  request s (login username password) =
      compute_post_request host (codes "/api/v1/tema/auth/login") (codes "application/json")
        (lib.credentials username password) none 0
  request s enter_library =
      compute_get_request host (codes "/api/v1/tema/library/access") (cookies_of s) 1
  request s get_books = compute_get_request host books_url (cookies_of s) 2
  request s (get_book id) = get_book_request s id
  request s (add_book title author genre publisher page_count words) =
      add_book_request s title author genre publisher page_count words
  request s (delete_book id) = delete_book_request s id
  request s logout = logout_request s

  -- What is shown of the response, and the session after it.
  unfoldable pub receive : Session → Command → Bytes → Option (Session × Bytes)
  receive s (register username password) response = some (s, json_or_ok response)
  receive s (login username password) response = elim (basic_extract_json_response response) [
    | none ↦ do
      text ← strstr response (codes "connect.sid=")
      some (record s { cookie = some (token_before text) }, token_before text)
    | some json ↦ some (s, json)
  ]
  receive s enter_library response = do
    json ← basic_extract_json_response response
    elim (lib.token_of json) [
      | none ↦ some (s, json)
      | some token ↦ some (record s { token = some token }, json)
    ]
  receive s get_books response = do text ← json_or (codes "[") response; some (s, text)
  receive s (get_book id) response = do text ← json_or (codes "[{\"") response; some (s, text)
  receive s (add_book title author genre publisher page_count words) response =
      some (s, json_or_ok response)
  receive s (delete_book id) response = some (s, json_or_ok response)
  receive s logout response = some (without_token s, json_or_ok response)

  -- One round of the loop: the request, and the session after the response.
  unfoldable pub round : Session → Command → Bytes → Option (Session × Bytes × Bytes)
  round s command response = do
    message ← request s command
    (s', shown) ← receive s command response
    some (s', message, shown)

  -- The rounds up to `exit`: the session after them, and the requests.
  unfoldable pub rounds : Session → List (Command × Bytes) → Option (Session × List Bytes)
  rounds s [] = some (s, [])
  rounds s ((command, response) ∷ rest) = do
    (s', message, shown) ← round s command response
    (s'', messages) ← rounds s' rest
    some (s'', message ∷ messages)
