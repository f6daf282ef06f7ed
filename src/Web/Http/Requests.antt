-- ===== src/Web/Http/Requests.antt =====
-- The lines of the GET, DELETE and POST requests of helpers.c.
use communication_protocols.Base.{
  ◌>>=◌, ℕ, ◌+◌, ◌≤◌, ◌≡◌, refl, true, Option, none, some, List, [], ◌∷◌, ◌++◌, Bytes, codes,
  length, length-append, ◌==◌, if◌then◌else◌, inl, inr, sym, append_assoc, append-nil, Bool-cases,
  arith,
}
use communication_protocols.Web.Http.{
  Cookies, request_line, host_line, authorization, cookie_line, add_line, compute_message,
  get_cookies, compute_get_request, delete_cookies, compute_delete_request,
}
use communication_protocols.Web.Http.Split.{
  HasLines, Built, Built-some, Built-bind, compute_message-Built, add_line-Built, no_cr,
  no_cr-append,
}

-- A text of 800 bytes at most, with no carriage return.
pub record IsShort (text : Bytes) : Type 0 where
  pub plain : no_cr text ≡ true
  pub small : length text ≤ 800

-- The cookies that are there are short.
abbrev pub ShortCookies : Cookies → Type 0
ShortCookies none = Unit
ShortCookies (some (none, none)) = Unit
ShortCookies (some (some cookie, none)) = IsShort cookie
ShortCookies (some (none, some token)) = IsShort token
ShortCookies (some (some cookie, some token)) = IsShort cookie × IsShort token

-- The lines for the token and the cookie.
abbrev pub cookie_lines : Cookies → ℕ → List Bytes
cookie_lines none count = []
cookie_lines (some (none, token)) count = []
cookie_lines (some (some cookie, none)) count = cookie_line cookie ∷ []
cookie_lines (some (some cookie, some token)) count =
    if count == 2 then authorization token ∷ cookie_line cookie ∷ [] else cookie_line cookie ∷ []

-- The first two lines of a request.
abbrev pub start_lines : Bytes → Bytes → Bytes → List Bytes
start_lines method host url = request_line method url ∷ host_line host ∷ []

-- Any request starts with these, and goes on as k does.
pub start-Built :
    (method host url : Bytes) (k : Bytes → Option Bytes) (lines : List Bytes) (n : ℕ)
    → IsShort host
    → IsShort url
    → no_cr method ≡ true
    → length method ≤ 7
    → ((m : Bytes)
        → HasLines m (start_lines method host url)
        → length m ≤ 1800
        → Built (k m) lines n)
    → Built
        (add_line [] (request_line method url) >>= (λ m. add_line m (host_line host) >>= k))
        lines
        n
unfolding no_cr
start-Built method host url k lines n hh hu plain small next =
    let ending = codes " HTTP/1.1" in
    let line = request_line method url in
    let len : length line ≡ length method + (length url + 9) =
      omega (arith, length-append method (url ++ ending), length-append url ending) in
    Built-bind _ _ (line ∷ []) lines 900 n
      (add_line-Built [] line [] 0 900 (λ rest. refl) (omega arith)
        (no_cr-append method (url ++ ending) plain (no_cr-append url ending hu.plain refl))
        (omega (arith, hu.small, len)) (omega (arith, hu.small, len)) (omega arith))
      (λ m has size.
        Built-bind _ k (start_lines method host url) lines 1800 n
          (add_line-Built m (host_line host) (line ∷ []) 900 1800 has size hh.plain
            (omega (arith, hh.small)) (omega (arith, hh.small)) (omega arith))
          next)

-- The blank line at the end.
blank-Built :
    (m : Bytes) (lines : List Bytes)
    → HasLines m lines
    → length m ≤ 3700
    → Built (compute_message m []) (lines ++ [] ∷ []) 3800
unfolding no_cr
blank-Built m lines has size =
    compute_message-Built m [] lines 3700 3800 has size refl (omega arith) (omega arith)

cookie-Built :
    (m cookie : Bytes) (lines : List Bytes)
    → IsShort cookie
    → HasLines m lines
    → length m ≤ 2700
    → Built (add_line m (cookie_line cookie)) (lines ++ cookie_line cookie ∷ []) 3700
unfolding no_cr
cookie-Built m cookie lines h has size =
    add_line-Built m (cookie_line cookie) lines 2700 3700 has size h.plain (omega (arith, h.small))
      (omega (arith, h.small)) (omega arith)

token-Built :
    (m token : Bytes) (lines : List Bytes)
    → IsShort token
    → HasLines m lines
    → length m ≤ 1800
    → Built (add_line m (authorization token)) (lines ++ authorization token ∷ []) 2700
unfolding no_cr
token-Built m token lines h has size =
    add_line-Built m (authorization token) lines 1800 2700 has size h.plain (omega (arith, h.small))
      (omega (arith, h.small)) (omega arith)

get_cookies-Built :
    (cookies : Cookies) (count : ℕ) (m : Bytes) (lines : List Bytes)
    → ShortCookies cookies
    → HasLines m lines
    → length m ≤ 1800
    → Built (get_cookies cookies count m) (lines ++ cookie_lines cookies count) 3700
unfolding get_cookies
get_cookies-Built none count m lines h has size =
    rw (append-nil lines) (Built-some m lines 3700 has (omega arith))
get_cookies-Built (some (none, token)) count m lines h has size =
    rw (append-nil lines) (Built-some m lines 3700 has (omega arith))
get_cookies-Built (some (some cookie, none)) count m lines h has size =
    cookie-Built m cookie lines h has (omega arith)
get_cookies-Built (some (some cookie, some token)) count m lines (hc, ht) has size =
    elim (Bool-cases (count == 2)) [
      | inl b ↦ rw b (
          Built-bind (add_line m (authorization token)) _ (lines ++ authorization token ∷ [])
            (lines ++ authorization token ∷ cookie_line cookie ∷ []) 2700 3700
            (token-Built m token lines ht has size)
            (λ m' has' size'.
              rw (sym (append_assoc lines (authorization token ∷ []) (cookie_line cookie ∷ [])))
                (cookie-Built m' cookie _ hc has' size')))
      | inr b ↦ rw b (cookie-Built m cookie lines hc has (omega arith))
    ]

-- A GET request for a host, an address and cookies of up to 800 bytes each, with no carriage return
-- in them, is built with no overflow. Its lines are the request line, the host and, where there is a
-- cookie, the token, if there is one and for two cookies only, and the cookie; a blank line ends it.
compute_get_request-Built :
    (host url : Bytes) (cookies : Cookies) (count : ℕ)
    → IsShort host
    → IsShort url
    → ShortCookies cookies
    → Built
        (compute_get_request host url cookies count)
        ((request_line (codes "GET ") url ∷ host_line host ∷ cookie_lines cookies count) ++ [] ∷ [])
        3800
unfolding compute_get_request no_cr
compute_get_request-Built host url cookies count hh hu hc =
    start-Built (codes "GET ") host url _ _ 3800 hh hu refl (omega arith) (λ m has size.
      Built-bind (get_cookies cookies count m) _
        (start_lines (codes "GET ") host url ++ cookie_lines cookies count) _ 3700 3800
        (get_cookies-Built cookies count m (start_lines (codes "GET ") host url) hc has size)
        (λ m' has' size'.
          blank-Built m' (start_lines (codes "GET ") host url ++ cookie_lines cookies count) has'
            size'))

-- The line for the token of a DELETE request.
abbrev pub token_lines : Cookies → ℕ → List Bytes
token_lines none count = []
token_lines (some (cookie, none)) count = []
token_lines (some (cookie, some token)) count = if count == 2 then authorization token ∷ [] else []

Built-le :
    (r : Option Bytes) (lines : List Bytes) (n n' : ℕ) → n ≤ n' → Built r lines n → Built r lines n'
Built-le r lines n n' le b = record {
  text = b.text;
  is = b.is;
  has = b.has;
  size = omega (arith, le, b.size);
}

delete_token-Built :
    (m token : Bytes) (lines : List Bytes) (count : ℕ)
    → IsShort token
    → HasLines m lines
    → length m ≤ 1800
    → Built
        (if count == 2 then add_line m (authorization token) else some m)
        (lines ++ (if count == 2 then authorization token ∷ [] else []))
        3700
delete_token-Built m token lines count h has size = elim (Bool-cases (count == 2)) [
  | inl b ↦ rw b (Built-le _ _ 2700 3700 (omega arith) (token-Built m token lines h has size))
  | inr b ↦ rw (b, append-nil lines) (Built-some m lines 3700 has (omega arith))
]

delete_cookies-Built :
    (cookies : Cookies) (count : ℕ) (m : Bytes) (lines : List Bytes)
    → ShortCookies cookies
    → HasLines m lines
    → length m ≤ 1800
    → Built (delete_cookies cookies count m) (lines ++ token_lines cookies count) 3700
unfolding delete_cookies
delete_cookies-Built none count m lines h has size =
    rw (append-nil lines) (Built-some m lines 3700 has (omega arith))
delete_cookies-Built (some (none, none)) count m lines h has size =
    rw (append-nil lines) (Built-some m lines 3700 has (omega arith))
delete_cookies-Built (some (some cookie, none)) count m lines h has size =
    rw (append-nil lines) (Built-some m lines 3700 has (omega arith))
delete_cookies-Built (some (none, some token)) count m lines h has size =
    delete_token-Built m token lines count h has size
delete_cookies-Built (some (some cookie, some token)) count m lines (hc, ht) has size =
    delete_token-Built m token lines count ht has size

-- A DELETE request under the same conditions has the request line, the host and, for two cookies,
-- the token if it is there, but never the cookie; then a blank line ends it.
compute_delete_request-Built :
    (host url : Bytes) (cookies : Cookies) (count : ℕ)
    → IsShort host
    → IsShort url
    → ShortCookies cookies
    → Built
        (compute_delete_request host url cookies count)
        ((request_line (codes "DELETE ") url ∷ host_line host ∷ token_lines cookies count)
          ++ [] ∷ [])
        3800
unfolding compute_delete_request no_cr
compute_delete_request-Built host url cookies count hh hu hc =
    let lines = start_lines (codes "DELETE ") host url in
    start-Built (codes "DELETE ") host url _ _ 3800 hh hu refl (omega arith) (λ m has size.
      Built-bind (delete_cookies cookies count m) _ (lines ++ token_lines cookies count) _ 3700 3800
        (delete_cookies-Built cookies count m lines hc has size)
        (λ m' has' size'. blank-Built m' (lines ++ token_lines cookies count) has' size'))

-- A GET request and a DELETE request for a host, an address and cookies of up to 800 bytes each, with no
-- carriage return in them, are built with no overflow. Each has the request line and the host, and a
-- blank line ends it. In between, the GET request has nothing where there is no cookie, a token or not;
-- else it has the cookie, and before it, for two cookies, the token if there is one. The DELETE request
-- has, for two cookies, the token if there is one, with a cookie or without; and never the cookie.
pub requests-Built :
    (host url : Bytes) (cookies : Cookies) (count : ℕ)
    → IsShort host
    → IsShort url
    → ShortCookies cookies
    → Built
        (compute_get_request host url cookies count)
        ((request_line (codes "GET ") url ∷ host_line host ∷ cookie_lines cookies count) ++ [] ∷ [])
        3800
      × Built
          (compute_delete_request host url cookies count)
          ((request_line (codes "DELETE ") url ∷ host_line host ∷ token_lines cookies count)
            ++ [] ∷ [])
          3800
requests-Built host url cookies count hh hu hc = (
  compute_get_request-Built host url cookies count hh hu hc,
  compute_delete_request-Built host url cookies count hh hu hc,
)
