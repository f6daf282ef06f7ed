-- ===== src/Web/Http/Post.antt =====
-- The lines of the POST requests of helpers.c.
use communication_protocols.Base.{
  ◌>>=◌, ℕ, ◌+◌, ◌≤◌, ◌<◌, ◌≡◌, refl, Bool, true, false, Option, none, some, List, [], ◌∷◌, ◌++◌,
  Bytes, codes, length, All, decimal, decimal_loop-All, decimal-short, ◌==◌, if◌then◌else◌, inl,
  inr, Bool-cases, arith,
}
use communication_protocols.Web.Http.{
  Cookies, request_line, host_line, authorization, cookie_line, add_line, compute_message,
  post_cookies, compute_post_request,
}
use communication_protocols.Web.Http.Split.{
  HasLines, Built, Built-bind, compute_message-Built, add_line-Built, no_cr,
}
use communication_protocols.Web.Http.Requests.{IsShort, start_lines, start-Built}

-- No cookies, or the cookie and the token.
abbrev pub cookies_of : Option (Bytes × Bytes) → Cookies
cookies_of none = none
cookies_of (some (cookie, token)) = some (some cookie, some token)

abbrev pub ShortTexts : Option (Bytes × Bytes) → Type 0
ShortTexts none = Unit
ShortTexts (some (cookie, token)) = IsShort cookie × IsShort token

abbrev pub length_line : Bytes → Bytes
length_line body = codes "Content-Length: " ++ decimal (length body)

abbrev pub type_line : Bytes → Bytes
type_line content_type = codes "Content-Type: " ++ content_type

-- The lines behind the first four: for two cookies, these and a blank line; otherwise a blank line
-- in front of the cookie.
abbrev pub cookie_part : Option (Bytes × Bytes) → Bool → List Bytes
cookie_part none both = [] ∷ []
cookie_part (some (cookie, token)) true = authorization token ∷ cookie_line cookie ∷ [] ∷ []
cookie_part (some (cookie, token)) false = [] ∷ cookie_line cookie ∷ []

digits_no_cr : (text : Bytes) → All (λ c. 48 ≤ c) text → no_cr text ≡ true
unfolding no_cr
digits_no_cr [] h = refl
digits_no_cr (c ∷ text) (p, h) = ground (arith, digits_no_cr text h)

blank-line :
    (m : Bytes) (lines : List Bytes) (n n' : ℕ)
    → HasLines m lines
    → length m ≤ n
    → n + 2 ≤ n'
    → n' < 4096
    → Built (compute_message m []) (lines ++ [] ∷ []) n'
unfolding no_cr
blank-line m lines n n' has size room top =
    compute_message-Built m [] lines n n' has size refl (omega (arith, room)) top

cookie-line :
    (m cookie : Bytes) (lines : List Bytes) (n n' : ℕ)
    → IsShort cookie
    → HasLines m lines
    → length m ≤ n
    → n + 810 ≤ n'
    → n' < 4096
    → Built (add_line m (cookie_line cookie)) (lines ++ cookie_line cookie ∷ []) n'
unfolding no_cr
cookie-line m cookie lines n n' h has size room top =
    add_line-Built m (cookie_line cookie) lines n n' has size h.plain (omega (arith, h.small))
      (omega (arith, h.small, room)) top

module _ (host url content_type body : Bytes) where
  abbrev pub head : List Bytes
  head =
      request_line (codes "POST ") url
      ∷ host_line host
      ∷ type_line content_type
      ∷ length_line body
      ∷ []

  module _ (small : length body ≤ 400) (plain : no_cr body ≡ true) where
    body-Built :
        (m : Bytes) (lines : List Bytes)
        → HasLines m lines
        → length m ≤ 3610
        → Built (compute_message m body) (lines ++ body ∷ []) 4050
    body-Built m lines has size =
        compute_message-Built m body lines 3610 4050 has size plain (omega (arith, small))
          (omega arith)

    -- What follows the first four lines.
    rest-Built :
        (texts : Option (Bytes × Bytes)) (count : ℕ) (m : Bytes)
        → ShortTexts texts
        → HasLines m head
        → length m ≤ 1950
        → Built
            ((if count == 2 then some m else compute_message m []) >>= (λ m.
              post_cookies (cookies_of texts) count m >>= (λ m.
                (if count == 2 then compute_message m [] else some m)
                >>= (λ m. compute_message m body))))
            (head ++ cookie_part texts (count == 2) ++ body ∷ [])
            4050
    unfolding post_cookies no_cr
    rest-Built none count m h has size =
        let one =
          Built-bind (compute_message m []) (λ m. compute_message m body) (head ++ [] ∷ [])
            (head ++ [] ∷ body ∷ []) 3610 4050
            (blank-line m head 1950 3610 has size (omega arith) (omega arith))
            (λ m' has' size'. body-Built m' (head ++ [] ∷ []) has' size') in
        elim (Bool-cases (count == 2)) [ inl b ↦ rw b one | inr b ↦ rw b one ]
    rest-Built (some (cookie, token)) count m (hc, ht) has size = elim (Bool-cases (count == 2)) [
      | inl b ↦ rw b (
          let auth = authorization token in
          let line = cookie_line cookie in
          Built-bind (add_line m auth >>= (λ m. add_line m line)) _ (head ++ auth ∷ line ∷ []) _
            3600 4050
            (Built-bind (add_line m auth) (λ m. add_line m line) (head ++ auth ∷ []) _ 2780 3600
              (add_line-Built m auth head 1950 2780 has size ht.plain (omega (arith, ht.small))
                (omega (arith, ht.small)) (omega arith))
              (λ m' has' size'.
                cookie-line m' cookie (head ++ auth ∷ []) 2780 3600 hc has' size' (omega arith)
                  (omega arith)))
            (λ m' has' size'.
              Built-bind (compute_message m' []) _ (head ++ auth ∷ line ∷ [] ∷ []) _ 3610 4050
                (blank-line m' (head ++ auth ∷ line ∷ []) 3600 3610 has' size' (omega arith)
                  (omega arith))
                (λ m'' has'' size''. body-Built m'' (head ++ auth ∷ line ∷ [] ∷ []) has'' size'')))
      | inr b ↦ rw b (
          let line = cookie_line cookie in
          Built-bind (compute_message m []) _ (head ++ [] ∷ []) _ 1960 4050
            (blank-line m head 1950 1960 has size (omega arith) (omega arith))
            (λ m' has' size'.
              Built-bind (add_line m' line) _ (head ++ [] ∷ line ∷ []) _ 3610 4050
                (cookie-line m' cookie (head ++ [] ∷ []) 1960 3610 hc has' size' (omega arith)
                  (omega arith))
                (λ m'' has'' size''. body-Built m'' (head ++ [] ∷ line ∷ []) has'' size'')))
    ]

    -- A POST request for a host and an address of up to 800 bytes each, a content type of up to 100, a
    -- body of up to 400 and either no cookies or a cookie and a token of up to 800 bytes each, none with
    -- a carriage return, is built with no overflow. Its lines are the request line, the host, the type
    -- and the length of the body; for two cookies, the token and the cookie if they are there, a blank
    -- line and the body; and for any other number of cookies, a blank line, then the cookie if it is
    -- there, and the body.
    pub compute_post_request-Built :
        (texts : Option (Bytes × Bytes)) (count : ℕ)
        → IsShort host
        → IsShort url
        → no_cr content_type ≡ true
        → length content_type ≤ 100
        → ShortTexts texts
        → Built
            (compute_post_request host url content_type body (cookies_of texts) count)
            (head ++ cookie_part texts (count == 2) ++ body ∷ [])
            4050
    unfolding compute_post_request no_cr
    compute_post_request-Built texts count hh hu plain_type small_type ht =
        let start = start_lines (codes "POST ") host url in
        let digits = decimal-short (length body) (omega (arith, small)) in
        start-Built (codes "POST ") host url _ _ 4050 hh hu refl (omega arith) (λ m has size.
          Built-bind (add_line m (type_line content_type)) _ (start ++ type_line content_type ∷ [])
            _ 1920 4050
            (add_line-Built m (type_line content_type) start 1800 1920 has size plain_type
              (omega (arith, small_type)) (omega (arith, small_type)) (omega arith))
            (λ m' has' size'.
              Built-bind (add_line m' (length_line body)) _ head _ 1950 4050
                (add_line-Built m' (length_line body) (start ++ type_line content_type ∷ []) 1920
                  1950 has' size'
                  (digits_no_cr (decimal (length body)) (decimal_loop-All 20 (length body) [] tt))
                  (omega (arith, digits)) (omega (arith, digits)) (omega arith))
                (λ m'' has'' size''. rest-Built texts count m'' ht has'' size'')))
