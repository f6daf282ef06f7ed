-- ===== src/Web/Http/Split.antt =====
-- The lines of a message, and what the two helpers of helpers.c add to them.
use communication_protocols.Base.{
  fits-some, ◌>>=◌, ℕ, ◌+◌, ◌≤◌, ◌<◌, ◌≡◌, refl, ap, sym, ◌∙◌, Bool, true, false, ◌&&◌, not, Option,
  some, List, [], ◌∷◌, ◌++◌, append_assoc, Bytes, length, length-append, ◌==◌, arith,
}
use communication_protocols.Web.Http.{compute_message, add_line}

abbrev pub put_first : ℕ → List Bytes → List Bytes
put_first c [] = (c ∷ []) ∷ []
put_first c (line ∷ lines) = (c ∷ line) ∷ lines

-- A text cut at each carriage return with a line feed behind it.
unfoldable pub split : Bytes → List Bytes
split [] = [] ∷ []
split (c ∷ []) = (c ∷ []) ∷ []
split (c ∷ d ∷ rest) = elim ((c == 13) && (d == 10)) [
  | true ↦ [] ∷ split rest
  | false ↦ put_first c (split (d ∷ rest))
]

-- No carriage return stands in the text.
unfoldable pub no_cr : Bytes → Bool
no_cr [] = true
no_cr (c ∷ cs) = not (c == 13) && no_cr cs

pub no_cr-append : (xs ys : Bytes) → no_cr xs ≡ true → no_cr ys ≡ true → no_cr (xs ++ ys) ≡ true
unfolding no_cr
no_cr-append [] ys hx hy = hy
no_cr-append (x ∷ xs) ys hx hy = ground (arith, no_cr-append xs ys)

plain_first :
    (c d : ℕ) (rest : Bytes)
    → not (c == 13) ≡ true
    → split (c ∷ d ∷ rest) ≡ put_first c (split (d ∷ rest))
unfolding split
plain_first c d rest h = ground arith

split-line :
    (line rest : Bytes) → no_cr line ≡ true → split (line ++ 13 ∷ 10 ∷ rest) ≡ line ∷ split rest
unfolding split no_cr
split-line [] rest h = refl
split-line (c ∷ []) rest h = plain_first c 13 (10 ∷ rest) (ground arith)
split-line (c ∷ d ∷ line) rest h =
    plain_first c d (line ++ 13 ∷ 10 ∷ rest) (ground arith)
    ∙ ap (put_first c) (split-line (d ∷ line) rest (ground arith))

-- The message has these lines, and then what follows it.
abbrev pub HasLines : Bytes → List Bytes → Type 0
HasLines message lines = (rest : Bytes) → split (message ++ rest) ≡ lines ++ split rest

-- A message of n bytes at most with these lines is the result.
pub record Built (r : Option Bytes) (lines : List Bytes) (n : ℕ) : Type 0 where
  pub text : Bytes
  pub is : r ≡ some text
  pub has : HasLines text lines
  pub size : length text ≤ n

pub Built-some :
    (m : Bytes) (lines : List Bytes) (n : ℕ)
    → HasLines m lines
    → length m ≤ n
    → Built (some m) lines n
Built-some m lines n has size = record { text = m; is = refl; has = has; size = size }

pub Built-bind :
    (r : Option Bytes) (f : Bytes → Option Bytes) (lines lines' : List Bytes) (n n' : ℕ)
    → Built r lines n
    → ((m : Bytes) → HasLines m lines → length m ≤ n → Built (f m) lines' n')
    → Built (r >>= f) lines' n'
Built-bind r f lines lines' n n' b next = rw b.is (next b.text b.has b.size)

HasLines-add :
    (m line : Bytes) (lines : List Bytes)
    → HasLines m lines
    → no_cr line ≡ true
    → HasLines ((m ++ line) ++ 13 ∷ 10 ∷ []) (lines ++ line ∷ [])
HasLines-add m line lines has plain rest =
    ap split (append_assoc (m ++ line) (13 ∷ 10 ∷ []) rest ∙ append_assoc m line (13 ∷ 10 ∷ rest))
    ∙ has (line ++ 13 ∷ 10 ∷ rest)
    ∙ ap (λ l. lines ++ l) (split-line line rest plain)
    ∙ sym (append_assoc lines (line ∷ []) (split rest))

-- A line that fits is added to the lines.
pub compute_message-Built :
    (m line : Bytes) (lines : List Bytes) (n n' : ℕ)
    → HasLines m lines
    → length m ≤ n
    → no_cr line ≡ true
    → n + length line + 2 ≤ n'
    → n' < 4096
    → Built (compute_message m line) (lines ++ line ∷ []) n'
unfolding compute_message
compute_message-Built m line lines n n' has size plain room top =
    let whole = (m ++ line) ++ 13 ∷ 10 ∷ [] in
    let len : length whole ≡ length m + length line + 2 =
      omega (arith, length-append (m ++ line) (13 ∷ 10 ∷ []), length-append m line) in
    rw (fits-some 4096 whole (omega (arith, len))) (
      Built-some whole (lines ++ line ∷ []) _ (HasLines-add m line lines has plain)
        (omega (arith, len)))

pub add_line-Built :
    (m line : Bytes) (lines : List Bytes) (n n' : ℕ)
    → HasLines m lines
    → length m ≤ n
    → no_cr line ≡ true
    → length line < 1000
    → n + length line + 2 ≤ n'
    → n' < 4096
    → Built (add_line m line) (lines ++ line ∷ []) n'
unfolding add_line
add_line-Built m line lines n n' has size plain short room top =
    rw (fits-some 1000 line short) (compute_message-Built m line lines n n' has size plain room top)
