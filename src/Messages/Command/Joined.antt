-- ===== src/Messages/Command/Joined.antt =====
-- Two commands of a subscriber that `recv` gives as one text, as helpers.cpp reads it.
use communication_protocols.Base.{
  ℕ, ◌≤◌, ◌<◌, ◌≡◌, refl, sym, ap, ◌∙◌, inl, inr, Bool, true, false, ◌||◌, some, List, [], ◌∷◌,
  ◌++◌, append_assoc, Bytes, codes, length, length-append, ◌==◌, fits-some, same_bytes, Bool-cases,
  arith,
}
use communication_protocols.Messages.Command.{ServerMessage, tokens, decode_loop, decode_message}
use communication_protocols.Messages.Command.Words.{
  Typed, subscribe, unsubscribe, text_of, name_of, flag_text, no_space, tokens-word, tokens-last,
  no_space-append,
}

-- The message is refused.
abbrev pub Refused : ServerMessage → List Bytes → Type 0
Refused message words = (m : ServerMessage) × (decode_loop 1 words message ≡ some (false, m))

-- A third word of an unsubscription, and one of a subscription that is no flag.
third_of_unsubscribe :
    (message : ServerMessage) (token : Bytes) (rest : List Bytes)
    → (message.type == b'u') ≡ true
    → (m : ServerMessage) × (decode_loop 3 (token ∷ rest) message ≡ some (false, m))
unfolding decode_loop
third_of_unsubscribe message token rest e =
    elim (Bool-cases (same_bytes token (codes "1\n") || same_bytes token (codes "0\n"))) [
      | inl b ↦ (
        record message { sf = same_bytes token (codes "1\n") },
        rw (b, decode_loop) (rw (e, decode_loop) refl),
      )
      | inr b ↦ (message, rw (b, decode_loop) refl)
    ]

unsubscribe-Refused :
    (message : ServerMessage) (topic token : Bytes) (rest : List Bytes)
    → length topic < 51
    → Refused message (codes "unsubscribe" ∷ topic ∷ token ∷ rest)
unfolding decode_loop same_bytes
unsubscribe-Refused message topic token rest small =
    let (m, e) =
      third_of_unsubscribe (record message { type = b'u'; topic = topic }) token rest refl in
    (m, rw (fits-some 51 topic small, decode_loop) e)

subscribe-Refused :
    (message : ServerMessage) (topic token : Bytes) (rest : List Bytes)
    → length topic < 51
    → same_bytes token (codes "1\n") ≡ false
    → same_bytes token (codes "0\n") ≡ false
    → Refused message (codes "subscribe" ∷ topic ∷ token ∷ rest)
unfolding decode_loop same_bytes
subscribe-Refused message topic token rest small one zero = (
  record message { type = b's'; topic = topic },
  rw (fits-some 51 topic small, decode_loop) (rw (one, decode_loop) (rw (zero, decode_loop) refl)),
)

-- The text behind the keyword and its space.
abbrev rest_of : Typed → Bytes
rest_of (subscribe name sf) = name ++ 32 ∷ flag_text sf
rest_of (unsubscribe name) = name ++ codes "\n"

abbrev keyword_of : Typed → Bytes
keyword_of (subscribe name sf) = codes "subscribe"
keyword_of (unsubscribe name) = codes "unsubscribe"

text_of-keyword_of : (typed : Typed) → text_of typed ≡ keyword_of typed ++ 32 ∷ rest_of typed
text_of-keyword_of (subscribe name sf) = refl
text_of-keyword_of (unsubscribe name) = refl

keyword_plain : (typed : Typed) → no_space (keyword_of typed) ≡ true
unfolding no_space
keyword_plain (subscribe name sf) = refl
keyword_plain (unsubscribe name) = refl

keyword_short : (typed : Typed) → length (keyword_of typed) ≤ 11
keyword_short (subscribe name sf) = omega arith
keyword_short (unsubscribe name) = omega arith

-- There is a word behind the keyword.
rest_words :
    (typed : Typed)
    → no_space (name_of typed) ≡ true
    → 0 < length (name_of typed)
    → (token : Bytes) × (more : List Bytes) × (tokens (rest_of typed) ≡ token ∷ more)
unfolding no_space
rest_words (subscribe [] sf) h some_byte = absurd (omega arith)
rest_words (unsubscribe []) h some_byte = absurd (omega arith)
rest_words (subscribe (c ∷ name) sf) h some_byte =
    (c ∷ name, tokens (flag_text sf), tokens-word (c ∷ name) (flag_text sf) h)
rest_words (unsubscribe (c ∷ name)) h some_byte = (
  (c ∷ name) ++ codes "\n",
  [],
  tokens-last ((c ∷ name) ++ codes "\n") (no_space-append (c ∷ name) (codes "\n") h refl),
)

-- A word and the keyword of the second command are one word.
tokens-keyword :
    (c : ℕ) (word : Bytes) (second : Typed)
    → no_space (c ∷ word) ≡ true
    → tokens ((c ∷ word) ++ text_of second)
      ≡ ((c ∷ word) ++ keyword_of second) ∷ tokens (rest_of second)
tokens-keyword c word second h =
    ap tokens (
      ap (λ l. (c ∷ word) ++ l) (text_of-keyword_of second)
      ∙ sym (append_assoc (c ∷ word) (keyword_of second) (32 ∷ rest_of second)))
    ∙ tokens-word ((c ∷ word) ++ keyword_of second) (rest_of second)
        (no_space-append (c ∷ word) (keyword_of second) h (keyword_plain second))

not_flag :
    (c : ℕ) (sf : Bool) (second : Typed)
    → same_bytes (flag_text sf ++ keyword_of second) (c ∷ codes "\n") ≡ false
unfolding same_bytes
not_flag c true (subscribe name sf) = ground arith
not_flag c true (unsubscribe name) = ground arith
not_flag c false (subscribe name sf) = ground arith
not_flag c false (unsubscribe name) = ground arith

flag_plain : (sf : Bool) → no_space (flag_text sf) ≡ true
unfolding no_space
flag_plain true = refl
flag_plain false = refl

flag_keyword :
    (sf : Bool) (second : Typed)
    → tokens (flag_text sf ++ text_of second)
      ≡ (flag_text sf ++ keyword_of second) ∷ tokens (rest_of second)
flag_keyword true second = tokens-keyword b'1' (codes "\n") second (flag_plain true)
flag_keyword false second = tokens-keyword b'0' (codes "\n") second (flag_plain false)

subscribe_words :
    (c : ℕ) (name : Bytes) (sf : Bool) (second : Typed)
    → no_space (c ∷ name) ≡ true
    → tokens (text_of (subscribe (c ∷ name) sf) ++ text_of second)
      ≡ codes "subscribe"
        ∷ (c ∷ name)
        ∷ (flag_text sf ++ keyword_of second)
        ∷ tokens (rest_of second)
unfolding no_space
subscribe_words c name sf second h =
    tokens-word (codes "subscribe") (((c ∷ name) ++ 32 ∷ flag_text sf) ++ text_of second) refl
    ∙ ap (λ l. codes "subscribe" ∷ l)
        (ap tokens (append_assoc (c ∷ name) (32 ∷ flag_text sf) (text_of second))
          ∙ tokens-word (c ∷ name) (flag_text sf ++ text_of second) h
          ∙ ap (λ l. (c ∷ name) ∷ l) (flag_keyword sf second))

unsubscribe_words :
    (c : ℕ) (name : Bytes) (second : Typed)
    → no_space (c ∷ name) ≡ true
    → tokens (text_of (unsubscribe (c ∷ name)) ++ text_of second)
      ≡ codes "unsubscribe"
        ∷ (((c ∷ name) ++ codes "\n") ++ keyword_of second)
        ∷ tokens (rest_of second)
unfolding no_space
unsubscribe_words c name second h =
    tokens-word (codes "unsubscribe") (((c ∷ name) ++ codes "\n") ++ text_of second) refl
    ∙ ap (λ l. codes "unsubscribe" ∷ l)
        (tokens-keyword c (name ++ codes "\n") second
          (no_space-append (c ∷ name) (codes "\n") h refl))

-- Two commands with names of 1 to 37 bytes with no space in them, one right behind the other: they are
-- read as one, and it is refused.
pub decode_message-joined :
    (message : ServerMessage) (first second : Typed)
    → no_space (name_of first) ≡ true
    → 0 < length (name_of first)
    → length (name_of first) < 38
    → no_space (name_of second) ≡ true
    → 0 < length (name_of second)
    → (m : ServerMessage) × (decode_message message (text_of first ++ text_of second)
        ≡ some (false, m))
unfolding decode_message
decode_message-joined message (subscribe [] sf) second h some_byte small h' some_byte' =
    absurd (omega arith)
decode_message-joined message (unsubscribe []) second h some_byte small h' some_byte' =
    absurd (omega arith)
decode_message-joined message (subscribe (c ∷ name) sf) second h some_byte small h' some_byte' =
    let (m, e) =
      subscribe-Refused message (c ∷ name) (flag_text sf ++ keyword_of second)
        (tokens (rest_of second)) (omega arith) (not_flag b'1' sf second)
        (not_flag b'0' sf second) in
    (m, ap (λ words. decode_loop 1 words message) (subscribe_words c name sf second h) ∙ e)
decode_message-joined message (unsubscribe (c ∷ name)) second h some_byte small h' some_byte' =
    let (token, more, words) = rest_words second h' some_byte' in
    let topic = ((c ∷ name) ++ codes "\n") ++ keyword_of second in
    let len : length topic < 51 = omega (
      arith,
      small,
      keyword_short second,
      length-append ((c ∷ name) ++ codes "\n") (keyword_of second),
      length-append (c ∷ name) (codes "\n"),
    ) in
    let (m, e) = unsubscribe-Refused message topic token more len in
    (
      m,
      ap (λ words. decode_loop 1 words message)
            (unsubscribe_words c name second h ∙ ap (λ l. codes "unsubscribe" ∷ topic ∷ l) words)
          ∙ e,
    )
