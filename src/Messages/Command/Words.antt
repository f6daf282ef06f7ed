-- ===== src/Messages/Command/Words.antt =====
-- Commands of a subscriber as texts, and that helpers.cpp reads them.
use communication_protocols.Base.{
  ℕ, ◌<◌, ◌≡◌, refl, ap, ◌∙◌, Bool, true, false, ◌&&◌, not, some, [], ◌∷◌, ◌++◌, Bytes, codes,
  length, length-append, ◌==◌, fits-some, same_bytes, arith,
}
use communication_protocols.Messages.Command.{
  ServerMessage, add_word, cut, tokens, decode_loop, decode_message,
}

-- The word has no space in it, and is not empty.
unfoldable pub no_space : Bytes → Bool
no_space [] = true
no_space (c ∷ word) = not (c == 32) && no_space word

cut-word :
    (word rest : Bytes) → no_space word ≡ true → cut (word ++ 32 ∷ rest) ≡ (word, tokens rest)
unfolding cut tokens no_space
cut-word [] rest h = refl
cut-word (c ∷ word) rest h = ground (arith, cut-word word rest)

cut-last : (word : Bytes) → no_space word ≡ true → cut word ≡ (word, [])
unfolding cut no_space
cut-last [] h = refl
cut-last (c ∷ word) h = ground (arith, cut-last word)

pub tokens-word :
    (word rest : Bytes)
    → no_space word ≡ true
    → tokens (word ++ 32 ∷ rest) ≡ add_word word (tokens rest)
unfolding tokens
tokens-word word rest h = ap (λ p. add_word p.0 p.1) (cut-word word rest h)

pub tokens-last : (word : Bytes) → no_space word ≡ true → tokens word ≡ add_word word []
unfolding tokens
tokens-last word h = ap (λ p. add_word p.0 p.1) (cut-last word h)

-- What a subscriber types.
pub data Typed : Type 0 where
  subscribe : Bytes → Bool → Typed
  unsubscribe : Bytes → Typed

abbrev pub flag_text : Bool → Bytes
flag_text true = codes "1\n"
flag_text false = codes "0\n"

-- The line that is typed, its end included.
abbrev pub text_of : Typed → Bytes
text_of (subscribe name sf) = codes "subscribe" ++ 32 ∷ (name ++ 32 ∷ flag_text sf)
text_of (unsubscribe name) = codes "unsubscribe" ++ 32 ∷ (name ++ codes "\n")

abbrev pub name_of : Typed → Bytes
name_of (subscribe name sf) = name
name_of (unsubscribe name) = name

-- The message that is read: the name of an unsubscription has the line's end behind it.
abbrev pub message_of : ServerMessage → Typed → ServerMessage
message_of message (subscribe name sf) = record { type = b's'; topic = name; sf = sf }
message_of message (unsubscribe name) = record {
  type = b'u';
  topic = name ++ codes "\n";
  sf = message.sf;
}

pub no_space-append :
    (xs ys : Bytes) → no_space xs ≡ true → no_space ys ≡ true → no_space (xs ++ ys) ≡ true
unfolding no_space
no_space-append [] ys hx hy = hy
no_space-append (x ∷ xs) ys hx hy = ground (arith, no_space-append xs ys)

flag_token : (sf : Bool) → tokens (flag_text sf) ≡ flag_text sf ∷ []
unfolding tokens cut
flag_token true = refl
flag_token false = refl

subscribe_words :
    (c : ℕ) (name : Bytes) (sf : Bool)
    → no_space (c ∷ name) ≡ true
    → tokens (text_of (subscribe (c ∷ name) sf))
      ≡ codes "subscribe" ∷ (c ∷ name) ∷ flag_text sf ∷ []
unfolding no_space
subscribe_words c name sf h =
    tokens-word (codes "subscribe") _ refl
    ∙ ap (λ l. codes "subscribe" ∷ l)
        (tokens-word (c ∷ name) (flag_text sf) h ∙ ap (λ l. (c ∷ name) ∷ l) (flag_token sf))

subscribe_loop :
    (message : ServerMessage) (name : Bytes) (sf : Bool)
    → length name < 51
    → decode_loop 1 (codes "subscribe" ∷ name ∷ flag_text sf ∷ []) message
      ≡ some (true, record { type = b's'; topic = name; sf = sf })
unfolding decode_loop same_bytes
subscribe_loop message name true small = rw (fits-some 51 name small, decode_loop) refl
subscribe_loop message name false small = rw (fits-some 51 name small, decode_loop) refl

unsubscribe_loop :
    (message : ServerMessage) (name : Bytes)
    → length name < 51
    → decode_loop 1 (codes "unsubscribe" ∷ name ∷ []) message
      ≡ some (true, record { type = b'u'; topic = name; sf = message.sf })
unfolding decode_loop same_bytes
unsubscribe_loop message name small = rw (fits-some 51 name small, decode_loop) refl

unsubscribe_words :
    (c : ℕ) (name : Bytes)
    → no_space (c ∷ name) ≡ true
    → tokens (text_of (unsubscribe (c ∷ name)))
      ≡ codes "unsubscribe" ∷ ((c ∷ name) ++ codes "\n") ∷ []
unfolding no_space
unsubscribe_words c name h =
    tokens-word (codes "unsubscribe") _ refl
    ∙ ap (λ l. codes "unsubscribe" ∷ l)
        (tokens-last ((c ∷ name) ++ codes "\n") (no_space-append (c ∷ name) (codes "\n") h refl))

-- A subscription or an unsubscription with a name of 1 to 49 bytes and no space in it is read as it
-- was meant, whatever message was there before; the name of an unsubscription has the end of the
-- line behind it.
pub decode_message-text_of :
    (message : ServerMessage) (typed : Typed)
    → no_space (name_of typed) ≡ true
    → 0 < length (name_of typed)
    → length (name_of typed) < 50
    → decode_message message (text_of typed) ≡ some (true, message_of message typed)
unfolding decode_message
decode_message-text_of message (subscribe [] sf) h some_byte small = absurd (omega arith)
decode_message-text_of message (unsubscribe []) h some_byte small = absurd (omega arith)
decode_message-text_of message (subscribe (c ∷ name) sf) h some_byte small =
    ap (λ words. decode_loop 1 words message) (subscribe_words c name sf h)
    ∙ subscribe_loop message (c ∷ name) sf (omega arith)
decode_message-text_of message (unsubscribe (c ∷ name)) h some_byte small =
    ap (λ words. decode_loop 1 words message) (unsubscribe_words c name h)
    ∙ unsubscribe_loop message ((c ∷ name) ++ codes "\n")
        (omega (arith, length-append (c ∷ name) (codes "\n")))
