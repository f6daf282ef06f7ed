-- ===== src/Messages/Command/Verdict.antt =====
-- Every outcome of `decode_message` of helpers.cpp.
use communication_protocols.Base.{
  ◌≤◌, ◌<◌, ◌≡◌, refl, sym, ◌⊎◌, inl, inr, Bool, true, false, ◌||◌, Option, none, some, List, [],
  ◌∷◌, Bytes, codes, length, get_or, ltb, same_bytes, same_bytes-eq, fits-some, fits-none, ltb→lt,
  ltb→le, Bool-cases, arith,
}
use mathlib.Core.Path.{subst}
use communication_protocols.Messages.Command.{ServerMessage, tokens, decode_loop, decode_message}

abbrev pub IsKeyword : Bytes → Type 0
IsKeyword word = (word ≡ codes "subscribe") ⊎ (word ≡ codes "unsubscribe")

abbrev pub IsFlag : Bytes → Type 0
IsFlag word = (word ≡ codes "1\n") ⊎ (word ≡ codes "0\n")

abbrev set_topic : ServerMessage → Bytes → Bytes → ServerMessage
set_topic message word name = record { type = get_or word 0 0; topic = name; sf = message.sf }

-- The words that are refused, and what they have written of the message by then: no keyword; a
-- subscription with no flag; a third word that is no flag; an unsubscription with a flag; and more than
-- three words.
pub data Refused (message : ServerMessage) (words : List Bytes) : ServerMessage → Type 0 where
  no_keyword :
      (word : Bytes) (rest : List Bytes)
      → words ≡ word ∷ rest
      → ¬ IsKeyword word
      → Refused message words message
  no_flag :
      (name : Bytes)
      → words ≡ codes "subscribe" ∷ name ∷ []
      → length name < 51
      → Refused message words (set_topic message (codes "subscribe") name)
  other_flag :
      (word name flag : Bytes) (rest : List Bytes)
      → words ≡ word ∷ name ∷ flag ∷ rest
      → IsKeyword word
      → length name < 51
      → ¬ IsFlag flag
      → Refused message words (set_topic message word name)
  flag_too_many :
      (name flag : Bytes) (rest : List Bytes)
      → words ≡ codes "unsubscribe" ∷ name ∷ flag ∷ rest
      → length name < 51
      → IsFlag flag
      → Refused message words
          (record { type = b'u'; topic = name; sf = same_bytes flag (codes "1\n") })
  too_many :
      (name flag word : Bytes) (rest : List Bytes)
      → words ≡ codes "subscribe" ∷ name ∷ flag ∷ word ∷ rest
      → length name < 51
      → IsFlag flag
      → Refused message words
          (record { type = b's'; topic = name; sf = same_bytes flag (codes "1\n") })

-- What the words of a command make of the message that was there.
pub data Verdict (message : ServerMessage) (words : List Bytes)
    : Option (Bool × ServerMessage) → Type 0 where
  subscribed :
      (name flag : Bytes)
      → words ≡ codes "subscribe" ∷ name ∷ flag ∷ []
      → length name < 51
      → IsFlag flag
      → Verdict message words
          (some (true, record { type = b's'; topic = name; sf = same_bytes flag (codes "1\n") }))
  unsubscribed :
      (name : Bytes)
      → words ≡ codes "unsubscribe" ∷ name ∷ []
      → length name < 51
      → Verdict message words (some (true, record { type = b'u'; topic = name; sf = message.sf }))
  bare :
      (word : Bytes)
      → words ≡ word ∷ []
      → IsKeyword word
      → Verdict message words (some (true, record message { type = get_or word 0 0 }))
  blank : words ≡ [] → Verdict message words (some (true, message))
  refused :
      (message' : ServerMessage)
      → Refused message words message'
      → Verdict message words (some (false, message'))
  overflow :
      (word name : Bytes) (rest : List Bytes)
      → words ≡ word ∷ name ∷ rest
      → IsKeyword word
      → 51 ≤ length name
      → Verdict message words none

abbrev is_keyword : Bytes → Bool
is_keyword word = same_bytes word (codes "subscribe") || same_bytes word (codes "unsubscribe")

IsKeyword-IsKeyword : (word : Bytes) → is_keyword word ≡ true → IsKeyword word
IsKeyword-IsKeyword word h = elim (Bool-cases (same_bytes word (codes "subscribe"))) [
  | inl b ↦ inl (same_bytes-eq word (codes "subscribe") b)
  | inr b ↦ inr (same_bytes-eq word (codes "unsubscribe") (rw b at h))
]

abbrev is_flag : Bytes → Bool
is_flag word = same_bytes word (codes "1\n") || same_bytes word (codes "0\n")

IsFlag-cases : (word : Bytes) → is_flag word ≡ true → IsFlag word
IsFlag-cases word h = elim (Bool-cases (same_bytes word (codes "1\n"))) [
  | inl b ↦ inl (same_bytes-eq word (codes "1\n") b)
  | inr b ↦ inr (same_bytes-eq word (codes "0\n") (rw b at h))
]

IsKeyword-not : (word : Bytes) → is_keyword word ≡ false → ¬ IsKeyword word
unfolding same_bytes
IsKeyword-not word h (inl e) = absurd (ground (arith, rw e at h))
IsKeyword-not word h (inr e) = absurd (ground (arith, rw e at h))

IsFlag-not : (word : Bytes) → is_flag word ≡ false → ¬ IsFlag word
unfolding same_bytes
IsFlag-not word h (inl e) = absurd (ground (arith, rw e at h))
IsFlag-not word h (inr e) = absurd (ground (arith, rw e at h))

after_subscribe :
    (message : ServerMessage) (name : Bytes) (rest : List Bytes)
    → length name < 51
    → Verdict message
        (codes "subscribe" ∷ name ∷ rest)
        (decode_loop 3 rest (record { type = b's'; topic = name; sf = message.sf }))
unfolding decode_loop
after_subscribe message name [] small = refused _ (no_flag name refl small)
after_subscribe message name (flag ∷ []) small = elim (Bool-cases (is_flag flag)) [
  | inl b ↦ rw (b, decode_loop) (subscribed name flag refl small (IsFlag-cases flag b))
  | inr b ↦
      rw (b, decode_loop)
        (refused _
          (other_flag (codes "subscribe") name flag [] refl (inl refl) small (IsFlag-not flag b)))
]
after_subscribe message name (flag ∷ word ∷ rest) small = elim (Bool-cases (is_flag flag)) [
  | inl b ↦
      rw (b, decode_loop)
        (refused _ (too_many name flag word rest refl small (IsFlag-cases flag b)))
  | inr b ↦
      rw (b, decode_loop)
        (refused _ (
          other_flag (codes "subscribe") name flag (word ∷ rest) refl (inl refl) small
            (IsFlag-not flag b)))
]

after_unsubscribe :
    (message : ServerMessage) (name : Bytes) (rest : List Bytes)
    → length name < 51
    → Verdict message
        (codes "unsubscribe" ∷ name ∷ rest)
        (decode_loop 3 rest (record { type = b'u'; topic = name; sf = message.sf }))
unfolding decode_loop
after_unsubscribe message name [] small = unsubscribed name refl small
after_unsubscribe message name (flag ∷ rest) small = elim (Bool-cases (is_flag flag)) [
  | inl b ↦
      rw (b, decode_loop)
        (refused _ (flag_too_many name flag rest refl small (IsFlag-cases flag b)))
  | inr b ↦
      rw (b, decode_loop)
        (refused _ (
          other_flag (codes "unsubscribe") name flag rest refl (inr refl) small
            (IsFlag-not flag b)))
]

-- After the keyword: the outcome by the words that are left.
after_keyword :
    (message : ServerMessage) (word : Bytes) (rest : List Bytes)
    → IsKeyword word
    → Verdict message (word ∷ rest) (decode_loop 2 rest (record message { type = get_or word 0 0 }))
unfolding decode_loop
after_keyword message word [] k = bare word refl k
after_keyword message word (name ∷ rest) k = elim (Bool-cases (ltb (length name) 51)) [
  | inl b ↦
      rw (fits-some 51 name (ltb→lt _ _ b), decode_loop)
        (elim k [
          | inl e ↦
              subst
                (λ w. Verdict message (w ∷ name ∷ rest) (
                  decode_loop 3 rest
                    (record { type = get_or w 0 0; topic = name; sf = message.sf })))
                (sym e) (after_subscribe message name rest (ltb→lt _ _ b))
          | inr e ↦
              subst
                (λ w. Verdict message (w ∷ name ∷ rest) (
                  decode_loop 3 rest
                    (record { type = get_or w 0 0; topic = name; sf = message.sf })))
                (sym e) (after_unsubscribe message name rest (ltb→lt _ _ b))
        ])
  | inr b ↦
      rw (fits-none 51 name (ltb→le _ _ b), decode_loop)
        (overflow word name rest refl k (ltb→le _ _ b))
]

words-Verdict :
    (message : ServerMessage) (words : List Bytes)
    → Verdict message words (decode_loop 1 words message)
unfolding decode_loop
words-Verdict message [] = blank refl
words-Verdict message (word ∷ rest) = elim (Bool-cases (is_keyword word)) [
  | inl b ↦ rw (b, decode_loop) (after_keyword message word rest (IsKeyword-IsKeyword word b))
  | inr b ↦ rw (b, decode_loop) (refused message (no_keyword word rest refl (IsKeyword-not word b)))
]

-- Every outcome of a command, by its words. A subscription has a name of up to 50 bytes and a flag,
-- an unsubscription a name, and they set all that they need of the message; a keyword alone and a
-- command with no word are accepted too, and leave the topic of the last command; a longer name
-- writes past the topic. All else is refused: a first word that is no keyword, a subscription with no
-- flag, a third word that is no flag, a flag behind the name of an unsubscription, and more than three
-- words; and what is refused has changed the message by what was read of it.
pub decode_message-Verdict :
    (message : ServerMessage) (buffer : Bytes)
    → Verdict message (tokens buffer) (decode_message message buffer)
unfolding decode_message
decode_message-Verdict message buffer = words-Verdict message (tokens buffer)
