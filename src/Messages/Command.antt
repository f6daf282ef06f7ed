-- ===== src/Messages/Command.antt =====
-- `decode_message` of Client-Server-TCP-UDP/helpers.cpp, the commands of a subscriber. `none` is a
-- token that does not fit in the 51 bytes of the topic.
pub mod Verdict
pub mod Words
pub mod Joined
mod Tests
use communication_protocols.Base.{
  ℕ, suc, ◌+◌, Bool, true, false, ◌&&◌, ◌||◌, not, Option, none, some, List, [], ◌∷◌, Bytes, codes,
  get_or, ◌==◌, if◌then◌else◌, same_bytes, fits, ◌>>=◌,
}

-- `server_message`
pub record ServerMessage : Type 0 where
  pub type : ℕ
  pub topic : Bytes
  pub sf : Bool

abbrev pub add_word : Bytes → List Bytes → List Bytes
add_word [] words = words
add_word (c ∷ word) words = (c ∷ word) ∷ words

-- The word that begins here, which may be empty, and the words behind it.
unfoldable pub cut : Bytes → Bytes × List Bytes
cut [] = ([], [])
cut (c ∷ text) =
    let (word, words) = cut text in if c == 32 then ([], add_word word words) else (c ∷ word, words)

-- What the calls of `strtok` with " " give.
unfoldable pub tokens : Bytes → List Bytes
tokens text = let (word, words) = cut text in add_word word words

-- The loop at the parameter `nr_param`, and what stands behind it. The message is written as the
-- tokens are read, also where they are refused later.
unfoldable pub decode_loop : ℕ → List Bytes → ServerMessage → Option (Bool × ServerMessage)
decode_loop nr_param [] message = some (not ((nr_param == 3) && (message.type == b's')), message)
decode_loop nr_param (token ∷ rest) message = elim (nr_param == 1) [
  | true ↦ elim (same_bytes token (codes "subscribe") || same_bytes token (codes "unsubscribe")) [
    | true ↦ decode_loop (nr_param + 1) rest (record message { type = get_or token 0 0 })
    | false ↦ some (false, message)
  ]
  | false ↦ elim (nr_param == 2) [
    | true ↦ elim (fits 51 token) [
      | none ↦ none
      | some topic ↦ decode_loop (nr_param + 1) rest (record message { topic = topic })
    ]
    | false ↦ elim (nr_param == 3) [
      | true ↦ elim (same_bytes token (codes "1\n") || same_bytes token (codes "0\n")) [
        | true ↦
            let message' = record message { sf = same_bytes token (codes "1\n") } in
            elim (message.type == b'u') [
              | true ↦ some (false, message')
              | false ↦ decode_loop (nr_param + 1) rest message'
            ]
        | false ↦ some (false, message)
      ]
      | false ↦ some (false, message)
    ]
  ]
]

unfoldable pub decode_message : ServerMessage → Bytes → Option (Bool × ServerMessage)
decode_message message buffer = decode_loop 1 (tokens buffer) message
