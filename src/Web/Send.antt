-- ===== src/Web/Send.antt =====
-- `send_to_server` of Client-Web-RestAPI/helpers.c. What each `write` takes is a list of numbers; a
-- `write` takes no more than it is given.
pub mod Sent
mod Tests
use communication_protocols.Base.{
  ℕ, true, false, List, [], ◌∷◌, ◌++◌, Bytes, length, take, drop, ◌==◌,
}

-- The loop: what goes out, and the rest of the message at the end. With no number left, the next
-- `write` has not returned.
unfoldable pub send_to_server : List ℕ → Bytes → Bytes × Bytes
send_to_server [] message = ([], message)
send_to_server (bytes ∷ counts) message = elim (bytes == 0) [
  | true ↦ ([], message)
  | false ↦ elim (length (drop bytes message) == 0) [
    | true ↦ (take bytes message, drop bytes message)
    | false ↦
        let (out, rest) = send_to_server counts (drop bytes message) in
        (take bytes message ++ out, rest)
  ]
]
