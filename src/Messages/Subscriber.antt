-- ===== src/Messages/Subscriber.antt =====
-- `main` of Client-Server-TCP-UDP/subscriber.cpp, from the connection on. A text is without the 0 at
-- its end.
pub mod Stream
mod Tests
use communication_protocols.Base.{
  Bool, true, false, Option, none, some, List, [], ◌∷◌, ◌++◌, Bytes, codes, length, ltb,
  if◌then◌else◌, same_bytes, c_string, ◌>>=◌,
}
use communication_protocols.Messages.Datagram.{copy_text}

-- What it prints and sends, and how it ends: `exit` at the end of `main`, or `die`.
pub data Action : Type 0 where
  send : Bytes → Action
  print : Bytes → Action
  exit : Action
  die : Action

-- What is ready: the bytes that `fgets` reads, or the bytes that `recv` gives.
pub data Ready : Type 0 where
  stdin : Bytes → Ready
  server : Bytes → Ready

-- The id and its 0 are sent first.
unfoldable pub introduce : Bytes → Action
introduce id = if ltb 10 (length id) then die else send (id ++ 0 ∷ [])

-- The text in the buffer of 1552 bytes, which is cleared before: `none` is a text with no end.
unfoldable pub text_received : Bytes → Option Bytes
text_received received =
    if ltb (length received) 1552 then some (copy_text 1552 received) else c_string received

-- The body of the loop. `strcmp` and `strlen` read what is typed up to its first 0.
unfoldable pub react : Ready → Option Action
react (stdin line) =
    let text = copy_text 1552 line in
    some (if same_bytes text (codes "exit\n") then exit else send text)
react (server []) = some exit
react (server (c ∷ received)) = do
  text ← text_received (c ∷ received)
  some (if same_bytes text (codes "exit") then die else print text)

unfoldable pub is_end : Action → Bool
is_end exit = true
is_end die = true
is_end (send text) = false
is_end (print text) = false

-- The loop, with what is ready in each turn.
unfoldable pub react_loop : List Ready → Option (List Action)
react_loop [] = some []
react_loop (ready ∷ turns) = elim (react ready) [
  | none ↦ none
  | some action ↦ elim (is_end action) [
    | true ↦ some (action ∷ [])
    | false ↦ do actions ← react_loop turns; some (action ∷ actions)
  ]
]

-- The whole run.
unfoldable pub run : Bytes → List Ready → Option (List Action)
run id turns =
    let first = introduce id in
    elim (is_end first) [
      | true ↦ some (first ∷ [])
      | false ↦ do actions ← react_loop turns; some (first ∷ actions)
    ]
