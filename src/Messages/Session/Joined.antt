-- ===== src/Messages/Session/Joined.antt =====
-- Two commands that one `recv` of server.cpp gives as one text.
use communication_protocols.Base.{
  ℕ, ◌≤◌, ◌<◌, ◌≡◌, refl, true, false, some, [], ◌∷◌, ◌++◌, Bytes, length, length-append, NoZero,
  All-append, arith,
}
use communication_protocols.Messages.Command.{ServerMessage, decode_message}
use communication_protocols.Messages.Command.Words.{Typed, text_of, name_of, no_space}
use communication_protocols.Messages.Command.Joined.{decode_message-joined}
use communication_protocols.Messages.Datagram.{copy_text}
use communication_protocols.Messages.Datagram.Copy.{copy_text-whole}
use communication_protocols.Messages.Server.{ServerState}
use communication_protocols.Messages.Server.Handlers.{command}
use communication_protocols.Messages.Session.{text_of-NoZero, text_of_some}

command_refused :
    (s : ServerState) (i : ℕ) (text : Bytes) (message : ServerMessage)
    → 0 < length text
    → copy_text 1552 text ≡ text
    → decode_message s.s_message text ≡ some (false, message)
    → command s i text ≡ some (record s { s_message = message })
unfolding command
command_refused s i [] message h whole e = absurd (omega arith)
command_refused s i (c ∷ text) message h whole e = rw (whole, e) refl

-- Two commands, subscriptions or unsubscriptions of topics of 1 to 37 bytes, none of them a space or 0,
-- that one `recv` gives as one text of at most 1552 bytes: the server refuses this text, so that
-- neither command is obeyed; only the message it fills changes.
pub command-joined :
    (s : ServerState) (i : ℕ) (first second : Typed)
    → no_space (name_of first) ≡ true
    → NoZero (name_of first)
    → 0 < length (name_of first)
    → length (name_of first) < 38
    → no_space (name_of second) ≡ true
    → NoZero (name_of second)
    → 0 < length (name_of second)
    → length (text_of first ++ text_of second) ≤ 1552
    → (message : ServerMessage) × (command s i (text_of first ++ text_of second)
        ≡ some (record s { s_message = message }))
command-joined s i first second plain z some_byte small plain' z' some_byte' fit =
    let text = text_of first ++ text_of second in
    let filled : 0 < length text =
      omega (arith, text_of_some first, length-append (text_of first) (text_of second)) in
    let clean : NoZero text =
      All-append (λ c. 0 < c) (text_of first) (text_of second) (text_of-NoZero first z)
        (text_of-NoZero second z') in
    let (m, e) =
      decode_message-joined s.s_message first second plain some_byte small plain' some_byte' in
    (m, command_refused s i text m filled (copy_text-whole 1552 text fit clean) e)
