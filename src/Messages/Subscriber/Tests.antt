-- ===== src/Messages/Subscriber/Tests.antt =====
-- A session in which the bytes of two texts come in other pieces.
use communication_protocols.Base.{
  ◌≡◌, refl, true, some, List, [], ◌∷◌, ◌++◌, codes, same_bytes, All, arith,
}
use communication_protocols.Messages.Datagram.{copy_text}
use communication_protocols.Messages.Subscriber.{
  Action, exit, Ready, stdin, server, react, is_end, react_loop,
}
use communication_protocols.Messages.Subscriber.Stream.{
  Goes, line, block, received, typed, printed, sent, react_loop-streams,
}

abbrev three_turns : List Ready
three_turns = server (codes "first\nsec") ∷ stdin (codes "x\n") ∷ server (codes "ond\n") ∷ []

three_turns_Goes : All Goes three_turns
unfolding copy_text same_bytes
three_turns_Goes = (
  block (codes "first\nsec") (omega arith) (omega arith) (ground arith) refl,
  (
    line (codes "x\n") refl,
    (block (codes "ond\n") (omega arith) (omega arith) (ground arith) refl, tt),
  ),
)

exit_line : react (stdin (codes "exit\n")) ≡ some exit
unfolding react copy_text same_bytes
exit_line = refl

exits : is_end exit ≡ true
unfolding is_end
exits = refl

react_loop-streams_example :
    (actions : List Action) × (react_loop (three_turns ++ stdin (codes "exit\n") ∷ [])
      ≡ some (actions ++ exit ∷ []))
    × (printed actions ≡ received three_turns)
    × (sent actions ≡ typed three_turns)
react_loop-streams_example =
    react_loop-streams three_turns [] (stdin (codes "exit\n")) exit three_turns_Goes exit_line exits

both_texts : received three_turns ≡ codes "first\nsecond\n"
unfolding received
both_texts = refl
