-- ===== src/Messages/Subscriber/Stream.antt =====
-- The streams of a subscriber: what it prints and sends, however the bytes from the server are cut.
use communication_protocols.Base.{
  ◌<◌, ◌≡◌, refl, ap, true, false, some, List, [], ◌∷◌, ◌++◌, Bytes, codes, length, ltb, same_bytes,
  All, NoZero, arith,
}
use communication_protocols.Messages.Datagram.{copy_text}
use communication_protocols.Messages.Datagram.Copy.{copy_text-whole}
use communication_protocols.Messages.Subscriber.{
  Action, send, print, exit, die, Ready, stdin, server, text_received, react, is_end, react_loop,
}

-- A line that is not the last, or some bytes, none of them 0, that are not a refusal and leave room for
-- a 0 in the buffer.
pub data Goes : Ready → Type 0 where
  line :
      (text : Bytes) → same_bytes (copy_text 1552 text) (codes "exit\n") ≡ false → Goes (stdin text)
  block :
      (bytes : Bytes)
      → 0 < length bytes
      → length bytes < 1552
      → NoZero bytes
      → same_bytes bytes (codes "exit") ≡ false
      → Goes (server bytes)

-- All bytes that come, from both sides, of a line those up to its first 0, and all that go.
unfoldable pub received : List Ready → Bytes
received [] = []
received (stdin text ∷ turns) = received turns
received (server bytes ∷ turns) = bytes ++ received turns

unfoldable pub typed : List Ready → Bytes
typed [] = []
typed (stdin text ∷ turns) = copy_text 1552 text ++ typed turns
typed (server bytes ∷ turns) = typed turns

unfoldable pub printed : List Action → Bytes
printed [] = []
printed (print text ∷ actions) = text ++ printed actions
printed (send text ∷ actions) = printed actions
printed (exit ∷ actions) = printed actions
printed (die ∷ actions) = printed actions

unfoldable pub sent : List Action → Bytes
sent [] = []
sent (print text ∷ actions) = sent actions
sent (send text ∷ actions) = text ++ sent actions
sent (exit ∷ actions) = sent actions
sent (die ∷ actions) = sent actions

abbrev action_of : Ready → Action
action_of (stdin text) = send (copy_text 1552 text)
action_of (server bytes) = print bytes

react-action_of : (ready : Ready) → Goes ready → react ready ≡ some (action_of ready)
unfolding react text_received
react-action_of _ (line text h) = rw h refl
react-action_of _ (block [] some_byte small z h) = absurd (omega arith)
react-action_of _ (block (c ∷ bytes) some_byte small z h) =
    let short : ltb (length (c ∷ bytes)) 1552 ≡ true = ground arith in
    let whole = copy_text-whole 1552 (c ∷ bytes) (omega arith) z in rw short (rw whole (rw h refl))

unfoldable pub actions_of : List Ready → List Action
actions_of [] = []
actions_of (ready ∷ turns) = action_of ready ∷ actions_of turns

is_end-action_of : (ready : Ready) → is_end (action_of ready) ≡ false
unfolding is_end
is_end-action_of (stdin text) = refl
is_end-action_of (server bytes) = refl

react_loop_last :
    (turns rest : List Ready) (last : Ready) (end : Action)
    → All Goes turns
    → react last ≡ some end
    → is_end end ≡ true
    → react_loop (turns ++ last ∷ rest) ≡ some (actions_of turns ++ end ∷ [])
unfolding react_loop actions_of
react_loop_last [] rest last end goes e stop = rw (e, react_loop) (rw (stop, react_loop) refl)
react_loop_last (ready ∷ turns) rest last end (g, goes) e stop =
    let more = react_loop_last turns rest last end goes e stop in
    rw (react-action_of ready g, react_loop) (rw (is_end-action_of ready) (rw more refl))

printed-actions_of : (turns : List Ready) → printed (actions_of turns) ≡ received turns
unfolding printed actions_of received
printed-actions_of [] = refl
printed-actions_of (stdin text ∷ turns) = printed-actions_of turns
printed-actions_of (server bytes ∷ turns) = ap (λ l. bytes ++ l) (printed-actions_of turns)

sent-actions_of : (turns : List Ready) → sent (actions_of turns) ≡ typed turns
unfolding sent actions_of typed
sent-actions_of [] = refl
sent-actions_of (stdin text ∷ turns) = ap (λ l. copy_text 1552 text ++ l) (sent-actions_of turns)
sent-actions_of (server bytes ∷ turns) = sent-actions_of turns

-- However the lines that are typed and the bytes of the server come in turns, each of at least 1 and
-- at most 1551 bytes, none of them 0 and none of them together "exit", up to the first thing that ends
-- the program: it runs up to there without an error and ends so, whatever would follow; what it has
-- printed by then are all the bytes of the server, and what it has sent are all the lines, each up to a
-- byte 0 in it, in order.
pub react_loop-streams :
    (turns rest : List Ready) (last : Ready) (end : Action)
    → All Goes turns
    → react last ≡ some end
    → is_end end ≡ true
    → (actions : List Action) × (react_loop (turns ++ last ∷ rest) ≡ some (actions ++ end ∷ []))
      × (printed actions ≡ received turns)
      × (sent actions ≡ typed turns)
react_loop-streams turns rest last end goes e stop = (
  actions_of turns,
  react_loop_last turns rest last end goes e stop,
  printed-actions_of turns,
  sent-actions_of turns,
)
