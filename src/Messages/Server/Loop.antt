-- ===== src/Messages/Server/Loop.antt =====
-- The loop of server.cpp, over inputs that can be read.
use communication_protocols.Base.{
  ℕ, ◌≡◌, refl, ◌∙◌, inl, inr, true, false, Option, some, List, [], ◌∷◌, ◌++◌, Bool-cases, ◌>>=◌,
  if◌then◌else◌, arith,
}
use communication_protocols.Messages.Datagram.{Doubles}
use communication_protocols.Messages.Server.{ServerState}
use communication_protocols.Messages.Server.Handlers.{Input, Sent, serve, serve_ready, serve_loop}
use communication_protocols.Messages.Server.Invariant.{IsServer}
use communication_protocols.Messages.Server.Connects.{IsFresh}
use communication_protocols.Messages.Server.Watched.{IsWatched}
use communication_protocols.Messages.Server.Serves.{Readable, serve-served}

module _ (doubles : Doubles) (tcp_sock udp_sock : ℕ) where
  -- What `select` gives in one turn: each descriptor is watched when it is its turn, with an input that
  -- can be read and, for a connection, a socket and an empty block that are not in use then.
  pub data Turn : ServerState → List (ℕ × Input) → Type 0 where
    over : {s : ServerState} → Turn s []
    ready :
        {s : ServerState} {i : ℕ} {input : Input} {others : List (ℕ × Input)}
        → s.active_fds i ≡ true
        → IsFresh s input.connection
        → Readable doubles tcp_sock udp_sock s i input
        → ((s' : ServerState) (sent : List Sent)
            → serve doubles tcp_sock udp_sock s i input ≡ some (s', sent)
            → Turn s' others)
        → Turn s ((i, input) ∷ others)

  pub data Turns : ServerState → List (List (ℕ × Input)) → Type 0 where
    ended : {s : ServerState} → Turns s []
    turn :
        {s : ServerState} {first : List (ℕ × Input)} {others : List (List (ℕ × Input))}
        → Turn s first
        → ((s' : ServerState) (sent : List Sent)
            → serve_ready doubles tcp_sock udp_sock s first ≡ some (s', sent)
            → Turns s' others)
        → Turns s (first ∷ others)

  -- A result, in a server whose lists are as they should be.
  abbrev pub Served : Option (ServerState × List Sent) → Type 0
  Served result =
      (s' : ServerState) × (sent : List Sent) × (result ≡ some (s', sent))
      × IsServer s'
      × IsWatched tcp_sock udp_sock s'

  ready_step :
      (s s1 : ServerState) (i : ℕ) (input : Input) (others : List (ℕ × Input)) (sent : List Sent)
      → serve doubles tcp_sock udp_sock s i input ≡ some (s1, sent)
      → serve_ready doubles tcp_sock udp_sock s ((i, input) ∷ others) ≡ (
          if s1.exit_loop then some (s1, sent) else (do
            (s2, more) ← serve_ready doubles tcp_sock udp_sock s1 others
            some (s2, sent ++ more)))
  unfolding serve_ready
  ready_step s s1 i input others sent e = rw (e, serve_ready) (ground arith)

  serve_ready-Served :
      (s : ServerState) (inputs : List (ℕ × Input))
      → IsServer s
      → IsWatched tcp_sock udp_sock s
      → Turn s inputs
      → Served (serve_ready doubles tcp_sock udp_sock s inputs)
  unfolding serve_ready
  serve_ready-Served s _ v w over = (s, [], refl, v, w)
  serve_ready-Served s _ v w
        (ready {i = i} {input = input} {others = others} watched fresh can_read next) =
      let (s1, sent, e, v1, w1) =
        serve-served doubles tcp_sock udp_sock s i input v w watched fresh can_read in
      let step = ready_step s s1 i input others sent e in
      elim (Bool-cases s1.exit_loop) [
        | inl b ↦ (s1, sent, step ∙ rw b refl, v1, w1)
        | inr b ↦
            let (s2, more, f, v2, w2) = serve_ready-Served s1 others v1 w1 (next s1 sent e) in
            (s2, sent ++ more, step ∙ rw b (rw f refl), v2, w2)
      ]

  loop_step :
      (s s1 s2 : ServerState) (first : List (ℕ × Input)) (others : List (List (ℕ × Input)))
      (sent more : List Sent)
      → s.exit_loop ≡ false
      → serve_ready doubles tcp_sock udp_sock s first ≡ some (s1, sent)
      → serve_loop doubles tcp_sock udp_sock s1 others ≡ some (s2, more)
      → serve_loop doubles tcp_sock udp_sock s (first ∷ others) ≡ some (s2, sent ++ more)
  unfolding serve_loop
  loop_step s s1 s2 first others sent more go e f =
      rw (go, serve_loop) (rw (e, serve_loop) (rw (f, serve_loop) refl))

  stopped :
      (s : ServerState) (first : List (ℕ × Input)) (others : List (List (ℕ × Input)))
      → s.exit_loop ≡ true
      → serve_loop doubles tcp_sock udp_sock s (first ∷ others) ≡ some (s, [])
  unfolding serve_loop
  stopped s first others stop = ground arith

  -- In a server whose lists are as they should be and which waits for its own descriptors and the
  -- sockets of its clients, with any turns in which every descriptor that is ready is watched when it is
  -- its turn. For each of them a new connection would have a socket and a block that no client has, and
  -- the block would have no topics and no messages in it, which malloc does not promise. What comes is an
  -- id of at most 10 characters; a datagram of no known type, or one whose value is printed in the bytes
  -- there are for it and whose whole text is below 1551 bytes; a line with its end; the end of a
  -- client's connection; or any command of a client but one with a name of more than 50 bytes behind a
  -- keyword, and one that would cut the topic of the last message where that is empty. Then the loop
  -- comes to the end of the turns, or to its own end, without a fault, and the lists and the
  -- descriptors are as they should be then.
  pub serve_loop-Served :
      (s : ServerState) (turns : List (List (ℕ × Input)))
      → IsServer s
      → IsWatched tcp_sock udp_sock s
      → Turns s turns
      → Served (serve_loop doubles tcp_sock udp_sock s turns)
  unfolding serve_loop
  serve_loop-Served s _ v w ended = (s, [], refl, v, w)
  serve_loop-Served s _ v w (turn {first = first} {others = others} now next) =
      elim (Bool-cases s.exit_loop) [
        | inl stop ↦ (s, [], stopped s first others stop, v, w)
        | inr go ↦
            let (s1, sent, e, v1, w1) = serve_ready-Served s first v w now in
            let (s2, more, f, v2, w2) = serve_loop-Served s1 others v1 w1 (next s1 sent e) in
            (s2, sent ++ more, loop_step s s1 s2 first others sent more go e f, v2, w2)
      ]
