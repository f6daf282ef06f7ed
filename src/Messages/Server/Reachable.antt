-- ===== src/Messages/Server/Reachable.antt =====
-- The states that server.cpp reaches.
use communication_protocols.Base.{
  Bool, true, false, ◌||◌, ℕ, ◌≡◌, refl, inl, inr, some, List, ◌==◌, if-cases, bind-some,
  some-subst, arith,
}
use communication_protocols.Messages.Command.{ServerMessage}
use communication_protocols.Messages.Datagram.{Doubles}
use communication_protocols.Messages.Server.{Heap, ServerState, find}
use communication_protocols.Messages.Server.Handlers.{
  Input, Sent, command, read_line, serve, initial,
}
use communication_protocols.Messages.Server.Clients.{listed, Distinct, Ascending}
use communication_protocols.Messages.Server.Invariant.{IsServer}
use communication_protocols.Messages.Server.Connects.{IsFresh, accept_client-Valid}
use communication_protocols.Messages.Server.Preserves.{
  command-Valid, read_line-Valid, publish-Valid,
}
use communication_protocols.Messages.Server.Watched.{
  is_some, is_own, IsWatched, accept_client-IsWatched, publish-IsWatched, read_line-IsWatched,
  command-IsWatched,
}

module _ (doubles : Doubles) (tcp_sock udp_sock : ℕ) where
  -- The states of the server, from the start on.
  pub data Reachable : ServerState → Type 0 where
    start :
        (heap : Heap) (message : ServerMessage) → Reachable (initial tcp_sock udp_sock heap message)
    step :
        {s s' : ServerState} (i : ℕ) (input : Input) (sent : List Sent)
        → Reachable s
        → IsFresh s input.connection
        → serve doubles tcp_sock udp_sock s i input ≡ some (s', sent)
        → Reachable s'

  initial-Valid :
      (heap : Heap) (message : ServerMessage) → IsServer (initial tcp_sock udp_sock heap message)
  unfolding initial find listed Ascending Distinct
  initial-Valid heap message = record {
    ascending = tt;
    distinct = tt;
    known = (λ k p f. absurd (ground arith));
    marked = (λ k p f. absurd (ground arith));
    has_socket = (λ p l o. absurd (ground arith));
    one_socket = (λ j k p f g. absurd (ground arith));
    one_id = (λ p q l l' e. absurd (ground arith));
    maps = (λ p l. absurd (ground arith));
  }

  pub serve-Valid :
      (s s' : ServerState) (i : ℕ) (input : Input) (sent : List Sent)
      → IsServer s
      → IsFresh s input.connection
      → serve doubles tcp_sock udp_sock s i input ≡ some (s', sent)
      → IsServer s'
  unfolding serve
  serve-Valid s s' i input sent v f h = elim (if-cases (i == tcp_sock) _ _ (some (s', sent)) h) [
    | inl (b, h) ↦ accept_client-Valid s s' input.connection sent v f h
    | inr (b, h) ↦ elim (if-cases (i == udp_sock) _ _ (some (s', sent)) h) [
      | inl (b, h) ↦ publish-Valid doubles s s' input.datagram sent v h
      | inr (b, h) ↦ elim (if-cases (i == 0) _ _ (some (s', sent)) h) [
        | inl (b, h) ↦
            let (t, e, h) = bind-some (read_line s input.line) _ (s', sent) h in
            some-subst (λ r. IsServer r.0) _ _ (s', sent) refl h
              (read_line-Valid s t input.line v e)
        | inr (b, h) ↦
            let (t, e, h) = bind-some (command s i input.received) _ (s', sent) h in
            some-subst (λ r. IsServer r.0) _ _ (s', sent) refl h
              (command-Valid s t i input.received v e)
      ]
    ]
  ]

  or_false : (b : Bool) → b ≡ b || false
  or_false true = refl
  or_false false = refl

  initial-IsWatched :
      (heap : Heap) (message : ServerMessage)
      → IsWatched tcp_sock udp_sock (initial tcp_sock udp_sock heap message)
  unfolding initial find is_some
  initial-IsWatched heap message i = or_false (is_own tcp_sock udp_sock i)

  pub serve-IsWatched :
      (s s' : ServerState) (i : ℕ) (input : Input) (sent : List Sent)
      → IsFresh s input.connection
      → IsWatched tcp_sock udp_sock s
      → serve doubles tcp_sock udp_sock s i input ≡ some (s', sent)
      → IsWatched tcp_sock udp_sock s'
  unfolding serve
  serve-IsWatched s s' i input sent f w h =
      elim (if-cases (i == tcp_sock) _ _ (some (s', sent)) h) [
        | inl (b, h) ↦ accept_client-IsWatched tcp_sock udp_sock s s' input.connection sent f w h
        | inr (tcp, h) ↦ elim (if-cases (i == udp_sock) _ _ (some (s', sent)) h) [
          | inl (b, h) ↦ publish-IsWatched tcp_sock udp_sock doubles s s' input.datagram sent w h
          | inr (udp, h) ↦ elim (if-cases (i == 0) _ _ (some (s', sent)) h) [
            | inl (b, h) ↦
                let (t, e, h) = bind-some (read_line s input.line) _ (s', sent) h in
                some-subst (λ r. IsWatched tcp_sock udp_sock r.0) _ _ (s', sent) refl h
                  (read_line-IsWatched tcp_sock udp_sock s t input.line w e)
            | inr (b, h) ↦
                let (t, e, h) = bind-some (command s i input.received) _ (s', sent) h in
                let other : is_own tcp_sock udp_sock i ≡ false = rw (tcp, udp, b) refl in
                some-subst (λ r. IsWatched tcp_sock udp_sock r.0) _ _ (s', sent) refl h
                  (command-IsWatched tcp_sock udp_sock s t i input.received other w e)
          ]
        ]
      ]

  -- In every state that the server reaches from its start, where each connection has a socket that no
  -- client has and an empty block that is not in use: the sockets of `online_clients` increase, no
  -- pointer is twice in `all_clients`, a client of `all_clients` is marked online exactly if a socket
  -- stands for it, and then only one, each socket stands for such a client, no two clients have the
  -- same id, and no client has a topic twice; and a descriptor is watched exactly if it is one of the
  -- server's own or the socket of a client.
  pub reachable-IsServer :
      (s : ServerState) → Reachable s → IsServer s × IsWatched tcp_sock udp_sock s
  reachable-IsServer _ (start heap message) =
      (initial-Valid heap message, initial-IsWatched heap message)
  reachable-IsServer s (step {s = t} i input sent r f h) =
      let (v, w) = reachable-IsServer t r in
      (serve-Valid t s i input sent v f h, serve-IsWatched t s i input sent f w h)
