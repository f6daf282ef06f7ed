-- ===== src/Messages/Server/Serves.antt =====
-- What server.cpp serves without a fault.
use communication_protocols.Base.{
  ℕ, ◌≡◌, ◌<◌, refl, sym, ◌∙◌, inl, inr, ◌⊎◌, Bool, true, false, ◌||◌, Option, none, some, List, [],
  Bytes, codes, length, ◌==◌, same_bytes, c_string, if◌then◌else◌, arith,
}
use communication_protocols.Messages.Command.{tokens}
use communication_protocols.Messages.Datagram.{Doubles, copy_text}
use communication_protocols.Messages.Server.{ServerState, find}
use communication_protocols.Messages.Server.Handlers.{
  Connection, Input, Sent, accept_client, read_line, spread, publish, serve,
}
use communication_protocols.Messages.Server.Invariant.{IsServer}
use communication_protocols.Messages.Server.Connects.{IsFresh}
use communication_protocols.Messages.Server.Admission.{accept_client_cases}
use communication_protocols.Messages.Server.Obeys.{can_obey, command_served}
use communication_protocols.Messages.Server.Publishable.{Publishable, published-some}
use communication_protocols.Messages.Server.Watched.{is_some, is_own, IsWatched}
use communication_protocols.Messages.Server.Reachable.{serve-Valid, serve-IsWatched}

accept_client_served :
    (s : ServerState) (c : Connection) (id : Bytes)
    → IsServer s
    → IsFresh s c
    → length id < 11
    → c_string c.buffer ≡ some id
    → (r : ServerState × List Sent) × (accept_client s c ≡ some r)
accept_client_served s c id v f small e = elim (accept_client_cases s c id v small e) [
  | inl used ↦ (_, used.unchanged)
  | inr (inl returning) ↦ (_, returning.result)
  | inr (inr (inl newcomer)) ↦ (_, newcomer.result)
  | inr (inr (inr r)) ↦ let held = f.holds in let wild = r.wild in absurd (ground arith)
]

watched_client :
    (own : Bool) (o : Option ℕ) → own ≡ false → (own || is_some o) ≡ true → (p : ℕ) × (o ≡ some p)
unfolding is_some
watched_client own none h w = absurd (ground arith)
watched_client own (some p) h w = (p, refl)

module _ (doubles : Doubles) (tcp_sock udp_sock : ℕ) where
  -- What is ready at the descriptor i can be read: an id of at most 10 characters, a datagram with a
  -- printed value and a text that fit, a line with its end, and of a client nothing or a command that
  -- the server can obey.
  pub data Readable (s : ServerState) (i : ℕ) (input : Input) : Type 0 where
    connects :
        (id : Bytes)
        → (i == tcp_sock) ≡ true
        → c_string input.connection.buffer ≡ some id
        → length id < 11
        → Readable s i input
    publishes :
        (i == tcp_sock) ≡ false
        → (i == udp_sock) ≡ true
        → Publishable doubles input.datagram
        → Readable s i input
    types :
        (text : Bytes)
        → (i == tcp_sock) ≡ false
        → (i == udp_sock) ≡ false
        → (i == 0) ≡ true
        → c_string input.line ≡ some text
        → Readable s i input
    commands :
        (i == tcp_sock) ≡ false
        → (i == udp_sock) ≡ false
        → (i == 0) ≡ false
        → (input.received ≡ [])
          ⊎ (can_obey s.s_message (tokens (copy_text 1552 input.received)) ≡ true)
        → Readable s i input

  served :
      (s : ServerState) (i : ℕ) (input : Input)
      → IsServer s
      → IsWatched tcp_sock udp_sock s
      → s.active_fds i ≡ true
      → IsFresh s input.connection
      → Readable s i input
      → (r : ServerState × List Sent) × (serve doubles tcp_sock udp_sock s i input ≡ some r)
  unfolding serve publish read_line
  served s i input v w ready fresh (connects id tcp e small) =
      let (r, done) = accept_client_served s input.connection id v fresh small e in (r, rw tcp done)
  served s i input v w ready fresh (publishes tcp udp h) =
      let (publication, e) = published-some doubles input.datagram h in
      (spread s publication, rw tcp (rw udp (rw e refl)))
  served s i input v w ready fresh (types text tcp udp own e) = (
    (if same_bytes text (codes "exit\n") then record s { exit_loop = true } else s, []),
    rw tcp (rw udp (rw own (rw e refl))),
  )
  served s i input v w ready fresh (commands tcp udp own h) =
      let other : is_own tcp_sock udp_sock i ≡ false = rw (tcp, udp, own) refl in
      let (p, f) =
        watched_client (is_own tcp_sock udp_sock i) (find i s.online_clients) other
          (sym (w i) ∙ ready) in
      let (s', done) = command_served s i p input.received f h in
      ((s', []), rw tcp (rw udp (rw own (rw done refl))))

  -- In a server whose lists are as they should be, at a descriptor that is watched, with an input that
  -- can be read there and, for a connection, a socket and a block that are not in use: the descriptor
  -- is served without a fault, the lists are as they should be afterwards, and what is watched are
  -- the server's own descriptors and the sockets of the clients online.
  pub serve-served :
      (s : ServerState) (i : ℕ) (input : Input)
      → IsServer s
      → IsWatched tcp_sock udp_sock s
      → s.active_fds i ≡ true
      → IsFresh s input.connection
      → Readable s i input
      → (s' : ServerState) × (sent : List Sent) × (serve doubles tcp_sock udp_sock s i input
          ≡ some (s', sent))
        × IsServer s'
        × IsWatched tcp_sock udp_sock s'
  serve-served s i input v w ready fresh can_read =
      let ((s', sent), e) = served s i input v w ready fresh can_read in
      (
        s',
        sent,
        e,
        serve-Valid doubles tcp_sock udp_sock s s' i input sent v fresh e,
        serve-IsWatched doubles tcp_sock udp_sock s s' i input sent fresh w e,
      )
