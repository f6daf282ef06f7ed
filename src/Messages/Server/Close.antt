-- ===== src/Messages/Server/Close.antt =====
-- The end of `main` in server.cpp: the loop that closes the sockets.
use communication_protocols.Base.{
  ℕ, zero, suc, ◌+◌, ◌≤◌, ◌≡◌, refl, ap, ◌∙◌, inl, inr, Bool, true, false, ◌&&◌, ◌||◌, not, List,
  [], ◌∷◌, leb, ltb, ◌==◌, if◌then◌else◌, Bool-cases, Option-cases, arith,
}
use communication_protocols.Messages.Datagram.{Doubles}
use communication_protocols.Messages.Server.{ServerState, find}
use communication_protocols.Messages.Server.Clients.{listed, Distinct}
use communication_protocols.Messages.Server.Watched.{is_some, is_own}
use communication_protocols.Messages.Server.Reachable.{Reachable, reachable-IsServer}
use communication_protocols.Messages.Server.Bounds.{reachable-Bounded}

-- The loop from i on, with `left` descriptors to go: those that are closed.
unfoldable pub close_loop : ℕ → ℕ → (ℕ → Bool) → List ℕ
close_loop zero i active_fds = []
close_loop (suc left) i active_fds =
    let rest = close_loop left (i + 1) active_fds in if active_fds i then i ∷ rest else rest

unfoldable pub close_sockets : ServerState → List ℕ
close_sockets s = close_loop (s.fdmax + 1) 0 s.active_fds

close_loop-listed :
    (left i : ℕ) (active_fds : ℕ → Bool) (k : ℕ)
    → listed k (close_loop left i active_fds) ≡ (leb i k && (ltb k (left + i) && active_fds k))
unfolding close_loop listed
close_loop-listed zero i active_fds k = ground arith
close_loop-listed (suc left) i active_fds k =
    let rest = close_loop-listed left (i + 1) active_fds k in
    elim (Bool-cases (i == k)) [
      | inl same ↦ let e : i ≡ k = ground arith in let at = ap active_fds e in ground arith
      | inr other ↦ ground arith
    ]

close_loop-Distinct : (left i : ℕ) (active_fds : ℕ → Bool) → Distinct (close_loop left i active_fds)
unfolding close_loop listed Distinct
close_loop-Distinct zero i active_fds = tt
close_loop-Distinct (suc left) i active_fds =
    let rest = close_loop-listed left (i + 1) active_fds i in
    elim (Bool-cases (active_fds i)) [
      | inl on ↦ rw on (ground arith, close_loop-Distinct left (i + 1) active_fds)
      | inr off ↦ rw off (close_loop-Distinct left (i + 1) active_fds)
    ]

module _ (doubles : Doubles) (tcp_sock udp_sock : ℕ) where
  -- What is watched up to `fdmax`: all that is watched, but for the socket of datagrams above it.
  watched_below :
      (i top : ℕ) (active client : Bool)
      → active ≡ is_own tcp_sock udp_sock i || client
      → tcp_sock ≤ top
      → (client ≡ true → i ≤ top)
      → (leb 0 i && (ltb i (top + 1 + 0) && active))
        ≡ (is_own tcp_sock udp_sock i || client) && (leb i top || not (i == udp_sock))
  watched_below i top active true w b below = let le = below refl in ground arith
  watched_below i top active false w b below = ground arith

  -- In every state that the server reaches, where each connection has a socket that no client has and
  -- an empty block that is not in use, the loop at the end closes no descriptor twice, and closes
  -- exactly the server's own descriptors and the sockets of the clients online, but for the socket
  -- of datagrams if this is above `fdmax`.
  pub close_sockets-reachable :
      (s : ServerState)
      → Reachable doubles tcp_sock udp_sock s
      → Distinct (close_sockets s)
        × ((i : ℕ)
            → listed i (close_sockets s)
              ≡ (is_own tcp_sock udp_sock i || is_some (find i s.online_clients))
                && (leb i s.fdmax || not (i == udp_sock)))
  unfolding close_sockets
  close_sockets-reachable s r =
      let (b, bs) = reachable-Bounded doubles tcp_sock udp_sock s r in
      let (v, w) = reachable-IsServer doubles tcp_sock udp_sock s r in
      (
        close_loop-Distinct (s.fdmax + 1) 0 s.active_fds,
        (λ i.
            close_loop-listed (s.fdmax + 1) 0 s.active_fds i
            ∙ watched_below i s.fdmax (s.active_fds i) (is_some (find i s.online_clients)) (w i) b
                (λ on. elim (Option-cases (find i s.online_clients)) [
                  | inl none_there ↦ absurd (unfold is_some in ground arith)
                  | inr (p, f) ↦ bs i p f
                ])),
      )
