-- ===== src/Messages/Server/Tests/Closed.antt =====
-- The end of a server that "ana" has joined.
use communication_protocols.Base.{ℕ, ◌≡◌, refl, false, ◌&&◌, ◌||◌, not, [], ◌∷◌, leb, ◌==◌}
use communication_protocols.Messages.Datagram.Tests.{doubles}
use communication_protocols.Messages.Server.{find}
use communication_protocols.Messages.Server.Handlers.{initial}
use communication_protocols.Messages.Server.Clients.{listed, Distinct}
use communication_protocols.Messages.Server.Watched.{is_some, is_own}
use communication_protocols.Messages.Server.Close.{
  close_loop, close_sockets, close_sockets-reachable,
}
use communication_protocols.Messages.Server.Tests.{ana}
use communication_protocols.Messages.Server.Tests.Runs.{ana_joined, ana_reachable}

close_sockets-reachable_example :
    Distinct (close_sockets ana_joined.0)
    × ((i : ℕ)
        → listed i (close_sockets ana_joined.0)
          ≡ (is_own 3 4 i || is_some (find i ana_joined.0.online_clients))
            && (leb i ana_joined.0.fdmax || not (i == 4)))
close_sockets-reachable_example = close_sockets-reachable doubles 3 4 ana_joined.0 ana_reachable

-- With no client, the socket of datagrams is left open.
left_open :
    close_sockets (initial 3 4 (λ p. ana) (record { type = 0; topic = []; sf = false }))
    ≡ 0 ∷ 3 ∷ []
unfolding close_sockets close_loop initial
left_open = refl
