-- ===== src/Messages/Server/Tests/Served.antt =====
-- A subscription of "bob".
use communication_protocols.Base.{ℕ, ◌≡◌, refl, inr, true, ◌||◌, List, [], ◌∷◌, codes, same_bytes}
use communication_protocols.Messages.Command.{tokens, cut}
use communication_protocols.Messages.Datagram.{copy_text}
use communication_protocols.Messages.Datagram.Tests.{doubles}
use communication_protocols.Messages.Server.{ServerState, find}
use communication_protocols.Messages.Server.Handlers.{Input, serve_loop}
use communication_protocols.Messages.Server.Clients.{listed}
use communication_protocols.Messages.Server.Watched.{is_some, is_own, IsWatched}
use communication_protocols.Messages.Server.Connects.{IsFresh}
use communication_protocols.Messages.Server.Serves.{commands}
use communication_protocols.Messages.Server.Obeys.{can_obey}
use communication_protocols.Messages.Server.Loop.{
  Turns, over, ready, ended, turn, Served, serve_loop-Served,
}
use communication_protocols.Messages.Server.Tests.{empty_block, two_clients, two_clients-IsServer}
use communication_protocols.Messages.Server.Tests.Runs.{input}

abbrev watching : ServerState
watching = record two_clients {
  active_fds = (λ i. is_own 3 4 i || is_some (find i two_clients.online_clients));
}

abbrev subscription : Input
subscription = record input { received = codes "subscribe b 1\n" }

watching-IsWatched : IsWatched 3 4 watching
watching-IsWatched i = refl

bob_watched : watching.active_fds 7 ≡ true
unfolding find is_some
bob_watched = refl

subscription-IsFresh : IsFresh watching subscription.connection
unfolding find listed
subscription-IsFresh = record {
  socket_free = refl;
  block_free = refl;
  content = empty_block;
  holds = refl;
  no_topics = refl;
  no_messages = refl;
}

readable : can_obey watching.s_message (tokens (copy_text 1552 subscription.received)) ≡ true
unfolding tokens cut copy_text same_bytes
readable = refl

abbrev one_turn : List (List (ℕ × Input))
one_turn = ((7, subscription) ∷ []) ∷ []

one_turn-Turns : Turns doubles 3 4 watching one_turn
one_turn-Turns =
    turn
      (ready bob_watched subscription-IsFresh (commands refl refl refl (inr readable))
        (λ s' sent e. over))
      (λ s' sent e. ended)

serve_loop-Served_example : Served doubles 3 4 (serve_loop doubles 3 4 watching one_turn)
serve_loop-Served_example =
    serve_loop-Served doubles 3 4 watching one_turn two_clients-IsServer watching-IsWatched
      one_turn-Turns
