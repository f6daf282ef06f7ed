-- ===== src/Messages/Session/Tests.antt =====
-- A second "bob", and a subscription of the first one.
mod Delivered
use communication_protocols.Base.{
  ℕ, ◌≡◌, refl, true, false, some, List, [], ◌∷◌, ◌++◌, Bytes, codes, same_bytes, ◌==◌, arith,
}
use communication_protocols.Messages.Topics.{Topic}
use communication_protocols.Messages.Topics.Lookup.{flag}
use communication_protocols.Messages.Command.{ServerMessage}
use communication_protocols.Messages.Command.Words.{subscribe, unsubscribe, text_of, no_space}
use communication_protocols.Messages.Datagram.{copy_text}
use communication_protocols.Messages.Server.{Heap, find}
use communication_protocols.Messages.Server.Handlers.{accept_client, command}
use communication_protocols.Messages.Server.Tests.{ana, bob, two_clients, two_clients-IsServer}
use communication_protocols.Messages.Subscriber.{
  send, print, exit, die, stdin, server, introduce, react, react_loop, text_received, is_end, run,
}
use communication_protocols.Messages.Session.{flags_of, react-accept_client, command-text_of}
use communication_protocols.Messages.Session.Joined.{command-joined}

bob_found : find 7 two_clients.online_clients ≡ some 200
unfolding find
bob_found = refl

react-accept_client_example :
    (introduce (codes "bob") ≡ send (codes "bob" ++ 0 ∷ []))
    × (bytes : Bytes) × (accept_client two_clients (record {
      newsockfd = 8;
      buffer = codes "bob" ++ 0 ∷ codes "stale";
      block = (300, some ana);
    })
        ≡ some (two_clients, (8, bytes) ∷ []))
    × (react (server bytes) ≡ some die)
react-accept_client_example =
    react-accept_client two_clients 7 200 8 (300, (some ana)) (codes "bob") (codes "stale")
      two_clients-IsServer bob_found refl (ground arith) (omega arith)

abbrev sports : Bytes
sports = codes "sports"

sports_plain : no_space sports ≡ true
unfolding no_space
sports_plain = refl

command-text_of_example :
    (react (stdin (text_of (subscribe sports true)))
      ≡ some (send (text_of (subscribe sports true))))
    × (heap : Heap) × (message : ServerMessage) × (topics : List Topic) × (command two_clients 7
          (text_of (subscribe sports true))
        ≡ some (record two_clients { heap = heap; s_message = message }))
    × (heap 200 ≡ record bob { topics = topics })
    × ((name : Bytes) → flag topics name ≡ flags_of (subscribe sports true) (flag bob.topics) name)
    × ((q : ℕ) → (200 == q) ≡ false → heap q ≡ two_clients.heap q)
command-text_of_example =
    command-text_of two_clients 7 200 (subscribe sports true) two_clients-IsServer bob_found
      sports_plain (ground arith) (omega arith) (omega arith)

command-joined_example :
    (message : ServerMessage) × (command two_clients 7
        (text_of (subscribe sports true) ++ text_of (unsubscribe sports))
      ≡ some (record two_clients { s_message = message }))
command-joined_example =
    command-joined two_clients 7 (subscribe sports true) (unsubscribe sports) sports_plain
      (ground arith) (omega arith) (omega arith) sports_plain (ground arith) (omega arith)
      (omega arith)

-- A session: a line, a text, and the end.
session :
    run (codes "bob") (stdin (codes "x\n") ∷ server (codes "hi") ∷ stdin (codes "exit\n") ∷ [])
    ≡ some (send (codes "bob" ++ 0 ∷ []) ∷ send (codes "x\n") ∷ print (codes "hi") ∷ exit ∷ [])
unfolding run introduce is_end react_loop react text_received copy_text same_bytes
session = refl
