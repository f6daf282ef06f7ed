-- ===== src/Messages/Session/Tests/Delivered.antt =====
-- A text on the topic of "bob", which comes in two parts.
use communication_protocols.Base.{
  ◌≡◌, refl, some, List, [], ◌∷◌, ◌++◌, codes, same_bytes, All, arith,
}
use communication_protocols.Messages.Topics.{check_subscription}
use communication_protocols.Messages.Topics.Lookup.{flag}
use communication_protocols.Messages.Datagram.Tests.{doubles}
use communication_protocols.Messages.Server.Handlers.{spread, send_online, publish}
use communication_protocols.Messages.Server.Delivery.{sent_to}
use communication_protocols.Messages.Server.Tests.{
  bob, news, text, published-news, two_clients, two_clients-IsServer,
}
use communication_protocols.Messages.Datagram.{copy_text}
use communication_protocols.Messages.Subscriber.{
  Action, exit, Ready, stdin, server, react, is_end, react_loop,
}
use communication_protocols.Messages.Subscriber.Stream.{Goes, block, received, printed}
use communication_protocols.Messages.Session.Delivered.{
  Publication, in_a_row, seen, publish_each, publish_each-printed,
}
use communication_protocols.Messages.Session.Tests.{bob_found}

abbrev publications : List Publication
publications = (news, codes "ab", text) ∷ []

abbrev two_parts : List Ready
two_parts = server (codes "10.0.0.1:5000 - ab") ∷ server (codes " - STRING - hi\n") ∷ []

news_sent :
    publish_each doubles two_clients publications
    ≡ some (
      (spread two_clients (some (codes "ab", text))).0,
      (spread two_clients (some (codes "ab", text))).1 ++ [],
    )
unfolding publish_each publish
news_sent = rw published-news refl

parts_received :
    received two_parts
    ≡ in_a_row (sent_to 7 ((spread two_clients (some (codes "ab", text))).1 ++ []))
unfolding received sent_to spread send_online check_subscription same_bytes
parts_received = refl

two_parts_Goes : All Goes two_parts
unfolding same_bytes
two_parts_Goes = (
  block (codes "10.0.0.1:5000 - ab") (omega arith) (omega arith) (ground arith) refl,
  (block (codes " - STRING - hi\n") (omega arith) (omega arith) (ground arith) refl, tt),
)

exit_line : react (stdin (codes "exit\n")) ≡ some exit
unfolding react copy_text same_bytes
exit_line = refl

publish_each-printed_example :
    (actions : List Action) × (react_loop (two_parts ++ stdin (codes "exit\n") ∷ [])
      ≡ some (actions ++ exit ∷ []))
    × (printed actions ≡ seen (flag bob.topics) publications)
publish_each-printed_example =
    publish_each-printed doubles two_clients (spread two_clients (some (codes "ab", text))).0 7 200
      publications ((spread two_clients (some (codes "ab", text))).1 ++ []) two_parts []
      (stdin (codes "exit\n")) exit two_clients-IsServer bob_found (published-news, tt) news_sent
      parts_received two_parts_Goes exit_line (unfold is_end in refl)

seen_by_bob : seen (flag bob.topics) publications ≡ text ++ []
unfolding flag same_bytes
seen_by_bob = refl
