-- ===== src/Messages/Memory/Tests.antt =====
-- Two clients in memory: "ana", with two topics and a pending text, and "bob", who has nothing.
use communication_protocols.Base.{
  ℕ, ◌≡◌, refl, true, false, none, some, List, [], ◌∷◌, ◌++◌, Bytes, codes, ◌==◌, if◌then◌else◌,
  same_bytes, arith,
}
use communication_protocols.Messages.Memory.{
  topic_node, string_node, text_block, client_block, client_node, Memory, add_topic_node,
  set_sf_node, as_topic, write_block, free_clients, as_client_node, free_block,
}
use communication_protocols.Messages.Memory.Members.{
  delete_client_from_list, delete_loop, id_at, as_id,
}
use communication_protocols.Messages.Memory.Changes.{Freed, Same}
use communication_protocols.Messages.Memory.Lists.{
  TopicNodes, topic_addresses, topics_in, Topics, ClientNode, Clients, owned, subscribers,
}
use communication_protocols.Messages.Memory.Changed.{
  Placed, changes_of, changed_nodes, changed_nodes-spec,
}
use communication_protocols.Messages.Memory.FreeClients.{free_clients-Freed}
use communication_protocols.Messages.Server.Clients.{listed, Distinct}
use communication_protocols.Messages.Topics.{Topic}
use communication_protocols.Messages.Topics.Lookup.{IsMap, flag}
use communication_protocols.Messages.Topics.Refine.{subscribe, unsubscribe, spec}

abbrev first_topic : Topic
first_topic = record { name = codes "ab"; sf = true }

abbrev second_topic : Topic
second_topic = record { name = codes "c"; sf = false }

abbrev memory : Memory
memory a =
    if a == 10
    then some (client_node 20 11)
    else if a == 11
    then some (client_node 21 0)
    else if a == 20
    then some (client_block (codes "ana") false 30 40)
    else if a == 21
    then some (client_block (codes "bob") true 0 0)
    else if a == 30
    then some (topic_node first_topic 31)
    else if a == 31
    then some (topic_node second_topic 0)
    else if a == 40
    then some (string_node 50 0)
    else if a == 50
    then some (text_block (codes "old"))
    else none

abbrev nodes : TopicNodes
nodes = (30, first_topic) ∷ (31, second_topic) ∷ []

nodes-Topics : Topics memory 30 nodes
nodes-Topics = (31, refl, ground arith, refl, (0, refl, ground arith, refl, refl))

nodes-Distinct : Distinct (topic_addresses nodes)
unfolding listed Distinct
nodes-Distinct = (refl, (refl, tt))

abbrev clients : List ClientNode
clients =
    record {
      node = 10;
      subscriber = 20;
      id = codes "ana";
      online = false;
      topics = nodes;
      pending_messages = (40, 50, codes "old") ∷ [];
    }
    ∷ record {
      node = 11;
      subscriber = 21;
      id = codes "bob";
      online = true;
      topics = [];
      pending_messages = [];
    }
    ∷ []

clients-Clients : Clients memory 10 clients
clients-Clients = (
  11,
  refl,
  ground arith,
  refl,
  (30, 40, refl, nodes-Topics, (0, refl, ground arith, ground arith, refl, refl, refl)),
  (0, refl, ground arith, refl, (0, 0, refl, refl, refl), refl),
)

clients-Distinct : Distinct (owned clients ++ subscribers clients)
unfolding listed Distinct
clients-Distinct = (refl, (refl, (refl, (refl, (refl, (refl, (refl, (refl, tt))))))))

free_clients-Freed_example :
    (m' : Memory) × (free_clients 3 3 10 memory ≡ some m')
    × Freed (owned clients) memory m'
    × Same (subscribers clients) memory m'
free_clients-Freed_example =
    free_clients-Freed 3 3 10 memory clients clients-Clients clients-Distinct (omega arith)
      ((omega arith, omega arith), ((omega arith, omega arith), tt))

abbrev placed : Placed
placed = (60, subscribe (codes "d") true) ∷ (61, unsubscribe (codes "ab")) ∷ []

nodes-IsMap : IsMap (topics_in nodes)
unfolding IsMap flag same_bytes
nodes-IsMap = ((refl, tt), (tt, tt))

placed-Distinct : Distinct (60 ∷ 61 ∷ [])
unfolding listed Distinct
placed-Distinct = (refl, (refl, tt))

changed_nodes-spec_example :
    (q : ℕ) × (m' : Memory) × (nodes' : TopicNodes) × (changed_nodes 5 placed 30 memory
      ≡ some (q, m'))
    × Topics m' q nodes'
    × Distinct (topic_addresses nodes')
    × ((name : Bytes)
        → flag (topics_in nodes') name ≡ spec (changes_of placed) (flag (topics_in nodes)) name)
changed_nodes-spec_example =
    changed_nodes-spec 5 placed 30 memory nodes nodes-Topics nodes-Distinct nodes-IsMap
      ((ground arith, refl), ((ground arith, refl), tt)) placed-Distinct (omega arith)

-- A new topic stands in front of the others, at the address of its own node.
added :
    (add_topic_node 3 60 (codes "d") true 30 memory)
    ≡ some
        (60, write_block 60 (some (topic_node (record { name = codes "d"; sf = true }) 30)) memory)
unfolding add_topic_node set_sf_node as_topic same_bytes
added = refl

-- A deletion of the client at 21 leaves the list of one node.
deleted :
    delete_client_from_list 3 10 21 memory
    ≡ some (10, write_block 11 none (write_block 10 (some (client_node 20 0)) memory))
unfolding delete_client_from_list delete_loop as_client_node id_at as_id same_bytes free_block
    write_block
deleted = refl
