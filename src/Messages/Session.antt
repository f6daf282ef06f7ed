-- ===== src/Messages/Session.antt =====
-- A subscriber and the server together: what subscriber.cpp sends, and what server.cpp does with it.
pub mod Joined
pub mod Delivered
mod Tests
use communication_protocols.Base.{
  ℕ, zero, suc, ◌+◌, ◌<◌, ◌≤◌, ◌≡◌, refl, sym, ap, ◌∙◌, Bool, true, false, Option, none, some, List,
  [], ◌∷◌, ◌++◌, Bytes, codes, length, length-append, NoZero, c_string-append, take, drop, ltb,
  ◌==◌, if◌then◌else◌, same_bytes, same_bytes_refl, inl, inr, Bool-cases, All, All-append, c_string,
  ◌>>=◌, arith,
}
use mathlib.Core.Path.{subst}
use communication_protocols.Messages.Topics.{Topic, add_topic, remove_topic}
use communication_protocols.Messages.Topics.Lookup.{IsMap, flag, add_topic-flag, remove_topic-flag}
use communication_protocols.Messages.Topics.Refine.{write_flag}
use communication_protocols.Messages.Command.{ServerMessage, decode_message}
use communication_protocols.Messages.Command.Words.{
  Typed, subscribe, unsubscribe, text_of, name_of, message_of, no_space, decode_message-text_of,
}
use communication_protocols.Messages.Datagram.{copy_text}
use communication_protocols.Messages.Datagram.Copy.{copy_text-whole}
use communication_protocols.Messages.Server.{
  Client, Heap, write_client, ServerState, find, check_unique_id,
}
use communication_protocols.Messages.Server.Handlers.{
  Connection, accept_client, refusal, cut_last, obey, command,
}
use communication_protocols.Messages.Server.Clients.{check_unique_id-find}
use communication_protocols.Messages.Server.Invariant.{
  Valid, IsServer, write_client_self, write_client-other,
}
use communication_protocols.Messages.Subscriber.{
  Action, send, die, Ready, stdin, server, introduce, text_received, react,
}

length-take : (n : ℕ) (bytes : Bytes) → length (take n bytes) ≤ n
length-take zero bytes = omega arith
length-take (suc n) [] = omega arith
length-take (suc n) (c ∷ bytes) = omega (arith, length-take n bytes)

react-refusal : (buffer : Bytes) → react (server (refusal buffer)) ≡ some die
unfolding react text_received copy_text same_bytes
react-refusal buffer =
    let short : ltb (length (refusal buffer)) 1552 ≡ true =
      let l = length-take 3 (drop 5 buffer) in ground arith in
    rw short refl

-- A subscriber with an id of at most 10 characters, none of them 0, that is the id of a client online
-- in a server whose lists are as they should be: it sends the id, the server changes nothing but
-- sends a refusal to its socket, whatever stood in the server's buffer before, and the subscriber
-- ends with an error when it receives this.
pub react-accept_client :
    (s : ServerState) (k p newsockfd : ℕ) (block : ℕ × Option Client) (id stale : Bytes)
    → IsServer s
    → find k s.online_clients ≡ some p
    → (s.heap p).id ≡ id
    → NoZero id
    → length id < 11
    → (introduce id ≡ send (id ++ 0 ∷ []))
      × (bytes : Bytes) × (accept_client s
            (record { newsockfd = newsockfd; buffer = id ++ 0 ∷ stale; block = block })
          ≡ some (s, (newsockfd, bytes) ∷ []))
      × (react (server bytes) ≡ some die)
unfolding introduce accept_client
react-accept_client s k p newsockfd block id stale v f same z small =
    let buffer = id ++ 0 ∷ stale in
    let used : check_unique_id s.heap s.online_clients id ≡ false =
      elim (Bool-cases (check_unique_id s.heap s.online_clients id)) [
        | inl unique ↦
            let other = check_unique_id-find s.heap s.online_clients id k p unique f in
            let equal : same_bytes (s.heap p).id id ≡ true = rw same (same_bytes_refl id) in
            absurd (ground arith)
        | inr used ↦ used
      ] in
    (
      ground arith,
      refusal buffer,
      rw (c_string-append id stale z) (rw used refl),
      react-refusal buffer,
    )

take-snoc :
    (c : ℕ) (text : Bytes) → take (length (text ++ codes "\n")) (c ∷ text ++ codes "\n") ≡ c ∷ text
take-snoc c [] = refl
take-snoc c (d ∷ text) = ap (λ l. c ∷ l) (take-snoc d text)

cut_last-snoc : (text : Bytes) → cut_last (text ++ codes "\n") ≡ some text
unfolding cut_last
cut_last-snoc [] = refl
cut_last-snoc (c ∷ text) = ap (λ l. some l) (take-snoc c text)

-- What the command makes of the flags of the topics.
abbrev pub flags_of : Typed → (Bytes → Option Bool) → Bytes → Option Bool
flags_of (subscribe name sf) = write_flag name (some sf)
flags_of (unsubscribe name) = write_flag name none

pub text_of-NoZero : (typed : Typed) → NoZero (name_of typed) → NoZero (text_of typed)
text_of-NoZero (subscribe name true) z =
    let tail = All-append (λ c. 0 < c) name (32 ∷ codes "1\n") z (ground arith) in ground arith
text_of-NoZero (subscribe name false) z =
    let tail = All-append (λ c. 0 < c) name (32 ∷ codes "0\n") z (ground arith) in ground arith
text_of-NoZero (unsubscribe name) z =
    let tail = All-append (λ c. 0 < c) name (codes "\n") z (ground arith) in ground arith

text_of-short : (typed : Typed) → length (name_of typed) < 50 → length (text_of typed) ≤ 1552
text_of-short (subscribe name true) h = omega (arith, h, length-append name (32 ∷ codes "1\n"))
text_of-short (subscribe name false) h = omega (arith, h, length-append name (32 ∷ codes "0\n"))
text_of-short (unsubscribe name) h = omega (arith, h, length-append name (codes "\n"))

pub text_of_some : (typed : Typed) → 0 < length (text_of typed)
text_of_some (subscribe name sf) = omega arith
text_of_some (unsubscribe name) = omega arith

react-text_of :
    (typed : Typed)
    → copy_text 1552 (text_of typed) ≡ text_of typed
    → react (stdin (text_of typed)) ≡ some (send (text_of typed))
unfolding react same_bytes
react-text_of (subscribe name sf) whole = rw whole refl
react-text_of (unsubscribe name) whole = rw whole refl

-- The topics once a message is obeyed.
abbrev topics_of : Typed → List Topic → List Topic
topics_of (subscribe name sf) = add_topic name sf
topics_of (unsubscribe name) = remove_topic name

-- The message that is left.
abbrev message_left : ServerMessage → Typed → ServerMessage
message_left message (subscribe name sf) = message_of message (subscribe name sf)
message_left message (unsubscribe name) = record (message_of message (unsubscribe name)) {
  topic = name;
}

obey-message_of :
    (s : ServerState) (p : ℕ) (typed : Typed)
    → obey (record s { s_message = message_of s.s_message typed }) p
      ≡ some (record s {
        heap =
            write_client p
              (record (s.heap p) { topics = topics_of typed (s.heap p).topics })
              s.heap;
        s_message = message_left s.s_message typed;
      })
unfolding obey
obey-message_of s p (subscribe name sf) = refl
obey-message_of s p (unsubscribe name) = rw (cut_last-snoc name) refl

topics_of-flag :
    (typed : Typed) (topics : List Topic) (name : Bytes)
    → IsMap topics
    → flag (topics_of typed topics) name ≡ flags_of typed (flag topics) name
topics_of-flag (subscribe topic sf) topics name v = add_topic-flag topic sf topics name
topics_of-flag (unsubscribe topic) topics name v = remove_topic-flag topic topics name v

command-decoded :
    (s : ServerState) (i p : ℕ) (text : Bytes) (message : ServerMessage)
    → 0 < length text
    → copy_text 1552 text ≡ text
    → decode_message s.s_message text ≡ some (true, message)
    → find i s.online_clients ≡ some p
    → command s i text ≡ obey (record s { s_message = message }) p
unfolding command
command-decoded s i p [] message h whole e f = absurd (omega arith)
command-decoded s i p (c ∷ text) message h whole e f = rw (whole, e) (rw f refl)

-- In a server whose lists are as they should be, a subscriber whose client is p types a subscription
-- or an unsubscription of a topic of 1 to 49 bytes, none of them a space or 0: the line is sent, the
-- server obeys it, the flags of the client's topics change as the line says, and nothing changes in
-- other clients, in who is online or in which descriptors are watched.
pub command-text_of :
    (s : ServerState) (i p : ℕ) (typed : Typed)
    → IsServer s
    → find i s.online_clients ≡ some p
    → no_space (name_of typed) ≡ true
    → NoZero (name_of typed)
    → 0 < length (name_of typed)
    → length (name_of typed) < 50
    → (react (stdin (text_of typed)) ≡ some (send (text_of typed)))
      × (heap : Heap) × (message : ServerMessage) × (topics : List Topic) × (command s i
            (text_of typed)
          ≡ some (record s { heap = heap; s_message = message }))
      × (heap p ≡ record (s.heap p) { topics = topics })
      × ((name : Bytes) → flag topics name ≡ flags_of typed (flag (s.heap p).topics) name)
      × ((q : ℕ) → (p == q) ≡ false → heap q ≡ s.heap q)
command-text_of s i p typed v f plain z some_byte small =
    let topics = topics_of typed (s.heap p).topics in
    let c = record (s.heap p) { topics = topics } in
    let whole =
      copy_text-whole 1552 (text_of typed) (text_of-short typed small) (text_of-NoZero typed z) in
    (
      react-text_of typed whole,
      write_client p c s.heap,
      message_left s.s_message typed,
      topics,
      command-decoded s i p (text_of typed) (message_of s.s_message typed) (text_of_some typed)
            whole (decode_message-text_of s.s_message typed plain some_byte small) f
          ∙ obey-message_of s p typed,
      write_client_self p c s.heap,
      (λ name. topics_of-flag typed (s.heap p).topics name (v.maps p (v.known i p f))),
      write_client-other p c s.heap,
    )
