-- ===== src/Messages/Server/Obeys.antt =====
-- The commands that server.cpp can obey.
use communication_protocols.Base.{
  ℕ, ◌≡◌, ◌<◌, refl, inl, inr, ◌⊎◌, Bool, true, false, ◌||◌, not, Option, some, List, [], ◌∷◌,
  Bytes, codes, take, get_or, ltb→lt, length, ltb, ◌==◌, same_bytes, ◌>>=◌, Bool-cases,
  if◌then◌else◌, All, arith,
}
use mathlib.Core.Path.{subst}
use communication_protocols.Messages.Command.{ServerMessage, add_word, cut, tokens, decode_message}
use communication_protocols.Messages.Command.Verdict.{
  Verdict, subscribed, unsubscribed, bare, blank, refused, overflow, decode_message-Verdict,
}
use communication_protocols.Messages.Topics.{add_topic, remove_topic}
use communication_protocols.Messages.Datagram.{copy_text}
use communication_protocols.Messages.Server.{ServerState, find, erase, write_client}
use communication_protocols.Messages.Server.Handlers.{cut_last, obey, command}

-- The server can obey a command with these words: a second word behind a keyword fits in the topic, and
-- a command that unsubscribes without a name, or one with no word after such a command, finds a topic
-- that is not empty in the message of the last one.
abbrev pub can_obey : ServerMessage → List Bytes → Bool
can_obey message [] = (message.type == b's') || ltb 0 (length message.topic)
can_obey message (word ∷ []) =
    not (same_bytes word (codes "unsubscribe")) || ltb 0 (length message.topic)
can_obey message (word ∷ name ∷ rest) =
    not (same_bytes word (codes "subscribe") || same_bytes word (codes "unsubscribe"))
    || ltb (length name) 51

add_word-some :
    (word : Bytes) (words : List Bytes)
    → All (λ w. 0 < length w) words
    → All (λ w. 0 < length w) (add_word word words)
add_word-some [] words h = h
add_word-some (c ∷ word) words h = (omega arith, h)

cut-some : (text : Bytes) → All (λ w. 0 < length w) (cut text).1
unfolding cut
cut-some [] = tt
cut-some (c ∷ text) = elim (Bool-cases (c == 32)) [
  | inl b ↦ rw (b, cut) (add_word-some (cut text).0 (cut text).1 (cut-some text))
  | inr b ↦ rw (b, cut) (cut-some text)
]

-- No token is empty.
tokens-some : (text : Bytes) → All (λ w. 0 < length w) (tokens text)
unfolding tokens
tokens-some text = add_word-some (cut text).0 (cut text).1 (cut-some text)

-- What server.cpp does with the outcome of a command.
abbrev act_on : ServerState → ℕ → Option (Bool × ServerMessage) → Option ServerState
act_on s i o = do
  (valid, message) ← o
  let s = record s { s_message = message }
  if valid then (do p ← find i s.online_clients; obey s p) else some s

cut_last-some : (text : Bytes) → 0 < length text → (cut : Bytes) × (cut_last text ≡ some cut)
unfolding cut_last
cut_last-some [] filled = absurd (omega arith)
cut_last-some (c ∷ text) filled = (take (length text) (c ∷ text), refl)

obey_served :
    (s : ServerState) (p : ℕ)
    → ((s.s_message.type == b's') ≡ true) ⊎ (0 < length s.s_message.topic)
    → (s' : ServerState) × (obey s p ≡ some s')
unfolding obey
obey_served s p h = elim (Bool-cases (s.s_message.type == b's')) [
  | inl b ↦
      let m = s.s_message in
      let client = record (s.heap p) { topics = add_topic m.topic m.sf (s.heap p).topics } in
      (record s { heap = write_client p client s.heap }, rw (b, obey) refl)
  | inr b ↦ elim h [
    | inl e ↦ absurd (ground arith)
    | inr filled ↦
        let (name, e) = cut_last-some s.s_message.topic filled in
        let client = record (s.heap p) { topics = remove_topic name (s.heap p).topics } in
        (
          record s {
            heap = write_client p client s.heap;
            s_message = record (s.s_message) { topic = name };
          },
          rw (b, obey) (rw e refl),
        )
  ]
]

obeyed :
    (s : ServerState) (i p : ℕ) (words : List Bytes) (o : Option (Bool × ServerMessage))
    → Verdict s.s_message words o
    → find i s.online_clients ≡ some p
    → can_obey s.s_message words ≡ true
    → All (λ w. 0 < length w) words
    → (s' : ServerState) × (act_on s i o ≡ some s')
unfolding same_bytes
obeyed s i p words _ (subscribed name flag e small k) f h filled =
    let m : ServerMessage = record {
      type = b's';
      topic = name;
      sf = same_bytes flag (codes "1\n");
    } in
    let (s', done) = obey_served (record s { s_message = m }) p (inl refl) in (s', rw f done)
obeyed s i p words _ (unsubscribed name e small) f h filled =
    let filled' = subst (All (λ w. 0 < length w)) e filled in
    let m : ServerMessage = record { type = b'u'; topic = name; sf = s.s_message.sf } in
    let (s', done) = obey_served (record s { s_message = m }) p (inr filled'.1.0) in (s', rw f done)
obeyed s i p words _ (bare word e (inl k)) f h filled =
    let m = record (s.s_message) { type = get_or word 0 0 } in
    let (s', done) = obey_served (record s { s_message = m }) p (inl (rw k refl)) in (s', rw f done)
obeyed s i p words _ (bare word e (inr k)) f h filled =
    let m = record (s.s_message) { type = get_or word 0 0 } in
    let h' =
      subst (λ w. can_obey s.s_message (w ∷ []) ≡ true) k
        (subst (λ l. can_obey s.s_message l ≡ true) e h) in
    let (s', done) = obey_served (record s { s_message = m }) p (inr (ltb→lt _ _ h')) in
    (s', rw f done)
obeyed s i p words _ (blank e) f h filled =
    let h' = subst (λ l. can_obey s.s_message l ≡ true) e h in
    let (s', done) = obey_served s p (elim (Bool-cases (s.s_message.type == b's')) [
      | inl b ↦ inl b
      | inr b ↦ inr (ltb→lt _ _ (rw b at h'))
    ]) in
    (s', rw f done)
obeyed s i p words _ (refused m k) f h filled = (record s { s_message = m }, refl)
obeyed s i p words _ (overflow word name rest e (inl k) long) f h filled =
    let h' =
      subst (λ w. can_obey s.s_message (w ∷ name ∷ rest) ≡ true) k
        (subst (λ l. can_obey s.s_message l ≡ true) e h) in
    let short = ltb→lt (length name) 51 h' in absurd (omega (arith, short, long))
obeyed s i p words _ (overflow word name rest e (inr k) long) f h filled =
    let h' =
      subst (λ w. can_obey s.s_message (w ∷ name ∷ rest) ≡ true) k
        (subst (λ l. can_obey s.s_message l ≡ true) e h) in
    let short = ltb→lt (length name) 51 h' in absurd (omega (arith, short, long))

pub command_served :
    (s : ServerState) (i p : ℕ) (received : Bytes)
    → find i s.online_clients ≡ some p
    → (received ≡ []) ⊎ (can_obey s.s_message (tokens (copy_text 1552 received)) ≡ true)
    → (s' : ServerState) × (command s i received ≡ some s')
unfolding command
command_served s i p [] f h = (
  record s {
    heap = write_client p (record (s.heap p) { online = false }) s.heap;
    online_clients = erase i s.online_clients;
    active_fds = (λ j. if j == i then false else s.active_fds j);
  },
  rw f refl,
)
command_served s i p (c ∷ received) f (inl e) = absurd (ground arith)
command_served s i p (c ∷ received) f (inr h) =
    let text = copy_text 1552 (c ∷ received) in
    obeyed s i p (tokens text) (decode_message s.s_message text)
      (decode_message-Verdict s.s_message text) f h (tokens-some text)
