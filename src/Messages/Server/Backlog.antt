-- ===== src/Messages/Server/Backlog.antt =====
-- Store and forward in server.cpp: what a client gets when it comes back.
use communication_protocols.Base.{
  ℕ, ◌<◌, ◌≡◌, refl, sym, ap, ◌∙◌, ◌≢◌, inl, inr, true, false, some, List, [], ◌∷◌, ◌++◌, Bytes,
  ◌==◌, if◌then◌else◌, if-cases, same_bytes_refl, bind-some, some-subst, length, c_string, arith,
}
use mathlib.Core.Path.{subst}
use mathlib.Core.List.{reverse_aux, reverse}
use communication_protocols.Messages.Topics.{Topic}
use communication_protocols.Messages.Datagram.{Doubles}
use communication_protocols.Messages.Server.{Client, write_client, ServerState, find}
use communication_protocols.Messages.Server.Handlers.{
  Connection, Input, Sent, send_each, welcome, accept_client, command, read_line, published, serve,
}
use communication_protocols.Messages.Server.Clients.{listed, find-insert}
use communication_protocols.Messages.Server.Invariant.{IsServer, write_client_self}
use communication_protocols.Messages.Server.Moves.{connected}
use communication_protocols.Messages.Server.Connects.{IsFresh, returning}
use communication_protocols.Messages.Server.Reachable.{serve-Valid}
use communication_protocols.Messages.Server.Admission.{accept_client_cases}
use communication_protocols.Messages.Server.Waiting.{
  add_pending, Waits, text_for, publish-Waits, command-Waits, read_line-Waits, accept_client-Waits,
}

-- A connection that brings an id of at most 10 characters, but not this one.
pub record BringsOther (id : Bytes) (c : Connection) : Type 0 where
  pub brought : Bytes
  pub is_text : c_string c.buffer ≡ some brought
  pub small : length brought < 11
  pub other : brought ≢ id

abbrev emptied : Client → Client
emptied c = record c { pending_messages = [] }

reverse_aux-append :
    {A : Type 0} (xs ys zs : List A) → reverse_aux xs (ys ++ zs) ≡ reverse_aux xs ys ++ zs
reverse_aux-append [] ys zs = refl
reverse_aux-append (x ∷ xs) ys zs = reverse_aux-append xs (x ∷ ys) zs

module _ (doubles : Doubles) (tcp_sock udp_sock : ℕ) where
  -- The server at work: each input is served in the state that the last one left, with fresh sockets
  -- and blocks.
  pub data Trace : ServerState → List (ℕ × Input) → ServerState → Type 0 where
    done : {s : ServerState} → Trace s [] s
    next :
        {s t s' : ServerState} {i : ℕ} {input : Input} {ready : List (ℕ × Input)} (sent : List Sent)
        → IsFresh s input.connection
        → serve doubles tcp_sock udp_sock s i input ≡ some (t, sent)
        → Trace t ready s'
        → Trace s ((i, input) ∷ ready) s'

  -- Nobody connects with this id.
  unfoldable pub Without : Bytes → List (ℕ × Input) → Type 0
  Without id [] = Unit
  Without id ((i, input) ∷ ready) =
      ((i == tcp_sock) ≡ true → BringsOther id input.connection) × Without id ready

  -- What a client with these topics should get, in the order in which it comes.
  unfoldable pub text_of_input : List Topic → ℕ → Input → List Bytes
  text_of_input topics i input =
      if i == tcp_sock
      then []
      else if i == udp_sock
      then text_for topics (published doubles input.datagram)
      else []

  unfoldable pub wanted : List Topic → List (ℕ × Input) → List Bytes
  wanted topics [] = []
  wanted topics ((i, input) ∷ ready) = text_of_input topics i input ++ wanted topics ready

  serve-Waits :
      (s s' : ServerState) (p i : ℕ) (input : Input) (sent : List Sent)
      → IsServer s
      → listed p s.all_clients ≡ true
      → (s.heap p).online ≡ false
      → IsFresh s input.connection
      → ((i == tcp_sock) ≡ true → BringsOther (s.heap p).id input.connection)
      → serve doubles tcp_sock udp_sock s i input ≡ some (s', sent)
      → Waits p s s' (text_of_input (s.heap p).topics i input)
  unfolding serve text_of_input
  serve-Waits s s' p i input sent v l off f others h =
      elim (if-cases (i == tcp_sock) _ _ (some (s', sent)) h) [
        | inl (b, h) ↦
            let o = others b in
            rw b (
              accept_client-Waits s s' p v l off input.connection sent o.brought f o.is_text o.small
                o.other h)
        | inr (b, h) ↦ elim (if-cases (i == udp_sock) _ _ (some (s', sent)) h) [
          | inl (b', h) ↦ rw (b, b') (publish-Waits s s' p v l off doubles input.datagram sent h)
          | inr (b', h) ↦ elim (if-cases (i == 0) _ _ (some (s', sent)) h) [
            | inl (b'', h) ↦
                let (t, e, h) = bind-some (read_line s input.line) _ (s', sent) h in
                rw (b, b')
                  (some-subst (λ r. Waits p s r.0 []) _ _ (s', sent) refl h
                    (read_line-Waits s t p v l off input.line e))
            | inr (b'', h) ↦
                let (t, e, h) = bind-some (command s i input.received) _ (s', sent) h in
                rw (b, b')
                  (some-subst (λ r. Waits p s r.0 []) _ _ (s', sent) refl h
                    (command-Waits s t p v l off i input.received e))
          ]
        ]
      ]

  reverse_aux_twice :
      {A : Type 0} (xs ys zs : List A)
      → reverse_aux (xs ++ ys) zs ≡ reverse_aux ys (reverse_aux xs zs)
  reverse_aux_twice [] ys zs = refl
  reverse_aux_twice (x ∷ xs) ys zs = reverse_aux_twice xs ys (x ∷ zs)

  -- A client that is offline stays as it is but for the texts that it should get.
  trace-Waits :
      (s s' : ServerState) (p : ℕ) (ready : List (ℕ × Input))
      → IsServer s
      → listed p s.all_clients ≡ true
      → (s.heap p).online ≡ false
      → Trace s ready s'
      → Without (s.heap p).id ready
      → IsServer s' × Waits p s s' (wanted (s.heap p).topics ready)
  unfolding Without wanted
  trace-Waits s _ p _ v l off done w = (v, record { is_listed = l; client = refl })
  trace-Waits s s' p _ v l off (next {t = t} {i = i} {input = input} {ready = ready} sent f h trace)
        (o, w) =
      let first = serve-Waits s t p i input sent v l off f o h in
      let v' = serve-Valid doubles tcp_sock udp_sock s t i input sent v f h in
      let (v'', rest) =
        trace-Waits t s' p ready v' first.is_listed (ap (λ c. c.online) first.client ∙ off) trace
          (subst (λ id. Without id ready) (sym (ap (λ c. c.id) first.client)) w) in
      let texts = text_of_input (s.heap p).topics i input in
      (
        v'',
        record {
          is_listed = rest.is_listed;
          client =
              rest.client
              ∙ ap (λ c. add_pending (wanted c.topics ready) c) first.client
              ∙ ap (λ l. record (s.heap p) { pending_messages = l })
                  (sym (
                    reverse_aux_twice texts (wanted (s.heap p).topics ready)
                      (s.heap p).pending_messages));
        },
      )

  -- Of two listed clients with the same id, one is the other.
  same_client :
      (s : ServerState) (p q : ℕ) (id : Bytes)
      → IsServer s
      → listed p s.all_clients ≡ true
      → listed q s.all_clients ≡ true
      → (s.heap p).id ≡ id
      → (s.heap q).id ≡ id
      → q ≡ p
  same_client s p q id v l l' e e' = v.one_id q p l' l (rw (e, e') (same_bytes_refl id))

  reconnects :
      (s : ServerState) (p : ℕ) (c : Connection) (id : Bytes)
      → IsServer s
      → IsFresh s c
      → listed p s.all_clients ≡ true
      → (s.heap p).online ≡ false
      → (s.heap p).id ≡ id
      → length id < 11
      → c_string c.buffer ≡ some id
      → accept_client s c ≡ some (welcome (returning s c.newsockfd p) c.newsockfd p)
  reconnects s p c id v f l off same small e = elim (accept_client_cases s c id v small e) [
    | inl r ↦
        let one =
          same_client s p r.client id v l (v.known r.socket r.client r.is_online) same r.same_id in
        let on =
          subst (λ q. (s.heap q).online ≡ true) one (v.marked r.socket r.client r.is_online) in
        absurd (ground arith)
    | inr (inl r) ↦
        subst (λ q. accept_client s c ≡ some (welcome (returning s c.newsockfd q) c.newsockfd q))
          (same_client s p r.client id v l r.is_listed same r.same_id) r.result
    | inr (inr (inl r)) ↦ absurd (r.new_id p l same)
    | inr (inr (inr r)) ↦ absurd (r.new_id p l same)
  ]

  -- A client that is offline in a server whose lists are as they should be, while the server serves
  -- any inputs, in which each connection has a socket that no client has, an empty block that is not
  -- in use, and another id, of at most 10 characters: when the client connects in the same way with
  -- its own id, of at most 10 characters, it is sent the texts of all valid datagrams since on topics
  -- to which it is subscribed with store-and-forward, each once, the latest first, and then what
  -- waited for it before; nothing waits for it any more, and it is online with the new socket.
  pub accept_client-backlog :
      (s s' : ServerState) (p : ℕ) (ready : List (ℕ × Input)) (c : Connection)
      → IsServer s
      → listed p s.all_clients ≡ true
      → (s.heap p).online ≡ false
      → length (s.heap p).id < 11
      → Trace s ready s'
      → Without (s.heap p).id ready
      → IsFresh s' c
      → c_string c.buffer ≡ some (s.heap p).id
      → (s'' : ServerState) × (accept_client s' c
          ≡ some (
            s'',
            send_each c.newsockfd
                (reverse (wanted (s.heap p).topics ready) ++ (s.heap p).pending_messages),
          ))
        × (s''.heap p ≡ record (s.heap p) { online = true; pending_messages = [] })
        × (find c.newsockfd s''.online_clients ≡ some p)
  unfolding welcome
  accept_client-backlog s s' p ready c v l off small trace w f e =
      let (v', waits) = trace-Waits s s' p ready v l off trace w in
      let same = ap (λ d. d.id) waits.client in
      let made =
        reconnects s' p c (s.heap p).id v' f waits.is_listed (ap (λ d. d.online) waits.client ∙ off)
          same small e in
      let sent : ((returning s' c.newsockfd p).heap p).pending_messages
          ≡ reverse (wanted (s.heap p).topics ready) ++ (s.heap p).pending_messages =
        ap (λ d. d.pending_messages) (write_client_self p (connected (s'.heap p)) s'.heap)
        ∙ ap (λ d. d.pending_messages) waits.client
        ∙ reverse_aux-append (wanted (s.heap p).topics ready) [] (s.heap p).pending_messages in
      let t = welcome (returning s' c.newsockfd p) c.newsockfd p in
      let heap = write_client p (connected (s'.heap p)) s'.heap in
      let here : (c.newsockfd == c.newsockfd) ≡ true = ground arith in
      (
        t.0,
        made ∙ ap (λ l. some (t.0, send_each c.newsockfd l)) sent,
        write_client_self p (emptied (heap p)) heap
            ∙ ap emptied (write_client_self p (connected (s'.heap p)) s'.heap)
            ∙ ap (λ d. emptied (connected d)) waits.client,
        find-insert c.newsockfd p s'.online_clients c.newsockfd f.socket_free ∙ rw here refl,
      )
