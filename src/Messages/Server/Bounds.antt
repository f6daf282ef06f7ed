-- ===== src/Messages/Server/Bounds.antt =====
-- The bound that server.cpp keeps on the descriptors it waits for.
use communication_protocols.Base.{
  ℕ, ◌≤◌, ◌≡◌, refl, sym, ap, ◌∙◌, inl, inr, true, Option, none, some, List, [], ◌∷◌, Bytes, ◌==◌,
  if-cases, Bool-cases, Option-cases, bind-some, some-subst, c_string, codes, same_bytes, arith,
}
use mathlib.Core.Path.{subst}
use mathlib.Core.Option.{some-injective}
use communication_protocols.Messages.Command.{decode_message}
use communication_protocols.Messages.Datagram.{Doubles, copy_text}
use communication_protocols.Messages.Server.{
  Client, Heap, ServerState, find, insert, get_client, check_unique_id, add_client_to_clients,
}
use communication_protocols.Messages.Command.{ServerMessage}
use communication_protocols.Messages.Server.Handlers.{
  Connection, Input, Sent, welcome, accept_client, cut_last, obey, command, read_line, published,
  spread, publish, serve, initial,
}
use communication_protocols.Messages.Server.Clients.{find-insert, find-erase-some}
use communication_protocols.Messages.Server.Connects.{
  IsFresh, returning, add_client-returning, add_client-made,
}
use communication_protocols.Messages.Server.Reachable.{Reachable, start, step}

-- No socket of a client is above `fdmax`, and neither is the socket for connections.
abbrev pub Bounded : ℕ → ServerState → Type 0
Bounded tcp_sock s =
    (tcp_sock ≤ s.fdmax) × ((k p : ℕ) → find k s.online_clients ≡ some p → k ≤ s.fdmax)

module _ (tcp_sock : ℕ) where
  welcome-Bounded :
      (s t : ServerState) (socket q p : ℕ)
      → find socket s.online_clients ≡ none
      → t.online_clients ≡ insert socket q s.online_clients
      → t.fdmax ≡ s.fdmax
      → Bounded tcp_sock s
      → Bounded tcp_sock (welcome t socket p).0
  unfolding welcome
  welcome-Bounded s t socket q p free online top (b, bs) = (
    ground (arith, top),
    (λ k r f.
        let e = ap (find k) online ∙ find-insert socket q s.online_clients k free in
        elim (Bool-cases (socket == k)) [
          | inl same ↦ ground arith
          | inr other ↦
              let f' : find k s.online_clients ≡ some r = sym (e ∙ rw other refl) ∙ f in
              let old = bs k r f' in ground (arith, top)
        ]),
  )

  added :
      (s t : ServerState) (id : Bytes) (socket : ℕ) (block : ℕ × Option Client)
      → add_client_to_clients s id socket block ≡ some t
      → (p : ℕ) × (t.online_clients ≡ insert socket p s.online_clients) × (t.fdmax ≡ s.fdmax)
  added s t id socket block h =
      let Added = λ (t : ServerState).
        (p : ℕ) × (t.online_clients ≡ insert socket p s.online_clients) × (t.fdmax ≡ s.fdmax) in
      elim (Option-cases (get_client s.heap s.all_clients id)) [
        | inl g ↦
            let (id', content, e, held, made) = add_client-made s t id socket block g h in
            subst Added made (block.0, refl, refl)
        | inr (p, g) ↦
            some-subst Added _ (returning s socket p) t (add_client-returning s id socket block p g)
              h (p, refl, refl)
      ]

  accept_client-Bounded :
      (s s' : ServerState) (c : Connection) (sent : List Sent)
      → IsFresh s c
      → Bounded tcp_sock s
      → accept_client s c ≡ some (s', sent)
      → Bounded tcp_sock s'
  unfolding accept_client
  accept_client-Bounded s s' c sent f b h =
      let (id, e, h) = bind-some (c_string c.buffer) _ (s', sent) h in
      elim (if-cases (check_unique_id s.heap s.online_clients id) _ _ (some (s', sent)) h) [
        | inl (unique, h) ↦
            let (t, made, h) =
              bind-some (add_client_to_clients s id c.newsockfd c.block) _ (s', sent) h in
            let (p, found, h) = bind-some (get_client t.heap t.all_clients id) _ (s', sent) h in
            let (q, online, top) = added s t id c.newsockfd c.block made in
            some-subst (λ r. Bounded tcp_sock r.0) _ (welcome t c.newsockfd p) (s', sent) refl h
              (welcome-Bounded s t c.newsockfd q p f.socket_free online top b)
        | inr (used, h) ↦ some-subst (λ r. Bounded tcp_sock r.0) _ (s, _) (s', sent) refl h b
      ]

  spread-Bounded :
      (s : ServerState) (publication : Option (Bytes × Bytes))
      → Bounded tcp_sock s
      → Bounded tcp_sock (spread s publication).0
  unfolding spread
  spread-Bounded s none b = b
  spread-Bounded s (some (topic, text)) b = b

  read_line-Bounded :
      (s s' : ServerState) (line : Bytes)
      → Bounded tcp_sock s
      → read_line s line ≡ some s'
      → Bounded tcp_sock s'
  unfolding read_line
  read_line-Bounded s s' line b h =
      let (text, e, h) = bind-some (c_string line) _ s' h in
      elim (if-cases (same_bytes text (codes "exit\n")) (record s { exit_loop = true }) s s'
        (some-injective _ _ h)) [
          | inl (e, same) ↦ subst (Bounded tcp_sock) same b
          | inr (e, same) ↦ subst (Bounded tcp_sock) same b
        ]

  obey-Bounded :
      (s s' : ServerState) (p : ℕ) → Bounded tcp_sock s → obey s p ≡ some s' → Bounded tcp_sock s'
  unfolding obey
  obey-Bounded s s' p b h = elim (if-cases (s.s_message.type == b's') _ _ (some s') h) [
    | inl (e, h) ↦ some-subst (Bounded tcp_sock) _ _ s' refl h b
    | inr (e, h) ↦
        let (name, cut, h) = bind-some (cut_last s.s_message.topic) _ s' h in
        some-subst (Bounded tcp_sock) _ _ s' refl h b
  ]

  command-Bounded :
      (s s' : ServerState) (i : ℕ) (received : Bytes)
      → Bounded tcp_sock s
      → command s i received ≡ some s'
      → Bounded tcp_sock s'
  unfolding command
  command-Bounded s s' i [] (b, bs) h =
      let (p, f, h) = bind-some (find i s.online_clients) _ s' h in
      some-subst (Bounded tcp_sock) _ _ s' refl h
        (b, (λ k q g. bs k q (find-erase-some i s.online_clients k q g).1))
  command-Bounded s s' i (c ∷ received) b h =
      let ((valid, m), d, h) =
        bind-some (decode_message s.s_message (copy_text 1552 (c ∷ received))) _ s' h in
      let t = record s { s_message = m } in
      elim (if-cases valid _ _ (some s') h) [
        | inl (e, h) ↦
            let (p, f, h) = bind-some (find i s.online_clients) _ s' h in obey-Bounded t s' p b h
        | inr (e, h) ↦ some-subst (Bounded tcp_sock) _ _ s' refl h b
      ]

module _ (doubles : Doubles) (tcp_sock udp_sock : ℕ) where
  serve-Bounded :
      (s s' : ServerState) (i : ℕ) (input : Input) (sent : List Sent)
      → IsFresh s input.connection
      → Bounded tcp_sock s
      → serve doubles tcp_sock udp_sock s i input ≡ some (s', sent)
      → Bounded tcp_sock s'
  unfolding serve publish
  serve-Bounded s s' i input sent f b h = elim (if-cases (i == tcp_sock) _ _ (some (s', sent)) h) [
    | inl (e, h) ↦ accept_client-Bounded tcp_sock s s' input.connection sent f b h
    | inr (e, h) ↦ elim (if-cases (i == udp_sock) _ _ (some (s', sent)) h) [
      | inl (e, h) ↦
          let (publication, made, h) =
            bind-some (published doubles input.datagram) _ (s', sent) h in
          some-subst (λ r. Bounded tcp_sock r.0) _ _ (s', sent) refl h
            (spread-Bounded tcp_sock s publication b)
      | inr (e, h) ↦ elim (if-cases (i == 0) _ _ (some (s', sent)) h) [
        | inl (e, h) ↦
            let (t, read, h) = bind-some (read_line s input.line) _ (s', sent) h in
            some-subst (λ r. Bounded tcp_sock r.0) _ _ (s', sent) refl h
              (read_line-Bounded tcp_sock s t input.line b read)
        | inr (e, h) ↦
            let (t, done, h) = bind-some (command s i input.received) _ (s', sent) h in
            some-subst (λ r. Bounded tcp_sock r.0) _ _ (s', sent) refl h
              (command-Bounded tcp_sock s t i input.received b done)
      ]
    ]
  ]

  initial-Bounded :
      (heap : Heap) (message : ServerMessage)
      → Bounded tcp_sock (initial tcp_sock udp_sock heap message)
  unfolding initial find
  initial-Bounded heap message = (omega arith, (λ k p f. absurd (ground arith)))

  pub reachable-Bounded :
      (s : ServerState) → Reachable doubles tcp_sock udp_sock s → Bounded tcp_sock s
  reachable-Bounded _ (start heap message) = initial-Bounded heap message
  reachable-Bounded s (step {s = t} i input sent r f h) =
      serve-Bounded t s i input sent f (reachable-Bounded t r) h
