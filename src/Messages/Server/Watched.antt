-- ===== src/Messages/Server/Watched.antt =====
-- The descriptors that server.cpp waits for.
use communication_protocols.Base.{
  ℕ, ◌≡◌, refl, sym, ap, ◌∙◌, inl, inr, Bool, true, false, ◌||◌, Option, none, some, List, [], ◌∷◌,
  Bytes, ◌==◌, if◌then◌else◌, if-cases, Bool-cases, Option-cases, bind-some, some-subst, c_string,
  codes, same_bytes, arith,
}
use mathlib.Core.Path.{subst}
use mathlib.Core.Option.{some-injective}
use communication_protocols.Messages.Command.{decode_message}
use communication_protocols.Messages.Datagram.{Doubles, copy_text}
use communication_protocols.Messages.Server.{
  Client, ServerState, find, insert, erase, get_client, check_unique_id, add_client_to_clients,
}
use communication_protocols.Messages.Server.Handlers.{
  Connection, Datagram, Sent, welcome, accept_client, cut_last, obey, command, read_line, published,
  spread, publish,
}
use communication_protocols.Messages.Server.Clients.{find-insert, find-erase}
use communication_protocols.Messages.Server.Connects.{
  IsFresh, returning, add_client-returning, add_client-made,
}

unfoldable pub is_some : Option ℕ → Bool
is_some none = false
is_some (some p) = true

abbrev pub is_own : ℕ → ℕ → ℕ → Bool
is_own tcp_sock udp_sock i = (i == tcp_sock) || (i == udp_sock) || (i == 0)

-- What is watched are the server's own descriptors and the sockets of the clients online.
abbrev pub IsWatched : ℕ → ℕ → ServerState → Type 0
IsWatched tcp_sock udp_sock s =
    (i : ℕ) → s.active_fds i ≡ is_own tcp_sock udp_sock i || is_some (find i s.online_clients)

module _ (tcp_sock udp_sock : ℕ) where
  -- The descriptors and the sockets stay as they are.
  abbrev SameSockets : ServerState → ServerState → Type 0
  SameSockets s s' = (s'.active_fds ≡ s.active_fds) × (s'.online_clients ≡ s.online_clients)

  same-IsWatched :
      (s s' : ServerState)
      → SameSockets s s'
      → IsWatched tcp_sock udp_sock s
      → IsWatched tcp_sock udp_sock s'
  same-IsWatched s s' (a, o) w i =
      ap (λ f. f i) a ∙ w i ∙ ap (λ l. is_own tcp_sock udp_sock i || is_some (find i l)) (sym o)

  added :
      (s t : ServerState) (id : Bytes) (socket : ℕ) (block : ℕ × Option Client)
      → add_client_to_clients s id socket block ≡ some t
      → (p : ℕ) × (t.online_clients ≡ insert socket p s.online_clients)
        × (t.active_fds ≡ s.active_fds)
  added s t id socket block h =
      let Added = λ (t : ServerState).
        (p : ℕ) × (t.online_clients ≡ insert socket p s.online_clients)
        × (t.active_fds ≡ s.active_fds) in
      elim (Option-cases (get_client s.heap s.all_clients id)) [
        | inl g ↦
            let (id', content, e, held, made) = add_client-made s t id socket block g h in
            subst Added made (block.0, refl, refl)
        | inr (p, g) ↦
            some-subst Added _ (returning s socket p) t (add_client-returning s id socket block p g)
              h (p, refl, refl)
      ]

  or_true : (b : Bool) → true ≡ b || true
  or_true true = refl
  or_true false = refl

  -- The new socket is watched, and is that of a client.
  welcome-IsWatched :
      (s t : ServerState) (socket q p : ℕ)
      → find socket s.online_clients ≡ none
      → t.online_clients ≡ insert socket q s.online_clients
      → t.active_fds ≡ s.active_fds
      → IsWatched tcp_sock udp_sock s
      → IsWatched tcp_sock udp_sock (welcome t socket p).0
  unfolding welcome is_some
  welcome-IsWatched s t socket q p free online active w i =
      let own = is_own tcp_sock udp_sock i in
      let e : find i t.online_clients ≡ (if socket == i then some q else find i s.online_clients) =
        ap (find i) online ∙ find-insert socket q s.online_clients i free in
      let a : t.active_fds i ≡ own || is_some (find i s.online_clients) =
        ap (λ f. f i) active ∙ w i in
      rw (e, a)
        (elim (Bool-cases (i == socket)) [
          | inl b ↦ let b' : (socket == i) ≡ true = ground arith in rw (b, b') (or_true own)
          | inr b ↦ let b' : (socket == i) ≡ false = ground arith in rw (b, b') refl
        ])

  pub accept_client-IsWatched :
      (s s' : ServerState) (c : Connection) (sent : List Sent)
      → IsFresh s c
      → IsWatched tcp_sock udp_sock s
      → accept_client s c ≡ some (s', sent)
      → IsWatched tcp_sock udp_sock s'
  unfolding accept_client welcome
  accept_client-IsWatched s s' c sent f w h =
      let (id, e, h) = bind-some (c_string c.buffer) _ (s', sent) h in
      elim (if-cases (check_unique_id s.heap s.online_clients id) _ _ (some (s', sent)) h) [
        | inl (unique, h) ↦
            let (t, made, h) =
              bind-some (add_client_to_clients s id c.newsockfd c.block) _ (s', sent) h in
            let (p, found, h) = bind-some (get_client t.heap t.all_clients id) _ (s', sent) h in
            let (q, online, active) = added s t id c.newsockfd c.block made in
            some-subst (λ r. IsWatched tcp_sock udp_sock r.0) _ (welcome t c.newsockfd p) (s', sent)
              refl h (welcome-IsWatched s t c.newsockfd q p f.socket_free online active w)
        | inr (used, h) ↦
            some-subst (λ r. IsWatched tcp_sock udp_sock r.0) _ (s, _) (s', sent) refl h w
      ]

  spread_same :
      (s : ServerState) (publication : Option (Bytes × Bytes))
      → SameSockets s (spread s publication).0
  unfolding spread
  spread_same s none = (refl, refl)
  spread_same s (some (topic, text)) = (refl, refl)

  pub publish-IsWatched :
      (doubles : Doubles) (s s' : ServerState) (d : Datagram) (sent : List Sent)
      → IsWatched tcp_sock udp_sock s
      → publish doubles s d ≡ some (s', sent)
      → IsWatched tcp_sock udp_sock s'
  unfolding publish
  publish-IsWatched doubles s s' d sent w h =
      let (publication, e, h) = bind-some (published doubles d) _ (s', sent) h in
      some-subst (λ r. IsWatched tcp_sock udp_sock r.0) _ _ (s', sent) refl h
        (same-IsWatched s (spread s publication).0 (spread_same s publication) w)

  pub read_line-IsWatched :
      (s s' : ServerState) (line : Bytes)
      → IsWatched tcp_sock udp_sock s
      → read_line s line ≡ some s'
      → IsWatched tcp_sock udp_sock s'
  unfolding read_line
  read_line-IsWatched s s' line w h =
      let (text, e, h) = bind-some (c_string line) _ s' h in
      elim (if-cases (same_bytes text (codes "exit\n")) (record s { exit_loop = true }) s s'
        (some-injective _ _ h)) [
          | inl (b, same) ↦ subst (IsWatched tcp_sock udp_sock) same w
          | inr (b, same) ↦ subst (IsWatched tcp_sock udp_sock) same w
        ]

  obey-IsWatched :
      (s s' : ServerState) (p : ℕ)
      → IsWatched tcp_sock udp_sock s
      → obey s p ≡ some s'
      → IsWatched tcp_sock udp_sock s'
  unfolding obey
  obey-IsWatched s s' p w h = elim (if-cases (s.s_message.type == b's') _ _ (some s') h) [
    | inl (b, h) ↦ some-subst (IsWatched tcp_sock udp_sock) _ _ s' refl h w
    | inr (b, h) ↦
        let (name, cut, h) = bind-some (cut_last s.s_message.topic) _ s' h in
        some-subst (IsWatched tcp_sock udp_sock) _ _ s' refl h w
  ]

  -- A closed socket is none of the server's own descriptors.
  closed-IsWatched :
      (s : ServerState) (i p : ℕ)
      → is_own tcp_sock udp_sock i ≡ false
      → IsWatched tcp_sock udp_sock s
      → (j : ℕ)
      → (if j == i then false else s.active_fds j)
        ≡ is_own tcp_sock udp_sock j || is_some (find j (erase i s.online_clients))
  unfolding is_some
  closed-IsWatched s i p other w j =
      rw (find-erase i s.online_clients j) (elim (Bool-cases (j == i)) [
        | inl b ↦
            let b' : (i == j) ≡ true = ground arith in
            let same : i ≡ j = ground arith in
            rw (b, b')
              (sym
                (ap (λ o. o || false) (subst (λ k. is_own tcp_sock udp_sock k ≡ false) same other)))
        | inr b ↦ let b' : (i == j) ≡ false = ground arith in rw (b, b') (w j)
      ])

  pub command-IsWatched :
      (s s' : ServerState) (i : ℕ) (received : Bytes)
      → is_own tcp_sock udp_sock i ≡ false
      → IsWatched tcp_sock udp_sock s
      → command s i received ≡ some s'
      → IsWatched tcp_sock udp_sock s'
  unfolding command
  command-IsWatched s s' i [] other w h =
      let (p, f, h) = bind-some (find i s.online_clients) _ s' h in
      some-subst (IsWatched tcp_sock udp_sock) _ _ s' refl h (closed-IsWatched s i p other w)
  command-IsWatched s s' i (c ∷ received) other w h =
      let ((valid, m), d, h) =
        bind-some (decode_message s.s_message (copy_text 1552 (c ∷ received))) _ s' h in
      let t = record s { s_message = m } in
      elim (if-cases valid _ _ (some s') h) [
        | inl (b, h) ↦
            let (p, f, h) = bind-some (find i s.online_clients) _ s' h in obey-IsWatched t s' p w h
        | inr (b, h) ↦ some-subst (IsWatched tcp_sock udp_sock) _ _ s' refl h w
      ]
