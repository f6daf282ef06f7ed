-- ===== src/Messages/Server/Stop.antt =====
-- How the loop of server.cpp ends.
use communication_protocols.Base.{
  ℕ, ◌≡◌, refl, sym, ap, true, false, Option, some, List, [], ◌∷◌, ◌++◌, codes, ◌==◌, same_bytes,
  c_string, ◌>>=◌, bind-some, some-subst, inl, inr, Bool-cases, append-nil, arith,
}
use mathlib.Core.Path.{subst}
use communication_protocols.Messages.Datagram.{Doubles}
use communication_protocols.Messages.Server.{ServerState}
use communication_protocols.Messages.Server.Handlers.{
  Input, Sent, read_line, serve, serve_ready, serve_loop,
}

abbrev Answer : Type 0
Answer = Option (ServerState × List Sent)

module _ (doubles : Doubles) (tcp_sock udp_sock : ℕ) where
  serve-exit :
      (s : ServerState) (input : Input)
      → (0 == tcp_sock) ≡ false
      → (0 == udp_sock) ≡ false
      → c_string input.line ≡ some (codes "exit\n")
      → serve doubles tcp_sock udp_sock s 0 input ≡ some (record s { exit_loop = true }, [])
  unfolding serve read_line same_bytes
  serve-exit s input t u e = rw (t, u) (rw e refl)

  serve_ready_next :
      (s : ServerState) (i : ℕ) (first : Input) (ready : List (ℕ × Input))
      (r q : ServerState × List Sent)
      → serve doubles tcp_sock udp_sock s i first ≡ some r
      → r.0.exit_loop ≡ false
      → serve_ready doubles tcp_sock udp_sock r.0 ready ≡ some q
      → serve_ready doubles tcp_sock udp_sock s ((i, first) ∷ ready) ≡ some (q.0, r.1 ++ q.1)
  unfolding serve_ready
  serve_ready_next s i first ready r q served go rest = rw served (
      subst
        (λ b.
          ◌≡◌ {A = Answer}
            (elim b as (λ k. Answer) [
              | true ↦ some r
              | false ↦ do
                (s, more) ← serve_ready doubles tcp_sock udp_sock r.0 ready
                some (s, r.1 ++ more)
            ])
            (some (q.0, r.1 ++ q.1)))
        (sym go) (rw rest refl))

  stays_stopped :
      (t : ServerState) (turns : List (List (ℕ × Input)))
      → serve_loop doubles tcp_sock udp_sock (record t { exit_loop = true }) turns
        ≡ some (record t { exit_loop = true }, [])
  unfolding serve_loop
  stays_stopped t [] = refl
  stays_stopped t (ready ∷ turns) = refl

  serve_ready_exit :
      (s t : ServerState) (before after : List (ℕ × Input)) (input : Input) (sent : List Sent)
      → (0 == tcp_sock) ≡ false
      → (0 == udp_sock) ≡ false
      → c_string input.line ≡ some (codes "exit\n")
      → serve_ready doubles tcp_sock udp_sock s before ≡ some (t, sent)
      → t.exit_loop ≡ false
      → serve_ready doubles tcp_sock udp_sock s (before ++ (0, input) ∷ after)
        ≡ some (record t { exit_loop = true }, sent)
  unfolding serve_ready
  serve_ready_exit s t [] after input sent tcp udp e h go =
      some-subst
        (λ r.
          serve_ready doubles tcp_sock udp_sock s ((0, input) ∷ after)
          ≡ some (record r.0 { exit_loop = true }, r.1))
        _ (s, []) (t, sent) refl h (rw (serve-exit s input tcp udp e) refl)
  serve_ready_exit s t ((i, first) ∷ before) after input sent tcp udp e h go =
      let (r, served, h) = bind-some (serve doubles tcp_sock udp_sock s i first) _ (t, sent) h in
      elim (Bool-cases r.0.exit_loop) [
        | inl b ↦
            let stopped = some-subst (λ q. q.0.exit_loop ≡ true) _ r (t, sent) refl (rw b at h) b in
            absurd (ground arith)
        | inr b ↦
            let (q, rest, h) =
              bind-some (serve_ready doubles tcp_sock udp_sock r.0 before) _ (t, sent)
                (rw b at h) in
            let on =
              some-subst (λ q. q.0.exit_loop ≡ false) _ (t, sent) (q.0, r.1 ++ q.1) refl (sym h)
                go in
            let stopped = serve_ready_exit r.0 q.0 before after input q.1 tcp udp e rest on in
            some-subst
              (λ q.
                serve_ready doubles tcp_sock udp_sock s ((i, first) ∷ before ++ (0, input) ∷ after)
                ≡ some (record q.0 { exit_loop = true }, q.1))
              _ (q.0, r.1 ++ q.1) (t, sent) refl h
              (serve_ready_next s i first _ r _ served b stopped)
      ]

  -- While the loop has not ended and the server's sockets are not the descriptor 0, if the descriptors
  -- in front of the standard input are served in a turn without a fault and without an end of the
  -- loop, and the standard input gives the line "exit", then the loop ends: whatever else is ready in
  -- this turn or would be in later ones is not served, and nothing else changes.
  pub serve_loop-exit :
      (s t : ServerState) (before after : List (ℕ × Input)) (turns : List (List (ℕ × Input)))
      (input : Input) (sent : List Sent)
      → (0 == tcp_sock) ≡ false
      → (0 == udp_sock) ≡ false
      → c_string input.line ≡ some (codes "exit\n")
      → serve_ready doubles tcp_sock udp_sock s before ≡ some (t, sent)
      → s.exit_loop ≡ false
      → t.exit_loop ≡ false
      → serve_loop doubles tcp_sock udp_sock s ((before ++ (0, input) ∷ after) ∷ turns)
        ≡ some (record t { exit_loop = true }, sent)
  unfolding serve_loop
  serve_loop-exit s t before after turns input sent tcp udp e h go go' =
      let stopped = serve_ready_exit s t before after input sent tcp udp e h go' in
      let ready = before ++ (0, input) ∷ after in
      let u = record t { exit_loop = true } in
      subst
        (λ b.
          ◌≡◌ {A = Answer}
            (elim b as (λ k. Answer) [
              | true ↦ some (s, [])
              | false ↦ do
                (s, sent) ← serve_ready doubles tcp_sock udp_sock s ready
                (s, more) ← serve_loop doubles tcp_sock udp_sock s turns
                some (s, sent ++ more)
            ])
            (some (u, sent)))
        (sym go) (rw stopped (rw (stays_stopped t turns) (ap (λ l. some (u, l)) (append-nil sent))))
