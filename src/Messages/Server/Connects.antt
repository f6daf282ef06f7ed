-- ===== src/Messages/Server/Connects.antt =====
-- A connection of server.cpp keeps what `Valid` says.
use communication_protocols.Base.{
  Option, ℕ, ◌≡◌, refl, sym, ap, ◌∙◌, ◌≢◌, inl, inr, true, false, none, some, List, [], ◌∷◌, Bytes,
  ◌==◌, same_bytes, Bool-cases, if-cases, Option-cases, bind-some, some-subst, ◌>>=◌, fits,
  c_string, arith,
}
use mathlib.Core.Path.{subst}
use communication_protocols.Messages.Topics.Lookup.{IsMap}
use communication_protocols.Messages.Server.{
  Client, Heap, write_client, ServerState, find, insert, get_client, check_unique_id,
  add_client_to_clients,
}
use communication_protocols.Messages.Server.Handlers.{Connection, Sent, welcome, accept_client}
use communication_protocols.Messages.Server.Clients.{
  listed, get_client-some, get_client-none, check_unique_id-find,
}
use communication_protocols.Messages.Server.Invariant.{
  Valid, IsServer, write_client_self, write_client-same, Valid-same,
}
use communication_protocols.Messages.Server.Moves.{connected, Valid-insert, Valid-new}

-- What `accept` and `malloc` promise: a socket that is not in use and a block that is not either. What
-- `malloc` does not promise, though server.cpp relies on it: the block has no topics and no messages in
-- it, as both are read without being set.
pub record IsFresh (s : ServerState) (c : Connection) : Type 0 where
  pub socket_free : find c.newsockfd s.online_clients ≡ none
  pub block_free : listed c.block.0 s.all_clients ≡ false
  pub content : Client
  pub holds : c.block.1 ≡ some content
  pub no_topics : content.topics ≡ []
  pub no_messages : content.pending_messages ≡ []

write_client-twice :
    (p : ℕ) (d c : Client) (heap : Heap) (q : ℕ)
    → write_client p d (write_client p c heap) q ≡ write_client p d heap q
write_client-twice p d c heap q = elim (Bool-cases (p == q)) [
  | inl e ↦ rw e refl
  | inr e ↦ rw e refl
]

-- No socket stands for a client with an id that is not in use.
absent :
    (s : ServerState) (id : Bytes) (p : ℕ)
    → check_unique_id s.heap s.online_clients id ≡ true
    → same_bytes (s.heap p).id id ≡ true
    → (k : ℕ) → find k s.online_clients ≢ some p
absent s id p unique same k f =
    let other = check_unique_id-find s.heap s.online_clients id k p unique f in
    absurd (ground arith)

-- The two ways in which a client comes online.
pub returning-Valid :
    (s : ServerState) (id : Bytes) (socket p : ℕ)
    → IsServer s
    → find socket s.online_clients ≡ none
    → check_unique_id s.heap s.online_clients id ≡ true
    → get_client s.heap s.all_clients id ≡ some p
    → Valid
        (write_client p (connected (s.heap p)) s.heap)
        s.all_clients
        (insert socket p s.online_clients)
returning-Valid s id socket p v free unique g =
    let (l, same) = get_client-some s.heap s.all_clients id p g in
    Valid-insert socket p free (absent s id p unique same) l v

pub newcomer-Valid :
    (s : ServerState) (id : Bytes) (socket fresh : ℕ) (content : Client)
    → IsServer s
    → find socket s.online_clients ≡ none
    → listed fresh s.all_clients ≡ false
    → content.topics ≡ []
    → get_client s.heap s.all_clients id ≡ none
    → Valid
        (write_client fresh (record content { id = id; online = true }) s.heap)
        (fresh ∷ s.all_clients)
        (insert socket fresh s.online_clients)
unfolding listed IsMap
newcomer-Valid s id socket fresh content v free new empty g =
    let c = record content { id = id; online = false } in
    let heap = write_client fresh c s.heap in
    let added =
      Valid-new fresh c new (λ q l. get_client-none s.heap s.all_clients id q g l) refl
        (subst IsMap (sym empty) tt) v in
    let there : listed fresh (fresh ∷ s.all_clients) ≡ true = ground arith in
    let missing : (k : ℕ) → find k s.online_clients ≢ some fresh =
      λ k f. let l = v.known k fresh f in absurd (ground arith) in
    let inserted = Valid-insert socket fresh free missing there added in
    let d = record content { id = id; online = true } in
    let same : (q : ℕ)
        → write_client fresh (connected (heap fresh)) heap q ≡ write_client fresh d s.heap q =
      λ q.
        ap (λ c. write_client fresh (connected c) heap q) (write_client_self fresh c s.heap)
        ∙ write_client-twice fresh d c s.heap q in
    Valid-same (write_client fresh d s.heap) (λ q. ap (λ c. c.id) (sym (same q)))
      (λ q. ap (λ c. c.online) (sym (same q)))
      (λ q l. subst (λ c. IsMap c.topics) (same q) (inserted.maps q l)) inserted

-- What `add_client_to_clients` makes in each way.
abbrev pub returning : ServerState → ℕ → ℕ → ServerState
returning s socket p = record s {
  heap = write_client p (connected (s.heap p)) s.heap;
  online_clients = insert socket p s.online_clients;
}

abbrev pub newcomer : ServerState → Bytes → ℕ → ℕ × Client → ServerState
newcomer s id socket (fresh, content) = record s {
  heap = write_client fresh (record content { id = id; online = true }) s.heap;
  all_clients = fresh ∷ s.all_clients;
  online_clients = insert socket fresh s.online_clients;
}

pub add_client-returning :
    (s : ServerState) (id : Bytes) (socket : ℕ) (block : ℕ × Option Client) (p : ℕ)
    → get_client s.heap s.all_clients id ≡ some p
    → add_client_to_clients s id socket block ≡ some (returning s socket p)
unfolding add_client_to_clients
add_client-returning s id socket block p g = rw (g, add_client_to_clients) refl

pub add_client-newcomer :
    (s : ServerState) (id : Bytes) (socket : ℕ) (block : ℕ × Option Client)
    → get_client s.heap s.all_clients id ≡ none
    → add_client_to_clients s id socket block
      ≡ (do id ← fits 11 id; content ← block.1; some (newcomer s id socket (block.0, content)))
unfolding add_client_to_clients
add_client-newcomer s id socket block g = rw (g, add_client_to_clients) refl

-- Where a new client is added, the id fits and the block holds lists.
pub add_client-made :
    (s t : ServerState) (id : Bytes) (socket : ℕ) (block : ℕ × Option Client)
    → get_client s.heap s.all_clients id ≡ none
    → add_client_to_clients s id socket block ≡ some t
    → (id' : Bytes) × (content : Client) × (fits 11 id ≡ some id')
      × (block.1 ≡ some content)
      × (newcomer s id' socket (block.0, content) ≡ t)
add_client-made s t id socket block g h =
    let (id', e, h) =
      bind-some (fits 11 id)
        (λ id. do content ← block.1; some (newcomer s id socket (block.0, content))) t
        (sym (add_client-newcomer s id socket block g) ∙ h) in
    let (content, e', made) =
      bind-some block.1 (λ content. some (newcomer s id' socket (block.0, content))) t h in
    (id', content, e, e', ground (arith, made))

pub fits-same : (n : ℕ) (text text' : Bytes) → fits n text ≡ some text' → text ≡ text'
unfolding fits
fits-same n text text' h = ground arith

add_client_to_clients-Valid :
    (s s' : ServerState) (id : Bytes) (c : Connection)
    → IsServer s
    → IsFresh s c
    → check_unique_id s.heap s.online_clients id ≡ true
    → add_client_to_clients s id c.newsockfd c.block ≡ some s'
    → IsServer s'
add_client_to_clients-Valid s s' id c v f unique h =
    let o = add_client_to_clients s id c.newsockfd c.block in
    elim (Option-cases (get_client s.heap s.all_clients id)) [
      | inl g ↦
          let (id', content, e, held, made) = add_client-made s s' id c.newsockfd c.block g h in
          let same : f.content ≡ content = ground (arith, f.holds) in
          subst IsServer made (
            subst (λ i. IsServer (newcomer s i c.newsockfd (c.block.0, content)))
              (fits-same 11 id id' e)
              (newcomer-Valid s id c.newsockfd c.block.0 content v f.socket_free f.block_free
                (subst (λ k. k.topics ≡ []) same f.no_topics) g))
      | inr (p, g) ↦
          some-subst IsServer o (returning s c.newsockfd p) s'
            (add_client-returning s id c.newsockfd c.block p g) h
            (returning-Valid s id c.newsockfd p v f.socket_free unique g)
    ]

welcome-Valid : (s : ServerState) (socket p : ℕ) → IsServer s → IsServer (welcome s socket p).0
unfolding welcome
welcome-Valid s socket p v =
    let c = record (s.heap p) { pending_messages = [] } in
    Valid-same (write_client p c s.heap) (write_client-same (λ c. c.id) p c s.heap refl)
      (write_client-same (λ c. c.online) p c s.heap refl)
      (λ q l. rw (write_client-same (λ c. c.topics) p c s.heap refl q) (v.maps q l)) v

pub accept_client-Valid :
    (s s' : ServerState) (c : Connection) (sent : List Sent)
    → IsServer s
    → IsFresh s c
    → accept_client s c ≡ some (s', sent)
    → IsServer s'
unfolding accept_client
accept_client-Valid s s' c sent v f h =
    let (id, e, h) = bind-some (c_string c.buffer) _ (s', sent) h in
    elim (if-cases (check_unique_id s.heap s.online_clients id) _ _ (some (s', sent)) h) [
      | inl (unique, h) ↦
          let (t, added, h) =
            bind-some (add_client_to_clients s id c.newsockfd c.block) _ (s', sent) h in
          let (p, found, h) = bind-some (get_client t.heap t.all_clients id) _ (s', sent) h in
          some-subst (λ r. IsServer r.0) (some (welcome t c.newsockfd p)) _ (s', sent) refl h
            (welcome-Valid t c.newsockfd p (add_client_to_clients-Valid s t id c v f unique added))
      | inr (used, h) ↦ some-subst (λ r. IsServer r.0) _ _ (s', sent) refl h v
    ]
