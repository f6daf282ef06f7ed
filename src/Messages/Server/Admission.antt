-- ===== src/Messages/Server/Admission.antt =====
-- The three outcomes of a connection in server.cpp.
use communication_protocols.Base.{
  ℕ, ◌<◌, ◌≡◌, refl, ◌∙◌, ◌≢◌, ◌⊎◌, inl, inr, true, false, none, some, [], ◌∷◌, Bytes, same_bytes,
  same_bytes_refl, same_bytes-eq, Bool-cases, Option-cases, fits-some, length, c_string, arith,
}
use communication_protocols.Messages.Server.{
  Client, write_client, ServerState, find, get_client, check_unique_id, add_client_to_clients,
}
use communication_protocols.Messages.Server.Handlers.{Connection, welcome, accept_client, refusal}
use communication_protocols.Messages.Server.Clients.{
  listed, get_client-some, get_client-none, get_client-same, check_unique_id-find,
  check_unique_id-used,
}
use communication_protocols.Messages.Server.Invariant.{
  IsServer, write_client_self, write_client-same,
}
use communication_protocols.Messages.Server.Moves.{connected}
use communication_protocols.Messages.Server.Connects.{
  returning, newcomer, add_client-returning, add_client-newcomer,
}

-- The id is in use by a client that is online.
pub record IsRefused (s : ServerState) (c : Connection) (id : Bytes) : Type 0 where
  pub socket : ℕ
  pub client : ℕ
  pub is_online : find socket s.online_clients ≡ some client
  pub same_id : (s.heap client).id ≡ id
  pub unchanged : accept_client s c ≡ some (s, (c.newsockfd, refusal c.buffer) ∷ [])

-- The id is that of a client that is offline.
pub record IsReturning (s : ServerState) (c : Connection) (id : Bytes) : Type 0 where
  pub client : ℕ
  pub is_listed : listed client s.all_clients ≡ true
  pub is_offline : (s.heap client).online ≡ false
  pub same_id : (s.heap client).id ≡ id
  pub result :
      accept_client s c ≡ some (welcome (returning s c.newsockfd client) c.newsockfd client)

-- No client has the id, and the block that malloc gives holds two lists.
pub record IsNewcomer (s : ServerState) (c : Connection) (id : Bytes) : Type 0 where
  pub content : Client
  pub holds : c.block.1 ≡ some content
  pub new_id : (p : ℕ) → listed p s.all_clients ≡ true → (s.heap p).id ≢ id
  pub result :
      accept_client s c
      ≡ some (welcome (newcomer s id c.newsockfd (c.block.0, content)) c.newsockfd c.block.0)

-- No client has the id, and in the block that malloc gives are no two lists.
pub record IsWild (s : ServerState) (c : Connection) (id : Bytes) : Type 0 where
  pub wild : c.block.1 ≡ none
  pub new_id : (p : ℕ) → listed p s.all_clients ≡ true → (s.heap p).id ≢ id
  pub result : accept_client s c ≡ none

accept_client_unique :
    (s t : ServerState) (c : Connection) (id : Bytes) (p : ℕ)
    → c_string c.buffer ≡ some id
    → check_unique_id s.heap s.online_clients id ≡ true
    → add_client_to_clients s id c.newsockfd c.block ≡ some t
    → get_client t.heap t.all_clients id ≡ some p
    → accept_client s c ≡ some (welcome t c.newsockfd p)
unfolding accept_client
accept_client_unique s t c id p e unique added found = rw e (rw unique (rw added (rw found refl)))

returns :
    (s : ServerState) (c : Connection) (id : Bytes) (p : ℕ)
    → IsServer s
    → c_string c.buffer ≡ some id
    → check_unique_id s.heap s.online_clients id ≡ true
    → get_client s.heap s.all_clients id ≡ some p
    → IsReturning s c id
returns s c id p v e unique g =
    let (l, same) = get_client-some s.heap s.all_clients id p g in
    let heap' = write_client p (connected (s.heap p)) s.heap in
    let ids = write_client-same (λ c. c.id) p (connected (s.heap p)) s.heap refl in
    record {
      client = p;
      is_listed = l;
      is_offline = elim (Bool-cases (s.heap p).online) [
        | inl on ↦
            let (k, f) = v.has_socket p l on in
            let other = check_unique_id-find s.heap s.online_clients id k p unique f in
            absurd (ground arith)
        | inr off ↦ off
      ];
      same_id = same_bytes-eq (s.heap p).id id same;
      result =
          accept_client_unique s (returning s c.newsockfd p) c id p e unique
            (add_client-returning s id c.newsockfd c.block p g)
            (get_client-same s.heap heap' s.all_clients id ids ∙ g);
    }

new_id :
    (s : ServerState) (id : Bytes)
    → get_client s.heap s.all_clients id ≡ none
    → (p : ℕ) → listed p s.all_clients ≡ true
    → (s.heap p).id ≢ id
new_id s id g p l same =
    let other = get_client-none s.heap s.all_clients id p g l in
    let equal : same_bytes (s.heap p).id id ≡ true = rw same (same_bytes_refl id) in
    absurd (ground arith)

joins :
    (s : ServerState) (c : Connection) (id : Bytes) (content : Client)
    → length id < 11
    → c_string c.buffer ≡ some id
    → check_unique_id s.heap s.online_clients id ≡ true
    → get_client s.heap s.all_clients id ≡ none
    → c.block.1 ≡ some content
    → IsNewcomer s c id
unfolding get_client
joins s c id content small e unique g held =
    let d = record content { id = id; online = true } in
    let t = newcomer s id c.newsockfd (c.block.0, content) in
    let made : add_client_to_clients s id c.newsockfd c.block ≡ some t =
      add_client-newcomer s id c.newsockfd c.block g ∙ rw (fits-some 11 id small) (rw held refl) in
    record {
      content = content;
      holds = held;
      new_id = new_id s id g;
      result =
          accept_client_unique s t c id c.block.0 e unique made
            (rw (write_client_self c.block.0 d s.heap) (rw (same_bytes_refl id) refl));
    }

faults :
    (s : ServerState) (c : Connection) (id : Bytes)
    → length id < 11
    → c_string c.buffer ≡ some id
    → check_unique_id s.heap s.online_clients id ≡ true
    → get_client s.heap s.all_clients id ≡ none
    → c.block.1 ≡ none
    → IsWild s c id
unfolding accept_client
faults s c id small e unique g wild =
    let made : add_client_to_clients s id c.newsockfd c.block ≡ none =
      add_client-newcomer s id c.newsockfd c.block g ∙ rw (fits-some 11 id small) (rw wild refl) in
    record { wild = wild; new_id = new_id s id g; result = rw e (rw unique (rw made refl)) }

-- The ways in which a connection goes, by the state and the packets of `welcome`.
pub accept_client_cases :
    (s : ServerState) (c : Connection) (id : Bytes)
    → IsServer s
    → length id < 11
    → c_string c.buffer ≡ some id
    → IsRefused s c id ⊎ (IsReturning s c id ⊎ (IsNewcomer s c id ⊎ IsWild s c id))
accept_client_cases s c id v small e =
    elim (Bool-cases (check_unique_id s.heap s.online_clients id)) [
      | inr used ↦
          let (k, p, f, same) = check_unique_id-used s.heap s.online_clients id v.ascending used in
          inl (record {
            socket = k;
            client = p;
            is_online = f;
            same_id = same_bytes-eq (s.heap p).id id same;
            unchanged = unfold accept_client in rw e (rw used refl);
          })
      | inl unique ↦ elim (Option-cases (get_client s.heap s.all_clients id)) [
        | inr (p, g) ↦ inr (inl (returns s c id p v e unique g))
        | inl g ↦ elim (Option-cases c.block.1) [
          | inl wild ↦ inr (inr (inr (faults s c id small e unique g wild)))
          | inr (content, held) ↦ inr (inr (inl (joins s c id content small e unique g held)))
        ]
      ]
    ]
