-- ===== src/Messages/Server/Invariant.antt =====
-- What server.cpp keeps true of its lists of clients.
use communication_protocols.Base.{
  ℕ, ◌≡◌, refl, sym, ap, ◌∙◌, inl, inr, true, false, some, List, ◌==◌, same_bytes, Bool-cases,
  arith,
}
use communication_protocols.Messages.Topics.Lookup.{IsMap}
use communication_protocols.Messages.Server.{Client, Heap, write_client, ServerState, find}
use communication_protocols.Messages.Server.Clients.{listed, Distinct, Ascending}

-- The sockets increase, and no pointer is twice in the list of all clients. A socket stands for a
-- client of that list that is online, each of these has exactly one socket, no two clients have the
-- same id, and no client has the same topic twice.
pub record Valid (heap : Heap) (clients : List ℕ) (online : List (ℕ × ℕ)) : Type 0 where
  pub ascending : Ascending online
  pub distinct : Distinct clients
  pub known : (k p : ℕ) → find k online ≡ some p → listed p clients ≡ true
  pub marked : (k p : ℕ) → find k online ≡ some p → (heap p).online ≡ true
  pub has_socket :
      (p : ℕ)
      → listed p clients ≡ true
      → (heap p).online ≡ true
      → (k : ℕ) × (find k online ≡ some p)
  pub one_socket : (j k p : ℕ) → find j online ≡ some p → find k online ≡ some p → j ≡ k
  pub one_id :
      (p q : ℕ)
      → listed p clients ≡ true
      → listed q clients ≡ true
      → same_bytes (heap p).id (heap q).id ≡ true
      → p ≡ q
  pub maps : (p : ℕ) → listed p clients ≡ true → IsMap (heap p).topics

abbrev pub IsServer : ServerState → Type 0
IsServer s = Valid s.heap s.all_clients s.online_clients

-- A client at p in place of another.
pub write_client_self : (p : ℕ) (c : Client) (heap : Heap) → write_client p c heap p ≡ c
write_client_self p c heap = ground arith

pub write_client-other :
    (p : ℕ) (c : Client) (heap : Heap) (q : ℕ) → (p == q) ≡ false → write_client p c heap q ≡ heap q
write_client-other p c heap q h = rw h refl

-- Whatever a function gives for a client, if the new one gives it too.
pub write_client-same {ℓ} :
    {A : Type ℓ} (f : Client → A) (p : ℕ) (c : Client) (heap : Heap)
    → f c ≡ f (heap p)
    → (q : ℕ) → f (write_client p c heap q) ≡ f (heap q)
write_client-same f p c heap h q = elim (Bool-cases (p == q)) [
  | inl e ↦ let same : p ≡ q = ground arith in rw e (h ∙ ap (λ i. f (heap i)) same)
  | inr e ↦ rw e refl
]

-- A heap that keeps the ids and who is online.
pub Valid-same :
    {heap : Heap} {clients : List ℕ} {online : List (ℕ × ℕ)} (heap' : Heap)
    → ((q : ℕ) → (heap' q).id ≡ (heap q).id)
    → ((q : ℕ) → (heap' q).online ≡ (heap q).online)
    → ((p : ℕ) → listed p clients ≡ true → IsMap (heap' p).topics)
    → Valid heap clients online
    → Valid heap' clients online
Valid-same heap' ids marks tops v = record {
  ascending = v.ascending;
  distinct = v.distinct;
  known = v.known;
  marked = (λ k p f. marks p ∙ v.marked k p f);
  has_socket = (λ p l o. v.has_socket p l (sym (marks p) ∙ o));
  one_socket = v.one_socket;
  one_id = (λ p q l l' e. v.one_id p q l l' (rw (sym (ids p), sym (ids q)) e));
  maps = tops;
}
