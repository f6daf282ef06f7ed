-- ===== src/Messages/Server/Waiting.antt =====
-- A client that is offline while server.cpp serves others.
use communication_protocols.Base.{
  ℕ, ◌<◌, ◌≡◌, refl, sym, ap, ◌∙◌, ◌≢◌, inl, inr, Bool, true, false, ◌&&◌, not, Option, none, some,
  List, [], ◌∷◌, Bytes, ◌==◌, if◌then◌else◌, if-cases, same_bytes, Bool-cases, bind-some,
  some-subst, length, c_string, codes, arith,
}
use mathlib.Core.Path.{subst}
use mathlib.Core.Option.{some-injective}
use mathlib.Core.List.{reverse_aux}
use communication_protocols.Messages.Topics.{Topic}
use communication_protocols.Messages.Topics.Lookup.{flag}
use communication_protocols.Messages.Topics.Refine.{is_forwarded}
use communication_protocols.Messages.Command.{decode_message}
use communication_protocols.Messages.Datagram.{Doubles, copy_text}
use communication_protocols.Messages.Server.{Client, write_client, ServerState, find}
use communication_protocols.Messages.Server.Handlers.{
  Connection, Datagram, Sent, welcome, accept_client, cut_last, obey, command, read_line, published,
  spread, publish,
}
use communication_protocols.Messages.Server.Clients.{listed}
use communication_protocols.Messages.Server.Invariant.{IsServer, write_client-other}
use communication_protocols.Messages.Server.Connects.{IsFresh, returning, newcomer}
use communication_protocols.Messages.Server.Delivery.{kept, keep_offline-kept}
use communication_protocols.Messages.Server.Admission.{accept_client_cases}

-- The texts put before the pending messages one after the other.
abbrev pub add_pending : List Bytes → Client → Client
add_pending texts c = record c { pending_messages = reverse_aux texts c.pending_messages }

-- The client p is still there, and has only got these texts.
pub record Waits (p : ℕ) (s s' : ServerState) (texts : List Bytes) : Type 0 where
  pub is_listed : listed p s'.all_clients ≡ true
  pub client : s'.heap p ≡ add_pending texts (s.heap p)

-- The text that a publication has for a client with these topics.
unfoldable pub text_for : List Topic → Option (Option (Bytes × Bytes)) → List Bytes
text_for topics none = []
text_for topics (some none) = []
text_for topics (some (some (topic, text))) =
    if is_forwarded (flag topics topic) then text ∷ [] else []

-- A write at another client.
write-Waits :
    (p q : ℕ) (c : Client) (s s' : ServerState)
    → (q == p) ≡ false
    → listed p s'.all_clients ≡ true
    → s'.heap ≡ write_client q c s.heap
    → Waits p s s' []
write-Waits p q c s s' other l e = record {
  is_listed = l;
  client = ap (λ h. h p) e ∙ write_client-other q c s.heap p other;
}

welcome-Waits :
    (s t : ServerState) (p socket q : ℕ)
    → (q == p) ≡ false
    → Waits p s t []
    → Waits p s (welcome t socket q).0 []
unfolding welcome
welcome-Waits s t p socket q other w = record {
  is_listed = w.is_listed;
  client =
      write_client-other q (record (t.heap q) { pending_messages = [] }) t.heap p other ∙ w.client;
}

-- A client that is online is another than one that is not.
online-other :
    (s : ServerState) (i p q : ℕ)
    → IsServer s
    → (s.heap p).online ≡ false
    → find i s.online_clients ≡ some q
    → (q == p) ≡ false
online-other s i p q v off f = elim (Bool-cases (q == p)) [
  | inl e ↦
      let same : q ≡ p = ground arith in
      let on = subst (λ r. (s.heap r).online ≡ true) same (v.marked i q f) in absurd (ground arith)
  | inr e ↦ e
]

choice-add :
    (forward : Bool) (text : Bytes) (c : Client)
    → (if forward then add_pending (text ∷ []) c else c)
      ≡ add_pending (if forward then text ∷ [] else []) c
choice-add true text c = refl
choice-add false text c = refl

kept_offline :
    (topic text : Bytes) (c : Client)
    → c.online ≡ false
    → kept topic text c
      ≡ add_pending (if is_forwarded (flag c.topics topic) then text ∷ [] else []) c
kept_offline topic text c off =
    let forward = is_forwarded (flag c.topics topic) in
    ap (λ b. if not b && forward then add_pending (text ∷ []) c else c) off
    ∙ choice-add forward text c

obey-Waits :
    (s s' : ServerState) (p q : ℕ)
    → listed p s.all_clients ≡ true
    → (q == p) ≡ false
    → obey s q ≡ some s'
    → Waits p s s' []
unfolding obey
obey-Waits s s' p q l other h = elim (if-cases (s.s_message.type == b's') _ _ (some s') h) [
  | inl (b, h) ↦ some-subst (λ t. Waits p s t []) _ _ s' refl h (write-Waits p q _ s _ other l refl)
  | inr (b, h) ↦
      let (name, cut, h) = bind-some (cut_last s.s_message.topic) _ s' h in
      some-subst (λ t. Waits p s t []) _ _ s' refl h (write-Waits p q _ s _ other l refl)
]

module _ (s s' : ServerState) (p : ℕ) (v : IsServer s) (l : listed p s.all_clients ≡ true)
    (off : (s.heap p).online ≡ false) where
  spread-Waits :
      (publication : Option (Bytes × Bytes))
      → Waits p s (spread s publication).0 (text_for (s.heap p).topics (some publication))
  unfolding spread text_for
  spread-Waits none = record { is_listed = l; client = refl }
  spread-Waits (some (topic, text)) = record {
    is_listed = l;
    client =
        keep_offline-kept topic text s.all_clients s.heap p v.distinct
        ∙ rw l (kept_offline topic text (s.heap p) off);
  }

  pub publish-Waits :
      (doubles : Doubles) (d : Datagram) (sent : List Sent)
      → publish doubles s d ≡ some (s', sent)
      → Waits p s s' (text_for (s.heap p).topics (published doubles d))
  unfolding publish
  publish-Waits doubles d sent h =
      let (publication, e, h) = bind-some (published doubles d) _ (s', sent) h in
      rw e (
        some-subst (λ t. Waits p s t.0 (text_for (s.heap p).topics (some publication))) _ _
          (s', sent) refl h (spread-Waits publication))

  pub command-Waits : (i : ℕ) (received : Bytes) → command s i received ≡ some s' → Waits p s s' []
  unfolding command
  command-Waits i [] h =
      let (q, f, h) = bind-some (find i s.online_clients) _ s' h in
      some-subst (λ t. Waits p s t []) _ _ s' refl h
        (write-Waits p q _ s _ (online-other s i p q v off f) l refl)
  command-Waits i (c ∷ received) h =
      let ((valid, m), d, h) =
        bind-some (decode_message s.s_message (copy_text 1552 (c ∷ received))) _ s' h in
      let t = record s { s_message = m } in
      elim (if-cases valid _ _ (some s') h) [
        | inl (b, h) ↦
            let (q, f, h) = bind-some (find i s.online_clients) _ s' h in
            let w = obey-Waits t s' p q l (online-other s i p q v off f) h in
            record { is_listed = w.is_listed; client = w.client }
        | inr (b, h) ↦
            some-subst (λ t. Waits p s t []) _ _ s' refl h (record { is_listed = l; client = refl })
      ]

  pub read_line-Waits : (line : Bytes) → read_line s line ≡ some s' → Waits p s s' []
  unfolding read_line
  read_line-Waits line h =
      let (text, e, h) = bind-some (c_string line) _ s' h in
      elim (if-cases (same_bytes text (codes "exit\n")) (record s { exit_loop = true }) s s'
        (some-injective _ _ h)) [
          | inl (b, same) ↦
              subst (λ t. Waits p s t []) same (record { is_listed = l; client = refl })
          | inr (b, same) ↦
              subst (λ t. Waits p s t []) same (record { is_listed = l; client = refl })
        ]

  different : (q : ℕ) → (s.heap q).id ≢ (s.heap p).id → (q == p) ≡ false
  different q h = elim (Bool-cases (q == p)) [
    | inl e ↦ let same : q ≡ p = ground arith in absurd (h (ap (λ r. (s.heap r).id) same))
    | inr e ↦ e
  ]

  unlisted : (q : ℕ) → listed q s.all_clients ≡ false → (q == p) ≡ false
  unlisted q h = elim (Bool-cases (q == p)) [
    | inl e ↦ let same : q ≡ p = ground arith in absurd (ground arith)
    | inr e ↦ e
  ]

  pub accept_client-Waits :
      (c : Connection) (sent : List Sent) (id : Bytes)
      → IsFresh s c
      → c_string c.buffer ≡ some id
      → length id < 11
      → id ≢ (s.heap p).id
      → accept_client s c ≡ some (s', sent)
      → Waits p s s' []
  unfolding welcome listed
  accept_client-Waits c sent id f e small differ h = elim (accept_client_cases s c id v small e) [
    | inl r ↦
        some-subst (λ t. Waits p s t.0 []) _ _ (s', sent) r.unchanged h
          (record { is_listed = l; client = refl })
    | inr (inl r) ↦
        some-subst (λ t. Waits p s t.0 []) _ _ (s', sent) r.result h
          (let other : (r.client == p) ≡ false =
              different r.client (λ same. differ (sym r.same_id ∙ same)) in
            welcome-Waits s (returning s c.newsockfd r.client) p c.newsockfd r.client other
              (write-Waits p r.client _ s _ other l refl))
    | inr (inr (inr r)) ↦ let held = f.holds in let wild = r.wild in absurd (ground arith)
    | inr (inr (inl r)) ↦
        some-subst (λ t. Waits p s t.0 []) _ _ (s', sent) r.result h
          (let other : (c.block.0 == p) ≡ false = unlisted c.block.0 f.block_free in
            welcome-Waits s (newcomer s id c.newsockfd (c.block.0, r.content)) p c.newsockfd
              c.block.0 other (write-Waits p c.block.0 _ s _ other (rw other l) refl))
  ]
