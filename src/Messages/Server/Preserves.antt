-- ===== src/Messages/Server/Preserves.antt =====
-- The other handlers of server.cpp keep what `Valid` says.
use communication_protocols.Base.{
  ℕ, ◌≡◌, refl, ◌∙◌, inl, inr, Bool, true, false, not, Option, none, some, List, [], ◌∷◌, Bytes,
  ◌==◌, if◌then◌else◌, same_bytes, Bool-cases, if-cases, bind-some, some-subst, c_string, codes,
  arith,
}
use mathlib.Core.Path.{subst}
use mathlib.Core.Option.{some-injective}
use communication_protocols.Messages.Topics.{Topic, check_sf_active}
use communication_protocols.Messages.Topics.Lookup.{IsMap, add_topic-IsMap, remove_topic-IsMap}
use communication_protocols.Messages.Command.{decode_message}
use communication_protocols.Messages.Datagram.{Doubles, copy_text}
use communication_protocols.Messages.Server.{Client, Heap, write_client, ServerState, find}
use communication_protocols.Messages.Server.Handlers.{
  Datagram, Sent, keep_at, keep_offline, cut_last, obey, command, read_line, published, spread,
  publish,
}
use communication_protocols.Messages.Server.Clients.{listed}
use communication_protocols.Messages.Server.Invariant.{
  Valid, IsServer, write_client-same, Valid-same,
}
use communication_protocols.Messages.Server.Moves.{Valid-erase}

-- What the loop over all clients leaves as it is.
choice-same {ℓ} :
    {A : Type ℓ} (f : Client → A) (online forward : Bool) (heap heap' : Heap) (q : ℕ)
    → f (heap' q) ≡ f (heap q)
    → f ((if not online then (if forward then heap' else heap) else heap) q) ≡ f (heap q)
choice-same f true forward heap heap' q h = refl
choice-same f false true heap heap' q h = h
choice-same f false false heap heap' q h = refl

keep_at-same {ℓ} :
    {A : Type ℓ} (f : Client → A)
    → ((c : Client) (pending : List Bytes) → f (record c { pending_messages = pending }) ≡ f c)
    → (topic text : Bytes) (p : ℕ) (heap : Heap) (q : ℕ)
    → f (keep_at topic text p heap q) ≡ f (heap q)
unfolding keep_at
keep_at-same f same topic text p heap q =
    let c = record (heap p) { pending_messages = text ∷ (heap p).pending_messages } in
    choice-same f (heap p).online (check_sf_active (heap p).topics topic) heap
      (write_client p c heap) q (write_client-same f p c heap (same (heap p) _) q)

pub keep_offline-same {ℓ} :
    {A : Type ℓ} (f : Client → A)
    → ((c : Client) (pending : List Bytes) → f (record c { pending_messages = pending }) ≡ f c)
    → (topic text : Bytes) (clients : List ℕ) (heap : Heap) (q : ℕ)
    → f (keep_offline topic text clients heap q) ≡ f (heap q)
unfolding keep_offline
keep_offline-same f same topic text [] heap q = refl
keep_offline-same f same topic text (p ∷ clients) heap q =
    keep_offline-same f same topic text clients (keep_at topic text p heap) q
    ∙ keep_at-same f same topic text p heap q

pub keep_offline-Valid :
    (s : ServerState) (topic text : Bytes)
    → IsServer s
    → Valid (keep_offline topic text s.all_clients s.heap) s.all_clients s.online_clients
keep_offline-Valid s topic text v =
    let same =
      keep_offline-same (λ c. c.topics) (λ c pending. refl) topic text s.all_clients s.heap in
    Valid-same (keep_offline topic text s.all_clients s.heap)
      (keep_offline-same (λ c. c.id) (λ c pending. refl) topic text s.all_clients s.heap)
      (keep_offline-same (λ c. c.online) (λ c pending. refl) topic text s.all_clients s.heap)
      (λ q l. rw (same q) (v.maps q l)) v

write_topics-Valid :
    (s : ServerState) (p : ℕ) (topics : List Topic)
    → (listed p s.all_clients ≡ true → IsMap topics)
    → IsServer s
    → Valid
        (write_client p (record (s.heap p) { topics = topics }) s.heap)
        s.all_clients
        s.online_clients
write_topics-Valid s p topics m v =
    let c = record (s.heap p) { topics = topics } in
    Valid-same (write_client p c s.heap) (write_client-same (λ c. c.id) p c s.heap refl)
      (write_client-same (λ c. c.online) p c s.heap refl)
      (λ q l. elim (Bool-cases (p == q)) [
        | inl e ↦ let same : p ≡ q = ground arith in rw e (m (rw same l))
        | inr e ↦ rw e (v.maps q l)
      ])
      v

obey-Valid :
    (s s' : ServerState) (p : ℕ)
    → listed p s.all_clients ≡ true
    → IsServer s
    → obey s p ≡ some s'
    → IsServer s'
unfolding obey
obey-Valid s s' p l v h = elim (if-cases (s.s_message.type == b's') _ _ (some s') h) [
  | inl (b, h) ↦ some-subst IsServer _ _ s' refl h (
      write_topics-Valid s p _
        (λ l. add_topic-IsMap s.s_message.topic s.s_message.sf _ (v.maps p l)) v)
  | inr (b, h) ↦
      let (name, cut, h) = bind-some (cut_last s.s_message.topic) _ s' h in
      some-subst IsServer _ _ s' refl h
        (write_topics-Valid s p _ (λ l. remove_topic-IsMap name _ (v.maps p l)) v)
]

pub command-Valid :
    (s s' : ServerState) (i : ℕ) (received : Bytes)
    → IsServer s
    → command s i received ≡ some s'
    → IsServer s'
unfolding command
command-Valid s s' i [] v h =
    let (p, f, h) = bind-some (find i s.online_clients) _ s' h in
    some-subst IsServer _ _ s' refl h (Valid-erase i p f v)
command-Valid s s' i (c ∷ received) v h =
    let ((valid, m), d, h) =
      bind-some (decode_message s.s_message (copy_text 1552 (c ∷ received))) _ s' h in
    let t = record s { s_message = m } in
    elim (if-cases valid _ _ (some s') h) [
      | inl (b, h) ↦
          let (p, f, h) = bind-some (find i s.online_clients) _ s' h in
          obey-Valid t s' p (v.known i p f) v h
      | inr (b, h) ↦ some-subst IsServer _ _ s' refl h v
    ]

pub read_line-Valid :
    (s s' : ServerState) (line : Bytes) → IsServer s → read_line s line ≡ some s' → IsServer s'
unfolding read_line
read_line-Valid s s' line v h =
    let (text, e, h) = bind-some (c_string line) _ s' h in
    elim (if-cases (same_bytes text (codes "exit\n")) (record s { exit_loop = true }) s s'
      (some-injective _ _ h)) [
        | inl (b, same) ↦ subst IsServer same v
        | inr (b, same) ↦ subst IsServer same v
      ]

spread-Valid :
    (s : ServerState) (publication : Option (Bytes × Bytes))
    → IsServer s
    → IsServer (spread s publication).0
unfolding spread
spread-Valid s none v = v
spread-Valid s (some (topic, text)) v = keep_offline-Valid s topic text v

pub publish-Valid :
    (doubles : Doubles) (s s' : ServerState) (d : Datagram) (sent : List Sent)
    → IsServer s
    → publish doubles s d ≡ some (s', sent)
    → IsServer s'
unfolding publish
publish-Valid doubles s s' d sent v h =
    let (publication, e, h) = bind-some (published doubles d) _ (s', sent) h in
    some-subst (λ r. IsServer r.0) _ _ (s', sent) refl h (spread-Valid s publication v)
