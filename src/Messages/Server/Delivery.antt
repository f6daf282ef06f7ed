-- ===== src/Messages/Server/Delivery.antt =====
-- Who gets a datagram in server.cpp, and when.
use communication_protocols.Base.{
  ℕ, ◌≡◌, refl, sym, ap, ◌∙◌, inl, inr, Bool, true, false, ◌&&◌, not, Option, none, some, List, [],
  ◌∷◌, Bytes, ◌==◌, if◌then◌else◌, Bool-cases, arith,
}
use communication_protocols.Messages.Topics.{check_subscription, check_sf_active}
use communication_protocols.Messages.Topics.Lookup.{flag}
use communication_protocols.Messages.Topics.Refine.{
  is_subscribed, is_forwarded, check_subscription-flag, check_sf_active-flag,
}
use communication_protocols.Messages.Datagram.{Doubles}
use communication_protocols.Messages.Server.{Client, Heap, write_client, ServerState, find}
use communication_protocols.Messages.Server.Handlers.{
  Datagram, Sent, keep_at, keep_offline, send_online, published, spread, publish,
}
use communication_protocols.Messages.Server.Clients.{listed, Distinct, Ascending, Above-find}
use communication_protocols.Messages.Server.Invariant.{
  IsServer, write_client_self, write_client-other,
}
use mathlib.Core.Path.{subst}

-- What is sent to a socket.
unfoldable pub sent_to : ℕ → List Sent → List Bytes
sent_to socket [] = []
sent_to socket ((k, text) ∷ sent) =
    if k == socket then text ∷ sent_to socket sent else sent_to socket sent

-- What the client of a socket should get, and what should wait for a client.
abbrev pub delivery : Heap → Bytes → Bytes → Option ℕ → List Bytes
delivery heap topic text none = []
delivery heap topic text (some p) =
    if is_subscribed (flag (heap p).topics topic) then text ∷ [] else []

abbrev pub kept : Bytes → Bytes → Client → Client
kept topic text c =
    if not c.online && is_forwarded (flag c.topics topic)
    then record c { pending_messages = text ∷ c.pending_messages }
    else c

send_online-sent_to :
    (heap : Heap) (topic text : Bytes) (online : List (ℕ × ℕ)) (socket : ℕ)
    → Ascending online
    → sent_to socket (send_online heap topic text online)
      ≡ delivery heap topic text (find socket online)
unfolding send_online sent_to find Ascending
send_online-sent_to heap topic text [] socket v = refl
send_online-sent_to heap topic text ((k, p) ∷ online) socket (a, v) =
    let rest = send_online-sent_to heap topic text online socket v in
    let same = check_subscription-flag (heap p).topics topic in
    elim (Bool-cases (k == socket)) [
      | inl e ↦
          let none_left : find socket online ≡ none =
            let here : k ≡ socket = ground arith in rw (sym here) (Above-find k online a) in
          let last : sent_to socket (send_online heap topic text online) ≡ [] =
            rest ∙ ap (delivery heap topic text) none_left in
          elim (Bool-cases (check_subscription (heap p).topics topic)) [
            | inl b ↦ rw (b, e, sym same ∙ b) (ap (λ l. text ∷ l) last)
            | inr b ↦ rw (b, e, sym same ∙ b) last
          ]
      | inr e ↦ rw e (elim (Bool-cases (check_subscription (heap p).topics topic)) [
        | inl b ↦ rw (b, e) rest
        | inr b ↦ rw b rest
      ])
    ]

choice-and :
    (online forward : Bool) (heap heap' : Heap) (q : ℕ)
    → (if not online then (if forward then heap' else heap) else heap) q
      ≡ (if not online && forward then heap' q else heap q)
choice-and true forward heap heap' q = refl
choice-and false true heap heap' q = refl
choice-and false false heap heap' q = refl

if_same : (b : Bool) (x y : Client) → x ≡ y → (if b then x else y) ≡ y
if_same true x y h = h
if_same false x y h = refl

keep_at_self :
    (topic text : Bytes) (p : ℕ) (heap : Heap)
    → keep_at topic text p heap p ≡ kept topic text (heap p)
unfolding keep_at
keep_at_self topic text p heap =
    let c = record (heap p) { pending_messages = text ∷ (heap p).pending_messages } in
    let forward = check_sf_active (heap p).topics topic in
    choice-and (heap p).online forward heap (write_client p c heap) p
    ∙ ap (λ d. if not (heap p).online && forward then d else heap p) (write_client_self p c heap)
    ∙ ap (λ b. if not (heap p).online && b then c else heap p)
        (check_sf_active-flag (heap p).topics topic)

keep_at-kept :
    (topic text : Bytes) (p : ℕ) (heap : Heap) (q : ℕ)
    → keep_at topic text p heap q ≡ (if p == q then kept topic text (heap q) else heap q)
unfolding keep_at
keep_at-kept topic text p heap q = elim (Bool-cases (p == q)) [
  | inl e ↦
      let same : p ≡ q = ground arith in
      rw e (
        subst (λ r. keep_at topic text p heap r ≡ kept topic text (heap r)) same
          (keep_at_self topic text p heap))
  | inr e ↦
      let c = record (heap p) { pending_messages = text ∷ (heap p).pending_messages } in
      let forward = check_sf_active (heap p).topics topic in
      choice-and (heap p).online forward heap (write_client p c heap) q
      ∙ if_same (not (heap p).online && forward) _ _ (write_client-other p c heap q e)
      ∙ rw e refl
]

-- Each client of the list is seen once.
pub keep_offline-kept :
    (topic text : Bytes) (clients : List ℕ) (heap : Heap) (q : ℕ)
    → Distinct clients
    → keep_offline topic text clients heap q
      ≡ (if listed q clients then kept topic text (heap q) else heap q)
unfolding keep_offline listed Distinct
keep_offline-kept topic text [] heap q d = refl
keep_offline-kept topic text (p ∷ clients) heap q (n, d) =
    let rest = keep_offline-kept topic text clients (keep_at topic text p heap) q d in
    let first = keep_at-kept topic text p heap q in
    elim (Bool-cases (p == q)) [
      | inl e ↦
          let gone : listed q clients ≡ false =
            let same : p ≡ q = ground arith in rw (sym same) n in
          rw e (rest ∙ rw gone (first ∙ rw e refl))
      | inr e ↦
          let same : keep_at topic text p heap q ≡ heap q = first ∙ rw e refl in
          rw e (rest ∙ ap (λ c. if listed q clients then kept topic text c else c) same)
    ]

-- In a server whose lists are as they should be, a datagram with a valid type and a text that fits is
-- sent exactly once to the socket of each client that is online and subscribed to its topic, and
-- nothing is sent to other sockets; it is put before the pending messages of each client that is
-- offline and subscribed with store-and-forward; all else is as before.
pub publish-delivery :
    (doubles : Doubles) (s : ServerState) (d : Datagram) (topic text : Bytes)
    → IsServer s
    → published doubles d ≡ some (some (topic, text))
    → (heap : Heap) × (sent : List Sent) × (publish doubles s d
        ≡ some (record s { heap = heap }, sent))
      × ((socket : ℕ)
          → sent_to socket sent ≡ delivery s.heap topic text (find socket s.online_clients))
      × ((p : ℕ)
          → heap p ≡ (if listed p s.all_clients then kept topic text (s.heap p) else s.heap p))
unfolding publish spread
publish-delivery doubles s d topic text v e = (
  keep_offline topic text s.all_clients s.heap,
  send_online s.heap topic text s.online_clients,
  rw e refl,
  (λ socket. send_online-sent_to s.heap topic text s.online_clients socket v.ascending),
  (λ p. keep_offline-kept topic text s.all_clients s.heap p v.distinct),
)
