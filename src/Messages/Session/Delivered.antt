-- ===== src/Messages/Session/Delivered.antt =====
-- From the packets of publishers through server.cpp to what subscriber.cpp prints.
use communication_protocols.Base.{
  ◌>>=◌, bind-some, some-subst, ℕ, ◌≡◌, refl, sym, ap, ◌∙◌, inl, inr, Bool, true, Option, some,
  List, [], ◌∷◌, ◌++◌, append_assoc, append-nil, Bytes, ◌==◌, if◌then◌else◌, Bool-cases, All, arith,
}
use communication_protocols.Messages.Datagram.{Doubles}
use communication_protocols.Messages.Topics.Lookup.{flag}
use communication_protocols.Messages.Topics.Refine.{Flags, is_subscribed}
use communication_protocols.Messages.Server.{Client, Heap, ServerState, find}
use communication_protocols.Messages.Server.Handlers.{Datagram, Sent, published, publish}
use communication_protocols.Messages.Server.Clients.{listed}
use communication_protocols.Messages.Server.Invariant.{IsServer}
use communication_protocols.Messages.Server.Preserves.{publish-Valid}
use communication_protocols.Messages.Server.Delivery.{sent_to, delivery, kept, publish-delivery}
use communication_protocols.Messages.Subscriber.{Action, Ready, react, is_end, react_loop}
use communication_protocols.Messages.Subscriber.Stream.{Goes, received, printed, react_loop-streams}

-- Texts one behind the other.
abbrev pub in_a_row : List Bytes → Bytes
in_a_row [] = []
in_a_row (text ∷ texts) = text ++ in_a_row texts

-- A packet with its topic and its text.
abbrev pub Publication : Type 0
Publication = Datagram × Bytes × Bytes

-- The texts that a client with these flags should see.
abbrev pub seen : Flags → List Publication → Bytes
seen flags [] = []
seen flags ((d, topic, text) ∷ publications) =
    (if is_subscribed (flags topic) then text else []) ++ seen flags publications

in_a_row-append : (xs ys : List Bytes) → in_a_row (xs ++ ys) ≡ in_a_row xs ++ in_a_row ys
in_a_row-append [] ys = refl
in_a_row-append (x ∷ xs) ys =
    ap (λ l. x ++ l) (in_a_row-append xs ys) ∙ sym (append_assoc x (in_a_row xs) (in_a_row ys))

sent_to-append : (k : ℕ) (xs ys : List Sent) → sent_to k (xs ++ ys) ≡ sent_to k xs ++ sent_to k ys
unfolding sent_to
sent_to-append k [] ys = refl
sent_to-append k ((j, text) ∷ xs) ys = elim (Bool-cases (j == k)) [
  | inl e ↦ rw e (ap (λ l. text ∷ l) (sent_to-append k xs ys))
  | inr e ↦ rw e (sent_to-append k xs ys)
]

in_a_row-delivery :
    (heap : Heap) (topic text : Bytes) (p : ℕ)
    → in_a_row (delivery heap topic text (some p))
      ≡ (if is_subscribed (flag (heap p).topics topic) then text else [])
in_a_row-delivery heap topic text p =
    elim (Bool-cases (is_subscribed (flag (heap p).topics topic))) [
      | inl b ↦ rw b (append-nil text)
      | inr b ↦ rw b refl
    ]

kept-topics :
    (topic text : Bytes) (here : Bool) (c : Client)
    → (if here then kept topic text c else c).topics ≡ c.topics
kept-topics topic text here c = ground arith

module _ (doubles : Doubles) where
  -- The packets, one behind the other, with what the server sends.
  unfoldable pub publish_each : ServerState → List Publication → Option (ServerState × List Sent)
  publish_each s [] = some (s, [])
  publish_each s ((d, topic, text) ∷ publications) = do
    (s, sent) ← publish doubles s d
    (s, more) ← publish_each s publications
    some (s, sent ++ more)

  -- The topic and the text are those that the packet makes.
  abbrev pub IsPublication : Publication → Type 0
  IsPublication (d, topic, text) = published doubles d ≡ some (some (topic, text))

  -- One packet.
  record One (s s' : ServerState) (k p : ℕ) (topic text : Bytes) (sent : List Sent) : Type 0 where
    online : s'.online_clients ≡ s.online_clients
    topics : (s'.heap p).topics ≡ (s.heap p).topics
    texts :
        in_a_row (sent_to k sent)
        ≡ (if is_subscribed (flag (s.heap p).topics topic) then text else [])

  publish-One :
      (s s' : ServerState) (k p : ℕ) (d : Datagram) (topic text : Bytes) (sent : List Sent)
      → IsServer s
      → find k s.online_clients ≡ some p
      → published doubles d ≡ some (some (topic, text))
      → publish doubles s d ≡ some (s', sent)
      → One s s' k p topic text sent
  publish-One s s' k p d topic text sent v f e h =
      let (heap, out, done, delivered, kept_all) = publish-delivery doubles s d topic text v e in
      some-subst (λ r. One s r.0 k p topic text r.1) _ (record s { heap = heap }, out) (s', sent)
        done h
        (record {
          online = refl;
          topics =
              ap (λ c. c.topics) (kept_all p)
              ∙ kept-topics topic text (listed p s.all_clients) (s.heap p);
          texts =
              ap in_a_row (delivered k ∙ ap (delivery s.heap topic text) f)
              ∙ in_a_row-delivery s.heap topic text p;
        })

  publish_each-seen :
      (s s' : ServerState) (k p : ℕ) (publications : List Publication) (sent : List Sent)
      → IsServer s
      → find k s.online_clients ≡ some p
      → All IsPublication publications
      → publish_each s publications ≡ some (s', sent)
      → in_a_row (sent_to k sent) ≡ seen (flag (s.heap p).topics) publications
  unfolding publish_each
  publish_each-seen s s' k p [] sent v f all h =
      some-subst (λ r. in_a_row (sent_to k r.1) ≡ []) _ (s, []) (s', sent) refl h
        (unfold sent_to in refl)
  publish_each-seen s s' k p ((d, topic, text) ∷ publications) sent v f (e, all) h =
      let ((s1, sent1), first, h) = bind-some (publish doubles s d) _ (s', sent) h in
      let ((s2, sent2), others, h) = bind-some (publish_each s1 publications) _ (s', sent) h in
      let one = publish-One s s1 k p d topic text sent1 v f e first in
      let rest =
        publish_each-seen s1 s2 k p publications sent2 (publish-Valid doubles s s1 d sent1 v first)
          (ap (find k) one.online ∙ f) all others in
      some-subst
        (λ r.
          in_a_row (sent_to k r.1)
          ≡ seen (flag (s.heap p).topics) ((d, topic, text) ∷ publications))
        _ (s2, sent1 ++ sent2) (s', sent) refl h
        (ap in_a_row (sent_to-append k sent1 sent2)
          ∙ in_a_row-append (sent_to k sent1) (sent_to k sent2)
          ∙ ap (λ l. l ++ in_a_row (sent_to k sent2)) one.texts
          ∙ ap (λ l. (if is_subscribed (flag (s.heap p).topics topic) then text else []) ++ l)
              (rest ∙ ap (λ t. seen (flag t) publications) one.topics))

  -- In a server whose lists are as they should be, a subscriber is online with the socket k, and any packets
  -- that make publications are served without a fault. If the subscriber gets the bytes that the
  -- server sends to its socket, in any parts of at least 1 and at most 1551 bytes, none of them 0 and
  -- no part "exit", between any lines that it sends, then what it has printed when the program ends
  -- are the texts of the publications on its topics, each once and in order.
  pub publish_each-printed :
      (s s' : ServerState) (k p : ℕ) (publications : List Publication) (sent : List Sent)
      (turns rest : List Ready) (last : Ready) (end : Action)
      → IsServer s
      → find k s.online_clients ≡ some p
      → All IsPublication publications
      → publish_each s publications ≡ some (s', sent)
      → received turns ≡ in_a_row (sent_to k sent)
      → All Goes turns
      → react last ≡ some end
      → is_end end ≡ true
      → (actions : List Action) × (react_loop (turns ++ last ∷ rest) ≡ some (actions ++ end ∷ []))
        × (printed actions ≡ seen (flag (s.heap p).topics) publications)
  publish_each-printed s s' k p publications sent turns rest last end v f all served same goes e
        stop =
      let (actions, done, out, lines) = react_loop-streams turns rest last end goes e stop in
      (actions, done, out ∙ same ∙ publish_each-seen s s' k p publications sent v f all served)
