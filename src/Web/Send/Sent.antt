-- ===== src/Web/Send/Sent.antt =====
-- What `send_to_server` of helpers.c sends.
use communication_protocols.Base.{
  ℕ, ◌≤◌, ◌<◌, ◌≡◌, refl, sym, ap, ◌∙◌, inl, inr, false, List, [], ◌∷◌, ◌++◌, append_assoc,
  append-nil, Bytes, length, take, drop, take-drop, length-drop, All, ◌==◌, Bool-cases, arith,
}
use communication_protocols.Web.Send.{send_to_server}

-- Whatever part of the message each write takes, what goes out and what is left make up the message.
send_to_server-parts :
    (counts : List ℕ) (message : Bytes)
    → (send_to_server counts message).0 ++ (send_to_server counts message).1 ≡ message
unfolding send_to_server
send_to_server-parts [] message = refl
send_to_server-parts (n ∷ counts) message = elim (Bool-cases (n == 0)) [
  | inl b ↦ rw (b, send_to_server) refl
  | inr b ↦ elim (Bool-cases (length (drop n message) == 0)) [
    | inl b' ↦ rw (b, b', send_to_server) (take-drop n message)
    | inr b' ↦
        rw (b, b', send_to_server)
          (append_assoc (take n message) _ _
            ∙ ap (λ l. take n message ++ l) (send_to_server-parts counts (drop n message))
            ∙ take-drop n message)
  ]
]

nil_of : (xs : Bytes) → length xs ≡ 0 → xs ≡ []
nil_of [] h = refl
nil_of (x ∷ xs) h = absurd (omega arith)

send_to_server_sends :
    (counts : List ℕ) (message : Bytes)
    → All (λ n. 0 < n) counts
    → 0 < length counts
    → length message ≤ length counts
    → (send_to_server counts message).1 ≡ []
unfolding send_to_server
send_to_server_sends [] message h some_left enough = absurd (omega arith)
send_to_server_sends (n ∷ counts) message (positive, h) some_left enough =
    let b : (n == 0) ≡ false = ground arith in
    let len = length-drop n message in
    elim (Bool-cases (length (drop n message) == 0)) [
      | inl b' ↦ rw (b, b', send_to_server) (nil_of (drop n message) (ground arith))
      | inr b' ↦
          rw (b, b', send_to_server)
            (send_to_server_sends counts (drop n message) h (ground (arith, len))
              (omega (arith, len)))
    ]

sent_whole :
    (r : Bytes × Bytes) (message : Bytes) → r.0 ++ r.1 ≡ message → r.1 ≡ [] → r ≡ (message, [])
sent_whole (out, rest) message parts none_left =
    let e : out ≡ message = sym (append-nil out) ∙ ap (λ l. out ++ l) (sym none_left) ∙ parts in
    λ i. (e i, none_left i)

-- If each write takes at least one byte, and there are as many writes as the message has bytes and
-- at least one, then all of the message goes out, in order, and nothing is left.
pub send_to_server-sent :
    (counts : List ℕ) (message : Bytes)
    → All (λ n. 0 < n) counts
    → 0 < length counts
    → length message ≤ length counts
    → send_to_server counts message ≡ (message, [])
send_to_server-sent counts message h some_left enough =
    sent_whole (send_to_server counts message) message (send_to_server-parts counts message)
      (send_to_server_sends counts message h some_left enough)
