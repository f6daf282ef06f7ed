-- ===== src/Web/Exchange.antt =====
-- One command of client.c over its connection: the request goes out in the parts that the writes take,
-- and the response comes in the chunks that the reads give.
mod Tests
use communication_protocols.Base.{
  ℕ, ◌<◌, ◌≤◌, ◌^◌, ◌≡◌, refl, Option, some, List, [], ◌∷◌, ◌++◌, Bytes, length, All, NoZero,
  c_string, c_string-append, ◌>>=◌, arith,
}
use communication_protocols.Web.Send.{send_to_server}
use communication_protocols.Web.Send.Sent.{send_to_server-sent}
use communication_protocols.Web.Receive.{Chunk, joined, receive_from_server}
use communication_protocols.Web.Receive.Cut.{IsResponse, receive_from_server-whole}
use communication_protocols.Web.Client.{Session, Library, Command, request, receive, round}

module _ (lib : Library) (strtol : Bytes → ℕ) where
  -- The session after it, what goes out, what is shown, and the reads that are left.
  unfoldable pub exchange :
      Session → Command → List ℕ → List Chunk → Option (Session × Bytes × Bytes × List Chunk)
  exchange s command counts reads = do
    message ← request lib s command
    let (out, unsent) = send_to_server counts message
    let (response, left) = receive_from_server strtol reads
    text ← c_string response
    (s', shown) ← receive lib s command text
    some (s', out, shown, left)

  -- A request that fits in the writes, each of which takes at least one byte, and a response without a
  -- byte 0 that gives its length, of less than 2^31 bytes, in any chunks of at least one byte: the
  -- exchange is the round on the two texts, whatever follows is not read, and what goes out is the
  -- whole request.
  pub exchange-round :
      (s : Session) (command : Command) (message : Bytes) (counts : List ℕ) (text digits : Bytes)
      (n : ℕ) (chunks more : List Chunk)
      → request lib s command ≡ some message
      → All (λ k. 0 < k) counts
      → 0 < length counts
      → length message ≤ length counts
      → IsResponse text digits n
      → ((after : Bytes) → strtol (digits ++ 13 ∷ after) ≡ n)
      → length text < 2 ^ 31
      → NoZero text
      → joined chunks ≡ text
      → exchange s command counts (chunks ++ more)
        ≡ (do (s', sent, shown) ← round lib s command text; some (s', sent, shown, more))
  unfolding exchange round
  exchange-round s command message counts text digits n chunks more asked positive filled enough r
        reads bound plain same =
      let sent = send_to_server-sent counts message positive filled enough in
      let whole = receive_from_server-whole strtol text digits n chunks more r reads bound same in
      let held = c_string-append text [] plain in
      rw asked (rw sent (rw whole (rw held (ground arith))))
