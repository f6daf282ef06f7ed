-- ===== src/Web/Receive/Tests.antt =====
-- A response in two chunks, and a third that is not read.
use mathlib.Core.Path.{subst}
use communication_protocols.Base.{
  some, take, drop, arith, ℕ, ◌-◌, ◌≡◌, refl, List, [], ◌∷◌, ◌++◌, Bytes, codes, get_or,
}
use communication_protocols.Web.Buffer.Add.{IsBuffer}
use communication_protocols.Web.Buffer.Find.{Found, find_index-Found}
use communication_protocols.Web.Receive.Cut.{IsResponse, receive_from_server-whole}
use communication_protocols.Web.Buffer.{
  Buffer, identity, buffer_init, buffer_add, resize, copy_to, match_loop, find_loop, find_by,
  find_index, as_result, to_int, buffer_find, tolower, buffer_find_insensitive,
}
use communication_protocols.Web.Receive.{
  header_terminator, content_length_name, Chunk, joined, header_loop, body_loop,
  receive_from_server,
}

-- The number of one digit.
abbrev pub digit_value : Bytes → ℕ
digit_value text = get_or text 0 48 - 48

abbrev pub chunks : List Chunk
chunks =
    record { first = 88; others = codes ": y\r\nContent-length: 3\r\n\r" }
    ∷ record { first = 10; others = codes "ab" }
    ∷ record { first = 99; others = [] }
    ∷ record { first = 100; others = [] }
    ∷ []

read_whole : receive_from_server digit_value chunks ≡ (
  codes "X: y\r\nContent-length: 3\r\n\r\nabc" ++ 0 ∷ [],
  record { first = 100; others = [] } ∷ [],
)
unfolding receive_from_server header_loop body_loop buffer_init buffer_add resize copy_to match_loop
    find_loop find_index as_result to_int find_by buffer_find tolower buffer_find_insensitive
read_whole = refl

-- The response of the first three chunks, as one text.
abbrev pub response : Bytes
response = codes "X: y\r\nContent-length: 3\r\n\r\nabc"

abbrev held : Buffer
held = record { block = some response; size = 30 }

found_terminator : find_index identity held header_terminator ≡ some 23
unfolding find_index find_loop match_loop
found_terminator = refl

found_length : find_index tolower held content_length_name ≡ some 6
unfolding find_index find_loop match_loop tolower
found_length = refl

pub response-IsResponse : IsResponse response (codes "3") 3
response-IsResponse =
    let sized : IsBuffer held = record { sized = refl } in
    let header = find_index-Found identity held header_terminator sized in
    let name = find_index-Found tolower held content_length_name sized in
    record {
      header_at = 23;
      length_at = 6;
      after = codes "\n\r\nabc";
      header = subst (Found identity response header_terminator) found_terminator header;
      name = subst (Found tolower response content_length_name) found_length name;
      number = refl;
      inside = omega arith;
      whole = refl;
    }

pub response_cut : joined (take 3 chunks) ≡ response
unfolding joined
response_cut = refl

receive_from_server-whole_example :
    receive_from_server digit_value (take 3 chunks ++ drop 3 chunks)
    ≡ (response ++ 0 ∷ [], drop 3 chunks)
receive_from_server-whole_example =
    receive_from_server-whole digit_value response (codes "3") 3 (take 3 chunks) (drop 3 chunks)
      response-IsResponse (λ after. refl) (omega arith) response_cut
