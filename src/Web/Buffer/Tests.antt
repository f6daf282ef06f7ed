-- ===== src/Web/Buffer/Tests.antt =====
-- A response in two parts, and the searches in it.
use communication_protocols.Base.{◌≡◌, ◌<◌, ◌^◌, refl, Bytes, codes, length, arith}
use communication_protocols.Web.Buffer.{
  Buffer, contents, buffer_init, buffer_add, resize, copy_to, match_loop, find_loop, find_by,
  find_index, pos, negsuc, as_result, to_int, identity, tolower, buffer_find,
  buffer_find_insensitive,
}
use communication_protocols.Web.Buffer.Add.{IsBuffer, buffer_init-IsBuffer, buffer_add-contents}
use communication_protocols.Web.Buffer.Find.{Returns, buffer_find-Found}

abbrev part : Bytes
part = codes "a-Content-"

abbrev other : Bytes
other = codes "Length: 5"

abbrev one : Buffer
one = buffer_add buffer_init part

abbrev two : Buffer
two = buffer_add one other

found_insensitive : buffer_find_insensitive two (codes "CONTENT-LENGTH: ") ≡ pos 2
unfolding buffer_find_insensitive find_by find_index as_result to_int find_loop match_loop
    buffer_add buffer_init resize copy_to tolower
found_insensitive = refl

not_found : buffer_find two (codes "CONTENT-LENGTH: ") ≡ negsuc 0
unfolding buffer_find find_by find_index as_result find_loop match_loop buffer_add buffer_init
    resize copy_to
not_found = refl

one-IsBuffer : IsBuffer one
one-IsBuffer = (buffer_add-contents buffer_init part buffer_init-IsBuffer).1

one_small : length (contents one) < 2 ^ 31
unfolding buffer_add buffer_init resize copy_to
one_small = omega arith

buffer_find-Found_example :
    Returns identity (contents one) (codes "-") (buffer_find one (codes "-"))
    × Returns tolower (contents one) (codes "-") (buffer_find_insensitive one (codes "-"))
buffer_find-Found_example = buffer_find-Found one (codes "-") one-IsBuffer one_small
