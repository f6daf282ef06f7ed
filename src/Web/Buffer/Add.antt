-- ===== src/Web/Buffer/Add.antt =====
-- What a buffer holds, and what `buffer_add` of buffer.c makes of it.
use communication_protocols.Base.{
  ℕ, suc, ◌+◌, ◌≡◌, refl, ap, Option, none, some, [], ◌∷◌, ◌++◌, Bytes, length, length-append,
  arith,
}
use communication_protocols.Web.Buffer.{Buffer, contents, resize, copy_to, buffer_init, buffer_add}

-- The size is the number of bytes in the block.
pub record IsBuffer (b : Buffer) : Type 0 where
  pub sized : b.size ≡ length (contents b)

pub buffer_init-IsBuffer : IsBuffer buffer_init
unfolding buffer_init
buffer_init-IsBuffer = record { sized = refl }

copied_all : (bytes : Bytes) → copy_to 0 bytes (resize (length bytes) []) ≡ bytes
unfolding copy_to resize
copied_all [] = refl
copied_all (b ∷ bytes) = ap (λ l. b ∷ l) (copied_all bytes)

copied_behind :
    (old bytes : Bytes) (n : ℕ)
    → n ≡ length old + length bytes
    → copy_to (length old) bytes (resize n old) ≡ old ++ bytes
unfolding copy_to resize
copied_behind [] bytes n e =
    let same : n ≡ length bytes = omega (arith, e) in rw same (copied_all bytes)
copied_behind (c ∷ old) bytes n e =
    let same : n ≡ suc (length old + length bytes) = omega (arith, e) in
    rw same (ap (λ l. c ∷ l) (copied_behind old bytes (length old + length bytes) refl))

added :
    (block : Option Bytes) (size : ℕ) (bytes : Bytes)
    → size ≡ length (contents (record { block = block; size = size }))
    → contents (buffer_add (record { block = block; size = size }) bytes)
      ≡ contents (record { block = block; size = size }) ++ bytes
unfolding buffer_add
added none size bytes e = rw e (copied_all bytes)
added (some old) size bytes e = rw e (copied_behind old bytes (length old + length bytes) refl)

-- Adding to a buffer puts the bytes behind those that it holds, the first time and later, and keeps
-- its size right.
pub buffer_add-contents :
    (b : Buffer) (bytes : Bytes)
    → IsBuffer b
    → (contents (buffer_add b bytes) ≡ contents b ++ bytes) × IsBuffer (buffer_add b bytes)
unfolding buffer_add
buffer_add-contents b bytes v =
    let held = added b.block b.size bytes v.sized in
    (
      held,
      record { sized = omega (arith, v.sized, ap length held, length-append (contents b) bytes) },
    )
