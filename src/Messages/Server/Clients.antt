-- ===== src/Messages/Server/Clients.antt =====
-- Lookups in the lists of clients of helpers.cpp, and the `std::map` of server.cpp.
use communication_protocols.Base.{
  ℕ, ◌<◌, ◌≡◌, refl, ap, inl, inr, Bool, true, false, none, some, List, [], ◌∷◌, Bytes, ltb, ◌==◌,
  if◌then◌else◌, same_bytes, All, Bool-cases, arith,
}
use communication_protocols.Messages.Server.{Heap, find, insert, erase, get_client, check_unique_id}

unfoldable pub listed : ℕ → List ℕ → Bool
listed p [] = false
listed p (q ∷ clients) = if q == p then true else listed p clients

-- No pointer stands twice in the list.
unfoldable pub Distinct : List ℕ → Type 0
Distinct [] = Unit
Distinct (p ∷ clients) = (listed p clients ≡ false) × Distinct clients

abbrev pub Above : ℕ → List (ℕ × ℕ) → Type 0
Above k = All (λ e. k < e.0)

-- The sockets increase.
unfoldable pub Ascending : List (ℕ × ℕ) → Type 0
Ascending [] = Unit
Ascending ((k, p) ∷ clients) = Above k clients × Ascending clients

pub find-insert :
    (socket p : ℕ) (clients : List (ℕ × ℕ)) (k : ℕ)
    → find socket clients ≡ none
    → find k (insert socket p clients) ≡ (if socket == k then some p else find k clients)
unfolding find insert
find-insert socket p [] k h = refl
find-insert socket p ((j, q) ∷ clients) k h = ground (arith, find-insert socket p clients k)

pub find-erase :
    (socket : ℕ) (clients : List (ℕ × ℕ)) (k : ℕ)
    → find k (erase socket clients) ≡ (if socket == k then none else find k clients)
unfolding find erase
find-erase socket [] k = ground arith
find-erase socket ((j, q) ∷ clients) k = ground (arith, find-erase socket clients k)

pub find-erase-some :
    (socket : ℕ) (clients : List (ℕ × ℕ)) (k p : ℕ)
    → find k (erase socket clients) ≡ some p
    → ((socket == k) ≡ false) × (find k clients ≡ some p)
find-erase-some socket clients k p h = elim (Bool-cases (socket == k)) [
  | inl e ↦ absurd (ground (arith, find-erase socket clients k))
  | inr e ↦ (e, ground (arith, find-erase socket clients k))
]

pub get_client-some :
    (heap : Heap) (clients : List ℕ) (id : Bytes) (p : ℕ)
    → get_client heap clients id ≡ some p
    → (listed p clients ≡ true) × (same_bytes (heap p).id id ≡ true)
unfolding get_client listed
get_client-some heap [] id p h = absurd (ground arith)
get_client-some heap (q ∷ clients) id p h = ground (arith, get_client-some heap clients id p)

pub get_client-none :
    (heap : Heap) (clients : List ℕ) (id : Bytes) (p : ℕ)
    → get_client heap clients id ≡ none
    → listed p clients ≡ true
    → same_bytes (heap p).id id ≡ false
unfolding get_client listed
get_client-none heap [] id p h l = absurd (ground arith)
get_client-none heap (q ∷ clients) id p h l = ground (arith, get_client-none heap clients id p)

pub check_unique_id-find :
    (heap : Heap) (clients : List (ℕ × ℕ)) (id : Bytes) (k p : ℕ)
    → check_unique_id heap clients id ≡ true
    → find k clients ≡ some p
    → same_bytes (heap p).id id ≡ false
unfolding check_unique_id find
check_unique_id-find heap [] id k p h f = absurd (ground arith)
check_unique_id-find heap ((j, q) ∷ clients) id k p h f =
    ground (arith, check_unique_id-find heap clients id k p)

Above-insert :
    (k socket p : ℕ) (clients : List (ℕ × ℕ))
    → k < socket
    → Above k clients
    → Above k (insert socket p clients)
unfolding insert
Above-insert k socket p [] h a = (h, tt)
Above-insert k socket p ((j, q) ∷ clients) h (b, a) = elim (Bool-cases (socket == j)) [
  | inl e ↦ rw (e, insert) (b, a)
  | inr e ↦ elim (Bool-cases (ltb socket j)) [
    | inl l ↦ rw (e, l, insert) (h, (b, a))
    | inr l ↦ rw (e, l, insert) (b, Above-insert k socket p clients h a)
  ]
]

Above-erase :
    (k socket : ℕ) (clients : List (ℕ × ℕ)) → Above k clients → Above k (erase socket clients)
unfolding erase
Above-erase k socket [] a = tt
Above-erase k socket ((j, q) ∷ clients) (b, a) = elim (Bool-cases (j == socket)) [
  | inl e ↦ rw (e, erase) (Above-erase k socket clients a)
  | inr e ↦ rw (e, erase) (b, Above-erase k socket clients a)
]

Above-trans : (j k : ℕ) (clients : List (ℕ × ℕ)) → j < k → Above k clients → Above j clients
Above-trans j k [] h a = tt
Above-trans j k (e ∷ clients) h (b, a) = (omega (arith, h, b), Above-trans j k clients h a)

pub insert-Ascending :
    (socket p : ℕ) (clients : List (ℕ × ℕ))
    → Ascending clients
    → Ascending (insert socket p clients)
unfolding insert Ascending
insert-Ascending socket p [] v = (tt, tt)
insert-Ascending socket p ((j, q) ∷ clients) (a, v) = elim (Bool-cases (socket == j)) [
  | inl e ↦ rw (e, insert) (a, v)
  | inr e ↦ elim (Bool-cases (ltb socket j)) [
    | inl l ↦
        let small : socket < j = ground arith in
        rw (e, l, insert) ((small, Above-trans socket j clients small a), (a, v))
    | inr l ↦
        rw (e, l, insert)
          (Above-insert j socket p clients (ground arith) a, insert-Ascending socket p clients v)
  ]
]

pub erase-Ascending :
    (socket : ℕ) (clients : List (ℕ × ℕ)) → Ascending clients → Ascending (erase socket clients)
unfolding erase Ascending
erase-Ascending socket [] v = tt
erase-Ascending socket ((j, q) ∷ clients) (a, v) = elim (Bool-cases (j == socket)) [
  | inl e ↦ rw (e, erase) (erase-Ascending socket clients v)
  | inr e ↦ rw (e, erase) (Above-erase j socket clients a, erase-Ascending socket clients v)
]

-- No pair stands at or below a socket that all others are above.
pub Above-find : (k : ℕ) (clients : List (ℕ × ℕ)) → Above k clients → find k clients ≡ none
unfolding find
Above-find k [] a = refl
Above-find k ((j, q) ∷ clients) (b, a) = ground (arith, Above-find k clients a)

find-lt :
    (k : ℕ) (clients : List (ℕ × ℕ)) (j p : ℕ) → Above k clients → find j clients ≡ some p → k < j
unfolding find
find-lt k [] j p a f = absurd (ground arith)
find-lt k ((i, q) ∷ clients) j p (b, a) f = ground (arith, find-lt k clients j p a)

-- An id that is in use has a socket.
pub check_unique_id-used :
    (heap : Heap) (clients : List (ℕ × ℕ)) (id : Bytes)
    → Ascending clients
    → check_unique_id heap clients id ≡ false
    → (k : ℕ) × (p : ℕ) × (find k clients ≡ some p) × (same_bytes (heap p).id id ≡ true)
unfolding check_unique_id find Ascending
check_unique_id-used heap [] id v h = absurd (ground arith)
check_unique_id-used heap ((k, p) ∷ clients) id (a, v) h =
    elim (Bool-cases (same_bytes (heap p).id id)) [
      | inl b ↦ (k, p, ground arith, b)
      | inr b ↦
          let (j, q, f, same) = check_unique_id-used heap clients id v (ground arith) in
          let above = find-lt k clients j q a f in (j, q, ground arith, same)
    ]

-- The id alone decides which client is found.
pub get_client-same :
    (heap heap' : Heap) (clients : List ℕ) (id : Bytes)
    → ((q : ℕ) → (heap' q).id ≡ (heap q).id)
    → get_client heap' clients id ≡ get_client heap clients id
unfolding get_client
get_client-same heap heap' [] id ids = refl
get_client-same heap heap' (p ∷ clients) id ids = rw (ids p) (
    ap (λ o. if same_bytes (heap p).id id then some p else o)
      (get_client-same heap heap' clients id ids))
