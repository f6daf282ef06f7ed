-- ===== src/Messages/Memory/Deleted.antt =====
-- `delete_client_from_list` of helpers.cpp on a list in memory.
use communication_protocols.Base.{
  ◌>>=◌, ℕ, zero, suc, ◌≡◌, ◌≢◌, refl, sym, ◌∙◌, ◌<◌, inl, inr, true, false, Bool-cases, Option,
  some, [], ◌∷◌, ◌==◌, if◌then◌else◌, length, Bytes, same_bytes, arith,
}
use communication_protocols.Messages.Memory.{
  client_node, Memory, write_block, free_block, as_client_node,
}
use communication_protocols.Messages.Memory.Changes.{
  Elsewhere, free_block-Freed, write_block_self, write_block-other,
}
use communication_protocols.Messages.Server.Clients.{listed, Distinct}
use communication_protocols.Messages.Memory.Members.{
  id_at, delete_loop, delete_client_from_list, MemberNodes, member_addresses, Members, without,
  Members-Elsewhere, id_at-kept, id_at-listed,
}

delete_step :
    (n list subscriber prev a c next : ℕ) (m : Memory) (id id' : Bytes)
    → a ≢ 0
    → m a ≡ some (client_node c next)
    → id_at c m ≡ some id
    → id_at subscriber m ≡ some id'
    → delete_loop (suc n) list subscriber prev a m ≡ (
        if same_bytes id id'
        then (if a == list then (do m ← free_block list m; some (next, m)) else (do
          before ← m prev
          (u, _) ← as_client_node before
          m ← free_block a (write_block prev (some (client_node u next)) m)
          some (list, m)))
        else delete_loop n list subscriber a next m)
unfolding delete_loop as_client_node
delete_step n list subscriber prev a c next m id id' nz e f g =
    let other : (a == 0) ≡ false = ground arith in
    rw (other, delete_loop)
      (rw (e, delete_loop) (rw (f, delete_loop) (rw (g, delete_loop) (ground arith))))

delete_loop_end :
    (n list subscriber prev p : ℕ) (m : Memory)
    → p ≡ 0
    → delete_loop (suc n) list subscriber prev p m ≡ some (list, m)
unfolding delete_loop
delete_loop_end n list subscriber prev p m at = rw at refl

linked :
    (prev u next list a : ℕ) (m m' : Memory) (y : ℕ)
    → m prev ≡ some (client_node u y)
    → free_block a (write_block prev (some (client_node u next)) m) ≡ some m'
    → ◌≡◌ {A = Option (ℕ × Memory)}
        (do
          before ← m prev
          (u, _) ← as_client_node before
          m ← free_block a (write_block prev (some (client_node u next)) m)
          some (list, m))
        (some (list, m'))
unfolding as_client_node
linked prev u next list a m m' y e f = rw e (rw f refl)

-- The loop from a node before the list on, where the head of the whole list is no more to come.
delete_loop-without :
    (n list subscriber prev p u : ℕ) (m : Memory) (id : Bytes) (nodes : MemberNodes)
    → m prev ≡ some (client_node u p)
    → Members m p nodes
    → Distinct (prev ∷ member_addresses nodes)
    → listed list (member_addresses nodes) ≡ false
    → id_at subscriber m ≡ some id
    → length nodes < n
    → (m' : Memory) × (q : ℕ) × (delete_loop n list subscriber prev p m ≡ some (list, m'))
      × (m' prev ≡ some (client_node u q))
      × Members m' q (without id nodes)
      × Elsewhere (prev ∷ member_addresses nodes) m m'
unfolding delete_loop listed Distinct
delete_loop-without zero list subscriber prev p u m id nodes before cs d far name fuel =
    absurd (omega arith)
delete_loop-without (suc n) list subscriber prev p u m id [] before at d far name fuel =
    (m, 0, delete_loop_end n list subscriber prev p m at, rw (sym at) before, refl, (λ a h. refl))
delete_loop-without (suc n) list subscriber prev p u m id ((a, c, other) ∷ nodes) before
      (next, at, nz, e, f, cs) (apart, (out, d)) far name fuel =
    let step = delete_step n list subscriber prev a c next m other id nz e f name in
    let rest = member_addresses nodes in
    let away : listed prev rest ≡ false = ground arith in
    let differ : (prev == a) ≡ false = ground arith in
    let not_head : (a == list) ≡ false = ground arith in
    elim (Bool-cases (same_bytes other id)) [
      | inl found ↦
          let m1 = write_block prev (some (client_node u next)) m in
          let e1 = write_block-other prev (some (client_node u next)) m a differ in
          let kept1 : Elsewhere (prev ∷ []) m m1 =
            (λ b h. write_block-other prev (some (client_node u next)) m b (ground arith)) in
          let (m', g, freed) = free_block-Freed a _ m1 nz (e1 ∙ e) in
          let kept2 : Elsewhere (a ∷ []) m1 m' = (λ b h. freed b ∙ ground arith) in
          let cs1 = Members-Elsewhere m m1 prev u p next nodes before kept1 away cs in
          (
            m',
            next,
            rw at (step ∙ rw found (rw not_head (linked prev u next list a m m' p before g))),
            kept2 prev (ground arith) ∙ write_block_self prev (some (client_node u next)) m,
            rw found (Members-Elsewhere m1 m' a c next next nodes (e1 ∙ e) kept2 out cs1),
            (λ b h. kept2 b (ground arith) ∙ kept1 b (ground arith)),
          )
      | inr different ↦
          let (m', q, g, link, cs', keep) =
            delete_loop-without n list subscriber a next c m id nodes e cs (out, d) (ground arith)
              name (omega arith) in
          let here : listed c (a ∷ rest) ≡ false =
            id_at-listed m p c other ((a, c, other) ∷ nodes) (next, at, nz, e, f, cs) f in
          (
            m',
            a,
            rw at (step ∙ rw different g),
            keep prev (ground arith) ∙ rw (sym at) before,
            rw different (q, refl, nz, link, id_at-kept m m' c other (keep c here) f, cs'),
            (λ b h. keep b (ground arith)),
          )
    ]

delete_head :
    (n list subscriber c next : ℕ) (m : Memory) (id id' : Bytes)
    → list ≢ 0
    → m list ≡ some (client_node c next)
    → id_at c m ≡ some id
    → id_at subscriber m ≡ some id'
    → delete_client_from_list (suc n) list subscriber m ≡ (
        if same_bytes id id'
        then (do m ← free_block list m; some (next, m))
        else delete_loop n list subscriber list next m)
unfolding delete_client_from_list
delete_head n list subscriber c next m id id' nz e f g =
    let same : (list == list) ≡ true = ground arith in
    delete_step n list subscriber list list c next m id id' nz e f g ∙ rw same refl

-- On a list of clients whose nodes are distinct blocks, with fuel above the list's length, the
-- deletion returns a list of the same nodes without the first whose client has the id of the given
-- client, and it changes no block but the nodes.
delete_client_from_list-without :
    (n list subscriber : ℕ) (m : Memory) (id : Bytes) (nodes : MemberNodes)
    → Members m list nodes
    → Distinct (member_addresses nodes)
    → id_at subscriber m ≡ some id
    → length nodes < n
    → (m' : Memory) × (list' : ℕ) × (delete_client_from_list n list subscriber m ≡ some (list', m'))
      × Members m' list' (without id nodes)
      × Elsewhere (member_addresses nodes) m m'
unfolding delete_client_from_list delete_loop listed Distinct
delete_client_from_list-without zero list subscriber m id nodes at d name fuel =
    absurd (omega arith)
delete_client_from_list-without (suc n) list subscriber m id [] at d name fuel =
    (m, list, delete_loop_end n list subscriber list list m at, at, (λ a h. refl))
delete_client_from_list-without (suc n) list subscriber m id ((a, c, other) ∷ nodes)
      (next, at, nz, e, f, cs) (out, d) name fuel =
    let step = delete_head n a subscriber c next m other id nz e f name in
    elim (Bool-cases (same_bytes other id)) [
      | inl found ↦
          let (m', g, freed) = free_block-Freed a _ m nz e in
          let kept : Elsewhere (a ∷ []) m m' = (λ b h. freed b ∙ ground arith) in
          (
            m',
            next,
            rw at (step ∙ rw found (rw g refl)),
            rw found (Members-Elsewhere m m' a c next next nodes e kept out cs),
            (λ b h. kept b (ground arith)),
          )
      | inr different ↦
          let (m', q, g, link, cs', keep) =
            delete_loop-without n a subscriber a next c m id nodes e cs (out, d) out name
              (omega arith) in
          let here =
            id_at-listed m list c other ((a, c, other) ∷ nodes) (next, at, nz, e, f, cs) f in
          (
            m',
            a,
            rw at (step ∙ rw different g),
            rw different (q, refl, nz, link, id_at-kept m m' c other (keep c here) f, cs'),
            keep,
          )
    ]
