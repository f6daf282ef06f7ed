-- ===== src/Routing/Start.antt =====
-- `read_rtable` and the start of `main` in Packet-Routing-IP-Eth/router.c. The C library's parsing of
-- a line is a parameter.
mod Tests
use communication_protocols.Base.{
  ℕ, zero, suc, ◌+◌, ◌≤◌, ◌<◌, ◌≡◌, refl, ◌∙◌, ◌⊎◌, inl, inr, List, [], ◌∷◌, length, arith, some,
  get_elem?, ap, sym, true, false, ltb, Bool-cases,
}
use communication_protocols.Routing.Table.{Entry, Table, Run, ok, fault, write, quicksort}
use communication_protocols.Routing.Table.Sort.{Sorted, quicksort-Sorted}
use communication_protocols.Routing.Packet.{Packet}
use communication_protocols.Routing.Router.{◌>>=◌, System, Router, Sent, Event, run}
use communication_protocols.Routing.Router.Flush.{Run-cases}
use communication_protocols.Routing.Router.Learning.{OneIp, run-OneIp}

-- `sscanf` with four `%s`, `inet_addr` and `atoi`.
pub record Parser : Type 1 where
  pub Line : Type 0
  pub Text : Type 0
  pub prefix_of : Line → Text
  pub next_hop_of : Line → Text
  pub mask_of : Line → Text
  pub interface_of : Line → Text
  pub inet_addr : Text → ℕ
  pub atoi : Text → ℕ

write_self : (t : Table) (i : ℕ) (e : Entry) → write t i e i ≡ e
write_self t i e = ground arith

module _ (c : Parser) where
  open c use {Line, prefix_of, next_hop_of, mask_of, interface_of, inet_addr, atoi}

  pub entry_of : Line → Entry
  entry_of line = record {
    prefix = inet_addr (prefix_of line);
    next_hop = inet_addr (next_hop_of line);
    mask = inet_addr (mask_of line);
    interface = atoi (interface_of line);
  }

  -- The loop over the lines that `fgets` returns, at index i of an array of 100000 entries.
  pub read_loop : List Line → ℕ → Table → Run (ℕ × Table)
  read_loop [] i rtable = ok (i, rtable)
  read_loop (line ∷ lines) i rtable = elim (ltb i 100000) [
    | true ↦ read_loop lines (i + 1) (write rtable i (entry_of line))
    | false ↦ fault
  ]

  pub read_rtable : List Line → Table → Run (ℕ × Table)
  read_rtable lines rtable = read_loop lines 0 rtable

  read_step :
      (line : Line) (lines : List Line) (i : ℕ) (t : Table) (o : ℕ × Table)
      → read_loop (line ∷ lines) i t ≡ ok o
      → read_loop lines (i + 1) (write t i (entry_of line)) ≡ ok o
  unfolding read_loop
  read_step line lines i t o h = elim (Bool-cases (ltb i 100000)) [
    | inl b ↦ rw (b, read_loop) at h
    | inr b ↦ absurd (ground (arith, rw (b, read_loop) at h))
  ]

  read_end :
      (i n : ℕ) (t t' : Table) → read_loop [] i t ≡ ok (n, t') → (i ≡ n) × ((j : ℕ) → t j ≡ t' j)
  unfolding read_loop
  read_end i n t t' h =
      let same : ◌≡◌ {A = ℕ × Table} (i, t) (n, t') = ground (arith, h) in
      (ap (λ o. o.0) same, λ j. ap (λ o. o.1 j) same)

  read_loop-length :
      (lines : List Line) (i n : ℕ) (t t' : Table)
      → read_loop lines i t ≡ ok (n, t')
      → n ≡ i + length lines
  read_loop-length [] i n t t' h = omega (arith, (read_end i n t t' h).0)
  read_loop-length (line ∷ lines) i n t t' h = omega (
    arith,
    read_loop-length lines (i + 1) n (write t i (entry_of line)) t'
        (read_step line lines i t (n, t') h),
  )

  read_loop_out :
      (lines : List Line) (i n j : ℕ) (t t' : Table)
      → read_loop lines i t ≡ ok (n, t')
      → (j < i) ⊎ (i + length lines ≤ j)
      → t' j ≡ t j
  read_loop_out [] i n j t t' h o = sym ((read_end i n t t' h).1 j)
  read_loop_out (line ∷ lines) i n j t t' h o =
      let rest =
        read_loop_out lines (i + 1) n j (write t i (entry_of line)) t'
          (read_step line lines i t (n, t') h) in
      ground (arith, rest)

  read_loop_in :
      (lines : List Line) (i n k : ℕ) (line : Line) (t t' : Table)
      → read_loop lines i t ≡ ok (n, t')
      → get_elem? lines k ≡ some line
      → t' (i + k) ≡ entry_of line
  read_loop_in [] i n k line t t' h g = absurd (ground arith)
  read_loop_in (l ∷ lines) i n zero line t t' h g =
      let e : i + 0 ≡ i = omega arith in
      let same : l ≡ line = cc in
      rw e (
        read_loop_out lines (i + 1) n i (write t i (entry_of l)) t'
          (read_step l lines i t (n, t') h) (inl (omega arith))
        ∙ write_self t i (entry_of l)
        ∙ ap entry_of same)
  read_loop_in (l ∷ lines) i n (suc k) line t t' h g =
      let e : i + suc k ≡ i + 1 + k = omega arith in
      rw e (
        read_loop_in lines (i + 1) n k line (write t i (entry_of l)) t'
          (read_step l lines i t (n, t') h) g)

  read_loop_fits :
      (lines : List Line) (i : ℕ) (t : Table)
      → i + length lines ≤ 100000
      → (o : ℕ × Table) × (read_loop lines i t ≡ ok o)
  unfolding read_loop
  read_loop_fits [] i t h = ((i, t), refl)
  read_loop_fits (line ∷ lines) i t h =
      let (o, e) = read_loop_fits lines (i + 1) (write t i (entry_of line)) (omega arith) in
      let small : ltb i 100000 ≡ true = ground arith in (o, rw (small, read_loop) e)

  -- Reading up to 100000 lines gives their number, and at each index below it the entry of the line
  -- there; the rest of the array is as it was.
  pub read_rtable_lem :
      (lines : List Line) (t : Table)
      → length lines ≤ 100000
      → (t' : Table) × (read_rtable lines t ≡ ok (length lines, t'))
        × ((k : ℕ) (line : Line) → get_elem? lines k ≡ some line → t' k ≡ entry_of line)
        × ((j : ℕ) → length lines ≤ j → t' j ≡ t j)
  unfolding read_rtable
  read_rtable_lem lines t fit =
      let ((n, t'), h) = read_loop_fits lines 0 t (omega arith) in
      let size : n ≡ length lines = omega (arith, read_loop-length lines 0 n t t' h) in
      (
        t',
        h ∙ ap (λ k. ok (k, t')) size,
        (λ k line g.
            let e : k ≡ 0 + k = omega arith in rw e (read_loop_in lines 0 n k line t t' h g)),
        (λ j o. read_loop_out lines 0 n j t t' h (inr (omega arith))),
      )

  -- The state in which the loop of `main` starts: the table is read and sorted, the ARP table and
  -- the queue are empty. `rtable` and `m` are what the memory held before.
  pub start : List Line → Table → Packet → Run Router
  start lines rtable m = do
    (rtable_size, read) ← read_rtable lines rtable
    ok (record {
      rtable = quicksort 0 rtable_size read;
      rtable_size = rtable_size;
      arp_table = [];
      q = [];
      m = m;
    })

  -- After any packets that the router has handled with no fault since its start, the reading of the
  -- lines included, the routing table is in order, by prefix and then from larger to smaller masks, and
  -- has as many entries as there were lines; and all entries of the ARP table are for one address.
  pub run-start :
      (s : System) (lines : List Line) (t : Table) (m : Packet) (evs : List Event) (r : Router)
      (out : List Sent)
      → (do r0 ← start lines t m; run s r0 evs) ≡ ok (r, out)
      → Sorted 0 r.rtable_size r.rtable × (r.rtable_size ≡ length lines) × OneIp r.arp_table
  unfolding start read_rtable
  run-start s lines t m evs r out h = elim (Run-cases (read_loop lines 0 t)) [
    | inl e ↦ absurd (ground (arith, rw e at h))
    | inr ((n, read), e) ↦
        let r0 : Router = record {
          rtable = quicksort 0 n read;
          rtable_size = n;
          arp_table = [];
          q = [];
          m = m;
        } in
        let (one, table, size) = run-OneIp s evs r0 r out ([], tt) (rw e at h) in
        let read_all = read_loop-length lines 0 n t read e in
        (rw (table, size) (quicksort-Sorted 0 _ _), omega (arith, size, read_all), one)
  ]
