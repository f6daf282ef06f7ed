-- ===== src/Messages/Server/Moves.antt =====
-- Clients that come and go in server.cpp.
use communication_protocols.Base.{
  ℕ, ◌≡◌, refl, sym, ap, ◌∙◌, ◌≢◌, ◌⊎◌, inl, inr, true, false, none, some, List, ◌∷◌, ◌==◌,
  same_bytes, Bool-cases, arith,
}
use communication_protocols.Messages.Topics.Lookup.{IsMap, same_sym}
use communication_protocols.Messages.Server.{Client, Heap, write_client, find, insert, erase}
use communication_protocols.Messages.Server.Clients.{
  listed, Distinct, find-insert, find-erase, find-erase-some, insert-Ascending, erase-Ascending,
}
use communication_protocols.Messages.Server.Invariant.{Valid, write_client-other, write_client-same}

abbrev pub offline : Client → Client
offline c = record c { online = false }

abbrev pub connected : Client → Client
connected c = record c { online = true }

-- A client that has no socket gets one.
gets_socket :
    (i p : ℕ) (online : List (ℕ × ℕ))
    → find i online ≡ none
    → (k q : ℕ) → find k (insert i p online) ≡ some q
    → ((i ≡ k) × (p ≡ q)) ⊎ (find k online ≡ some q)
gets_socket i p online free k q g = elim (Bool-cases (i == k)) [
  | inl e ↦ inl (ground (arith, find-insert i p online k))
  | inr e ↦ inr (ground (arith, find-insert i p online k))
]

module _ {heap : Heap} {clients : List ℕ} {online : List (ℕ × ℕ)} (i p : ℕ) where
  still :
      find i online ≡ some p
      → Valid heap clients online
      → (k q : ℕ) → find k (erase i online) ≡ some q
      → ((p == q) ≡ false) × (find k online ≡ some q)
  still f v k q g =
      let (other, found) = find-erase-some i online k q g in
      elim (Bool-cases (p == q)) [
        | inl e ↦
            let same : p ≡ q = ground arith in
            let socket = v.one_socket i k q (rw (sym same) f) found in absurd (ground arith)
        | inr e ↦ (e, found)
      ]

  keeps_socket :
      find i online ≡ some p
      → Valid heap clients online
      → (q : ℕ) → listed q clients ≡ true
      → (write_client p (offline (heap p)) heap q).online ≡ true
      → (k : ℕ) × (find k (erase i online) ≡ some q)
  keeps_socket f v q l o = elim (Bool-cases (p == q)) [
    | inl e ↦ absurd (ground arith)
    | inr e ↦
        let (k, found) = v.has_socket q l (ground arith) in
        let other : (i == k) ≡ false = ground arith in (k, find-erase i online k ∙ rw other found)
  ]

  pub Valid-erase :
      find i online ≡ some p
      → Valid heap clients online
      → Valid (write_client p (offline (heap p)) heap) clients (erase i online)
  Valid-erase f v =
      let ids = write_client-same (λ c. c.id) p (offline (heap p)) heap refl in
      let tops = write_client-same (λ c. c.topics) p (offline (heap p)) heap refl in
      record {
        ascending = erase-Ascending i online v.ascending;
        distinct = v.distinct;
        known = (λ k q g. v.known k q (still f v k q g).1);
        marked = (λ k q g.
            let (other, found) = still f v k q g in
            ap (λ c. c.online) (write_client-other p (offline (heap p)) heap q other)
            ∙ v.marked k q found);
        has_socket = keeps_socket f v;
        one_socket = (λ j k q g g'. v.one_socket j k q (still f v j q g).1 (still f v k q g').1);
        one_id = (λ q r l l' e. v.one_id q r l l' (rw (sym (ids q), sym (ids r)) e));
        maps = (λ q l. rw (tops q) (v.maps q l));
      }

  gets_mark :
      find i online ≡ none
      → Valid heap clients online
      → (k q : ℕ) → find k (insert i p online) ≡ some q
      → (write_client p (connected (heap p)) heap q).online ≡ true
  gets_mark free v k q g = elim (Bool-cases (p == q)) [
    | inl e ↦ rw e refl
    | inr e ↦ elim (gets_socket i p online free k q g) [
      | inl (here, same) ↦ absurd (ground arith)
      | inr found ↦ rw e (v.marked k q found)
    ]
  ]

  keeps_online :
      find i online ≡ none
      → Valid heap clients online
      → (q : ℕ) → listed q clients ≡ true
      → (write_client p (connected (heap p)) heap q).online ≡ true
      → (k : ℕ) × (find k (insert i p online) ≡ some q)
  keeps_online free v q l o = elim (Bool-cases (p == q)) [
    | inl e ↦ (i, ground (arith, find-insert i p online i))
    | inr e ↦
        let was : (heap q).online ≡ true = ground arith in
        let (k, found) = v.has_socket q l was in
        let other : (i == k) ≡ false = ground arith in
        (k, find-insert i p online k free ∙ rw other found)
  ]

  one_place :
      find i online ≡ none
      → ((k : ℕ) → find k online ≢ some p)
      → Valid heap clients online
      → (j k q : ℕ) → find j (insert i p online) ≡ some q
      → find k (insert i p online) ≡ some q
      → j ≡ k
  one_place free absent v j k q g g' = elim (gets_socket i p online free j q g) [
    | inl (here, same) ↦ elim (gets_socket i p online free k q g') [
      | inl (here', same') ↦ sym here ∙ here'
      | inr found ↦ absurd (absent k (found ∙ ap some (sym same)))
    ]
    | inr found ↦ elim (gets_socket i p online free k q g') [
      | inl (here, same) ↦ absurd (absent j (found ∙ ap some (sym same)))
      | inr found' ↦ v.one_socket j k q found found'
    ]
  ]

  pub Valid-insert :
      find i online ≡ none
      → ((k : ℕ) → find k online ≢ some p)
      → listed p clients ≡ true
      → Valid heap clients online
      → Valid (write_client p (connected (heap p)) heap) clients (insert i p online)
  Valid-insert free absent l v =
      let ids = write_client-same (λ c. c.id) p (connected (heap p)) heap refl in
      let tops = write_client-same (λ c. c.topics) p (connected (heap p)) heap refl in
      record {
        ascending = insert-Ascending i p online v.ascending;
        distinct = v.distinct;
        known = (λ k q g. elim (gets_socket i p online free k q g) [
          | inl (e, same) ↦ rw (sym same) l
          | inr found ↦ v.known k q found
        ]);
        marked = gets_mark free v;
        has_socket = (λ q l o. keeps_online free v q l o);
        one_socket = one_place free absent v;
        one_id = (λ q r l l' e. v.one_id q r l l' (rw (sym (ids q), sym (ids r)) e));
        maps = (λ q l. rw (tops q) (v.maps q l));
      }

-- A client that was not there before.
module _ {heap : Heap} {clients : List ℕ} {online : List (ℕ × ℕ)} (p : ℕ) (c : Client) where
  new_id :
      ((q : ℕ) → listed q clients ≡ true → same_bytes (heap q).id c.id ≡ false)
      → Valid heap clients online
      → (q r : ℕ) → listed q (p ∷ clients) ≡ true
      → listed r (p ∷ clients) ≡ true
      → same_bytes (write_client p c heap q).id (write_client p c heap r).id ≡ true
      → q ≡ r
  unfolding listed
  new_id ids v q r l l' e = elim (Bool-cases (p == q)) [
    | inl a ↦ elim (Bool-cases (p == r)) [
      | inl b ↦ ground arith
      | inr b ↦ absurd (ground (arith, ids r, same_sym c.id (heap r).id))
    ]
    | inr a ↦ elim (Bool-cases (p == r)) [
      | inl b ↦ absurd (ground (arith, ids q))
      | inr b ↦ v.one_id q r (ground arith) (ground arith) (ground arith)
    ]
  ]

  pub Valid-new :
      listed p clients ≡ false
      → ((q : ℕ) → listed q clients ≡ true → same_bytes (heap q).id c.id ≡ false)
      → c.online ≡ false
      → IsMap c.topics
      → Valid heap clients online
      → Valid (write_client p c heap) (p ∷ clients) online
  unfolding listed Distinct
  Valid-new new ids off tops v =
      let other : (q : ℕ) → listed q clients ≡ true → (p == q) ≡ false = λ q l.
        elim (Bool-cases (p == q)) [
          | inl e ↦ let same : p ≡ q = ground arith in absurd (ground arith)
          | inr e ↦ e
        ] in
      record {
        ascending = v.ascending;
        distinct = (new, v.distinct);
        known = (λ k q f. ground (arith, v.known k q f));
        marked = (λ k q f. rw (other q (v.known k q f)) (v.marked k q f));
        has_socket = (λ q l o. elim (Bool-cases (p == q)) [
          | inl e ↦ absurd (ground arith)
          | inr e ↦ v.has_socket q (ground arith) (ground arith)
        ]);
        one_socket = v.one_socket;
        one_id = new_id ids v;
        maps = (λ q l. elim (Bool-cases (p == q)) [
          | inl e ↦ rw e tops
          | inr e ↦ rw e (v.maps q (ground arith))
        ]);
      }
