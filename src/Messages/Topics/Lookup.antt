-- ===== src/Messages/Topics/Lookup.antt =====
-- The topics of helpers.cpp as a finite map from names to the store-and-forward flag.
use communication_protocols.Base.{
  ◌≡◌, refl, ap, Bool, true, false, inl, inr, ◌⊎◌, Option, none, some, List, [], ◌∷◌, Bytes,
  same_bytes, same_bytes-eq, Bool-cases, Option-cases, All, if◌then◌else◌, arith,
}
use mathlib.Core.Path.{subst}
use communication_protocols.Messages.Topics.{Topic, set_sf, add_topic, unlink, remove_topic}

-- No name stands twice in the list.
unfoldable pub IsMap : List Topic → Type 0
IsMap [] = Unit
IsMap (t ∷ topics) = All (λ u. same_bytes u.name t.name ≡ false) topics × IsMap topics

-- The flag of a name, if the client has subscribed to it.
unfoldable pub flag : List Topic → Bytes → Option Bool
flag [] name = none
flag (t ∷ topics) name = if same_bytes t.name name then some t.sf else flag topics name

pub same_sym : (xs ys : Bytes) → same_bytes xs ys ≡ same_bytes ys xs
unfolding same_bytes
same_sym [] [] = refl
same_sym [] (y ∷ ys) = refl
same_sym (x ∷ xs) [] = refl
same_sym (x ∷ xs) (y ∷ ys) = ground (arith, same_sym xs ys)

same_left : (xs ys zs : Bytes) → same_bytes xs ys ≡ true → same_bytes xs zs ≡ same_bytes ys zs
same_left xs ys zs h = ap (λ l. same_bytes l zs) (same_bytes-eq xs ys h)

-- A text that is the same as one of two different texts is not the same as the other.
different :
    (xs ys zs : Bytes)
    → same_bytes xs ys ≡ false
    → same_bytes ys zs ≡ true
    → same_bytes xs zs ≡ false
different xs ys zs h e =
    let same = same_bytes-eq ys zs e in subst (λ l. same_bytes xs l ≡ false) same h

abbrev set_flag : Bytes → Bool → List Topic → Bytes → Option Bool
set_flag name sf topics other = if same_bytes name other then some sf else flag topics other

-- What the loop does at a node.
set_sf_cons :
    (name : Bytes) (sf : Bool) (t : Topic) (topics topics' : List Topic)
    → set_sf name sf (t ∷ topics) ≡ some topics'
    → ((same_bytes t.name name ≡ true) × (record t { sf = sf } ∷ topics ≡ topics'))
      ⊎ ((same_bytes t.name name ≡ false)
          × (rest : List Topic) × (set_sf name sf topics ≡ some rest)
          × (t ∷ rest ≡ topics'))
unfolding set_sf
set_sf_cons name sf t topics topics' h = elim (Bool-cases (same_bytes t.name name)) [
  | inl b ↦ inl (b, ground arith)
  | inr b ↦ elim (Option-cases (set_sf name sf topics)) [
    | inl e ↦ absurd (ground arith)
    | inr (rest, e) ↦ inr (b, rest, e, ground arith)
  ]
]

set_sf-flag :
    (name : Bytes) (sf : Bool) (topics topics' : List Topic) (other : Bytes)
    → set_sf name sf topics ≡ some topics'
    → flag topics' other ≡ set_flag name sf topics other
unfolding flag
set_sf-flag name sf [] topics' other h = unfold set_sf in absurd (ground arith)
set_sf-flag name sf (t ∷ topics) topics' other h = elim (set_sf_cons name sf t topics topics' h) [
  | inl (b, same) ↦
      subst (λ l. flag l other ≡ set_flag name sf (t ∷ topics) other) same
        (ground (arith, same_left t.name name other))
  | inr (b, rest, e, same) ↦
      subst (λ l. flag l other ≡ set_flag name sf (t ∷ topics) other) same
        (ground (arith, set_sf-flag name sf topics rest other e, different t.name name other))
]

set_sf-none :
    (name : Bytes) (sf : Bool) (topics : List Topic)
    → set_sf name sf topics ≡ none
    → All (λ u. same_bytes u.name name ≡ false) topics
unfolding set_sf
set_sf-none name sf [] h = tt
set_sf-none name sf (t ∷ topics) h = elim (Bool-cases (same_bytes t.name name)) [
  | inl b ↦ absurd (ground arith)
  | inr b ↦ (b, set_sf-none name sf topics (ground arith))
]

-- Adding a topic sets the flag of its name, and no other.
pub add_topic-flag :
    (name : Bytes) (sf : Bool) (topics : List Topic) (other : Bytes)
    → flag (add_topic name sf topics) other ≡ set_flag name sf topics other
unfolding add_topic flag
add_topic-flag name sf topics other = elim (Option-cases (set_sf name sf topics)) [
  | inl e ↦ rw (e, add_topic) refl
  | inr (topics', e) ↦ rw (e, add_topic) (set_sf-flag name sf topics topics' other e)
]

-- Every name of the list differs from this one.
abbrev Lacks : Bytes → List Topic → Type 0
Lacks name = All (λ u. same_bytes u.name name ≡ false)

set_sf-Lacks :
    (name other : Bytes) (sf : Bool) (topics topics' : List Topic)
    → set_sf name sf topics ≡ some topics'
    → Lacks other topics
    → Lacks other topics'
set_sf-Lacks name other sf [] topics' h l = unfold set_sf in absurd (ground arith)
set_sf-Lacks name other sf (t ∷ topics) topics' h (l, ls) =
    elim (set_sf_cons name sf t topics topics' h) [
      | inl (b, same) ↦ subst (Lacks other) same (l, ls)
      | inr (b, rest, e, same) ↦
          subst (Lacks other) same (l, set_sf-Lacks name other sf topics rest e ls)
    ]

set_sf-IsMap :
    (name : Bytes) (sf : Bool) (topics topics' : List Topic)
    → set_sf name sf topics ≡ some topics'
    → IsMap topics
    → IsMap topics'
unfolding IsMap
set_sf-IsMap name sf [] topics' h v = unfold set_sf in absurd (ground arith)
set_sf-IsMap name sf (t ∷ topics) topics' h (l, v) = elim (set_sf_cons name sf t topics topics' h) [
  | inl (b, same) ↦ subst IsMap same (l, v)
  | inr (b, rest, e, same) ↦
      subst IsMap same
        (set_sf-Lacks name t.name sf topics rest e l, set_sf-IsMap name sf topics rest e v)
]

pub add_topic-IsMap :
    (name : Bytes) (sf : Bool) (topics : List Topic)
    → IsMap topics
    → IsMap (add_topic name sf topics)
unfolding add_topic IsMap
add_topic-IsMap name sf topics v = elim (Option-cases (set_sf name sf topics)) [
  | inl e ↦ rw (e, add_topic) (set_sf-none name sf topics e, v)
  | inr (topics', e) ↦ rw (e, add_topic) (set_sf-IsMap name sf topics topics' e v)
]

-- The special case of the head does what the loop does.
remove_topic-unlink :
    (name : Bytes) (topics : List Topic) → remove_topic name topics ≡ unlink name topics
unfolding remove_topic unlink
remove_topic-unlink name [] = refl
remove_topic-unlink name (t ∷ topics) = ground arith

abbrev clear_flag : Bytes → List Topic → Bytes → Option Bool
clear_flag name topics other = if same_bytes name other then none else flag topics other

Lacks-flag : (name : Bytes) (topics : List Topic) → Lacks name topics → flag topics name ≡ none
unfolding flag
Lacks-flag name [] l = refl
Lacks-flag name (t ∷ topics) (l, ls) = rw l (Lacks-flag name topics ls)

unlink-flag :
    (name : Bytes) (topics : List Topic) (other : Bytes)
    → IsMap topics
    → flag (unlink name topics) other ≡ clear_flag name topics other
unfolding unlink flag IsMap
unlink-flag name [] other v = ground arith
unlink-flag name (t ∷ topics) other (l, v) = elim (Bool-cases (same_bytes t.name name)) [
  | inl b ↦
      let left = same_left t.name name other b in
      elim (Bool-cases (same_bytes t.name other)) [
        | inl b' ↦
            let gone =
              subst (λ n. flag topics n ≡ none) (same_bytes-eq t.name other b')
                (Lacks-flag t.name topics l) in
            ground arith
        | inr b' ↦ ground arith
      ]
  | inr b ↦ ground (arith, unlink-flag name topics other v, different t.name name other)
]

unlink-Lacks :
    (name other : Bytes) (topics : List Topic)
    → Lacks other topics
    → Lacks other (unlink name topics)
unfolding unlink
unlink-Lacks name other [] l = tt
unlink-Lacks name other (t ∷ topics) (l, ls) = elim (Bool-cases (same_bytes t.name name)) [
  | inl b ↦ rw (b, unlink) ls
  | inr b ↦ rw (b, unlink) (l, unlink-Lacks name other topics ls)
]

unlink-IsMap : (name : Bytes) (topics : List Topic) → IsMap topics → IsMap (unlink name topics)
unfolding unlink IsMap
unlink-IsMap name [] v = tt
unlink-IsMap name (t ∷ topics) (l, v) = elim (Bool-cases (same_bytes t.name name)) [
  | inl b ↦ rw (b, unlink) v
  | inr b ↦ rw (b, unlink) (unlink-Lacks name t.name topics l, unlink-IsMap name topics v)
]

pub remove_topic-flag :
    (name : Bytes) (topics : List Topic) (other : Bytes)
    → IsMap topics
    → flag (remove_topic name topics) other ≡ clear_flag name topics other
remove_topic-flag name topics other v =
    rw (remove_topic-unlink name topics) (unlink-flag name topics other v)

pub remove_topic-IsMap :
    (name : Bytes) (topics : List Topic) → IsMap topics → IsMap (remove_topic name topics)
remove_topic-IsMap name topics v = rw (remove_topic-unlink name topics) (unlink-IsMap name topics v)
