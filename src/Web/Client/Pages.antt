-- ===== src/Web/Client/Pages.antt =====
-- The loop of client.c that asks for a page count.
use communication_protocols.Base.{
  ℕ, ◌≡◌, ◌<◌, refl, ap, Bool, true, false, ◌&&◌, not, Option, none, some, List, [], ◌∷◌, ◌++◌,
  Bytes, All, ◌==◌, Bool-cases, inl, inr, arith,
}
use communication_protocols.Web.Client.{Library, is_number, ask_pages}

module _ (lib : Library) where
  -- The word is a number other than 0.
  abbrev accepted : Bytes → Bool
  accepted word = is_number word && not (lib.atoi word == 0)

  -- The answer is the number of the first word that is accepted, or there is no such word.
  pub data Asked (words : List Bytes) : Option (ℕ × List Bytes) → Type 0 where
    answered :
        (refused : List Bytes) (word : Bytes) (left : List Bytes)
        → words ≡ refused ++ word ∷ left
        → All (λ w. is_number w && not (lib.atoi w == 0) ≡ false) refused
        → is_number word ≡ true
        → 0 < lib.atoi word
        → Asked words (some (lib.atoi word, left))
    ran_out : All (λ w. is_number w && not (lib.atoi w == 0) ≡ false) words → Asked words none

  Asked-later :
      (word : Bytes) (words : List Bytes) {r : Option (ℕ × List Bytes)}
      → accepted word ≡ false
      → Asked words r
      → Asked (word ∷ words) r
  Asked-later word words b (answered refused w left split all number positive) =
      answered (word ∷ refused) w left (ap (λ l. word ∷ l) split) (b, all) number positive
  Asked-later word words b (ran_out all) = ran_out (b, all)

  -- The page count that is sent is that of the first word typed that is a number other than 0; the
  -- words behind it are left; and the loop gives nothing only if no word that is typed is one.
  pub ask_pages-Asked :
      (page_count : Bytes) (words : List Bytes)
      → Asked (page_count ∷ words) (ask_pages lib page_count words)
  unfolding ask_pages
  ask_pages-Asked page_count [] = elim (Bool-cases (accepted page_count)) [
    | inl b ↦ rw (b, ask_pages) (answered [] page_count [] refl tt (ground arith) (ground arith))
    | inr b ↦ rw (b, ask_pages) (ran_out (b, tt))
  ]
  ask_pages-Asked page_count (word ∷ words) = elim (Bool-cases (accepted page_count)) [
    | inl b ↦
        rw (b, ask_pages)
          (answered [] page_count (word ∷ words) refl tt (ground arith) (ground arith))
    | inr b ↦
        rw (b, ask_pages) (Asked-later page_count (word ∷ words) b (ask_pages-Asked word words))
  ]
