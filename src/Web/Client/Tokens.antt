-- ===== src/Web/Client/Tokens.antt =====
-- The library's token over the commands of client.c.
use communication_protocols.Base.{
  ◌>>=◌, bind-some, ◌≡◌, ◌∙◌, ap, sym, ◌⊎◌, Bool, true, false, ◌&&◌, Option, none, some, List, [],
  ◌∷◌, Bytes, Option-cases, inl, inr, arith,
}
use communication_protocols.Web.Http.{compute_get_request, basic_extract_json_response}
use communication_protocols.Web.Client.{
  Session, Library, Command, register, login, enter_library, get_books, get_book, add_book,
  delete_book, logout, host, books_url, request, receive, round, rounds, token_before,
}

-- Any command but the one that enters the library.
pub stays_out : Command → Bool
stays_out enter_library = false
stays_out (register username password) = true
stays_out (login username password) = true
stays_out get_books = true
stays_out (get_book id) = true
stays_out (add_book title author genre publisher page_count words) = true
stays_out (delete_book id) = true
stays_out logout = true

unfoldable pub all_out : List (Command × Bytes) → Bool
unfolding stays_out
all_out [] = true
all_out ((command, response) ∷ rest) = stays_out command && all_out rest

same_session :
    {B : Type 0} (s s' : Session) (x y : B)
    → ◌≡◌ {A = Option (Session × B)} (some (s, x)) (some (s', y))
    → s ≡ s'
same_session s s' x y h = ground arith

shown_session :
    (o : Option Bytes) (s s' : Session) (shown : Bytes)
    → ◌>>=◌ {B = Session × Bytes} o (λ text. some (s, text)) ≡ some (s', shown)
    → s ≡ s'
shown_session none s s' shown h = absurd (ground arith)
shown_session (some text) s s' shown h = same_session s s' text shown h

login_token :
    (o : Option Bytes) (s s' : Session) (shown : Bytes)
    → ◌>>=◌ {B = Session × Bytes} o
        (λ text. some (record s { cookie = some (token_before text) }, token_before text))
      ≡ some (s', shown)
    → s.token ≡ s'.token
login_token none s s' shown h = absurd (ground arith)
login_token (some text) s s' shown h =
    ap (λ x. x.token) (same_session (record s { cookie = some (token_before text) }) s' _ shown h)

module _ (lib : Library) where
  -- A command that is not the entry leaves the token or removes it.
  receive-token :
      (s : Session) (command : Command) (response : Bytes) (s' : Session) (shown : Bytes)
      → stays_out command ≡ true
      → receive lib s command response ≡ some (s', shown)
      → (s'.token ≡ s.token) ⊎ (s'.token ≡ none)
  unfolding receive stays_out
  receive-token s (register username password) response s' shown out h =
      inl (ap (λ x. x.token) (sym (same_session _ _ _ _ h)))
  receive-token s (login username password) response s' shown out h =
      elim (Option-cases (basic_extract_json_response response)) [
        | inl e ↦ inl (sym (login_token _ s s' shown (rw (e, receive) at h)))
        | inr (json, e) ↦
            inl (ap (λ x. x.token) (sym (same_session _ _ _ _ (rw (e, receive) at h))))
      ]
  receive-token s enter_library response s' shown out h = absurd (ground arith)
  receive-token s get_books response s' shown out h =
      inl (ap (λ x. x.token) (sym (shown_session _ s s' shown h)))
  receive-token s (get_book id) response s' shown out h =
      inl (ap (λ x. x.token) (sym (shown_session _ s s' shown h)))
  receive-token s (add_book title author genre publisher page_count words) response s' shown out h =
      inl (ap (λ x. x.token) (sym (same_session _ _ _ _ h)))
  receive-token s (delete_book id) response s' shown out h =
      inl (ap (λ x. x.token) (sym (same_session _ _ _ _ h)))
  receive-token s logout response s' shown out h =
      inr (ap (λ x. x.token) (sym (same_session _ _ _ _ h)))

  round-token :
      (s : Session) (command : Command) (response : Bytes) (s' : Session) (message shown : Bytes)
      → round lib s command response ≡ some (s', message, shown)
      → receive lib s command response ≡ some (s', shown)
  unfolding round
  round-token s command response s' message shown h =
      let (sent, e, after) = bind-some (request lib s command) _ _ h in
      let ((s1, text), e1, after1) = bind-some (receive lib s command response) _ _ after in
      let same : (s1, text) ≡ (s', shown) = ground arith in e1 ∙ ap some same

  logout-token :
      (s : Session) (response : Bytes) (s' : Session) (message shown : Bytes)
      → round lib s logout response ≡ some (s', message, shown)
      → s'.token ≡ none
  unfolding receive
  logout-token s response s' message shown h =
      ap (λ x. x.token)
        (sym (same_session _ _ _ _ (round-token s logout response s' message shown h)))

  rounds-token :
      (rest : List (Command × Bytes)) (s s' : Session) (messages : List Bytes)
      → all_out rest ≡ true
      → s.token ≡ none
      → rounds lib s rest ≡ some (s', messages)
      → s'.token ≡ none
  unfolding rounds all_out
  rounds-token [] s s' messages out e h = ap (λ x. x.token) (sym (same_session _ _ _ _ h)) ∙ e
  rounds-token ((command, response) ∷ rest) s s' messages out e h =
      let ((s1, message, shown), first, after) = bind-some (round lib s command response) _ _ h in
      let ((s2, messages'), second, after') = bind-some (rounds lib s1 rest) _ _ after in
      let same : s2 ≡ s' = ground arith in
      let e1 =
        receive-token s command response s1 shown (ground arith)
          (round-token s command response s1 message shown first) in
      rounds-token rest s1 s' messages' (ground arith) (ground (arith, e1))
        (second ∙ ap (λ x. some (x, messages')) same)

  -- After a logout and then any commands but the entry into the library, the session has no token,
  -- so that the next request for the books is made of the session's cookie alone.
  pub rounds-logout :
      (s s' : Session) (response : Bytes) (rest : List (Command × Bytes)) (messages : List Bytes)
      → all_out rest ≡ true
      → rounds lib s ((logout, response) ∷ rest) ≡ some (s', messages)
      → (s'.token ≡ none)
        × (request lib s' get_books ≡ compute_get_request host books_url (some (s'.cookie, none)) 2)
  unfolding rounds request
  rounds-logout s s' response rest messages out h =
      let ((s1, message, shown), first, after) = bind-some (round lib s logout response) _ _ h in
      let ((s2, messages'), second, after') = bind-some (rounds lib s1 rest) _ _ after in
      let same : s2 ≡ s' = ground arith in
      let e1 = logout-token s response s1 message shown first in
      let gone =
        rounds-token rest s1 s' messages' out e1 (second ∙ ap (λ x. some (x, messages')) same) in
      (gone, ap (λ t. compute_get_request host books_url (some (s'.cookie, t)) 2) gone)
