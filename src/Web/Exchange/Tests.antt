-- ===== src/Web/Exchange/Tests.antt =====
-- A logout over a connection that takes a byte at a time, with the response in three chunks.
use communication_protocols.Base.{
  ℕ, zero, suc, ◌<◌, ◌≡◌, refl, some, List, [], ◌∷◌, ◌++◌, codes, take, drop, All, ◌>>=◌, fits,
  arith,
}
use communication_protocols.Web.Http.{compute_get_request, add_line, compute_message, get_cookies}
use communication_protocols.Web.Client.{logout, request, logout_request, round}
use communication_protocols.Web.Client.Tests.{library, logged_in, logout_text}
use communication_protocols.Web.Receive.Tests.{
  digit_value, chunks, response, response-IsResponse, response_cut,
}
use communication_protocols.Web.Exchange.{exchange, exchange-round}

abbrev ones : ℕ → List ℕ
ones zero = []
ones (suc n) = 1 ∷ ones n

ones_positive : (n : ℕ) → All (λ k. 0 < k) (ones n)
ones_positive zero = tt
ones_positive (suc n) = (omega arith, ones_positive n)

asked : request library logged_in logout ≡ some logout_text
unfolding request logout_request compute_get_request add_line compute_message fits get_cookies
asked = refl

exchange-round_example :
    exchange library digit_value logged_in logout (ones 200) (take 3 chunks ++ drop 3 chunks) ≡ (do
      (s', sent, shown) ← round library logged_in logout response
      some (s', sent, shown, drop 3 chunks))
exchange-round_example =
    exchange-round library digit_value logged_in logout logout_text (ones 200) response (codes "3")
      3 (take 3 chunks) (drop 3 chunks) asked (ones_positive 200) (omega arith) (omega arith)
      response-IsResponse (λ after. refl) (omega arith) (ground arith) response_cut
