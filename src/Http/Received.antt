-- ===== src/Http/Received.antt =====
-- What the HTTP client of src/http/client.c receives.
use hyperliquid_c.Prelude.{
  ℕ, ◌+◌, ◌≡◌, refl, sym, ◌∙◌, ◌⊎◌, inl, inr, Bool, true, false, Option, some, List, [], ◌∷◌, ◌++◌,
  arith, ◌==◌, ==_iff, Bool-cases, &&-eq-true, length, length-append,
}
use hyperliquid_c.Prelude.Text.{CString}
use hyperliquid_c.Types.{lv3_success, lv3_network}
use mathlib.Core.List.{append_assoc, append-nil}
use mathlib.Core.Path.{subst}
use mathlib.Core.Logic.{◌⊎◌, inl, inr}
use hyperliquid_c.Http.{
  CurlHandle, HttpClient, Response, zero_response, Transfer, body_bytes, write_callback, receive,
  all_taken, http_response_free, finish_request, http_client_post, post_handle,
}

-- The bytes of all chunks.
abbrev pub joined : List (List ℕ × Bool) → List ℕ
joined [] = []
joined ((contents, _) ∷ chunks) = contents ++ joined chunks

length-zero : {A : Type 0} (xs : List A) → length xs ≡ 0 → xs ≡ []
length-zero [] h = refl
length-zero (x ∷ xs) h = absurd (omega arith)

-- libcurl reports an error if the callback does not take all bytes of a chunk.
pub record IsCurl (perform : CurlHandle → Transfer) : Type 0 where
  pub stops :
      (h : CurlHandle) → (perform h).ok ≡ true → all_taken (perform h).chunks zero_response ≡ true

receive_lem :
    (chunks : List (List ℕ × Bool)) (r : Response)
    → all_taken chunks r ≡ true
    → (body_bytes (receive chunks r) ≡ body_bytes r ++ joined chunks)
      × ((receive chunks r).body_size ≡ r.body_size + length (joined chunks))
unfolding receive all_taken write_callback body_bytes
receive_lem [] r h = (sym (append-nil (body_bytes r)), omega arith)
receive_lem ((contents, true) ∷ chunks) r h =
    let next = record r {
      body = some (body_bytes r ++ contents);
      body_size = r.body_size + length contents;
    } in
    let (_, later) = &&-eq-true (length contents == length contents) (all_taken chunks next) h in
    let (bytes, size) = receive_lem chunks next later in
    (
      bytes ∙ append_assoc (body_bytes r) contents (joined chunks),
      size ∙ rw (length-append contents (joined chunks)) (omega arith),
    )
receive_lem ((contents, false) ∷ chunks) r h =
    let (empty, later) = &&-eq-true (0 == length contents) (all_taken chunks r) h in
    let none_left : contents ≡ [] =
      length-zero contents (sym ((==_iff 0 (length contents)).0 empty)) in
    subst
      (λ c.
        (body_bytes (receive chunks r) ≡ body_bytes r ++ (c ++ joined chunks))
        × ((receive chunks r).body_size ≡ r.body_size + length (c ++ joined chunks)))
      (sym none_left) (receive_lem chunks r later)

-- A request succeeds exactly where libcurl reports no error. Then the body has the bytes of all
-- chunks, in order, with their number and the status: none was lost for want of memory, if libcurl
-- reports an error where the callback takes too few bytes. Otherwise the result is a network error,
-- and nothing is left in the response.
pub http_client_post_lem :
    (perform : CurlHandle → Transfer) (client : HttpClient) (url : CString)
    (body headers : Option CString)
    → IsCurl perform
    → let t = perform (post_handle client.curl url body headers) in
      let (err, r, _) = http_client_post perform client url body headers in
      ((err ≡ lv3_success)
        × (t.ok ≡ true)
        × (body_bytes r ≡ joined t.chunks)
        × (r.body_size ≡ length (joined t.chunks))
        × (r.status_code ≡ t.status))
      ⊎ ((err ≡ lv3_network) × (t.ok ≡ false) × (r ≡ zero_response))
unfolding http_client_post finish_request http_response_free body_bytes
http_client_post_lem perform client url body headers curl =
    let h = post_handle client.curl url body headers in
    elim (Bool-cases (perform h).ok) [
      | inr failed ↦ simp (http_client_post, finish_request, failed) (inr (refl, refl, refl))
      | inl ok ↦
          let (bytes, size) = receive_lem (perform h).chunks zero_response (curl.stops h ok) in
          simp (http_client_post, finish_request, ok)
            (inl (refl, refl, bytes, size ∙ omega arith, refl))
    ]
