-- ===== src/Http.antt =====
-- src/http/client.c, which src/http/simple_client.c repeats: the HTTP client over libcurl. A handle of
-- libcurl is the options that the file sets; what a transfer brings is an argument.
pub mod Received
pub mod Headers
use hyperliquid_c.Prelude.{
  ℕ, zero, suc, ◌+◌, ◌-◌, ◌*◌, ◌/◌, ◌%◌, ◌^◌, ◌≤◌, ◌<◌, min, String, ◌≡◌, refl, sym, ap, ap₂, ◌∙◌,
  ◌≢◌, ◌↔◌, ◌⊎◌, inl, inr, Bool, true, false, not, ◌&&◌, ◌||◌, Option, none, some, List, [], ◌∷◌,
  ◌++◌, map, arith, ltb, leb, ◌==◌, if◌then◌else◌, ltb→lt, lt→ltb, leb→le, ==_iff, ==_refl,
  Bool-cases, Option-cases, Sum-cases, &&-eq-true, ◌>>=◌, ◌>>◌, guard, some-injective, >>=-eq-some,
  guard-eq-some, length, get_elem?, set, take, drop, replicate, length-append, length-set,
  length-take, length-drop, length-replicate, get_elem?-drop, get_elem?-lt, drop-head, All-append,
  All-map, All-get_elem?, take_all, take-append_le, take-append-drop, append_cancel, All,
}
use hyperliquid_c.Prelude.Text.{
  CString, str, str_eq, str_eq_refl, str_eq→eq, str_eq_iff, split_at_char, strncpy, c_str, snprintf,
}
use hyperliquid_c.Types.{
  HlError, success, auth, memory, network, json, api, parse, invalid_params, not_found, is_success,
  is_lv3_success, Doubles, CJson, Lv3Error, lv3_success, lv3_network,
}

-- The header list that a handle points to, which libcurl does not copy.
pub data HeaderList : Type 0 where
  no_headers : HeaderList
  live_headers : CString → HeaderList
  freed_headers : HeaderList

pub record CurlHandle : Type 0 where
  pub url : CString
  pub is_post : Bool
  pub postfields : Option CString
  pub headers : HeaderList
  pub proxy : Option CString

-- `struct http_client`; the options that are set once are left out.
pub record HttpClient : Type 0 where
  pub curl : CurlHandle
  pub timeout_ms : ℕ

-- `http_response_t` without the headers, which stay null: the body without its terminating zero.
pub record Response : Type 0 where
  pub status_code : ℕ
  pub body : Option (List ℕ)
  pub body_size : ℕ

abbrev pub zero_response : Response
zero_response = record { status_code = 0; body = none; body_size = 0 }

-- What a transfer brings: whether libcurl reports no error, the chunks that it gives to the callback,
-- each with whether there is memory for it, and the status.
pub record Transfer : Type 0 where
  pub ok : Bool
  pub chunks : List (List ℕ × Bool)
  pub status : ℕ

unfoldable pub body_bytes : Response → List ℕ
body_bytes r = elim r.body [ none ↦ [] | some bytes ↦ bytes ]

-- How many bytes are taken, and the response.
unfoldable pub write_callback : List ℕ → Bool → Response → ℕ × Response
write_callback contents realloc r =
    if realloc
    then (
      length contents,
      record r {
        body = some (body_bytes r ++ contents);
        body_size = r.body_size + length contents;
      },
    )
    else (0, r)

-- The calls of the callback in one transfer, in order.
unfoldable pub receive : List (List ℕ × Bool) → Response → Response
receive [] r = r
receive ((contents, realloc) ∷ chunks) r = receive chunks (write_callback contents realloc r).1

-- Whether each call of them returns the number of bytes that it was given.
unfoldable pub all_taken : List (List ℕ × Bool) → Response → Bool
all_taken [] r = true
all_taken ((contents, realloc) ∷ chunks) r =
    let (taken, r') = write_callback contents realloc r in
    taken == length contents && all_taken chunks r'

unfoldable pub http_response_free : Response → Response
http_response_free r = zero_response

-- The end of both requests.
unfoldable pub finish_request : Transfer → Lv3Error × Response
finish_request t =
    let r = receive t.chunks zero_response in
    if not t.ok
    then (lv3_network, http_response_free r)
    else (lv3_success, record r { status_code = t.status })

-- Memory for the client, and libcurl's handle.
unfoldable pub http_client_create : Bool → Bool → Option HttpClient
http_client_create calloc curl_easy_init =
    if not calloc
    then none
    else if not curl_easy_init
    then none
    else some (record {
      curl = record {
        url = [];
        is_post = false;
        postfields = none;
        headers = no_headers;
        proxy = none;
      };
      timeout_ms = 30000;
    })

-- The handle that a GET is made with.
unfoldable pub get_handle : CurlHandle → CString → CurlHandle
get_handle h url = record h { url = url; is_post = false }

unfoldable pub http_client_get :
    (CurlHandle → Transfer) → HttpClient → CString → Lv3Error × Response × HttpClient
http_client_get perform client url =
    let h = get_handle client.curl url in
    let (err, r) = finish_request (perform h) in (err, r, record client { curl = h })

-- The handle that a POST is made with: the fields and the headers of an earlier request stay where
-- the call gives none.
unfoldable pub post_handle : CurlHandle → CString → Option CString → Option CString → CurlHandle
post_handle h url body headers = record h {
  url = url;
  is_post = true;
  postfields = elim body [ none ↦ h.postfields | some b ↦ some b ];
  headers = elim headers [ none ↦ h.headers | some s ↦ live_headers s ];
}

-- The list of this call is freed.
unfoldable pub free_headers : Option CString → CurlHandle → CurlHandle
free_headers none h = h
free_headers (some s) h = record h { headers = freed_headers }

unfoldable pub http_client_post :
    (CurlHandle → Transfer)
    → HttpClient
    → CString
    → Option CString
    → Option CString
    → Lv3Error × Response × HttpClient
http_client_post perform client url body headers =
    let h = post_handle client.curl url body headers in
    let (err, r) = finish_request (perform h) in
    (err, r, record client { curl = free_headers headers h })

unfoldable pub http_client_set_proxy : HttpClient → Option CString → HttpClient
http_client_set_proxy client proxy_url = record client {
  curl = record client.curl { proxy = proxy_url };
}

unfoldable pub http_client_test_connection :
    (CurlHandle → Transfer) → HttpClient → Option CString → Bool
http_client_test_connection perform client test_url =
    let url : CString = elim test_url [ none ↦ str "https://httpbin.org/get" | some u ↦ u ] in
    let (err, r, _) = http_client_get perform client url in
    is_lv3_success err && r.status_code == 200
