-- ===== src/Http/Headers.antt =====
-- The header list of src/http/client.c over several requests.
use hyperliquid_c.Prelude.{◌≡◌, refl, Option, none, some}
use hyperliquid_c.Prelude.Text.{CString}
use hyperliquid_c.Http.{
  CurlHandle, HttpClient, Transfer, freed_headers, get_handle, http_client_post, free_headers,
  post_handle,
}

-- After a POST with headers the handle points to the list that the call has freed, and a GET that
-- follows is made with it, and with the fields of the POST; so is a POST without headers.
pub http_client_post-stale :
    (perform : CurlHandle → Transfer) (client : HttpClient) (url next headers : CString)
    (body : Option CString)
    → let (_, _, client') = http_client_post perform client url body (some headers) in
      ((get_handle client'.curl next).headers ≡ freed_headers)
      × ((post_handle client'.curl next body none).headers ≡ freed_headers)
unfolding http_client_post free_headers get_handle post_handle
http_client_post-stale perform client url next headers body = (refl, refl)
