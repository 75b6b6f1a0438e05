-- ===== src/Http/Headers.antt =====
-- `SecurityHeadersMiddleware` and `RequestIDMiddleware` of app/core/middleware.py. Log lines and their
-- context are left out. An exception that `call_next` raises is `raised`.
use askit_backend.Prelude.{
  Bool, Option, String, arith, false, if◌then◌else◌, is_empty, nat_eq, none, refl, some, string_eq,
  ◌==◌, ◌||◌, ◌∙◌, ◌≡◌,
}
use askit_backend.Prelude.Dict.{Dict, insert, lookup, lookup-insert}

pub data Outcome (E R : Type 0) : Type 0 where
  responded : R → Outcome E R
  raised : E → Outcome E R

pub record Response (Body : Type 0) : Type 0 where
  pub body : Body
  pub headers : Dict String

abbrev pub with_header : {Body : Type 0} → String → String → Response Body → Response Body
with_header name value response = record response { headers = insert name value response.headers }

abbrev pub secured : {Body : Type 0} → Response Body → Response Body
secured response =
    with_header "Strict-Transport-Security" "max-age=31536000; includeSubDomains" (
      with_header "X-Frame-Options" "DENY"
        (with_header "X-Content-Type-Options" "nosniff" response))

-- The id that the client sent, unless it is empty, or a new one.
abbrev pub id_or : String → Option String → String
id_or fresh none = fresh
id_or fresh (some sent) = if is_empty sent then fresh else sent

abbrev pub Endpoint : Type 0 → Type 0 → Type 0 → Type 0
Endpoint Req E Body = Req → Outcome E (Response Body)

-- What is done to a response, if there is one.
abbrev pub on_response :
    {E Body : Type 0}
    → (Response Body → Response Body)
    → Outcome E (Response Body)
    → Outcome E (Response Body)
on_response f (responded response) = responded (f response)
on_response f (raised e) = raised e

unfoldable pub security_headers : {Req E Body : Type 0} → Endpoint Req E Body → Endpoint Req E Body
security_headers call_next request = on_response secured (call_next request)

-- `sent` is the header of a request, and `fresh` the id that is drawn for it.
unfoldable pub request_id :
    {Req E Body : Type 0}
    → (Req → Option String)
    → (Req → String)
    → Endpoint Req E Body
    → Endpoint Req E Body
request_id sent fresh call_next request =
    on_response (with_header "X-Request-ID" (id_or (fresh request) (sent request)))
      (call_next request)

-- As app/main.py nests the two: the one that is added later is outside.
unfoldable pub served :
    {Req E Body : Type 0}
    → (Req → Option String)
    → (Req → String)
    → Endpoint Req E Body
    → Endpoint Req E Body
served sent fresh app = request_id sent fresh (security_headers app)

-- The headers that are set.
abbrev pub is_set : String → Bool
is_set name =
    "X-Request-ID" == name
    || "Strict-Transport-Security" == name
    || "X-Frame-Options" == name
    || "X-Content-Type-Options" == name

-- The headers of a response on its way out.
out_headers :
    (id name : String) (d : Dict String)
    → lookup name (
        insert "X-Request-ID" id (
          insert "Strict-Transport-Security" "max-age=31536000; includeSubDomains"
            (insert "X-Frame-Options" "DENY" (insert "X-Content-Type-Options" "nosniff" d))))
      ≡ (if "X-Request-ID" == name
          then some id
          else if "Strict-Transport-Security" == name
          then some "max-age=31536000; includeSubDomains"
          else if "X-Frame-Options" == name
          then some "DENY"
          else if "X-Content-Type-Options" == name
          then some "nosniff"
          else lookup name d)
out_headers id name d = simp (lookup-insert)

module _ {Req E Body : Type 0} (sent : Req → Option String) (fresh : Req → String)
    (app : Endpoint Req E Body) (request : Req) where
  -- An exception passes through as it is.
  pub served_raised : {e : E} → app request ≡ raised e → served sent fresh app request ≡ raised e
  unfolding served request_id security_headers
  served_raised h = ground (arith, h)

  -- Every response that the application makes goes out with the same body, with the id of its
  -- request, and with the security headers, whatever headers it had. Its other headers stay.
  pub served_headers :
      {response : Response Body}
      → app request ≡ responded response
      → (out : Response Body) × (served sent fresh app request ≡ responded out)
        × (out.body ≡ response.body)
        × (lookup "X-Request-ID" out.headers ≡ some (id_or (fresh request) (sent request)))
        × (lookup "X-Content-Type-Options" out.headers ≡ some "nosniff")
        × (lookup "X-Frame-Options" out.headers ≡ some "DENY")
        × (lookup "Strict-Transport-Security" out.headers
            ≡ some "max-age=31536000; includeSubDomains")
        × ((name : String)
            → is_set name ≡ false
            → lookup name out.headers ≡ lookup name response.headers)
  unfolding served request_id security_headers
  served_headers {response} h =
      let id = id_or (fresh request) (sent request) in
      (
        with_header "X-Request-ID" id (secured response),
        ground (arith, h),
        refl,
        out_headers id "X-Request-ID" response.headers,
        out_headers id "X-Content-Type-Options" response.headers,
        out_headers id "X-Frame-Options" response.headers,
        out_headers id "Strict-Transport-Security" response.headers,
        λ name free. out_headers id name response.headers ∙ (ground (arith, free)),
      )
