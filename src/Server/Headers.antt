-- ===== src/Server/Headers.antt =====
-- middleware/security.go and middleware/cors.go, with the headers that `Logo` of
-- handlers/organization.go sets itself.
use librelock_server.Common.{
  leb, if◌then◌else◌, length, Text, text, text_eq, ℕ, ◌≡◌, refl, Bool, true, Option, none, some,
  List, [], ◌∷◌,
}

abbrev pub Headers : Type 0
Headers = List (Text × Text)

-- `c.Header`, which replaces what the header was.
unfoldable pub set_header : Text → Text → Headers → Headers
set_header name value [] = (name, value) ∷ []
set_header name value ((n, v) ∷ hs) =
    let rest = set_header name value hs in
    if text_eq n name then (name, value) ∷ hs else (n, v) ∷ rest

set_headers : Headers → Headers → Headers
unfolding set_header
set_headers [] hs = hs
set_headers ((n, v) ∷ new) hs = set_headers new (set_header n v hs)

-- `SecurityHeaders`
abbrev pub security_headers : Headers
security_headers =
    (text "X-Content-Type-Options", text "nosniff")
    ∷ (text "X-Frame-Options", text "DENY")
    ∷ (text "Referrer-Policy", text "no-referrer")
    ∷ (text "Cross-Origin-Resource-Policy", text "same-origin")
    ∷ (text "Content-Security-Policy", text "default-src 'none'")
    ∷ []

-- `CORS`
abbrev pub cors_headers : Text → Headers
cors_headers allowed_origin =
    (text "Access-Control-Allow-Origin", allowed_origin)
    ∷ (text "Access-Control-Allow-Credentials", text "true")
    ∷ (text "Access-Control-Allow-Headers", text "Content-Type, Authorization")
    ∷ (text "Access-Control-Allow-Methods", text "GET, POST, PUT, DELETE, OPTIONS")
    ∷ (text "Access-Control-Expose-Headers", text "X-Session-Expires")
    ∷ []

-- What `Logo` sets before the bytes.
abbrev pub logo_headers : Headers
logo_headers =
    (text "Cross-Origin-Resource-Policy", text "cross-origin")
    ∷ (text "Cache-Control", text "no-cache")
    ∷ (text "Content-Disposition", text "attachment; filename=\"logo\"")
    ∷ []

-- The fixed headers of a response; `is_logo` where the bytes of the logo are served.
unfoldable pub headers : Text → (is_logo : Bool) → Headers
unfolding set_headers
headers allowed_origin is_logo =
    set_headers (if is_logo then logo_headers else [])
      (set_headers (cors_headers allowed_origin) (set_headers security_headers []))

-- `MaxBodySize`: the reading of a longer body ends in an error, and the body does not bind.
unfoldable pub max_body_size : ℕ → List ℕ → Option (List ℕ)
max_body_size limit body = if leb (length body) limit then some body else none

unfoldable pub header_of : Text → Headers → Option Text
header_of name [] = none
header_of name ((n, v) ∷ hs) =
    let rest = header_of name hs in if text_eq n name then some v else rest

-- The logo's headers relax one of the others, and only that one.
logo_relaxes_one :
    (header_of (text "Cross-Origin-Resource-Policy") (headers (text "http://a") true)
      ≡ some (text "cross-origin"))
    × (header_of (text "Content-Security-Policy") (headers (text "http://a") true)
        ≡ some (text "default-src 'none'"))
    × (header_of (text "X-Content-Type-Options") (headers (text "http://a") true)
        ≡ some (text "nosniff"))
    × (length (headers (text "http://a") true) ≡ 12)
unfolding header_of headers text_eq
logo_relaxes_one = (refl, refl, refl, refl)
