-- ===== src/Handlers/Organization/DataUrl.antt =====
-- `parseDataURL` of handlers/organization.go.
use librelock_server.Common.{
  if◌then◌else◌, Text, text, trim_space, ℕ, not, Option, none, some, List, trim_prefix, cut, before,
  contains,
}
use librelock_server.Crypto.Base64.Padded.{base64_decode_padded}

decoded : Text → Option (List ℕ) → Option (Text × List ℕ)
decoded mime none = none
decoded mime (some bytes) = some (mime, bytes)

-- From the text after "data:", split at the comma.
unfoldable pub parse_parts : Option (Text × Text) → Option (Text × List ℕ)
unfolding decoded
parse_parts none = none
parse_parts (some (meta, payload)) =
    if not (contains (text ";base64") meta)
    then none
    else decoded (trim_space (before b';' meta)) (base64_decode_padded payload)

unfoldable pub parse_data_url : Text → Option (Text × List ℕ)
unfolding parse_parts
parse_data_url s = elim (trim_prefix (text "data:") s) [
  | none ↦ none
  | some rest ↦ parse_parts (cut b',' rest)
]
