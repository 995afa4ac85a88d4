-- ===== src/Handlers/Organization/Logos.antt =====
-- A logo, from its data URL to the bytes that anyone is served.
use librelock_server.Common.{
  ltb, ◌==◌, Bool-cases, is_some, All, length, any, Text, text, text_eq, text_eq_iff, is_empty,
  is_space, trim_space, ℕ, ◌≤◌, ◌<◌, ◌≡◌, refl, sym, subst, inl, inr, true, false, ◌||◌, some, List,
  [], ◌∷◌, ◌++◌, arith, before, contains, cut, trim_left,
}
use librelock_server.AppMode.{Provider, is_organization}
use librelock_server.Crypto.Base64.Padded.{base64_encode_padded, base64_decode_padded-encode}
use librelock_server.Env.{Env}
use librelock_server.Handlers.Organization.DataUrl.{parse_data_url, parse_parts}
use librelock_server.Handlers.Organization.Effects.{change-succeeds, change-writes}
use librelock_server.Handlers.Organization.Logo.{
  is_allowed_mime, allowed_logo_mimes, upload_logo, max_logo_bytes, upload_parts, store_logo,
  with_logo,
}
use librelock_server.Handlers.Organization.Public.{show_logo, logo_of}
use librelock_server.Handlers.Organization.Row.{get_or_create, or_created, change}
use librelock_server.Http.{reply, logo}
use librelock_server.Models.{Organization, Db, has_logo, User, org_logo_updated}

-- The data URL that a client writes.
unfoldable pub data_url : Text → List ℕ → Text
data_url mime bytes = text "data:" ++ mime ++ text ";base64," ++ base64_encode_padded bytes

-- No comma and no semicolon.
abbrev pub IsMime : Text → Type 0
IsMime mime = any (λ c. c == b',' || c == b';') mime ≡ false

cut_url :
    (mime payload : Text)
    → IsMime mime
    → cut b',' (mime ++ text ";base64," ++ payload) ≡ some (mime ++ text ";base64", payload)
cut_url [] payload h = refl
cut_url (c ∷ mime) payload h = ground (arith, cut_url mime payload)

contains_url : (mime : Text) → contains (text ";base64") (mime ++ text ";base64") ≡ true
contains_url [] = refl
contains_url (c ∷ mime) = ground (arith, contains_url mime)

before_url : (mime : Text) → IsMime mime → before b';' (mime ++ text ";base64") ≡ mime
before_url [] h = refl
before_url (c ∷ mime) h = ground (arith, before_url mime)

pub parse_data_url-data_url :
    (mime : Text) (bytes : List ℕ)
    → IsMime mime
    → All (λ b. b < 256) bytes
    → parse_data_url (data_url mime bytes) ≡ some (trim_space mime, bytes)
unfolding parse_data_url data_url parse_parts
parse_data_url-data_url mime bytes m h =
    rw
      (
        cut_url mime (base64_encode_padded bytes) m,
        contains_url mime,
        before_url mime m,
        base64_decode_padded-encode bytes h,
      )
      refl

-- An allowed type is as it is written, with no blanks around it.
abbrev IsWritten : Text → Type 0
IsWritten mime = IsMime mime × (trim_space mime ≡ mime)

any-text_eq :
    (P : Text → Type 0) (mime : Text) (mimes : List Text)
    → All P mimes
    → any (text_eq mime) mimes ≡ true
    → P mime
any-text_eq P mime [] h e = cc
any-text_eq P mime (m ∷ ms) (here, h) e = elim (Bool-cases (text_eq mime m)) [
  | inl same ↦ subst P (sym ((text_eq_iff mime m).0 same)) here
  | inr other ↦ any-text_eq P mime ms h (rw other at e)
]

allowed-IsWritten : (mime : Text) → is_allowed_mime mime ≡ true → IsWritten mime
unfolding is_allowed_mime trim_space is_space trim_left
allowed-IsWritten mime h =
    any-text_eq IsWritten mime allowed_logo_mimes
      ((refl, refl), ((refl, refl), ((refl, refl), ((refl, refl), ((refl, refl), tt))))) h

-- The row that is there is loaded.
pub get_or_create-row :
    (env : Env) (o : Organization) (os : List Organization) (db : Db)
    → env.fault 0 ≡ false
    → db.organization ≡ some (o ∷ os)
    → get_or_create env db ≡ some (o, db)
unfolding get_or_create or_created
get_or_create-row env o os db f l = rw (f, l) refl

served :
    (env : Env) (p : Provider) (o : Organization) (os : List Organization) (db : Db)
    → env.fault 0 ≡ false
    → is_organization p.mode ≡ true
    → has_logo o ≡ true
    → db.organization ≡ some (o ∷ os)
    → (show_logo env p db).0 ≡ reply 200 (logo o.logo_mime_type o.logo_data)
unfolding show_logo logo_of
served env p o os db f m has l = rw (m, get_or_create-row env o os db f l, has) refl

data_url-is_empty : (mime : Text) (bytes : List ℕ) → is_empty (data_url mime bytes) ≡ false
unfolding data_url
data_url-is_empty mime bytes = refl

upload_parsed :
    (env : Env) (u : User) (p : Provider) (mime : Text) (bytes : List ℕ) (db : Db)
    → is_allowed_mime mime ≡ true
    → All (λ b. b < 256) bytes
    → ltb max_logo_bytes (length bytes) ≡ false
    → upload_logo env u p (some (data_url mime bytes)) db
      ≡ change env u p "Failed to save logo" org_logo_updated
          (with_logo mime bytes (env.clock 1))
          db
unfolding upload_logo upload_parts store_logo
upload_parsed env u p mime bytes db ok h small =
    let (m, same) = allowed-IsWritten mime ok in
    rw (data_url-is_empty mime bytes, parse_data_url-data_url mime bytes m h, same, ok, small) refl

-- An upload of the data URL of a logo of an allowed type, from 1 byte to 512 KiB, succeeds where
-- no statement fails, and anyone who then asks for the logo of the organization gets that type
-- and exactly those bytes, if the search does not fail.
pub upload-serves :
    (env later : Env) (u : User) (p : Provider) (mime : Text) (bytes : List ℕ) (db : Db)
    → is_allowed_mime mime ≡ true
    → All (λ b. b < 256) bytes
    → 0 < length bytes
    → length bytes ≤ max_logo_bytes
    → ((i : ℕ) → env.fault i ≡ false)
    → later.fault 0 ≡ false
    → is_some db.organization ≡ true
    → is_organization p.mode ≡ true
    → let out = upload_logo env u p (some (data_url mime bytes)) db in
      (out.0.status ≡ 200) × ((show_logo later p out.1).0 ≡ reply 200 (logo mime bytes))
upload-serves env later u p mime bytes db allowed h some_bytes small f f' t m =
    let url = upload_parsed env u p mime bytes db allowed h (ground arith) in
    let ok =
      change-succeeds env u p "Failed to save logo" org_logo_updated
        (with_logo mime bytes (env.clock 1)) db f t in
    let (o, os, l, w) =
      change-writes env u p "Failed to save logo" org_logo_updated
        (with_logo mime bytes (env.clock 1)) db ok in
    rw url (ok, served later p (with_logo mime bytes (env.clock 1) o) os _ f' m (ground arith) w)
