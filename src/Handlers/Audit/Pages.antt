-- ===== src/Handlers/Audit/Pages.antt =====
-- The pages of the audit log.
use native.Mathlib.Nat.{zero-mul, suc-mul, add_comm, le_trans}
use mathlib.Core.List.{Perm}
use librelock_server.Common.{
  leb, leb→le, Bool-cases, length, take, drop, Text, ℕ, zero, suc, ◌+◌, ◌*◌, ◌≤◌, ◌<◌, ◌≡◌, refl,
  sym, ◌∙◌, inl, inr, true, false, ◌||◌, Option, none, some, List, [], ◌∷◌, ◌++◌, arith,
}
use librelock_server.Common.Numbers.{
  atoi, decimal, ℤ, pos, negsuc, decimal_nonempty, int64_limit, atoi-decimal,
}
use librelock_server.Common.Slices.{
  length-take, drop_none, take_none, drop-drop, take_all, take-split,
}
use librelock_server.Common.Sorts.{
  Order, sort_by, IsSorted, IsSorted-sort_by, Perm-sort_by, length-sort_by,
}
use librelock_server.Env.{Env}
use librelock_server.Handlers.Audit.{
  list_audit_events, parse_limit, is_newer, limit_of, list_page, parse_offset, offset_of,
}
use librelock_server.Http.{Body, events}
use librelock_server.Models.{AuditEvent, Db, Table}

-- The events of a reply.
abbrev pub shown : Body → List AuditEvent
shown (events es total) = es
shown _ = []

limit-bounds : (o : Option ℤ) → leb (limit_of o) 500 ≡ true
unfolding limit_of
limit-bounds (some (pos n)) = ground arith
limit-bounds (some (negsuc n)) = refl
limit-bounds none = refl

parse_limit-bounds : (v : Text) → leb (parse_limit v) 500 ≡ true
unfolding parse_limit
parse_limit-bounds [] = refl
parse_limit-bounds (c ∷ v) = limit-bounds (atoi (c ∷ v))

page-bounded :
    (env : Env) (limit offset : ℕ) (table : Table AuditEvent)
    → limit ≤ 500
    → length (shown (list_page env limit offset table).body) ≤ 500
unfolding list_page
page-bounded env limit offset none h = omega arith
page-bounded env limit offset (some es) h = elim (Bool-cases (env.fault 0 || env.fault 1)) [
  | inl failed ↦ rw failed (omega arith)
  | inr fine ↦ rw fine (le_trans (length-take limit (drop offset (sort_by is_newer es))) h)
]

pub audit_page-bounded :
    (env : Env) (limit offset : Text) (db : Db)
    → length (shown (list_audit_events env limit offset db).body) ≤ 500
unfolding list_audit_events
audit_page-bounded env limit offset db =
    page-bounded env (parse_limit limit) (parse_offset offset) db.audit_events
      (leb→le _ 500 (parse_limit-bounds limit))

is_newer-Order : Order is_newer
is_newer-Order = record { asym = λ a b h. ground arith; trans = λ a b c h k. ground arith }

parse_limit-decimal : (k : ℕ) → 0 < k → k ≤ 500 → parse_limit (decimal k) ≡ k
unfolding parse_limit limit_of
parse_limit-decimal k low high =
    rw (decimal_nonempty k, atoi-decimal k (omega arith)) (ground arith)

parse_offset-decimal : (m : ℕ) → m < int64_limit → parse_offset (decimal m) ≡ m
unfolding parse_offset offset_of
parse_offset-decimal m h = rw (decimal_nonempty m, atoi-decimal m h) refl

-- A client that reads n pages of k events, each with the number of its first event.
unfoldable pub read_pages : Env → ℕ → ℕ → ℕ → Db → List AuditEvent
read_pages env k m zero db = []
read_pages env k m (suc n) db =
    shown (list_audit_events env (decimal k) (decimal m) db).body ++ read_pages env k (m + k) n db

module _ (env : Env) (k : ℕ) (db : Db) (es : List AuditEvent)
    (ran : env.fault 0 || env.fault 1 ≡ false) (table : db.audit_events ≡ some es) (low : 0 < k)
    (high : k ≤ 500) where
  one_page :
      (m : ℕ)
      → m < int64_limit
      → shown (list_audit_events env (decimal k) (decimal m) db).body
        ≡ take k (drop m (sort_by is_newer es))
  unfolding list_audit_events list_page
  one_page m h = rw (table, parse_limit-decimal k low high, parse_offset-decimal m h, ran) refl

  read_pages-take :
      (m n : ℕ)
      → m + n * k < int64_limit
      → read_pages env k m n db ≡ take (n * k) (drop m (sort_by is_newer es))
  unfolding read_pages
  read_pages-take m zero h = rw (zero-mul k) (sym (take_none _))
  read_pages-take m (suc n) h =
      let log = sort_by is_newer es in
      let more = suc-mul n k ∙ add_comm (n * k) k in
      let bound = rw more at h in
      rw
        (
          one_page m (omega arith),
          read_pages-take (m + k) n (omega arith),
          ← drop-drop m k log,
          take-split k (n * k) (drop m log),
          more,
        )
        refl

  -- Reading the audit log page by page refines reading it whole: pages of k events, k from 1 to
  -- 500, asked for with the number of their first event until they cover the log, are together the
  -- log sorted newest first, with every event exactly as often as it is stored, if the log does
  -- not change and no statement fails.
  pub audit_pages :
      (n : ℕ)
      → length es ≤ n * k
      → n * k < int64_limit
      → let log = sort_by is_newer es in
        (read_pages env k 0 n db ≡ log) × IsSorted is_newer log × Perm log es
  audit_pages n long h = (
    read_pages-take 0 n (omega arith)
        ∙ rw (drop_none (sort_by is_newer es))
            (take_all (n * k) (sort_by is_newer es) (rw (length-sort_by is_newer es) long)),
    IsSorted-sort_by is_newer is_newer-Order es,
    Perm-sort_by is_newer es,
  )
