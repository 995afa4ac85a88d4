-- ===== src/Startup/Upgrade.antt =====
-- What an upgrade leaves in the directory of the backups.
use librelock_server.Common.{
  Bool-cases, All, filter, Text, text, text_eq, ◌≡◌, refl, inl, inr, Bool, true, false, some, List,
  [], ◌∷◌, ◌++◌, arith,
}
use librelock_server.Common.Slices.{All-drop}
use librelock_server.Common.Sorts.{sort_by-last, All-sort_by}
use librelock_server.Models.First.{Has, Has_last, Has-filter_keeps}
use librelock_server.Startup.Backups.{
  snapshot_name, is_listed, is_snapshot, is_later, prune_backups, surplus, has_db_suffix,
  safe_for_filename, or_unknown,
}
use librelock_server.Startup.Boot.{Boot, stopped, serving}
use librelock_server.Startup.Disk.{Entry, File, Disk}

abbrev pub HasCopy : File → List Entry → Type 0
HasCopy f entries = (e : Entry) × Has e entries × (e.content ≡ some f)

abbrev pub disk_of : Boot → Disk
disk_of (stopped d) = d
disk_of (serving p secret d) = d

has_db_suffix-append : (s t : Text) → has_db_suffix t ≡ true → has_db_suffix (s ++ t) ≡ true
unfolding has_db_suffix
has_db_suffix-append [] t h = h
has_db_suffix-append (c ∷ s) t h = ground (arith, has_db_suffix-append s t h)

pub snapshot_name-suffix :
    (base from time : Text) → has_db_suffix (snapshot_name base from time) ≡ true
unfolding snapshot_name has_db_suffix text_eq
snapshot_name-suffix base from time =
    let end = time ++ text ".db" in
    let from_dash = text "-" ++ end in
    let release = safe_for_filename (or_unknown from) in
    has_db_suffix-append base (text "-" ++ (release ++ from_dash)) (
      has_db_suffix-append (text "-") (release ++ from_dash) (
        has_db_suffix-append release from_dash
          (has_db_suffix-append (text "-") end (has_db_suffix-append time (text ".db") refl))))

-- No entry of the list has the name.
others :
    (name : Text) (es : List Entry)
    → is_listed name es ≡ false
    → All (λ e. text_eq e.name name ≡ false) es
others name [] h = tt
others name (e ∷ es) h = (ground arith, others name es (ground arith))

unnamed :
    (name : Text) (es : List Entry)
    → All (λ e. text_eq e.name name ≡ false) es
    → is_listed name es ≡ false
unnamed name [] h = refl
unnamed name (e ∷ es) (p, ps) = ground (arith, unnamed name es ps)

filter-last :
    (p : Entry → Bool) (e : Entry) (es : List Entry)
    → p e ≡ true
    → filter p (es ++ e ∷ []) ≡ filter p es ++ e ∷ []
filter-last p e [] h = rw h refl
filter-last p e (x ∷ xs) h = elim (Bool-cases (p x)) [
  | inl kept ↦ rw (kept, filter-last p e xs h) refl
  | inr dropped ↦ rw (dropped, filter-last p e xs h) refl
]

All-filter {κ} :
    (P : Entry → Type κ) (p : Entry → Bool) (es : List Entry) → All P es → All P (filter p es)
All-filter P p [] a = tt
All-filter P p (x ∷ xs) (h, hs) = elim (Bool-cases (p x)) [
  | inl kept ↦ rw kept (h, All-filter P p xs hs)
  | inr dropped ↦ rw dropped (All-filter P p xs hs)
]

module _ (e : Entry) (es : List Entry) (is : is_snapshot e ≡ true)
    (fresh : is_listed e.name es ≡ false) (newest : All (λ x. is_later e x ≡ true) es) where
  surplus-unnamed : is_listed e.name (surplus (es ++ e ∷ [])) ≡ false
  unfolding surplus
  surplus-unnamed =
      rw
        (
          filter-last is_snapshot e es is,
          sort_by-last is_later e (filter is_snapshot es) (All-filter _ is_snapshot es newest),
        )
        (unnamed e.name _ (
          All-drop _ 2 _
            (All-sort_by is_later _ _ (All-filter _ is_snapshot es (others e.name es fresh)))))

  -- The newest snapshot outlives the pruning.
  pub prune-keeps :
      (fault : Bool) (stays : Text → Bool) → Has e (prune_backups fault stays (es ++ e ∷ []))
  unfolding prune_backups
  prune-keeps true stays = Has_last e es
  prune-keeps false stays =
      Has-filter_keeps _ e (es ++ e ∷ []) (rw surplus-unnamed refl) (Has_last e es)
