-- ===== src/Handlers/Searches.antt =====
-- What a search that `find` models has found.
use librelock_server.Common.{ℕ, ◌≡◌, Bool, true, false, some, List}
use librelock_server.Models.First.{Has, first-Has}
use librelock_server.Handlers.Helpers.{find}

pub find-some :
    {A : Type 0} (fault : Bool) (key : A → ℕ) (p : A → Bool) (xs : List A) (x : A)
    → find fault key p xs ≡ some x
    → Has x xs × (p x ≡ true)
find-some true key p xs x e = cc
find-some false key p xs x e = first-Has key p x xs e
