-- ===== src/FileStorage/ObjectStore.antt =====
-- The contract of FileStoragePort (src/core/file-storage/domain/interfaces/file-storage.port), which
-- the adapters implement over the disk or a cloud service: what the use cases rely on. A failure
-- of a call is not part of it: the world of the use cases decides which calls throw.
pub mod Memory
use neltrik_backend.Prelude.{
  ℕ, ◌≡◌, Bool, true, false, Option, none, some, List, [], ◌∷◌, ◌==◌, ◌&&◌, if◌then◌else◌, is_some,
}
use neltrik_backend.Prelude.Text.{Text, text_eq, includes}

abbrev pub Buffer : Type 0
Buffer = List ℕ

-- `key.startsWith(prefix)`
unfoldable pub starts_with : Text → Text → Bool
starts_with [] s = true
starts_with (_ ∷ _) [] = false
starts_with (a ∷ p) (b ∷ s) = a == b && starts_with p s

-- An upload under a key replaces what was there, a delete of an absent key does nothing, and a listing
-- holds exactly the present keys with the prefix.
pub record ObjectStore : Type 1 where
  pub Store : Type 0
  pub put : Text → Buffer → Store → Store
  pub remove : Text → Store → Store
  pub get : Text → Store → Option Buffer
  pub list : Text → Store → List Text
  pub get-put :
      (j k : Text) (b : Buffer) (s : Store)
      → get j (put k b s) ≡ (if text_eq k j then some b else get j s)
  pub get-remove :
      (j k : Text) (s : Store) → get j (remove k s) ≡ (if text_eq k j then none else get j s)
  pub includes-list :
      (p k : Text) (s : Store) → includes (list p s) k ≡ (starts_with p k && is_some (get k s))
