-- ===== src/FileStorage/ObjectStore/Memory.antt =====
-- A store that meets the contract: pairs of a key and its object, the latest upload first.
use neltrik_backend.Prelude.{
  ◌≡◌, refl, Option, none, some, List, [], ◌∷◌, arith, if◌then◌else◌, is_some, ◌&&◌,
}
use neltrik_backend.Prelude.Text.{Text, text_eq, text_eq_iff, includes}
use neltrik_backend.FileStorage.ObjectStore.{Buffer, starts_with, ObjectStore}

abbrev pub Objects : Type 0
Objects = List (Text × Buffer)

abbrev pub put : Text → Buffer → Objects → Objects
put k b s = (k, b) ∷ s

abbrev pub remove : Text → Objects → Objects
remove k [] = []
remove k (e ∷ s) = let rest = remove k s in if text_eq k e.0 then rest else e ∷ rest

abbrev pub get : Text → Objects → Option Buffer
get j [] = none
get j (e ∷ s) = if text_eq e.0 j then some e.1 else get j s

abbrev pub list : Text → Objects → List Text
list p [] = []
list p (e ∷ s) = let rest = list p s in if starts_with p e.0 then e.0 ∷ rest else rest

pub get-put :
    (j k : Text) (b : Buffer) (s : Objects)
    → get j (put k b s) ≡ (if text_eq k j then some b else get j s)
get-put j k b s = refl

pub get-remove :
    (j k : Text) (s : Objects) → get j (remove k s) ≡ (if text_eq k j then none else get j s)
get-remove j k [] = ground arith
get-remove j k (e ∷ s) =
    ground (arith, get-remove j k s, text_eq_iff k e.0, text_eq_iff e.0 j, text_eq_iff k j)

pub includes-list :
    (p k : Text) (s : Objects) → includes (list p s) k ≡ (starts_with p k && is_some (get k s))
unfolding includes
includes-list p k [] = ground arith
includes-list p k (e ∷ s) = ground (arith, includes-list p k s, text_eq_iff e.0 k)

abbrev pub memory_store : ObjectStore
memory_store = record {
  Store = Objects;
  put = put;
  remove = remove;
  get = get;
  list = list;
  get-put = get-put;
  get-remove = get-remove;
  includes-list = includes-list;
}
