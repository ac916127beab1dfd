-- ===== src/FileStorage/Accounting.antt =====
-- The books of file storage: for each tenant, the use that its quota records and the bytes of its
-- files that are not deleted.
pub mod Delete
pub mod Orphans
pub mod History
pub mod Unchanged
pub mod Replace
pub mod Upload
use neltrik_backend.Prelude.{
  ℕ, ◌≡◌, ◌+◌, ◌≤◌, refl, Bool, true, not, ◌&&◌, none, some, List, [], ◌∷◌, arith, if◌then◌else◌,
}
use neltrik_backend.Prelude.Text.{Text, text_eq, text_eq_iff}
use neltrik_backend.FileStorage.Domain.Types.{is_deleted}
use neltrik_backend.FileStorage.Domain.File.{File, get_total_size}
use neltrik_backend.FileStorage.Domain.Quota.{FileQuota}
use neltrik_backend.FileStorage.World.{Db}
use neltrik_backend.FileStorage.Repository.{find_row, set_row, find_quota, set_quota}

-- What a row adds to the bytes of a tenant.
unfoldable pub share : Text → File → ℕ
share t f = if text_eq t f.tenant_id && not (is_deleted f.status) then get_total_size f else 0

unfoldable pub live_bytes : Text → List File → ℕ
live_bytes t [] = 0
live_bytes t (f ∷ fs) = share t f + live_bytes t fs

unfoldable pub used : Text → List FileQuota → ℕ
used t qs = elim (find_quota t qs) [ none ↦ 0 | some q ↦ q.used_bytes ]

-- The quota of the tenant records the bytes of its files.
abbrev pub IsBalanced : Text → Db → Type 0
IsBalanced t d = used t d.quotas ≡ live_bytes t d.files

pub live_bytes-set_row :
    (t id : Text) (fs : List File) (f g : File)
    → find_row id fs ≡ some f
    → live_bytes t (set_row id g fs) + share t f ≡ live_bytes t fs + share t g
unfolding live_bytes find_row set_row
live_bytes-set_row t id [] f g e = cc
live_bytes-set_row t id (x ∷ fs) f g e = ground (arith, live_bytes-set_row t id fs f g)

pub share-le-live_bytes :
    (t id : Text) (fs : List File) (f : File)
    → find_row id fs ≡ some f
    → share t f ≤ live_bytes t fs
unfolding live_bytes find_row
share-le-live_bytes t id [] f e = cc
share-le-live_bytes t id (x ∷ fs) f e = ground (arith, share-le-live_bytes t id fs f)

pub find_row-id : (id : Text) (fs : List File) (f : File) → find_row id fs ≡ some f → f.id ≡ id
unfolding find_row
find_row-id id [] f e = cc
find_row-id id (x ∷ fs) f e = ground (arith, find_row-id id fs f, text_eq_iff id x.id)

pub find_quota-tenant_id :
    (t : Text) (qs : List FileQuota) (q : FileQuota) → find_quota t qs ≡ some q → q.tenant_id ≡ t
unfolding find_quota
find_quota-tenant_id t [] q e = cc
find_quota-tenant_id t (x ∷ qs) q e =
    ground (arith, find_quota-tenant_id t qs q, text_eq_iff t x.tenant_id)

-- Writing the row of a tenant changes the use of that tenant alone.
pub used-set_quota :
    (t s : Text) (qs : List FileQuota) (q r : FileQuota)
    → find_quota s qs ≡ some q
    → r.tenant_id ≡ s
    → used t (set_quota s r qs) ≡ (if text_eq t s then r.used_bytes else used t qs)
unfolding used find_quota set_quota
used-set_quota t s [] q r e same = cc
used-set_quota t s (x ∷ qs) q r e same = ground (
  arith,
  used-set_quota t s qs q r,
  text_eq_iff t s,
  text_eq_iff s x.tenant_id,
  text_eq_iff t x.tenant_id,
  text_eq_iff t r.tenant_id,
)

-- A row and the quota of its tenant that change by the same amount keep every tenant's books.
pub IsBalanced-set :
    (t id : Text) (d : Db) (f g : File) (q r : FileQuota)
    → find_row id d.files ≡ some f
    → find_quota f.tenant_id d.quotas ≡ some q
    → g.tenant_id ≡ f.tenant_id
    → r.tenant_id ≡ f.tenant_id
    → r.used_bytes + share f.tenant_id f ≡ q.used_bytes + share f.tenant_id g
    → IsBalanced t d
    → IsBalanced t
        (record { files = set_row id g d.files; quotas = set_quota f.tenant_id r d.quotas })
unfolding share used
IsBalanced-set t id d f g q r row quota same same' moved h = ground (
  arith,
  live_bytes-set_row t id d.files f g,
  used-set_quota t f.tenant_id d.quotas q r,
  text_eq_iff t f.tenant_id,
  text_eq_iff t g.tenant_id,
  text_eq_iff f.tenant_id f.tenant_id,
  text_eq_iff f.tenant_id g.tenant_id,
)

-- A row whose tenant, bytes and deletion do not change keeps them too.
pub IsBalanced-set_row :
    (t id : Text) (d : Db) (f g : File)
    → find_row id d.files ≡ some f
    → share t g ≡ share t f
    → IsBalanced t d
    → IsBalanced t (record d { files = set_row id g d.files })
IsBalanced-set_row t id d f g row same h = omega (arith, live_bytes-set_row t id d.files f g row)
