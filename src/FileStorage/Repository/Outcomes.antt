-- ===== src/FileStorage/Repository/Outcomes.antt =====
-- How the calls of the repositories end: every outcome, with what it has read or written.
use neltrik_backend.Prelude.{
  List, [], ◌∷◌, any, false, ◌≡◌, refl, ap, true, none, some, arith, inl, inr, Option-cases,
  Bool-cases,
}
use neltrik_backend.Prelude.Text.{Text, text_eq_iff}
use neltrik_backend.Prelude.Result.{ok, err, Result-cases}
use neltrik_backend.FileStorage.Domain.Types.{Error, is_deleted}
use neltrik_backend.FileStorage.Domain.File.{File}
use neltrik_backend.FileStorage.Domain.Quota.{FileQuota}
use neltrik_backend.FileStorage.World.{Env, Db, Client, WorldOf}
use neltrik_backend.FileStorage.Mapper.{
  file_to_domain, file_to_domain-id, quota_to_domain, quota_to_domain-id,
}
use neltrik_backend.FileStorage.Repository.{
  find_row, set_row, occupies_place_of, find_quota, find_by_id, find_by_tenant_id, sees, merged,
}

module _ (env : Env) where
  -- A query by key throws (the row fails the checks of the entity), finds nothing, or gives the row.
  pub data Found (id : Text) (w : WorldOf env) : Type 0 where
    throws : (e : Error) → find_by_id env id w ≡ (err e, w) → Found id w
    absent : find_by_id env id w ≡ (ok none, w) → Found id w
    present :
        (f : File)
        → find_by_id env id w ≡ (ok (some f), w)
        → find_row id w.committed.files ≡ some f
        → sees env.scope Client.auto f.tenant_id ≡ true
        → Found id w

  pub find_by_id-cases : (id : Text) (w : WorldOf env) → Found id w
  unfolding find_by_id
  find_by_id-cases id w = elim (Option-cases (find_row id w.committed.files)) [
    | inl none_there ↦ absent (ground arith)
    | inr (f, row) ↦ elim (Bool-cases (sees env.scope Client.auto f.tenant_id)) [
      | inl seen ↦ elim (Result-cases (file_to_domain f)) [
        | inl (g, e) ↦ present f (ground (arith, file_to_domain-id f g e)) row seen
        | inr (x, e) ↦ throws x (ground arith)
      ]
      | inr hidden ↦ absent (ground arith)
    ]
  ]

  -- What a query has found is a row of the table that the client sees.
  pub find_by_id-find_row :
      (id : Text) (w : WorldOf env) (f : File)
      → find_by_id env id w ≡ (ok (some f), w)
      → (find_row id w.committed.files ≡ some f) × (sees env.scope Client.auto f.tenant_id ≡ true)
  find_by_id-find_row id w f e = elim (find_by_id-cases id w) [
    | Found.throws x h ↦ cc
    | Found.absent h ↦ cc
    | Found.present g h row seen ↦ ground arith
  ]

  -- A query reads the committed tables only.
  pub find_by_id-pending :
      (id : Text) (w : WorldOf env) (d : Db) (f : File)
      → find_by_id env id w ≡ (ok (some f), w)
      → find_by_id env id (record w { pending = d }) ≡ (ok (some f), record w { pending = d })
  unfolding find_by_id
  find_by_id-pending id w d f e = ap (λ r. (r.0, record w { pending = d })) e

  pub data FoundQuota (t : Text) (w : WorldOf env) : Type 0 where
    throws : (e : Error) → find_by_tenant_id env t w ≡ (err e, w) → FoundQuota t w
    absent :
        find_by_tenant_id env t w ≡ (ok none, w)
        → find_quota (merged env.scope Client.auto t) w.committed.quotas ≡ none
        → FoundQuota t w
    present :
        (q : FileQuota)
        → find_by_tenant_id env t w ≡ (ok (some q), w)
        → find_quota (merged env.scope Client.auto t) w.committed.quotas ≡ some q
        → FoundQuota t w

  pub find_by_tenant_id-cases : (t : Text) (w : WorldOf env) → FoundQuota t w
  unfolding find_by_tenant_id
  find_by_tenant_id-cases t w =
      elim (Option-cases (find_quota (merged env.scope Client.auto t) w.committed.quotas)) [
        | inl none_there ↦ absent (ground arith) none_there
        | inr (q, row) ↦ elim (Result-cases (quota_to_domain q)) [
          | inl (r, e) ↦ present q (ground (arith, quota_to_domain-id q r e)) row
          | inr (x, e) ↦ throws x (ground arith)
        ]
      ]

pub find_row-set_row :
    (id : Text) (g : File) (fs : List File) {f : File}
    → find_row id fs ≡ some f
    → g.id ≡ id
    → find_row id (set_row id g fs) ≡ some g
unfolding find_row set_row
find_row-set_row id g [] e same = cc
find_row-set_row id g (x ∷ fs) {f} e same =
    ground (arith, find_row-set_row id g fs {f = f}, text_eq_iff id x.id, text_eq_iff id g.id)

-- Two rows that claim the same place are told from the others alike.
pub occupies_place_of-any :
    (f g : File) (fs : List File)
    → g.id ≡ f.id
    → g.tenant_id ≡ f.tenant_id
    → g.resource_type ≡ f.resource_type
    → g.resource_id ≡ f.resource_id
    → g.purpose ≡ f.purpose
    → is_deleted g.status ≡ is_deleted f.status
    → any (occupies_place_of f) fs ≡ false
    → any (occupies_place_of g) fs ≡ false
occupies_place_of-any f g [] a b c d e s h = refl
occupies_place_of-any f g (x ∷ fs) a b c d e s h =
    ground (arith, occupies_place_of-any f g fs a b c d e s)
