-- ===== src/FileStorage/World.antt =====
-- The world of the file-storage use cases: the tables `files` and `file_quotas` (as committed, and as
-- the open transaction sees them), the object store, the calls of the job scheduler, and a counter of
-- the calls that leave the process. What such a call answers is a parameter, `Env`, so a theorem
-- holds for every behaviour of the clock, the id generator, the antivirus and the services.
-- TransactionManager is src/prisma/transaction (prisma-manager.ts, helper.ts).
pub mod Effects
pub mod Objects
use neltrik_backend.Prelude.{ℕ, ◌+◌, Bool, Option, none, some, List, [], ◌∷◌, ◌++◌, if◌then◌else◌}
use neltrik_backend.Prelude.Text.{Text}
use neltrik_backend.Prelude.Result.{Result, ok, err}
use neltrik_backend.Prelude.Exec.{Exec}
use neltrik_backend.FileStorage.Domain.Types.{Error, service_failure}
use neltrik_backend.FileStorage.Domain.Scan.{AntivirusScan}
use neltrik_backend.FileStorage.Domain.File.{File}
use neltrik_backend.FileStorage.Domain.Quota.{FileQuota}
use neltrik_backend.FileStorage.ObjectStore.{Buffer, ObjectStore}

-- Code that is not in the repository, or that leaves the process. `fault n` says that the n-th call
-- throws (the object store, the scheduler, the antivirus, the commit); such a call has no effect.
pub record Env : Type 1 where
  pub objects : ObjectStore
  pub fault : ℕ → Bool
  pub clock : ℕ → ℕ
  pub ids : ℕ → Text
  pub checksum : Buffer → Text
  pub detect : Buffer → Option Text
  pub verdict : ℕ → Buffer → AntivirusScan
  pub signed_url : Text → ℕ → Text
  pub signed_url_ttl_seconds : ℕ
  -- the tenant that `PrismaService.tenantClient` adds to every `where`, if it adds one
  pub scope : Option Text

pub record Db : Type 0 where
  pub files : List File
  pub quotas : List FileQuota

-- `enqueue(FILE_SCAN_QUEUE, FILE_SCAN_JOB, payload, { jobId })`
pub record ScanJob : Type 0 where
  pub tenant_id : Text
  pub file_id : Text
  pub version : ℕ
  pub job_id : Text

pub record World (S : Type 0) : Type 0 where
  pub committed : Db
  pub pending : Db
  pub storage : S
  pub queue : List ScanJob
  pub calls : ℕ

-- `tenantClient`, or the client of the open transaction.
pub data Client : Type 0 where
  auto tx : Client

module _ {S : Type 0} where
  abbrev pub db : Client → World S → Db
  db Client.auto w = w.committed
  db Client.tx w = w.pending

  abbrev pub set_db : Client → Db → World S → World S
  set_db Client.auto d w = record w { committed = d }
  set_db Client.tx d w = record w { pending = d }

  abbrev pub tick : World S → World S
  tick w = record w { calls = w.calls + 1 }

abbrev pub WorldOf : Env → Type 0
WorldOf env = World env.objects.Store

abbrev pub M : Env → Type 0 → Type 0
M env A = Exec (WorldOf env) Error A

module _ (env : Env) where
  -- `new Date()`
  abbrev pub new_date : M env ℕ
  new_date w = (ok (env.clock w.calls), tick w)

  -- `idGenerator.generate()`
  abbrev pub generate_id : M env Text
  generate_id w = (ok (env.ids w.calls), tick w)

  -- A call of a service that answers `a` and does `f`, or throws.
  abbrev pub service : {A : Type 0} → A → (WorldOf env → WorldOf env) → M env A
  service a f w = if env.fault w.calls then (err service_failure, tick w) else (ok a, tick (f w))

  abbrev pub commit : {A : Type 0} → Result Error A → M env A
  commit (ok a) w = service a (λ v. record v { committed = v.pending }) w
  commit (err e) w = (err e, w)

  -- `transactionManager.execute(m)`: what `m` wrote by its client is committed if it returns.
  unfoldable pub transaction : {A : Type 0} → M env A → M env A
  transaction m w = let (r, w') = m (record w { pending = w.committed }) in commit r w'

  -- `storagePort.upload(key, buffer, mimeType)`
  unfoldable pub upload_object : Text → Buffer → M env (Unit {0})
  upload_object key buffer w =
      service tt (λ v. record v { storage = env.objects.put key buffer v.storage }) w

  -- `storagePort.delete(key)`
  unfoldable pub delete_object : Text → M env (Unit {0})
  delete_object key w = service tt (λ v. record v { storage = env.objects.remove key v.storage }) w

  abbrev pub found_object : Option Buffer → M env Buffer
  found_object none w = (err service_failure, tick w)
  found_object (some b) w = service b (λ v. v) w

  -- `storagePort.download(key)`: a key that is not there throws
  unfoldable pub download_object : Text → M env Buffer
  download_object key w = found_object (env.objects.get key w.storage) w

  -- `storagePort.list(prefix)`
  unfoldable pub list_objects : Text → M env (List Text)
  list_objects prefix w = service (env.objects.list prefix w.storage) (λ v. v) w

  -- `storagePort.getSignedUrl(key, ttl)`
  unfoldable pub get_signed_url : Text → M env Text
  get_signed_url key w = service (env.signed_url key env.signed_url_ttl_seconds) (λ v. v) w

  -- `antivirusPort.scan(buffer)`
  unfoldable pub scan_buffer : Buffer → M env AntivirusScan
  scan_buffer buffer w = service (env.verdict w.calls buffer) (λ v. v) w

  -- `jobScheduler.enqueue(...)`
  unfoldable pub enqueue : ScanJob → M env (Unit {0})
  enqueue job w = service tt (λ v. record v { queue = v.queue ++ job ∷ [] }) w
