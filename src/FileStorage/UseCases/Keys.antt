-- ===== src/FileStorage/UseCases/Keys.antt =====
-- The keys of the object store and the job identifiers, as the template literals of the source
-- build them.
use neltrik_backend.Prelude.{ℕ, zero, suc, ◌+◌, [], ◌∷◌, ◌++◌, ltb, if◌then◌else◌}
use Prim.Native.Nat.{◌/◌, ◌%◌}
use neltrik_backend.Prelude.Text.{Text, text}

-- The decimal digits of a number in front of `acc`, one round for each; a number below 2 ^ n has no
-- more than n digits, so as many rounds as the number itself are enough.
decimal_from : ℕ → ℕ → Text → Text
decimal_from zero n acc = acc
decimal_from (suc rounds) n acc =
    let acc' = (b'0' + n % 10) ∷ acc in
    let rest = decimal_from rounds (n / 10) acc' in if ltb n 10 then acc' else rest

-- `${n}` for a number
unfoldable pub decimal : ℕ → Text
unfolding decimal_from
decimal n = decimal_from (suc n) n []

-- `tenants/${tenantId}/files/`
unfoldable pub tenant_prefix : Text → Text
tenant_prefix tenant = text "tenants/" ++ tenant ++ text "/files/"

-- `tenants/${tenantId}/files/${fileId}/v${version}/${name}`
unfoldable pub storage_key : Text → Text → ℕ → Text → Text
unfolding decimal tenant_prefix
storage_key tenant file_id version name =
    tenant_prefix tenant ++ (file_id ++ (text "/v" ++ (decimal version ++ (text "/" ++ name))))

-- `buildFileScanJobId`
unfoldable pub build_file_scan_job_id : Text → ℕ → Text
unfolding decimal
build_file_scan_job_id file_id version =
    text "file-scan:" ++ (file_id ++ (text ":v" ++ decimal version))
