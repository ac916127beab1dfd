-- ===== src/FileStorage/Domain/Scan.antt =====
-- The value object AntivirusScan:
-- src/core/file-storage/domain/value-objects/file/antivirus-scan/index.ts.
use neltrik_backend.Prelude.{ℕ, ◌≡◌, ◌⊎◌, Bool, true, false, ◌&&◌, Option, none, some, ◌==◌}
use neltrik_backend.Prelude.Text.{Text, text_eq, is_blank}
use neltrik_backend.Prelude.Result.{Result, ok, err, ◌>>=◌, ◌>>◌, throw_if}
use neltrik_backend.FileStorage.Domain.Types.{
  ScanStatus, clean, infected, error, Date, at, invalid_date, Error, invalid_antivirus_scan,
}

pub record AntivirusScan : Type 0 where
  pub status : ScanStatus
  pub engine : Text
  pub result : Option Text
  pub scanned_at : ℕ

-- A valid date gives its time; the constructor copies it.
abbrev pub ensure_date : Date → Error → Result Error ℕ
ensure_date (at ms) e = ok ms
ensure_date invalid_date e = err e

-- `result === null || result.trim().length === 0`
abbrev pub lacks_result : Option Text → Bool
lacks_result none = true
lacks_result (some r) = is_blank r

abbrev ensure_result_for_status : ScanStatus → Option Text → Result Error (Unit {0})
ensure_result_for_status clean result = ok tt
ensure_result_for_status infected result = throw_if (lacks_result result) invalid_antivirus_scan
ensure_result_for_status error result = throw_if (lacks_result result) invalid_antivirus_scan

unfoldable pub create : ScanStatus → Text → Option Text → Date → Result Error AntivirusScan
create status engine result date = do
  throw_if (is_blank engine) invalid_antivirus_scan
  ms ← ensure_date date invalid_antivirus_scan
  ensure_result_for_status status result
  ok (record { status = status; engine = engine; result = result; scanned_at = ms })

unfoldable pub clean_scan : Text → Date → Result Error AntivirusScan
unfolding create
clean_scan engine date = create clean engine none date

unfoldable pub infected_scan : Text → Text → Date → Result Error AntivirusScan
unfolding create
infected_scan engine result date = create infected engine (some result) date

unfoldable pub error_scan : Text → Text → Date → Result Error AntivirusScan
unfolding create
error_scan engine result date = create error engine (some result) date

module _ (s : AntivirusScan) where
  abbrev pub is_clean : Bool
  is_clean = elim s.status [ clean ↦ true | _ ↦ false ]

  abbrev pub is_infected : Bool
  is_infected = elim s.status [ infected ↦ true | clean ↦ false | error ↦ false ]

  abbrev pub has_error : Bool
  has_error = elim s.status [ error ↦ true | clean ↦ false | infected ↦ false ]

abbrev pub status_eq : ScanStatus → ScanStatus → Bool
status_eq clean clean = true
status_eq infected infected = true
status_eq error error = true
status_eq _ _ = false

abbrev pub result_eq : Option Text → Option Text → Bool
result_eq none none = true
result_eq (some a) (some b) = text_eq a b
result_eq _ _ = false

unfoldable pub equals : AntivirusScan → AntivirusScan → Bool
equals a b =
    status_eq a.status b.status
    && text_eq a.engine b.engine
    && result_eq a.result b.result
    && a.scanned_at == b.scanned_at

-- What `create` has checked of the value that it returns.
pub record IsValid (s : AntivirusScan) : Type 0 where
  pub engine_given : is_blank s.engine ≡ false
  pub result_given : (is_clean s ≡ true) ⊎ (lacks_result s.result ≡ false)
