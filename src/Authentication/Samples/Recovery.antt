-- ===== src/Authentication/Samples/Recovery.antt =====
-- Password resets on a small world.
use neltrik_backend.Prelude.{Bool, none, some, [], ◌∷◌, ◌≡◌, ◌≢◌, refl, inl, inr, Bool-cases}
use neltrik_backend.Prelude.Text.{Text, text, text_eq, trim, is_space, is_blank}
use neltrik_backend.Prelude.Result.{ok, err}
use neltrik_backend.Prelude.Rows.{find_first, replace_first, update_where, IsUnique}
use neltrik_backend.Authentication.Domain.Values.{
  create_token_hash, is_sha256, create_password_hash, empty_password_hash, verify_token,
}
use neltrik_backend.Authentication.Domain.Account
use neltrik_backend.Authentication.Domain.Tokens.{PasswordReset, restore_reset, use_reset}
use neltrik_backend.Authentication.World.{Env, World, no_rows, transaction}
use neltrik_backend.Authentication.Repository.{
  find_reset, reset_to_domain, find_account, account_to_domain, update_reset, update_account,
  invalidate_sessions,
}
use neltrik_backend.Authentication.UseCases.Recovery.{
  reset_password, reset_in_transaction, write_reset,
}
use neltrik_backend.Authentication.Samples.{env, account, session}
use neltrik_backend.Authentication.Resets.{Closed, reset_password-atomic}
use neltrik_backend.Authentication.Resets.Once.{reset_password-once, reset_password-closes}

abbrev hash_of_all : Text
hash_of_all = text "aaaaaaaaaaaaaaaaaaaaaaaaaaaaaaaaaaaaaaaaaaaaaaaaaaaaaaaaaaaaaaaa"

abbrev hash_of_none : Text
hash_of_none = text "bbbbbbbbbbbbbbbbbbbbbbbbbbbbbbbbbbbbbbbbbbbbbbbbbbbbbbbbbbbbbbbb"

-- A hash that tells the empty text from the others.
abbrev services : Env
services = record env { sha256 = λ t. elim t [ [] ↦ hash_of_none | _ ∷ _ ↦ hash_of_all ] }

abbrev reset : PasswordReset
reset = record {
  id = text "p";
  authentication_account_id = text "a";
  token_hash = hash_of_all;
  expires_at = 86400000;
  used_at = none;
  created_at = 0;
  updated_at = 0;
}

abbrev asked : World
asked = record {
  committed = record {
    accounts = account ∷ [];
    sessions = session ∷ [];
    verifications = [];
    resets = reset ∷ [];
  };
  pending = no_rows;
  sent = [];
  calls = 3;
}

reset_empty : (reset_password services (text "t") [] asked).0 ≡ err empty_password_hash
unfolding reset_password reset_in_transaction write_reset find_reset find_first text_eq
    reset_to_domain create_token_hash is_sha256 restore_reset is_blank trim is_space find_account
    account_to_domain create_password_hash Account.restore transaction use_reset verify_token
    update_reset replace_first
reset_empty = refl

reset_password-atomic_example :
    (reset_password services (text "t") [] asked).1.committed ≡ asked.committed
reset_password-atomic_example =
    reset_password-atomic services (text "t") [] asked empty_password_hash reset_empty

reset_returned : (reset_password services (text "t") (text "new") asked).0 ≡ ok tt
unfolding reset_password reset_in_transaction write_reset find_reset find_first text_eq
    reset_to_domain create_token_hash is_sha256 restore_reset is_blank trim is_space find_account
    account_to_domain create_password_hash Account.restore transaction use_reset verify_token
    update_reset replace_first Account.update update_account invalidate_sessions update_where
reset_returned = refl

one_reset : (p : PasswordReset → Bool) → IsUnique p (reset ∷ [])
one_reset p = elim (Bool-cases (p reset)) [
  | inl accepted ↦ IsUnique.here reset [] accepted tt
  | inr other ↦ IsUnique.there reset [] other IsUnique.empty
]

reset_password-once_example :
    (reset_password services
      (text "t")
      (text "newer")
      (reset_password services (text "t") (text "new") asked).1).0
    ≢ ok tt
reset_password-once_example =
    reset_password-once services (text "t") (text "new") (text "newer") asked (one_reset _)
      (λ id. one_reset _) reset_returned

reset_found : find_reset services hash_of_all asked ≡ (ok (some reset), asked)
unfolding find_reset find_first text_eq reset_to_domain create_token_hash is_sha256 restore_reset
    is_blank trim is_space
reset_found = refl

account_found : find_account services (text "a") asked ≡ (ok (some account), asked)
unfolding find_account find_first text_eq account_to_domain create_password_hash Account.restore
    is_blank trim is_space
account_found = refl

reset_password-closes_example :
    Closed services
      (text "a")
      (reset_password services (text "t") (text "new") asked).1.committed.sessions
reset_password-closes_example =
    reset_password-closes services (text "t") (text "new") asked reset account reset_found
      account_found reset_returned
