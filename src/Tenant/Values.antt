-- ===== src/Tenant/Values.antt =====
-- ExpirationDate, Recipient and Token: src/core/tenant/domain/value-objects. A value object is kept as
-- the value that it wraps.
use neltrik_backend.Prelude.{
  ℕ, zero, suc, Bool, false, not, ◌&&◌, ◌||◌, List, [], ◌∷◌, leb, ◌==◌, all, is_empty, length,
  if◌then◌else◌,
}
use neltrik_backend.Prelude.Text.{Text, trim, is_space}
use neltrik_backend.Prelude.Result.{Result, ok, ◌>>◌, throw_if}

-- The errors that the modelled code of the module throws.
pub data Error : Type 0 where
  invalid_expiration_date expiration_date_in_past empty_recipient invalid_recipient empty_token
        invalid_token_format invalid_invitation_status invitation_already_used
        invitation_already_revoked invitation_expired invitation_not_found record_not_found :
      Error

-- `ExpirationDate.isExpired`, at the time `now`
abbrev pub is_past : ℕ → ℕ → Bool
is_past now date = leb date now

-- `ExpirationDate.create`, of a valid date
unfoldable pub create_expiration_date : ℕ → ℕ → Result Error ℕ
create_expiration_date now date = do throw_if (is_past now date) expiration_date_in_past; ok date

abbrev is_digit : ℕ → Bool
is_digit c = leb 48 c && leb c 57

-- `[^\s@]`
abbrev is_plain : ℕ → Bool
is_plain c = not (is_space c) && not (c == 64)

-- `[^\s@]*\.[^\s@]+$`
abbrev dot_later : Text → Bool
dot_later [] = false
dot_later (c ∷ s) =
    let later = dot_later s in
    is_plain c && ((c == 46 && not (is_empty s) && all is_plain s) || later)

-- `[^\s@]+\.[^\s@]+$`
abbrev is_domain : Text → Bool
is_domain [] = false
is_domain (c ∷ s) = is_plain c && dot_later s

-- `[^\s@]*@[^\s@]+\.[^\s@]+$`
abbrev at_later : Text → Bool
at_later [] = false
at_later (c ∷ s) = let later = at_later s in if c == 64 then is_domain s else is_plain c && later

-- `/^[^\s@]+@[^\s@]+\.[^\s@]+$/`
unfoldable pub is_valid_email : Text → Bool
unfolding is_space
is_valid_email [] = false
is_valid_email (c ∷ s) = is_plain c && at_later s

abbrev are_phone_digits : Text → Bool
are_phone_digits s = all is_digit s && leb 10 (length s) && leb (length s) 15

-- `/^\+?[0-9]{10,15}$/`
unfoldable pub is_valid_phone : Text → Bool
is_valid_phone [] = false
is_valid_phone (c ∷ s) = if c == 43 then are_phone_digits s else are_phone_digits (c ∷ s)

-- `Recipient.create`
unfoldable pub create_recipient : Text → Result Error Text
create_recipient value = do
  throw_if (is_empty (trim value)) empty_recipient
  throw_if (not (is_valid_email (trim value)) && not (is_valid_phone (trim value)))
      invalid_recipient
  ok (trim value)

-- `[a-f0-9]`
abbrev is_hex : ℕ → Bool
is_hex c = is_digit c || (leb 97 c && leb c 102)

-- The lengths of the groups that are left, with a dash between two of them.
abbrev are_groups : List ℕ → Text → Bool
are_groups [] s = false
are_groups (zero ∷ []) s = is_empty s
are_groups (zero ∷ (n ∷ ns)) [] = false
are_groups (zero ∷ (n ∷ ns)) (c ∷ s) = c == 45 && are_groups (n ∷ ns) s
are_groups (suc n ∷ ns) [] = false
are_groups (suc n ∷ ns) (c ∷ s) = is_hex c && are_groups (n ∷ ns) s

-- `TOKEN_REGEX`
unfoldable pub is_token : Text → Bool
is_token s = are_groups (8 ∷ 4 ∷ 4 ∷ 4 ∷ 12 ∷ []) s

-- `Token.create`
unfoldable pub create_token : Text → Result Error Text
create_token value = do
  throw_if (is_empty (trim value)) empty_token
  throw_if (not (is_token (trim value))) invalid_token_format
  ok (trim value)
