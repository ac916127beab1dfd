-- ===== src/Guards/Csrf.antt =====
-- CsrfTokenProvider: src/shared/auth/providers/csrf-token/index.ts.
use neltrik_backend.Prelude.{
  ℕ, ◌≡◌, ◌≢◌, refl, ap, ◌∙◌, arith, Bool, true, false, not, ◌==◌, if◌then◌else◌, Option, none,
  some, List, [], ◌∷◌, ◌++◌, length, is_empty, All,
}
use neltrik_backend.Prelude.Text.{Text, text, text_eq, text_eq_refl, text_eq_iff}
use neltrik_backend.FileStorage.UseCases.Keys.{decimal}

-- `createHmac("sha256", secret).update(message).digest("hex")`, and the number of bytes of a text in
-- UTF-8, `Buffer.from(text).length`.
pub record Crypto : Type 0 where
  pub hmac : Text → Text
  pub utf8_length : Text → ℕ

abbrev dot : ℕ
dot = b'.'

-- The first part and the others.
abbrev add_to_first : ℕ → List Text → List Text
add_to_first c [] = (c ∷ []) ∷ []
add_to_first c (p ∷ ps) = (c ∷ p) ∷ ps

-- `s.split(".")`
unfoldable pub split_dots : Text → List Text
split_dots [] = [] ∷ []
split_dots (c ∷ s) = let rest = split_dots s in if c == dot then [] ∷ rest else add_to_first c rest

-- `buildMessage`
unfoldable pub build_message : Text → Text → Text
unfolding decimal
build_message session_id random =
    decimal (length session_id)
    ++ (text "!" ++ (session_id ++ (text "!" ++ (decimal (length random) ++ (text "!" ++ random)))))

module _ (crypto : Crypto) where
  -- `generate`, with what `randomBytes(32).toString("hex")` gives
  unfoldable pub generate : Text → Text → Text
  unfolding build_message
  generate session_id random = crypto.hmac (build_message session_id random) ++ (dot ∷ random)

  -- `timingSafeEqual`, which throws if the two buffers differ in length; `none` is that error.
  unfoldable pub timing_safe_equal : Text → Text → Option Bool
  unfolding text_eq
  timing_safe_equal a b =
      if crypto.utf8_length a == crypto.utf8_length b then some (text_eq a b) else none

  unfoldable pub verify_parts : Text → List Text → Option Bool
  unfolding build_message timing_safe_equal
  verify_parts session_id (hmac ∷ random ∷ []) =
      if is_empty hmac
      then some false
      else if is_empty random
      then some false
      else if not (length hmac == 64)
      then some false
      else timing_safe_equal hmac (crypto.hmac (build_message session_id random))
  verify_parts session_id _ = some false

  -- `verify`; `none` is an error that is thrown
  unfoldable pub verify : Option Text → Text → Option Bool
  unfolding verify_parts split_dots
  verify none session_id = some false
  verify (some []) session_id = some false
  verify (some (c ∷ s)) session_id = verify_parts session_id (split_dots (c ∷ s))

  abbrev pub HasNoDot : Text → Type 0
  HasNoDot s = All (λ c. c ≢ dot) s

  split_dots-HasNoDot : (s : Text) → HasNoDot s → split_dots s ≡ s ∷ []
  unfolding split_dots
  split_dots-HasNoDot [] h = refl
  split_dots-HasNoDot (c ∷ s) h = ground (arith, split_dots-HasNoDot s h.1, h.0)

  split_dots-append :
      (s t : Text) → HasNoDot s → HasNoDot t → split_dots (s ++ (dot ∷ t)) ≡ s ∷ t ∷ []
  unfolding split_dots
  split_dots-append [] t h k = ground (arith, split_dots-HasNoDot t k)
  split_dots-append (c ∷ s) t h k = ground (arith, split_dots-append s t h.1 k, h.0)

  verify-split :
      (t session_id : Text) (p q : Text)
      → split_dots t ≡ p ∷ q ∷ []
      → is_empty p ≡ false
      → verify (some t) session_id ≡ verify_parts session_id (p ∷ q ∷ [])
  unfolding verify split_dots
  verify-split [] session_id p q e h = cc
  verify-split (c ∷ s) session_id p q e h = ap (λ ps. verify_parts session_id ps) e

  -- A token generated for a session is verified for it, when the digest has 64 characters and the random
  -- value is not empty, and neither holds a dot: both are hexadecimal.
  pub verify-generate :
      (session_id random : Text)
      → length (crypto.hmac (build_message session_id random)) ≡ 64
      → HasNoDot (crypto.hmac (build_message session_id random))
      → HasNoDot random
      → is_empty random ≡ false
      → verify (some (generate session_id random)) session_id ≡ some true
  unfolding generate verify_parts timing_safe_equal
  verify-generate session_id random size no_dot no_dot' full =
      let hash = crypto.hmac (build_message session_id random) in
      let parts = split_dots-append hash random no_dot no_dot' in
      let present = not_empty hash size in
      verify-split (hash ++ (dot ∷ random)) session_id hash random parts present
      ∙ ground (arith, text_eq_refl hash)
    where
      not_empty : (s : Text) → length s ≡ 64 → is_empty s ≡ false
      not_empty [] e = absurd (ground arith)
      not_empty (c ∷ s) e = refl

  -- What a token is whose verification returns true.
  pub record Verified (t session_id : Text) : Type 0 where
    pub hmac : Text
    pub random : Text
    pub parts : split_dots t ≡ hmac ∷ random ∷ []
    pub digest : hmac ≡ crypto.hmac (build_message session_id random)

  verify_parts-Verified :
      (t session_id : Text) (ps : List Text)
      → split_dots t ≡ ps
      → verify_parts session_id ps ≡ some true
      → Verified t session_id
  unfolding verify_parts timing_safe_equal
  verify_parts-Verified t session_id [] e h = cc
  verify_parts-Verified t session_id (p ∷ []) e h = cc
  verify_parts-Verified t session_id (p ∷ q ∷ []) e h = record {
    hmac = p;
    random = q;
    parts = e;
    digest = ground (arith, text_eq_iff p (crypto.hmac (build_message session_id q)));
  }
  verify_parts-Verified t session_id (p ∷ q ∷ (r ∷ rs)) e h = cc

  pub verify-Verified :
      (t session_id : Text) → verify (some t) session_id ≡ some true → Verified t session_id
  unfolding verify
  verify-Verified [] session_id h = cc
  verify-Verified (c ∷ s) session_id h =
      verify_parts-Verified (c ∷ s) session_id (split_dots (c ∷ s)) refl h
