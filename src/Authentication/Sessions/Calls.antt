-- ===== src/Authentication/Sessions/Calls.antt =====
-- The calls that a use case makes of other modules, when they return.
use neltrik_backend.Prelude.{◌≡◌, arith, inl, inr, Bool-cases}
use neltrik_backend.Prelude.Text.{Text}
use neltrik_backend.Prelude.Result.{ok}
use neltrik_backend.Authentication.World.{
  Env, World, IdentityUser, AccessTokenPayload, tick, get_user_by_id, get_role_by_id,
  generate_access_token,
}

module _ (env : Env) where
  pub generate_access_token-ok :
      (p : AccessTokenPayload) (w : World) {t : Text}
      → (generate_access_token env p w).0 ≡ ok t
      → generate_access_token env p w ≡ (ok t, tick w)
  unfolding generate_access_token
  generate_access_token-ok p w e = elim (Bool-cases (env.fault w.calls)) [
    | inl fails ↦ ground arith
    | inr fine ↦ ground arith
  ]

  pub get_user_by_id-ok :
      (id : Text) (w : World) {u : IdentityUser}
      → (get_user_by_id env id w).0 ≡ ok u
      → get_user_by_id env id w ≡ (ok u, tick w)
  unfolding get_user_by_id
  get_user_by_id-ok id w e = ground arith

  pub get_role_by_id-ok :
      (id : Text) (w : World) {r : Text}
      → (get_role_by_id env id w).0 ≡ ok r
      → get_role_by_id env id w ≡ (ok r, tick w)
  unfolding get_role_by_id
  get_role_by_id-ok id w e = ground arith
