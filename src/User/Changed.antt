-- ===== src/User/Changed.antt =====
-- What an accepted `PutUser` of controlplane/user/server/handlers.go does: who may create or update a user,
-- and what of the user may change.
use niova_mdsvc.Prelude.{
  String, ◌≡◌, ◌≢◌, refl, ap, Bool, true, false, not, ◌⊎◌, inl, inr, Option, none, some, Outcome,
  ok, err, first_call, str_eq, if◌then◌else◌, arith, eq_iff, Bool-cases, Option-cases,
}
use niova_mdsvc.User.{UserReq, User, admin_username}
use niova_mdsvc.User.Handlers.{UserError, guard, rename, with_secret, handle_update_user}
use niova_mdsvc.User.PutUser.{renames, existing_user}

pub guard-eq-ok : (b : Bool) (e : UserError) {u : Unit {0}} → guard b e ≡ ok u → b ≡ false
unfolding guard
guard-eq-ok true e h = cc
guard-eq-ok false e h = refl

pub existing_user-eq-ok :
    (id : String) (o : Option User) {u : User} → existing_user id o ≡ ok u → o ≡ some u
unfolding existing_user
existing_user-eq-ok id none h = cc
existing_user-eq-ok id (some u) h = cc

module _ (encrypt : String → Option String) where
  pub with_secret-eq-ok :
      (plain : String) (user : User) (r : User × String)
      → with_secret encrypt plain user ≡ ok r
      → (secret : String) × (encrypt plain ≡ some secret)
        × (r ≡ (record user { secret_key = secret }, plain))
  unfolding with_secret
  with_secret-eq-ok plain user r h = elim (Option-cases (encrypt plain)) [
    | inl e ↦ absurd (ground (arith, e))
    | inr (secret, e) ↦ (secret, e, ground (arith, e))
  ]

  -- The renaming of a user: not of an admin, and not to the reserved name.
  pub rename-eq-ok :
      (req : UserReq) (existing user : User)
      → rename encrypt req existing ≡ ok user
      → ((renames req existing ≡ false) × (user ≡ existing))
        ⊎ ((renames req existing ≡ true)
            × (existing.is_admin ≡ false)
            × (req.username ≢ admin_username)
            × (user ≡ record existing { username = req.username }))
  unfolding rename renames
  rename-eq-ok req existing user h = elim (Bool-cases (renames req existing)) [
    | inl e ↦ inr (
      e,
      ground (arith, e),
      λ u. absurd (ground (arith, e, u, eq_iff req.username admin_username)),
      ground (arith, e),
    )
    | inr e ↦ inl (e, ground (arith, e))
  ]

  -- The secret key is that of before, or of an admin and encrypted from the request.
  abbrev pub KeyOf : UserReq → User → String → String → Type 0
  KeyOf req existing secret plain =
      ((secret ≡ existing.secret_key) × (plain ≡ ""))
      ⊎ ((existing.is_admin ≡ true) × (encrypt plain ≡ some secret) × (plain ≡ req.new_secret_key))

  pub handle_update_user-eq-ok :
      (req : UserReq) (existing : User) (r : User × String)
      → handle_update_user encrypt req existing ≡ ok r
      → (named : User) × (rename encrypt req existing ≡ ok named)
        × KeyOf req named r.0.secret_key r.1
        × (r.0 ≡ record named { secret_key = r.0.secret_key })
  unfolding handle_update_user
  handle_update_user-eq-ok req existing r h =
      let (named, rest, renamed) = first_call after (rename encrypt req existing) r h in
      let (of_key, same) = key named rest in (named, renamed, of_key, same)
    where
      after : User → Outcome UserError (User × String)
      after user =
          if str_eq req.new_secret_key ""
          then ok (user, "")
          else if not user.is_admin
          then err UserError.only_admins_change_key
          else with_secret encrypt req.new_secret_key user

      key :
          (named : User)
          → after named ≡ ok r
          → KeyOf req named r.0.secret_key r.1
            × (r.0 ≡ record named { secret_key = r.0.secret_key })
      key named rest = elim (Bool-cases (str_eq req.new_secret_key "")) [
        | inl e ↦ (inl (ground (arith, rest, e)), ground (arith, rest, e))
        | inr e ↦ elim (Bool-cases named.is_admin) [
          | inr no_admin ↦ absurd (ground (arith, rest, e, no_admin))
          | inl admin ↦
              let (secret, encrypted, same) =
                with_secret-eq-ok req.new_secret_key named r (ground (arith, rest, e, admin)) in
              (
                inr (admin, ground (arith, encrypted, same), ap (λ (p : User × String). p.1) same),
                ground (arith, same),
              )
        ]
      ]
