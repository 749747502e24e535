-- ===== src/User/Updated.antt =====
-- What an update by `PutUser` of controlplane/user/server/handlers.go leaves of a user and of its index key.
use mathlib.Core.Path.{subst}
use niova_mdsvc.Prelude.{
  String, ◌≡◌, ◌≢◌, refl, sym, ap, ◌∙◌, Bool, true, false, not, ◌&&◌, ◌⊎◌, inl, inr, Option, List,
  [], ◌∷◌, ok, str_eq, if◌then◌else◌, arith, eq_iff, str_eq-ne, str_eq→eq, Bool-cases,
}
use niova_mdsvc.Commit.{CommitChg, delete, ◌/◌}
use niova_mdsvc.Authorizer.{Config}
use niova_mdsvc.Session.{ClaimValue}
use niova_mdsvc.User.{UserReq, User, admin_username, index_key, serialize_username_index_delete}
use niova_mdsvc.User.Handlers.{RangeRead, get_user_id_by_username, check_unused, rename}
use niova_mdsvc.User.PutUser.{renames, old_index}
use niova_mdsvc.User.Changed.{KeyOf, rename-eq-ok}
use niova_mdsvc.User.Callers.{check_unused-eq-ok}

module _ (verify_token : String → String ⊎ List (String × ClaimValue)) (cfg : Config)
    (range_read : String → RangeRead) (encrypt : String → Option String)
    (new_uuid new_key : Option String) where
  -- What an update leaves of a user: its ID, role, status and kind; the name, unless it was no admin's and
  -- the new one is neither reserved nor in the index; and the secret key, unless it was an admin's.
  pub record Updated (req : UserReq) (existing user : User) (plain : String) : Type 0 where
    pub same_id : user.user_id ≡ existing.user_id
    pub same_role : user.user_role ≡ existing.user_role
    pub same_status : user.status ≡ existing.status
    pub same_kind : user.is_admin ≡ existing.is_admin
    pub name :
        (((req.username ≡ "") ⊎ (req.username ≡ existing.username))
          × (user.username ≡ existing.username))
        ⊎ ((req.username ≢ "")
            × (req.username ≢ existing.username)
            × (existing.is_admin ≡ false)
            × (req.username ≢ "admin")
            × (user.username ≡ req.username)
            × (get_user_id_by_username range_read req.username ≡ ok ""))
    pub key : KeyOf encrypt req existing user.secret_key plain

  renaming :
      (req : UserReq) (existing : User)
      → renames req existing ≡ true
      → (req.username ≢ "") × (req.username ≢ existing.username)
  unfolding renames
  renaming req existing h = (
    λ e. absurd (ground (arith, h, e, eq_iff req.username "")),
    λ e. absurd (ground (arith, h, e, eq_iff req.username existing.username)),
  )

  no_renaming :
      (req : UserReq) (existing : User)
      → renames req existing ≡ false
      → (req.username ≡ "") ⊎ (req.username ≡ existing.username)
  unfolding renames
  no_renaming req existing h = elim (Bool-cases (str_eq req.username "")) [
    | inl e ↦ inl (str_eq→eq req.username "" e)
    | inr e ↦ inr (ground (arith, h, e, eq_iff req.username existing.username))
  ]

  -- What follows the changes that store an updated user: the deletion of the index key of the old name if
  -- there was one and the name has changed, and nothing otherwise.
  abbrev pub Unindexed : User → User → List CommitChg → Type 0
  Unindexed existing user tail =
      (((user.username ≡ existing.username) ⊎ (existing.username ≡ "")) × (tail ≡ []))
      ⊎ ((user.username ≢ existing.username)
          × (existing.username ≢ "")
          × (tail
              ≡ record { key = "u-idx" / "un" / existing.username; value = ""; op = delete } ∷ []))

  pub old_index-Unindexed :
      (req : UserReq) (existing user : User) (plain : String)
      → Updated req existing user plain
      → Unindexed existing user (old_index req existing)
  unfolding old_index renames serialize_username_index_delete index_key
  old_index-Unindexed req existing user plain u = go u.name
    where
      kept : (req.username ≡ "") ⊎ (req.username ≡ existing.username) → old_index req existing ≡ []
      kept (inl e) = ground (arith, e, eq_iff req.username "")
      kept (inr e) = ground (arith, e, eq_iff req.username existing.username)

      go :
          (((req.username ≡ "") ⊎ (req.username ≡ existing.username))
              × (user.username ≡ existing.username))
            ⊎ ((req.username ≢ "")
                × (req.username ≢ existing.username)
                × (existing.is_admin ≡ false)
                × (req.username ≢ "admin")
                × (user.username ≡ req.username)
                × (get_user_id_by_username range_read req.username ≡ ok ""))
          → Unindexed existing user (old_index req existing)
      go (inl (same, name)) = inl (inl name, kept same)
      go (inr (some_name, other, _, _, name, _)) = elim (Bool-cases (str_eq existing.username "")) [
        | inl e ↦ inl (inr (str_eq→eq existing.username "" e), rw (e, old_index) (ground arith))
        | inr e ↦ inr (
          λ same. other (sym name ∙ same),
          λ none. absurd (ground (arith, e, none, eq_iff existing.username "")),
          rw (str_eq-ne req.username "" some_name, old_index)
              (rw (str_eq-ne req.username existing.username other, old_index)
                (rw (e, old_index) refl)),
        )
      ]

  pub may_update :
      (admin : Bool) (caller id : String)
      → (true && (not admin && not (str_eq caller id))) ≡ false
      → (admin ≡ true) ⊎ (caller ≡ id)
  may_update true caller id h = inl refl
  may_update false caller id h = inr (ground (arith, h, eq_iff caller id))

  -- The new record, from the renaming and the new secret key.
  pub updated :
      (req : UserReq) (existing named user : User) (plain : String) {u : Unit {0}}
      → (if renames req existing then check_unused range_read req.username else ok tt) ≡ ok u
      → rename encrypt (record req { is_admin = existing.is_admin }) existing ≡ ok named
      → KeyOf encrypt req named user.secret_key plain
      → user ≡ record named { secret_key = user.secret_key }
      → Updated req existing user plain
  unfolding renames
  updated req existing named user plain {u} unused renamed key same =
      go (rename-eq-ok encrypt (record req { is_admin = existing.is_admin }) existing named renamed)
    where
      go :
          ((renames req existing ≡ false) × (named ≡ existing))
            ⊎ ((renames req existing ≡ true)
                × (existing.is_admin ≡ false)
                × (req.username ≢ admin_username)
                × (named ≡ record existing { username = req.username }))
          → Updated req existing user plain
      go (inl (not_renamed, kept)) =
          let whole : user ≡ record existing { secret_key = user.secret_key } =
            same ∙ ap (λ (t : User). record t { secret_key = user.secret_key }) kept in
          record {
            same_id = ap (λ (t : User). t.user_id) whole;
            same_role = ap (λ (t : User). t.user_role) whole;
            same_status = ap (λ (t : User). t.status) whole;
            same_kind = ap (λ (t : User). t.is_admin) whole;
            name = inl (no_renaming req existing not_renamed, ap (λ (t : User). t.username) whole);
            key = subst (λ (t : User). KeyOf encrypt req t user.secret_key plain) kept key;
          }
      go (inr (is_renamed, no_admin, not_reserved, new)) =
          let whole : user
              ≡ record existing { username = req.username; secret_key = user.secret_key } =
            same ∙ ap (λ (t : User). record t { secret_key = user.secret_key }) new in
          record {
            same_id = ap (λ (t : User). t.user_id) whole;
            same_role = ap (λ (t : User). t.user_role) whole;
            same_status = ap (λ (t : User). t.status) whole;
            same_kind = ap (λ (t : User). t.is_admin) whole;
            name = inr (
              (renaming req existing is_renamed).0,
              (renaming req existing is_renamed).1,
              no_admin,
              not_reserved,
              ap (λ (t : User). t.username) whole,
              check_unused-eq-ok range_read req.username (rw is_renamed at unused),
            );
            key = subst (λ (t : User). KeyOf encrypt req t user.secret_key plain) new key;
          }
