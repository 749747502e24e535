-- ===== src/Prepare/Ownership.antt =====
-- Who owns a vdev that `WPCreateVdev` of controlplane/ctlplanefuncs/server/srvctlplanefuncs.go prepares.
use mathlib.Core.Path.{subst}
use niova_mdsvc.Prelude.{
  String, ◌≡◌, refl, ap, ◌∙◌, Bool, true, ◌⊎◌, Option, none, some, List, [], ◌∷◌, ◌++◌, Outcome, ok,
  ◌>>=◌, first_call, ok_eq,
}
use niova_mdsvc.CpLib.{VdevConfig, VdevReq, Filter}
use niova_mdsvc.CpLib.Blocks.{init_chunk_cnt}
use niova_mdsvc.Commit.{CommitChg, change, vdev_key}
use niova_mdsvc.Populate.{populate_vdev}
use niova_mdsvc.Authorizer.{Config, check_rbac}
use niova_mdsvc.Session.{TokenClaims, ClaimValue, validate_token, validate_and_authorize_rbac}
use niova_mdsvc.Session.Claims.{validate_and_authorize_rbac-eq-ok}
use niova_mdsvc.Prepare.{
  PrepareError, map_error, auth, authorized, check_name, init_vdev, if_set, vdev_owner_key,
  create_vdev_changes, wp_create_vdev,
}
use niova_mdsvc.Prepare.Accepted.{map_error-eq-ok}

-- The list has the change `c`.
abbrev pub Has : CommitChg → List CommitChg → Type 0
Has c cs = (before : List CommitChg) × (after : List CommitChg) × (cs ≡ before ++ (c ∷ after))

Has-append : (c : CommitChg) (bs cs : List CommitChg) → Has c cs → Has c (bs ++ cs)
Has-append c [] cs h = h
Has-append c (b ∷ bs) cs h =
    let (before, after, e) = Has-append c bs cs h in (b ∷ before, after, ap (λ t. b ∷ t) e)

Has-create_vdev_changes :
    (tc : TokenClaims) (vdev : VdevConfig) (filter : Filter)
    → Has (change (vdev_owner_key tc.user_id vdev.id) "1") (create_vdev_changes tc vdev filter)
unfolding create_vdev_changes
Has-create_vdev_changes tc vdev filter =
    let c = change (vdev_owner_key tc.user_id vdev.id) "1" in
    Has-append c (populate_vdev vdev vdev_key) _
      (Has-append c (_ ∷ _ ∷ []) _ (Has-append c (if_set filter.id _) _ ([], _, refl)))

module _ (verify_token : String → String ⊎ List (String × ClaimValue)) (parse_uuid : String → Bool)
    (cfg : Config) where
  init_vdev-id :
      (new_id : Option String) (v w : VdevConfig)
      → init_vdev verify_token parse_uuid true (some cfg) new_id v ≡ ok w
      → new_id ≡ some w.id
  unfolding init_vdev init_chunk_cnt
  init_vdev-id none v w h = cc
  init_vdev-id (some id) v w h =
      ap (λ (t : VdevConfig). some t.id)
        (ok_eq (init_vdev verify_token parse_uuid true (some cfg) (some id) v) refl h)

  -- What the caller of an accepted WPCreateVdev is, and what it prepares.
  pub wp_create_vdev-create_vdev_changes :
      (token : String) (new_id : Option String) (req : VdevReq) (out : List CommitChg × String)
      → wp_create_vdev verify_token parse_uuid true (some cfg) token new_id req ≡ ok out
      → (tc : TokenClaims) × (vdev : VdevConfig) × (validate_token verify_token true token ≡ ok tc)
        × (check_rbac cfg "WPCreateVdev" (tc.role ∷ []) ≡ true)
        × (new_id ≡ some vdev.id)
        × ((create_vdev_changes tc vdev req.filter, vdev.id) ≡ out)
  unfolding wp_create_vdev authorized
  wp_create_vdev-create_vdev_changes token new_id req out h =
      let (tc, rest, passed) =
        first_call after_auth
          (map_error auth
            (validate_and_authorize_rbac verify_token true (some cfg) token "WPCreateVdev"))
          out h in
      let (known, _, _, allowed) =
        validate_and_authorize_rbac-eq-ok verify_token cfg token "WPCreateVdev" tc
          (map_error-eq-ok auth _ passed) in
      let (_, rest', _) =
        first_call (λ _. after_name tc)
          (check_name verify_token parse_uuid true (some cfg) req.vdev.name) out rest in
      let (vdev, made, from) =
        first_call (prepared tc) (init_vdev verify_token parse_uuid true (some cfg) new_id req.vdev)
          out rest' in
      (
        tc,
        vdev,
        known,
        allowed,
        init_vdev-id new_id req.vdev vdev from,
        ok_eq (prepared tc vdev) refl made,
      )
    where
      prepared : TokenClaims → VdevConfig → Outcome PrepareError (List CommitChg × String)
      prepared tc vdev = ok (create_vdev_changes tc vdev req.filter, vdev.id)

      after_name : TokenClaims → Outcome PrepareError (List CommitChg × String)
      after_name tc =
          init_vdev verify_token parse_uuid true (some cfg) new_id req.vdev >>= prepared tc

      after_auth : TokenClaims → Outcome PrepareError (List CommitChg × String)
      after_auth tc =
          check_name verify_token parse_uuid true (some cfg) req.vdev.name >>= λ _. after_name tc

  -- With authentication enabled and an authorizer, WPCreateVdev prepares changes only for a caller with a
  -- valid token whose role CheckRBAC lets pass; the ID of its response is the new UUID, and among the
  -- changes is the one that writes "1" under that caller's ownership key for it.
  pub wp_create_vdev-eq-ok :
      (token : String) (new_id : Option String) (req : VdevReq) (out : List CommitChg × String)
      → wp_create_vdev verify_token parse_uuid true (some cfg) token new_id req ≡ ok out
      → (tc : TokenClaims) × (validate_token verify_token true token ≡ ok tc)
        × (check_rbac cfg "WPCreateVdev" (tc.role ∷ []) ≡ true)
        × (new_id ≡ some out.1)
        × Has (change (vdev_owner_key tc.user_id out.1) "1") out.0
  wp_create_vdev-eq-ok token new_id req out h =
      let (tc, vdev, known, allowed, new, same) =
        wp_create_vdev-create_vdev_changes token new_id req out h in
      (
        tc,
        known,
        allowed,
        new ∙ ap (λ (o : List CommitChg × String). some o.1) same,
        subst
            (λ (o : List CommitChg × String). Has (change (vdev_owner_key tc.user_id o.1) "1") o.0)
            same (Has-create_vdev_changes tc vdev req.filter),
      )
