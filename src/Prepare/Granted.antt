-- ===== src/Prepare/Granted.antt =====
-- What the creator of a vdev may do with it: `WPCreateVdev` and `applyKV` of
-- controlplane/ctlplanefuncs/server/srvctlplanefuncs.go and `CheckABAC` of
-- controlplane/authorizer/authorizer.go on one data store.
use mathlib.Core.Path.{subst}
use Prim.Native.Char.{Char, code}
use Prim.Native.String.{◌++◌ as str_append, ◌∷◌ as str_cons}
use text.Mathlib.TextLemmas.{append_assoc, cons-append, head-eq_of_cons-eq}
use niova_mdsvc.Prelude.{
  ℕ, String, ◌≡◌, ◌≢◌, refl, sym, ap, ◌∙◌, Bool, true, false, ◌⊎◌, inl, inr, Option, some, List, [],
  ◌∷◌, ◌++◌, All, ok, str_eq, eq_refl, str_eq→eq, str_eq-ne, arith, Bool-cases,
}
use niova_mdsvc.CpLib.{VdevConfig, VdevReq, Filter}
use niova_mdsvc.Commit.{CommitChg, change, ◌/◌, get_conf_key, vdev_key}
use niova_mdsvc.Populate.{populate_vdev}
use niova_mdsvc.Authorizer.{FunctionPolicy, Config, lookup, get_policy, check_abac}
use niova_mdsvc.Authorizer.Groups.{prefixes_for}
use niova_mdsvc.Authorizer.Attributes.{Grants, check_abac_iff}
use niova_mdsvc.Authorizer.Defaults.{vdev_by_id}
use niova_mdsvc.Session.{TokenClaims, ClaimValue, validate_token}
use niova_mdsvc.Store.{DataStore, apply_kv}
use niova_mdsvc.Store.Applied.{value_of, last, all_applied, last-append}
use niova_mdsvc.Prepare.{if_set, vdev_owner_key, create_vdev_changes, wp_create_vdev}
use niova_mdsvc.Prepare.Ownership.{wp_create_vdev-create_vdev_changes}

-- A change that leaves "1" under the key if there was a "1".
abbrev Keeps : String → CommitChg → Type 0
Keeps k c = (str_eq c.key k ≡ false) ⊎ (value_of c.op c.value ≡ some "1")

unfoldable Kept : String → List CommitChg → Type 0
Kept k cs = All (Keeps k) cs

last-Keeps : (k : String) (cs : List CommitChg) → All (Keeps k) cs → last k cs (some "1") ≡ some "1"
last-Keeps k [] a = refl
last-Keeps k (c ∷ cs) (inl e, a) = rw e (last-Keeps k cs a)
last-Keeps k (c ∷ cs) (inr e, a) = elim (Bool-cases (str_eq c.key k)) [
  | inl t ↦ rw (t, e) (last-Keeps k cs a)
  | inr f ↦ rw f (last-Keeps k cs a)
]

Kept-append : (k : String) (bs cs : List CommitChg) → Kept k bs → Kept k cs → Kept k (bs ++ cs)
unfolding Kept
Kept-append k [] cs a b = b
Kept-append k (c ∷ bs) cs a b = (a.0, Kept-append k bs cs a.1 b)

if_set-Kept : (k v : String) (cs : List CommitChg) → Kept k cs → Kept k (if_set v cs)
unfolding if_set Kept
if_set-Kept k v cs a = elim (Bool-cases (str_eq v "")) [ inl e ↦ rw e tt | inr e ↦ rw e a ]

-- Whatever the key held, the changes leave "1" under it.
unfoldable Sets : String → List CommitChg → Type 0
Sets k cs = (d : Option String) → last k cs d ≡ some "1"

Sets-append : (k : String) (bs cs : List CommitChg) → Sets k cs → Sets k (bs ++ cs)
unfolding Sets
Sets-append k bs cs h d = last-append k bs cs d ∙ h (last k bs d)

Sets-change : (k : String) (cs : List CommitChg) → Kept k cs → Sets k (change k "1" ∷ cs)
unfolding Sets Kept
Sets-change k cs a d = rw (eq_refl k) (last-Keeps k cs a)

-- The text begins with the character of this code.
abbrev Begins : ℕ → String → Type 0
Begins n s = (c : Char) × (r : String) × (s ≡ str_cons c r) × (code c ≡ n)

Begins-append : (n : ℕ) (a b : String) → Begins n a → Begins n (str_append a b)
Begins-append n a b (c, r, e, is) =
    (c, str_append r b, ap (λ t. str_append t b) e ∙ cons-append c r b, is)

Begins-ne : (n m : ℕ) (a b : String) → n ≢ m → Begins n a → Begins m b → str_eq a b ≡ false
Begins-ne n m a b ne (c, r, e, is) (d, t, k, at) =
    str_eq-ne a b (λ same. ne (sym is ∙ ap code (head-eq_of_cons-eq (sym e ∙ same ∙ k)) ∙ at))

-- The keys of an owner are the only ones that begin with a slash.
pfs_changes-Kept :
    (user : String) (vdev : VdevConfig)
    → Kept (vdev_owner_key user vdev.id) (
        change (get_conf_key vdev_key vdev.id / "cfg" / "pfs") vdev.pfs_id
        ∷ change ("pfs" / vdev.pfs_id / "v" / vdev.id) ""
        ∷ [])
unfolding vdev_owner_key get_conf_key Kept
pfs_changes-Kept user vdev =
    let owner : Begins b'/' (vdev_owner_key user vdev.id) =
      Begins-append b'/' "/u/" _ (_, _, refl, refl) in
    (
      inl (
          Begins-ne b'v' b'/' _ _ (λ e. absurd (ground (arith, e)))
            (Begins-append b'v' _ _ (Begins-append b'v' "v" _ (_, _, refl, refl))) owner),
      (
        inl (
            Begins-ne b'p' b'/' _ _ (λ e. absurd (ground (arith, e)))
              (Begins-append b'p' "pfs" _ (_, _, refl, refl)) owner),
        tt,
      ),
    )

vname_change-Kept : (k j : String) → Kept k (change j "1" ∷ [])
unfolding Kept
vname_change-Kept k j = (inr refl, tt)

-- The creator's key is among the changes, and those after it write other keys, or "1".
create_vdev_changes-Sets :
    (tc : TokenClaims) (vdev : VdevConfig) (filter : Filter)
    → Sets (vdev_owner_key tc.user_id vdev.id) (create_vdev_changes tc vdev filter)
unfolding create_vdev_changes
create_vdev_changes-Sets tc vdev filter =
    let k = vdev_owner_key tc.user_id vdev.id in
    Sets-append k (populate_vdev vdev vdev_key) _ (
      Sets-append k (_ ∷ _ ∷ []) _ (
        Sets-append k (if_set filter.id _) _ (
          Sets-change k _ (
            Kept-append k (if_set vdev.pfs_id _) (if_set vdev.name _)
              (if_set-Kept k vdev.pfs_id _ (pfs_changes-Kept tc.user_id vdev))
              (if_set-Kept k vdev.name _ (vname_change-Kept k _))))))

-- A rule on the ID of a vdev is met by the owner's key.
vdev_by_id-Grants :
    (read : String → String → String ⊎ Option String) (user : String)
    (attributes : List (String × String)) (family id : String)
    → lookup "vdev" attributes ≡ some id
    → read (vdev_owner_key user id) family ≡ inr (some "1")
    → (a : String) → Grants read user attributes family a (prefixes_for a vdev_by_id)
unfolding prefixes_for vdev_owner_key
vdev_by_id-Grants read user attributes family id given owned a =
    elim (Bool-cases (str_eq "vdev" a)) [
      | inl e ↦
          subst (λ a. Grants read user attributes family a (prefixes_for a vdev_by_id))
            (str_eq→eq "vdev" a e)
            (
              id,
              given,
              "v/",
              refl,
              ap (λ k. read (str_append "/u/" (str_append user k)) family)
                    (sym (append_assoc "/" "v/" id))
                  ∙ owned,
            )
      | inr e ↦ rw e tt
    ]

module _ (ds : DataStore) (verify_token : String → String ⊎ List (String × ClaimValue))
    (parse_uuid : String → Bool) (cfg : Config) where
  -- The creator of a vdev owns it: with authentication enabled and an authorizer, once the changes of an
  -- accepted WPCreateVdev have all been applied by applyKV, CheckABAC on that store lets the creator call
  -- any registered function whose only rule is that the caller owns the vdev that it names by its ID, for
  -- the new ID and in any column family.
  pub wp_create_vdev-check_abac :
      (token : String) (new_id : Option String) (req : VdevReq) (out : List CommitChg × String)
      (s s' : ds.State) (fn : String) (policy : FunctionPolicy)
      (attributes : List (String × String)) (family : String)
      → wp_create_vdev verify_token parse_uuid true (some cfg) token new_id req ≡ ok out
      → apply_kv ds out.0 s ≡ (ok tt, s')
      → get_policy cfg fn ≡ some policy
      → policy.abac ≡ vdev_by_id
      → lookup "vdev" attributes ≡ some out.1
      → (tc : TokenClaims) × (validate_token verify_token true token ≡ ok tc)
        × (check_abac (λ k f. inr (ds.read k s')) cfg fn tc.user_id attributes family ≡ true)
  unfolding Sets
  wp_create_vdev-check_abac token new_id req out s s' fn policy attributes family made applied
        registered by_id given =
      let (tc, vdev, known, _, _, same) =
        wp_create_vdev-create_vdev_changes verify_token parse_uuid cfg token new_id req out made in
      let owned : ds.read (vdev_owner_key tc.user_id out.1) s' ≡ some "1" =
        all_applied ds out.0 s s' applied (vdev_owner_key tc.user_id out.1)
        ∙ subst
            (λ (o : List CommitChg × String).
              (d : Option String) → last (vdev_owner_key tc.user_id o.1) o.0 d ≡ some "1")
            same (create_vdev_changes-Sets tc vdev req.filter) _ in
      (
        tc,
        known,
        (check_abac_iff (λ k f. inr (ds.read k s')) tc.user_id attributes family cfg fn).1 (
          policy,
          registered,
          subst
              (λ rules.
                (a : String)
                → Grants (λ k f. inr (ds.read k s')) tc.user_id attributes family a
                    (prefixes_for a rules))
              (sym by_id)
              (vdev_by_id-Grants (λ k f. inr (ds.read k s')) tc.user_id attributes family out.1
                given (ap (λ r. inr r) owned)),
        ),
      )
