-- ===== src/Prepare.antt =====
-- The write-prepare handlers of controlplane/ctlplanefuncs/server/srvctlplanefuncs.go that register a NISD
-- and create a vdev: `WPNisdCfg` and `WPCreateVdev`. The request is decoded; the new UUID, the verification
-- of a token and that of a UUID are parameters. The result is the changes with the response, of which
-- `WPCreateVdev` here gives the ID.
pub mod Accepted
pub mod Ownership
pub mod Granted
pub mod Hardware
use Prim.Native.String.{◌++◌ as str_append}
use niova_mdsvc.Prelude.{
  String, Bool, true, false, not, ◌&&◌, ◌⊎◌, Option, none, some, List, [], ◌∷◌, ◌++◌, Outcome, ok,
  err, panic, running, ◌>>=◌, str_eq, if◌then◌else◌,
}
use niova_mdsvc.CpLib.{Nisd, VdevConfig, VdevReq, Filter}
use niova_mdsvc.CpLib.Blocks.{init_chunk_cnt}
use niova_mdsvc.CpLib.Domains.{fd_name}
use niova_mdsvc.CpLib.Validate.{Invalid, validate_nisd}
use niova_mdsvc.CpLib.Names.{is_alphanumeric}
use niova_mdsvc.Commit.{CommitChg, change, ◌/◌, get_conf_key, vdev_key, nisd_cfg_key}
use niova_mdsvc.Populate.{populate_nisd, populate_vdev}
use niova_mdsvc.Authorizer.{Config}
use niova_mdsvc.Session.{TokenClaims, ClaimValue, AuthError, validate_and_authorize_rbac}

pub data PrepareError : Type 0 where
  auth : AuthError → PrepareError
  invalid_nisd : Invalid → PrepareError
  invalid_vdev_name : String → PrepareError
  failed_to_initialize : PrepareError

-- `ResponseXML`
pub record ResponseXml : Type 0 where
  pub name : String
  pub id : String
  pub error : String
  pub success : Bool

abbrev pub map_error {ℓ} : {D E A : Type ℓ} → (D → E) → Outcome D A → Outcome E A
map_error f (ok a) = ok a
map_error f (err d) = err (f d)
map_error f panic = panic
map_error f running = running

-- `PopulateEntities` cannot fail; it panics where a level is missing.
abbrev populated : Outcome Unit (List CommitChg) → Outcome PrepareError (List CommitChg)
populated (ok cs) = ok cs
populated (err u) = panic
populated panic = panic
populated running = running

-- Whether a text is set, and then these changes.
unfoldable pub if_set : String → List CommitChg → List CommitChg
if_set s cs = if str_eq s "" then [] else cs

-- The keys by which the caller owns a vdev and its name.
unfoldable pub vdev_owner_key : String → String → String
vdev_owner_key user id = str_append "/u/" (str_append user (str_append "/v/" id))

unfoldable pub vname_owner_key : String → String → String
vname_owner_key user name = str_append "/u/" (str_append user (str_append "/vname/" name))

-- The changes of `WPCreateVdev` for a vdev with its new ID.
unfoldable pub create_vdev_changes : TokenClaims → VdevConfig → Filter → List CommitChg
unfolding if_set vdev_owner_key vname_owner_key
create_vdev_changes tc vdev filter =
    let key = get_conf_key vdev_key vdev.id in
    populate_vdev vdev vdev_key
    ++ (change ("vname" / vdev.name) vdev.id
        ∷ change (key / "cfg" / "fdt") (fd_name filter.type)
        ∷ (if_set filter.id (change (key / "cfg" / "fdi") filter.id ∷ [])
            ++ (change (vdev_owner_key tc.user_id vdev.id) "1"
                ∷ (if_set vdev.pfs_id (
                      change (key / "cfg" / "pfs") vdev.pfs_id
                      ∷ change ("pfs" / vdev.pfs_id / "v" / vdev.id) ""
                      ∷ [])
                    ++ if_set vdev.name (change (vname_owner_key tc.user_id vdev.name) "1" ∷ [])))))

module _ (verify_token : String → String ⊎ List (String × ClaimValue)) (parse_uuid : String → Bool)
    (enabled : Bool) (authorizer : Option Config) where
  unfoldable pub authorized : String → String → Outcome PrepareError TokenClaims
  authorized token fn =
      map_error auth (validate_and_authorize_rbac verify_token enabled authorizer token fn)

  -- `WPNisdCfg`
  unfoldable pub wp_nisd_cfg : String → Nisd → Outcome PrepareError (List CommitChg × ResponseXml)
  unfolding authorized
  wp_nisd_cfg token nisd = do
    valid ← map_error invalid_nisd (validate_nisd parse_uuid nisd)
    tc ← authorized token "WPNisdCfg"
    changes ← populated (populate_nisd nisd nisd_cfg_key)
    ok (changes, record { name = nisd.id; id = ""; error = ""; success = true })

  -- `(*VdevConfig).Init` with the outcome of `uuid.NewV7`.
  unfoldable pub init_vdev : Option String → VdevConfig → Outcome PrepareError VdevConfig
  init_vdev none v = err failed_to_initialize
  init_vdev (some id) v = ok (init_chunk_cnt (record v { id = id }))

  unfoldable pub check_name : String → Outcome PrepareError Unit
  check_name name =
      if not (str_eq name "") && not (is_alphanumeric name)
      then err (invalid_vdev_name name)
      else ok tt

  -- `WPCreateVdev`
  unfoldable pub wp_create_vdev :
      String → Option String → VdevReq → Outcome PrepareError (List CommitChg × String)
  unfolding authorized check_name init_vdev create_vdev_changes
  wp_create_vdev token new_id req = do
    tc ← authorized token "WPCreateVdev"
    named ← check_name req.vdev.name
    vdev ← init_vdev new_id req.vdev
    ok (create_vdev_changes tc vdev req.filter, vdev.id)
