-- ===== src/Handlers/FileSystem.antt =====
-- File systems (PFS): `WPPFSCfg` and `ReadPFSCfg` of
-- controlplane/ctlplanefuncs/server/srvctlplanefuncs.go. The new UUID and the offset that `rand.Intn` gives are
-- parameters.
use niova_mdsvc.Prelude.{
  ℕ, String, Bool, not, ◌&&◌, Option, none, some, List, [], ◌∷◌, ◌++◌, Outcome, ok, err, ◌>>=◌,
  str_eq, if◌then◌else◌, itoa,
}
use niova_mdsvc.Prelude.Numbers.{parse_int, number, bad_syntax, out_of_range}
use niova_mdsvc.Commit.{CommitChg, change, ◌/◌, get_conf_key}
use niova_mdsvc.Authorizer.{Config}
use niova_mdsvc.Store.Ranges.{RangeStore}
use niova_mdsvc.Handlers.{Env, HandlerError, not_created, pfs_not_found}
use niova_mdsvc.Parser.{ParseEntity, all_entities}
use niova_mdsvc.Handlers.Mount.{or_failed}
use niova_mdsvc.Handlers.Create.{pfs_key, offset_key}
use niova_mdsvc.Handlers.Read.{permitted}

pub record Pfs : Type 0 where
  pub id : String
  pub name : String
  pub offset : ℕ
  pub vdev_ids : List String

-- The ID of the request, or a new one.
unfoldable pub pfs_with_id : Option String → Pfs → Outcome HandlerError Pfs
pfs_with_id new_id pfs =
    if str_eq pfs.id ""
    then elim new_id [ none ↦ err not_created | some id ↦ ok (record pfs { id = id }) ]
    else ok pfs

unfoldable pub pfs_cfg_changes : ℕ → Pfs → List CommitChg
unfolding offset_key
pfs_cfg_changes offset pfs =
    change (pfs_key / pfs.id / "nm") pfs.name
    ∷ change (offset_key pfs.id) (itoa offset)
    ∷ change (pfs_key / pfs.name) pfs.id
    ∷ []

-- A third piece of a key, and a fourth for a vdev of the PFS.
unfoldable pub pfs_field : Pfs → List String → String → Pfs
pfs_field p (root ∷ (id ∷ (f ∷ rest))) v =
    if str_eq f "nm"
    then record p { name = v }
    else if str_eq f "offset"
    then elim (parse_int v) [
      | number n ↦ record p { offset = n }
      | bad_syntax ↦ p
      | out_of_range n ↦ p
    ]
    else if str_eq f "v"
    then elim rest [ [] ↦ p | vdev ∷ more ↦ record p { vdev_ids = p.vdev_ids ++ (vdev ∷ []) } ]
    else p
pfs_field p _ v = p

-- The ID in a key of a PFS with at least three pieces.
unfoldable pub pfs_route : (String → Bool) → List String → Option String
pfs_route is_uuid (root ∷ (id ∷ (f ∷ rest))) =
    if str_eq root pfs_key && is_uuid id then some id else none
pfs_route is_uuid _ = none

abbrev pub pfs_parser : ParseEntity Pfs Pfs
pfs_parser = record {
  root_key = pfs_key;
  new_entity = λ i. record { id = i; name = ""; offset = 0; vdev_ids = [] };
  parse_field = pfs_field;
  get_entity = λ p. p;
}

module _ (rs : RangeStore) (env : Env) (enabled : Bool) (authorizer : Option Config)
    (s : rs.ds.State) where
  -- `WPPFSCfg`: the changes, the ID and the name.
  unfoldable pub wp_pfs_cfg :
      String → Option String → ℕ → Pfs → Outcome HandlerError (List CommitChg × String × String)
  unfolding permitted pfs_with_id pfs_cfg_changes
  wp_pfs_cfg token new_id random pfs = do
    tc ← permitted rs env enabled authorizer s token "WPPFSCfg"
    p ← pfs_with_id new_id pfs
    ok (pfs_cfg_changes random p, p.id, p.name)

  -- The ID of the PFS that a request names by its ID or its name.
  unfoldable pub resolve_pfs_id : String → Bool → Outcome HandlerError String
  resolve_pfs_id id get_all =
      if not (env.is_uuid id) && not get_all
      then elim (rs.ds.read (get_conf_key pfs_key id) s) [
        | none ↦ err (pfs_not_found id)
        | some i ↦ ok i
      ]
      else ok id

  -- `ReadPFSCfg`
  unfoldable pub read_pfs_cfg : String → String → Bool → Outcome HandlerError (List Pfs)
  unfolding resolve_pfs_id permitted or_failed pfs_field pfs_route all_entities
  read_pfs_cfg token req_id get_all = do
    id ← resolve_pfs_id req_id get_all
    tc ← permitted rs env enabled authorizer s token "ReadPFSCfg"
    kvs ← or_failed (rs.range_read s (if get_all then pfs_key else pfs_key / id))
    ok (all_entities pfs_parser (pfs_route env.is_uuid) kvs)
