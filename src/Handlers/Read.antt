-- ===== src/Handlers/Read.antt =====
-- The handlers of controlplane/ctlplanefuncs/server/srvctlplanefuncs.go that read entities. A request is
-- its ID and whether it asks for all; the answer is not encoded.
use niova_mdsvc.Prelude.{
  ℕ, String, Bool, false, not, Option, none, some, List, [], ◌∷◌, map, Outcome, ok, err, panic,
  ◌>>=◌, str_eq, if◌then◌else◌,
}
use niova_mdsvc.Prelude.Numbers.{atoi, parse_bool}
use niova_mdsvc.Keys.{key_parts}
use niova_mdsvc.CpLib.{Nisd, VdevConfig}
use niova_mdsvc.CpLib.Entities.{Device, DevicePartition, NisdArgs, Pdu, Rack, Hypervisor}
use niova_mdsvc.Commit.{get_conf_key, vdev_key, nisd_cfg_key}
use niova_mdsvc.Authorizer.{Config, authorize}
use niova_mdsvc.Session.{TokenClaims, validate_token, validate_and_authorize_rbac}
use niova_mdsvc.Prepare.{map_error}
use niova_mdsvc.Store.{RangeRead, found, key_not_found, range_read_failure}
use niova_mdsvc.Store.Ranges.{RangeStore, reader}
use niova_mdsvc.Parser.{ParseEntity, parse_entities}
use niova_mdsvc.Parser.Hardware.{rack_parser, pdu_parser, hv_parser, pt_parser, device_parser}
use niova_mdsvc.Parser.Storage.{nisd_parser, vdev_parser}
use niova_mdsvc.Handlers.{
  Env, HandlerError, auth, not_authorized, invalid_request, range_read_failed,
}
use niova_mdsvc.Handlers.Mount.{or_failed, require, resolve, first_vdev}

unfoldable pub key_for : String → String → Bool → String
key_for root id get_all = if get_all then root else get_conf_key root id

pub record NisdListAvailSize : Type 0 where
  pub id : String
  pub pdu : String
  pub rack : String
  pub hv : String
  pub total_size : ℕ
  pub available_size : ℕ

-- The levels are set where the NISD has at least three.
unfoldable pub avail_size_entry : Nisd → NisdListAvailSize
avail_size_entry n = elim n.failure_domain [
  | pdu ∷ (rack ∷ (hv ∷ rest)) ↦ record {
    id = n.id;
    pdu = pdu;
    rack = rack;
    hv = hv;
    total_size = n.total_size;
    available_size = n.available_size;
  }
  | _ ↦ record {
    id = n.id;
    pdu = "";
    rack = "";
    hv = "";
    total_size = n.total_size;
    available_size = n.available_size;
  }
]

unfoldable pub nisd_to_avail_size : List Nisd → List NisdListAvailSize
unfolding avail_size_entry
nisd_to_avail_size ns = map avail_size_entry ns

pub data NisdAnswer : Type 0 where
  projected : List NisdListAvailSize → NisdAnswer
  complete : List Nisd → NisdAnswer

-- The answers of `ReadAllResources`, by the kind of the resource.
pub data Resources : Type 0 where
  nisds : List Nisd → Resources
  racks : List Rack → Resources
  pdus : List Pdu → Resources
  hypervisors : List Hypervisor → Resources
  devices : List Device → Resources
  partitions : List DevicePartition → Resources
  vdevs : List VdevConfig → Resources

-- An index into an empty list panics.
unfoldable pub nisd_found : List Nisd → Outcome HandlerError Nisd
nisd_found [] = panic
nisd_found (n ∷ ns) = ok n

-- A panic of a parser is one of the handler.
unfoldable pub all_parsed : {A : Type 0} → List (Option A) → Outcome HandlerError (List A)
all_parsed [] = ok []
all_parsed (none ∷ os) = panic
all_parsed (some a ∷ os) = do xs ← all_parsed os; ok (a ∷ xs)

-- A key that is not there is no error for `ReadAllResources`.
unfoldable pub or_empty : RangeRead → Outcome HandlerError (List (String × String))
or_empty (found kvs) = ok kvs
or_empty key_not_found = ok []
or_empty range_read_failure = err range_read_failed

-- One pair of the arguments of NISDs.
unfoldable pub args_field : List String → String → NisdArgs → NisdArgs
args_field (root ∷ (f ∷ rest)) v a =
    if str_eq f "dfg"
    then record a { defrag = parse_bool v }
    else if str_eq f "mbc"
    then record a { mbc_cnt = atoi v }
    else if str_eq f "mhc"
    then record a { merge_h_cnt = atoi v }
    else if str_eq f "mrc"
    then record a { mcib_read_cache = atoi v }
    else if str_eq f "ds"
    then record a { dsync = v }
    else if str_eq f "s3"
    then record a { s3 = v }
    else if str_eq f "admc"
    then record a { allow_defrag_mcib_cache = parse_bool v }
    else a
args_field _ v a = a

unfoldable pub args_of : List (String × String) → NisdArgs → NisdArgs
unfolding args_field
args_of [] a = a
args_of ((k, v) ∷ kvs) a = args_of kvs (args_field (key_parts k) v a)

abbrev pub no_args : NisdArgs
no_args = record {
  defrag = false;
  allow_defrag_mcib_cache = false;
  mbc_cnt = 0;
  merge_h_cnt = 0;
  mcib_read_cache = 0;
  s3 = "";
  dsync = "";
}

module _ (rs : RangeStore) (env : Env) (enabled : Bool) (authorizer : Option Config)
    (s : rs.ds.State) where
  unfoldable pub permitted : String → String → Outcome HandlerError TokenClaims
  permitted token fn =
      map_error auth (validate_and_authorize_rbac env.verify_token enabled authorizer token fn)

  -- The part that the reads of entities share: the permission, the range read and the parser.
  unfoldable pub read_entities :
      {E R : Type 0} → ParseEntity E R → String → String → String → Outcome HandlerError (List R)
  unfolding permitted or_failed
  read_entities pe fn key token = do
    tc ← permitted token fn
    kvs ← or_failed (rs.range_read s key)
    ok (parse_entities pe 1 kvs)

  -- `RdDeviceInfo`
  unfoldable pub rd_device_info : String → String → Outcome HandlerError (List Device)
  unfolding read_entities all_parsed
  rd_device_info token id =
      read_entities device_parser "RdDeviceInfo" (get_conf_key "d_cfg" id) token >>= all_parsed

  -- `ReadPartition`
  unfoldable pub read_partition :
      String → String → Bool → Outcome HandlerError (List DevicePartition)
  unfolding read_entities key_for
  read_partition token id get_all =
      read_entities pt_parser "ReadPartition" (key_for "pt" id get_all) token

  -- `ReadPDUCfg`
  unfoldable pub read_pdu_cfg : String → String → Bool → Outcome HandlerError (List Pdu)
  unfolding read_entities key_for
  read_pdu_cfg token id get_all =
      read_entities pdu_parser "ReadPDUCfg" (key_for "p" id get_all) token

  -- `ReadRackCfg`
  unfoldable pub read_rack_cfg : String → String → Bool → Outcome HandlerError (List Rack)
  unfolding read_entities key_for
  read_rack_cfg token id get_all =
      read_entities rack_parser "ReadRackCfg" (key_for "r" id get_all) token

  -- `ReadHyperVisorCfg`
  unfoldable pub read_hypervisor_cfg :
      String → String → Bool → Outcome HandlerError (List Hypervisor)
  unfolding read_entities key_for
  read_hypervisor_cfg token id get_all =
      read_entities hv_parser "ReadHyperVisorCfg" (key_for "hv" id get_all) token

  -- `ReadAllNisdConfigs`: a request with fields asks for the sizes only.
  unfoldable pub read_all_nisd_configs : String → List String → Outcome HandlerError NisdAnswer
  unfolding read_entities nisd_to_avail_size
  read_all_nisd_configs token fields = do
    ns ← read_entities nisd_parser "ReadAllNisdConfigs" nisd_cfg_key token
    ok (elim fields [ [] ↦ complete ns | f ∷ fs ↦ projected (nisd_to_avail_size ns) ])

  -- `ReadNisdConfig`
  unfoldable pub read_nisd_config : String → String → Outcome HandlerError Nisd
  unfolding require read_entities nisd_found
  read_nisd_config token id = do
    valid ← require (not (str_eq id "")) invalid_request
    ns ← read_entities nisd_parser "ReadNisdConfig" (get_conf_key nisd_cfg_key id) token
    nisd_found ns

  -- `getNisdList`
  unfoldable pub get_nisd_list : Outcome HandlerError (List Nisd)
  unfolding or_failed
  get_nisd_list = do
    kvs ← or_failed (rs.range_read s nisd_cfg_key)
    ok (parse_entities nisd_parser 1 kvs)

  -- `RdNisdArgs`
  unfoldable pub rd_nisd_args : String → Outcome HandlerError NisdArgs
  unfolding permitted or_failed args_of
  rd_nisd_args token = do
    tc ← permitted token "RdNisdArgs"
    kvs ← or_failed (rs.range_read s "na")
    ok (args_of kvs no_args)

  -- `ReadAllVdevInfo`
  unfoldable pub read_all_vdev_info : Outcome HandlerError (List VdevConfig)
  unfolding or_failed
  read_all_vdev_info = do
    kvs ← or_failed (rs.range_read s vdev_key)
    ok (parse_entities (vdev_parser env.parse_time) 1 kvs)

  unfoldable pub may_read : TokenClaims → String → Outcome HandlerError (Unit {0})
  unfolding require
  may_read tc id = elim authorizer [
    | none ↦ ok tt
    | some cfg ↦
        require
          (authorize (reader rs s) cfg "ReadVdevInfo" tc.user_id (tc.role ∷ []) (("vdev", id) ∷ [])
            env.family)
          not_authorized
  ]

  -- `ReadVdevInfo`
  unfoldable pub read_vdev_info : String → String → Outcome HandlerError VdevConfig
  unfolding require resolve may_read or_failed first_vdev
  read_vdev_info token req_id = do
    valid ← require (not (str_eq req_id "")) invalid_request
    tc ← map_error auth (validate_token env.verify_token enabled token)
    id ← resolve rs env enabled authorizer req_id s
    may ← may_read tc id
    kvs ← or_failed (rs.range_read s (get_conf_key vdev_key id))
    first_vdev (parse_entities (vdev_parser env.parse_time) 1 kvs)

  -- `rangeRead` of `ReadAllResources` and the parser of one kind.
  unfoldable pub listed :
      {E R : Type 0}
      → ParseEntity E R
      → (List R → Resources)
      → String
      → String
      → Bool
      → Outcome HandlerError Resources
  unfolding or_empty key_for
  listed pe made root id get_all = do
    kvs ← or_empty (rs.range_read s (key_for root id get_all))
    ok (made (parse_entities pe 1 kvs))

  unfoldable pub listed_devices : String → Bool → Outcome HandlerError Resources
  unfolding or_empty key_for all_parsed
  listed_devices id get_all = do
    kvs ← or_empty (rs.range_read s (key_for "d_cfg" id get_all))
    ds ← all_parsed (parse_entities device_parser 1 kvs)
    ok (devices ds)

  -- The switch of `ReadAllResources` on the kind.
  unfoldable pub list_kind : String → String → Bool → Outcome HandlerError Resources
  unfolding listed listed_devices
  list_kind kind id get_all =
      if str_eq kind "nisd"
      then listed nisd_parser nisds nisd_cfg_key id get_all
      else if str_eq kind "rack"
      then listed rack_parser racks "r" id get_all
      else if str_eq kind "pdu"
      then listed pdu_parser pdus "p" id get_all
      else if str_eq kind "hypervisor"
      then listed hv_parser hypervisors "hv" id get_all
      else if str_eq kind "device"
      then listed_devices id get_all
      else if str_eq kind "partition"
      then listed pt_parser partitions "pt" id get_all
      else if str_eq kind "vdev"
      then listed (vdev_parser env.parse_time) vdevs vdev_key id get_all
      else err invalid_request

  -- `ReadAllResources`
  unfoldable pub read_all_resources :
      String → String → String → Bool → Outcome HandlerError Resources
  unfolding permitted list_kind
  read_all_resources token kind id get_all = do
    tc ← permitted token "ReadAllResources"
    list_kind kind id get_all
