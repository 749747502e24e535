-- ===== src/Tests/Reads.antt =====
-- Reading racks and a PFS at concrete stores.
use niova_mdsvc.Prelude.{◌≡◌, refl, ap, true, false, inr, some, none, [], ◌∷◌, ok, ◌>>=◌}
use niova_mdsvc.CpLib.Entities.{Rack}
use niova_mdsvc.Authorizer.Defaults.{default_policies}
use niova_mdsvc.Session.{text, flag, validate_and_authorize_rbac}
use niova_mdsvc.Store.Pairs.{Pairs, pairs_ranges}
use niova_mdsvc.Authorizer.{check_rbac}
use niova_mdsvc.Parser.{parse_entities, all_entities}
use niova_mdsvc.Store.Ranges.{begins}
use niova_mdsvc.Keys.{key_parts}
use niova_mdsvc.Prelude.Texts.{split, trim}
use niova_mdsvc.Parser.Hardware.{rack_parser, switch, is_field}
use niova_mdsvc.Handlers.{Env}
use niova_mdsvc.Handlers.Read.{racks, permitted, read_all_resources, read_rack_cfg}
use niova_mdsvc.Prelude.Numbers.{parse_int}
use niova_mdsvc.Handlers.FileSystem.{read_pfs_cfg}
use niova_mdsvc.Handlers.Listings.{rack, read_all_resources-own}

abbrev env : Env
env = record {
  verify_token =
      λ token. inr (("userID", text "u0") ∷ ("role", text "admin") ∷ ("isAdmin", flag true) ∷ []);
  is_uuid = λ id. true;
  parse_time = λ v. none;
  format_time = λ t. "";
  create_token = λ id counter now. none;
  family = "pmdb";
}

abbrev one_rack : Pairs
one_rack = ("r/r-1/nm", "front") ∷ ("r/r-1/l", "hall") ∷ ("p/p-1/nm", "main") ∷ []

abbrev front : Rack
front = record { id = "r-1"; name = "front"; location = "hall"; specification = ""; pdu_id = "" }

listed_racks :
    read_rack_cfg pairs_ranges env true (some default_policies) one_rack "t" "r-1" true
    ≡ ok (front ∷ [])
unfolding read_rack_cfg default_policies validate_and_authorize_rbac check_rbac parse_entities
    begins key_parts split trim rack_parser switch is_field
listed_racks = refl

read_all_resources-own_example :
    read_all_resources pairs_ranges env true (some default_policies) one_rack "t" "rack" "r-1" true
    ≡ permitted pairs_ranges env true (some default_policies) one_rack "t" "ReadAllResources"
      >>= (λ tc. ok (racks (front ∷ [])))
read_all_resources-own_example =
    read_all_resources-own pairs_ranges env true (some default_policies) one_rack rack "t" "t" "r-1"
      true (racks (front ∷ [])) (ap (λ o. o >>= (λ xs. ok (racks xs))) listed_racks)

-- A PFS that was stored, with a vdev.
abbrev one_pfs : Pairs
one_pfs = ("pfs/f1/nm", "fs") ∷ ("pfs/f1/offset", "7") ∷ ("pfs/fs", "f1") ∷ ("pfs/f1/v/u9", "") ∷ []

read_pfs :
    read_pfs_cfg pairs_ranges env true (some default_policies) one_pfs "t" "f1" false
    ≡ ok (record { id = "f1"; name = "fs"; offset = 7; vdev_ids = "u9" ∷ [] } ∷ [])
unfolding read_pfs_cfg default_policies validate_and_authorize_rbac check_rbac begins key_parts
    split trim all_entities parse_int
read_pfs = refl
