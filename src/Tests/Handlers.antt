-- ===== src/Tests/Handlers.antt =====
-- Mounting and deleting a vdev at concrete inputs.
use Prim.Native.Char.{char}
use Prim.Native.String.{◌∷◌ as str_cons}
use niova_mdsvc.Prelude.{
  ℕ, zero, suc, ◌+◌, ◌*◌, ◌/◌, ◌≤◌, String, ◌≡◌, refl, ap, true, inr, Option, none, some, List, [],
  ◌∷◌, ok, All, arith, str_eq, if◌then◌else◌, Bool, two64, ◌<◌,
}
use mathlib.Core.Path.{subst}
use niova_mdsvc.Prelude.Texts.{split, trim}
use niova_mdsvc.Keys.{key_parts}
use niova_mdsvc.Commit.{get_conf_key, vdev_key}
use niova_mdsvc.Prepare.{vdev_owner_key}
use niova_mdsvc.Authorizer.{authorize, check_rbac}
use niova_mdsvc.Hierarchy.Pick.{get_nisd_by_pdu_id}
use niova_mdsvc.Parser.Hardware.{switch, is_field}
use niova_mdsvc.Parser.{parse_entities}
use niova_mdsvc.Parser.Storage.{vdev_parser, nisd_parser}
use niova_mdsvc.Store.{apply_kv, delete_kv}
use niova_mdsvc.Handlers.Mount.{vdev_mount_limit, second, ap_mount_vdev}
use niova_mdsvc.Handlers.Delete.{delete_pages, delete_pairs, nothing_deleted, Page, ap_delete_vdev}
use niova_mdsvc.Handlers.DeletedKeys.{as_key, or_size}
use niova_mdsvc.Handlers.Refunds.{blocks, refunded, stored_nisd}
use niova_mdsvc.Handlers.Paged.{Pages, delete_pages-delete_pairs}
use niova_mdsvc.Authorizer.Defaults.{default_policies}
use niova_mdsvc.Session.{TokenClaims, text, flag, validate_token, validate_and_authorize_rbac}
use niova_mdsvc.Store.Ranges.{begins, ends, contains}
use niova_mdsvc.Store.Pairs.{Pairs, keep, keep-All, pairs_ranges}
use niova_mdsvc.CpLib.{VdevConfig}
use niova_mdsvc.BTree.Lists.{lists}
use niova_mdsvc.Hierarchy.{Heap, Hierarchy, Entities, entity_id}
use niova_mdsvc.Handlers.{Env}
use niova_mdsvc.Handlers.Spaced.{year_10000, ap_mount_vdev_spaced}
use niova_mdsvc.Handlers.Deleted.{ap_delete_vdev-Deleted}
use niova_mdsvc.Tests.{empty_devices, device_a, heap, no_entities}

-- A time as as many characters as it has seconds.
ones : ℕ → String
ones zero = ""
ones (suc n) = str_cons (char 49 tt) (ones n)

seconds_of : String → ℕ
seconds_of String.[] = 0
seconds_of (String.◌∷◌ c s) = suc (seconds_of s)

seconds_of-ones : (n : ℕ) → seconds_of (ones n) ≡ n
unfolding seconds_of ones
seconds_of-ones zero = refl
seconds_of-ones (suc n) = ap suc (seconds_of-ones n)

abbrev env : Env
env = record {
  verify_token =
      λ token. inr (("userID", text "u0") ∷ ("role", text "admin") ∷ ("isAdmin", flag true) ∷ []);
  is_uuid = λ id. true;
  parse_time = λ v. some (seconds_of v * second);
  format_time = λ t. ones (t / second);
  create_token = λ id counter now. some "access";
  family = "pmdb";
}

rfc3339 : (t : ℕ) → t < year_10000 → env.parse_time (env.format_time t) ≡ some (t / second * second)
rfc3339 t early = ap (λ n. some (n * second)) (seconds_of-ones (t / second))

abbrev one_vdev : Pairs
one_vdev = ("v/u7/cfg/nm", "vol") ∷ ("/u/u0/v/u7", "1") ∷ []

-- Mounts after 40 and 80 seconds.
mounts :
    (v v' : VdevConfig) × (s s' : Pairs) × (ap_mount_vdev pairs_ranges env true
        (some default_policies)
        "t"
        "u7"
        (40 * second)
        one_vdev
      ≡ (ok v, s))
    × (ap_mount_vdev pairs_ranges env true (some default_policies) "t" "u7" (80 * second) s
        ≡ (ok v', s'))
    × (v.vdev_mount_info.mount_counter + 1 < two64)
unfolding ap_mount_vdev validate_token authorize default_policies begins parse_entities key_parts
    split trim vdev_parser apply_kv seconds_of ones
mounts = (_, _, _, _, refl, refl, omega arith)

ap_mount_vdev_spaced_example :
    (40 * second / second * second + vdev_mount_limit ≤ 80 * second)
    × (mounts.1.vdev_mount_info.mount_counter ≡ mounts.0.vdev_mount_info.mount_counter + 1)
ap_mount_vdev_spaced_example =
    ap_mount_vdev_spaced pairs_ranges env default_policies rfc3339 "u7" "t" "t" (40 * second)
      (80 * second) one_vdev mounts.2 mounts.2 mounts.3 mounts.0 mounts.1 refl (omega arith)
      mounts.4 refl refl mounts.5 mounts.6

-- The vdev "u7" with a block on the NISD "nisd-a".
abbrev stored_vdev : Pairs
stored_vdev =
    ("v/u7/cfg/nm", "vol")
    ∷ ("v/u7/c/0/D.0", "nisd-a")
    ∷ ("n_cfg/nisd-a/as", "7")
    ∷ ("n_cfg/nisd-a/p", "pdu-1")
    ∷ []

abbrev with_pdu : Hierarchy lists
with_pdu = record {
  fd =
      record {
        type = 0;
        tree =
            lists.set (record { id = "pdu-1"; devices = lists.set device_a empty_devices })
              (lists.new (Entities lists) (entity_id lists));
      }
      ∷ no_entities 1
      ∷ [];
}

-- All keys in one page.
abbrev one_page : Pairs → String → String → ℕ → Option Page
one_page s p key seq = some (record { pairs = keep (begins p) s; last_key = ""; seq_num = 0 })

page_eq : {p q : Page} → some p ≡ some q → p ≡ q
page_eq h = cc

one_page-All :
    (s : Pairs) (p key : String) (seq : ℕ) (page : Page)
    → one_page s p key seq ≡ some page
    → All (λ (kv : String × String). begins p kv.0 ≡ true) page.pairs
one_page-All s p key seq page e =
    subst (λ (g : Page). All (λ (kv : String × String). begins p kv.0 ≡ true) g.pairs) (page_eq e)
      (keep-All (begins p) s)

deleted :
    (s' : Pairs) × (h' : Heap) × (ap_delete_vdev lists pairs_ranges env true
        (some default_policies)
        (λ id. true)
        one_page
        1
        "t"
        "u7"
        with_pdu
        stored_vdev
        heap
      ≡ (ok tt, s', h'))
unfolding ap_delete_vdev default_policies validate_and_authorize_rbac check_rbac delete_pairs begins
    get_conf_key contains apply_kv parse_entities key_parts split trim nisd_parser lists delete_kv
    ends switch is_field vdev_owner_key get_nisd_by_pdu_id
deleted = (_, _, refl)

ap_delete_vdev-Deleted_example :
    (tc : TokenClaims) × (kvs : List (String × String)) × (◌≡◌ {A = Bool} true true)
    × (validate_token env.verify_token true "t" ≡ ok tc)
    × (check_rbac default_policies "APDeleteVdev" (tc.role ∷ []) ≡ true)
    × Pages pairs_ranges stored_vdev "u7"
        (one_page stored_vdev (get_conf_key vdev_key "u7"))
        (get_conf_key vdev_key "u7")
        0
        kvs
    × All (λ (kv : String × String). pairs_ranges.ds.read kv.0 deleted.0 ≡ none) kvs
    × (pairs_ranges.ds.read (vdev_owner_key tc.user_id "u7") deleted.0 ≡ none)
    × ((n : String)
        → pairs_ranges.ds.read (as_key n) deleted.0
          ≡ or_size
              (refunded (blocks n kvs) (stored_nisd pairs_ranges stored_vdev n))
              (pairs_ranges.ds.read (as_key n) stored_vdev))
ap_delete_vdev-Deleted_example =
    ap_delete_vdev-Deleted lists pairs_ranges env default_policies (λ id. true) one_page
      one_page-All 1 "t" "u7" with_pdu stored_vdev deleted.0 heap deleted.1 deleted.2

-- Two pages, the second one from the key "b" on.
abbrev two_pages : String → ℕ → Option Page
two_pages key seq =
    if str_eq key "b"
    then some (record { pairs = ("v/u7/cfg/sz", "3") ∷ []; last_key = ""; seq_num = 0 })
    else some (record { pairs = ("v/u7/cfg/nm", "vol") ∷ []; last_key = "b"; seq_num = 0 })

delete_pages-delete_pairs_example :
    delete_pages pairs_ranges stored_vdev two_pages 2 "u7" "a" 0 nothing_deleted
    ≡ delete_pairs pairs_ranges stored_vdev "u7"
        (("v/u7/cfg/nm", "vol") ∷ ("v/u7/cfg/sz", "3") ∷ [])
        nothing_deleted
delete_pages-delete_pairs_example =
    delete_pages-delete_pairs pairs_ranges stored_vdev "u7" two_pages 2 "a" 0
      (("v/u7/cfg/nm", "vol") ∷ ("v/u7/cfg/sz", "3") ∷ [])
      (Pages.next refl refl (Pages.final refl refl)) nothing_deleted (omega arith)
