-- ===== src/Tests/Access.antt =====
-- Requests and callers at concrete inputs.
use niova_mdsvc.Prelude.{
  itoa, refl, Bool, none, true, false, String, ◌≡◌, ◌≢◌, ◌↔◌, ◌⊎◌, inl, inr, ◌&&◌, ◌||◌, Option,
  some, List, [], ◌∷◌, map, ok, All, elem, str_eq, if◌then◌else◌,
}
use niova_mdsvc.CpLib.Domains.{fd_name}
use niova_mdsvc.CpLib.Names.{is_alphanumeric, all_alphanumeric, alphanumeric}
use niova_mdsvc.CpLib.Validate.{
  validate_nisd, IsValid, validate_nisd-eq-ok, validate_ips, validate_ips-eq-ok, check_domains,
  check_sizes,
}
use niova_mdsvc.Authorizer.{FunctionPolicy, get_policy, check_rbac, check_abac, any_role}
use niova_mdsvc.Authorizer.Groups.{prefixes_for}
use niova_mdsvc.Authorizer.Attributes.{Grants, check_abac_iff}
use niova_mdsvc.Authorizer.Defaults.{default_policies, user_admin, vdev_by_id}
use niova_mdsvc.Authorizer.Policy.{user_functions, check_rbac_iff, default_policies_lem}
use niova_mdsvc.Session.{
  TokenClaims, ClaimValue, text, validate_and_authorize_rbac, validate_token, authorize_role,
  read_claims, text_claim, flag_claim,
}
use niova_mdsvc.Session.Claims.{validate_and_authorize_rbac-eq-ok}
use niova_mdsvc.Prepare.Ownership.{Has, wp_create_vdev-eq-ok}
use niova_mdsvc.Prepare.{
  wp_create_vdev, check_name, init_vdev, vdev_owner_key, wp_nisd_cfg, authorized, ResponseXml,
  create_vdev_changes, if_set, vname_owner_key,
}
use niova_mdsvc.Commit.{get_conf_key, CommitChg, change, delete, nisd_cfg_key}
use niova_mdsvc.Populate.{populate_vdev, set_fields, populate_nisd}
use niova_mdsvc.CpLib.Blocks.{init_chunk_cnt, count_8gb_chunks}
use niova_mdsvc.Prepare.Granted.{wp_create_vdev-check_abac}
use niova_mdsvc.Prepare.Accepted.{wp_nisd_cfg-eq-ok}
use niova_mdsvc.Store.{apply_kv}
use niova_mdsvc.Store.Applied.{Applied, apply_kv-Applied}
use niova_mdsvc.Store.Table.{Values, table}
use niova_mdsvc.Tests.{nisd_a, request}

-- A store in which the user "u1" owns the vdev "v-7".
abbrev owned : String → String → String ⊎ Option String
owned key family = if str_eq key "/u/u1/v/v-7" then inr (some "1") else inl "key not found"

check_rbac_iff_example : (check_rbac default_policies "ReadChunk" ("user" ∷ []) ≡ true) ↔ (
    (policy : FunctionPolicy) × (get_policy default_policies "ReadChunk" ≡ some policy)
    × (r : String) × (elem r policy.rbac ≡ true)
    × (elem r ("user" ∷ []) ≡ true))
check_rbac_iff_example = check_rbac_iff default_policies "ReadChunk" ("user" ∷ [])

default_policies_lem_example : check_rbac default_policies "PutUser" ("user" ∷ []) ≡ (
    elem "PutUser" (map (λ e. e.0) default_policies)
    && (elem "admin" ("user" ∷ []) || (elem "PutUser" user_functions && elem "user" ("user" ∷ []))))
default_policies_lem_example = default_policies_lem "PutUser" ("user" ∷ [])

check_abac_iff_example :
    (check_abac owned default_policies "ReadChunk" "u1" (("vdev", "v-7") ∷ []) "cf" ≡ true) ↔ (
      (policy : FunctionPolicy) × (get_policy default_policies "ReadChunk" ≡ some policy)
      × ((a : String)
          → Grants owned "u1" (("vdev", "v-7") ∷ []) "cf" a (prefixes_for a policy.abac)))
check_abac_iff_example =
    check_abac_iff owned "u1" (("vdev", "v-7") ∷ []) "cf" default_policies "ReadChunk"

validate_nisd-eq-ok_example :
    (validate_nisd (λ s. str_eq s "nisd-a") nisd_a ≡ ok tt)
    ↔ IsValid (λ s. str_eq s "nisd-a") nisd_a
validate_nisd-eq-ok_example = validate_nisd-eq-ok (λ s. str_eq s "nisd-a") nisd_a

abbrev addresses : List String
addresses = "10.0.0.1" ∷ []

validate_ips-eq-ok_example :
    (validate_ips (λ s. str_eq s "10.0.0.1") addresses ≡ ok tt)
    ↔ ((addresses ≢ []) × All (λ ip. str_eq ip "10.0.0.1" ≡ false) addresses)
validate_ips-eq-ok_example = validate_ips-eq-ok (λ s. str_eq s "10.0.0.1") addresses

-- Every token is one of the admin "u0".
abbrev admin_token : String → String ⊎ List (String × ClaimValue)
admin_token token = inr (("userID", text "u0") ∷ ("role", text "admin") ∷ [])

abbrev admin : TokenClaims
admin = record { user_id = "u0"; role = "admin"; is_admin = false }

admin_passes :
    validate_and_authorize_rbac admin_token true (some default_policies) "t" "WPNisdCfg" ≡ ok admin
unfolding validate_and_authorize_rbac validate_token authorize_role read_claims text_claim
    flag_claim check_rbac get_policy any_role default_policies
admin_passes = refl

validate_and_authorize_rbac-eq-ok_example :
    (validate_token admin_token true "t" ≡ ok admin)
    × (admin.user_id ≢ "")
    × (admin.role ≢ "")
    × (check_rbac default_policies "WPNisdCfg" (admin.role ∷ []) ≡ true)
validate_and_authorize_rbac-eq-ok_example =
    validate_and_authorize_rbac-eq-ok admin_token default_policies "t" "WPNisdCfg" admin
      admin_passes

abbrev any_uuid : String → Bool
any_uuid s = true

nisd_prepared :
    (out : List CommitChg × ResponseXml) × (wp_nisd_cfg admin_token any_uuid true
        (some default_policies)
        "t"
        nisd_a
      ≡ ok out)
unfolding validate_and_authorize_rbac validate_token authorize_role read_claims text_claim
    flag_claim check_rbac get_policy any_role default_policies wp_nisd_cfg authorized validate_nisd
    check_domains check_sizes populate_nisd
nisd_prepared = (_, refl)

wp_nisd_cfg-eq-ok_example :
    IsValid any_uuid nisd_a
    × ((tc : TokenClaims) × (validate_token admin_token true "t" ≡ ok tc)
        × (check_rbac default_policies "WPNisdCfg" (tc.role ∷ []) ≡ true))
    × (populate_nisd nisd_a nisd_cfg_key ≡ ok nisd_prepared.0.0)
    × (nisd_prepared.0.1 ≡ record { name = nisd_a.id; id = ""; error = ""; success = true })
wp_nisd_cfg-eq-ok_example =
    wp_nisd_cfg-eq-ok admin_token any_uuid default_policies "t" nisd_a nisd_prepared.0
      nisd_prepared.1

abbrev changes : List CommitChg
changes = change "k" "1" ∷ record { key = "k"; value = ""; op = delete } ∷ change "j" "2" ∷ []

abbrev nothing_stored : Values
nothing_stored k = none

apply_kv-Applied_example :
    let (r, s') = apply_kv table changes nothing_stored in Applied table changes nothing_stored r s'
apply_kv-Applied_example = apply_kv-Applied table changes nothing_stored

-- A vdev request of the admin; the new UUID is "v-9".
vdev_prepared :
    (out : List CommitChg × String) × (wp_create_vdev admin_token any_uuid true
        (some default_policies)
        "t"
        (some "v-9")
        (request 2)
      ≡ ok out)
unfolding validate_and_authorize_rbac validate_token authorize_role read_claims text_claim
    flag_claim check_rbac get_policy any_role default_policies wp_create_vdev authorized check_name
    is_alphanumeric all_alphanumeric alphanumeric init_vdev
vdev_prepared = (_, refl)

wp_create_vdev-eq-ok_example :
    (tc : TokenClaims) × (validate_token admin_token true "t" ≡ ok tc)
    × (check_rbac default_policies "WPCreateVdev" (tc.role ∷ []) ≡ true)
    × (some "v-9" ≡ some vdev_prepared.0.1)
    × Has (change (vdev_owner_key tc.user_id vdev_prepared.0.1) "1") vdev_prepared.0.0
wp_create_vdev-eq-ok_example =
    wp_create_vdev-eq-ok admin_token any_uuid default_policies "t" (some "v-9") (request 2)
      vdev_prepared.0 vdev_prepared.1

-- The same, with its changes applied to an empty store.
vdev_stored :
    (out : List CommitChg × String) × (s' : Values) × (wp_create_vdev admin_token any_uuid true
        (some default_policies)
        "t"
        (some "v-9")
        (request 2)
      ≡ ok out)
    × (apply_kv table out.0 nothing_stored ≡ (ok tt, s'))
unfolding validate_and_authorize_rbac validate_token authorize_role read_claims text_claim
    flag_claim check_rbac get_policy any_role default_policies wp_create_vdev authorized check_name
    is_alphanumeric all_alphanumeric alphanumeric init_vdev apply_kv create_vdev_changes if_set
    vdev_owner_key vname_owner_key get_conf_key populate_vdev set_fields init_chunk_cnt fd_name itoa
    count_8gb_chunks
vdev_stored = (_, _, refl, refl)

-- The admin reads the chunks of its new vdev.
wp_create_vdev-check_abac_example :
    (tc : TokenClaims) × (validate_token admin_token true "t" ≡ ok tc)
    × (check_abac
          (λ k f. inr (vdev_stored.1 k))
          default_policies
          "ReadChunk"
          tc.user_id
          (("vdev", vdev_stored.0.1) ∷ [])
          "pmdb"
        ≡ true)
unfolding get_policy default_policies
wp_create_vdev-check_abac_example =
    wp_create_vdev-check_abac table admin_token any_uuid default_policies "t" (some "v-9")
      (request 2) vdev_stored.0 nothing_stored vdev_stored.1 "ReadChunk"
      (record { rbac = user_admin; abac = vdev_by_id }) (("vdev", vdev_stored.0.1) ∷ []) "pmdb"
      vdev_stored.2 vdev_stored.3 refl refl refl
