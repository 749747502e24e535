-- ===== src/Prepare/Hardware.antt =====
-- The write-prepare handlers of controlplane/ctlplanefuncs/server/srvctlplanefuncs.go that store hardware
-- and the arguments of NISDs, and their registration in controlplane/pmdbServer/pmdbServer.go.
use niova_mdsvc.Prelude.{
  String, ◌≡◌, refl, sym, ap, ◌∙◌, ◌↔◌, Bool, true, ◌⊎◌, Option, some, List, [], ◌∷◌, ◌++◌, Outcome,
  ok, ◌>>=◌, arith, map, str_eq, str_eq→eq, first_call, ok_eq,
}
use mathlib.Core.Path.{subst}
use niova_mdsvc.CpLib.Entities.{Device, DevicePartition, NisdArgs, Pdu, Rack, Hypervisor}
use niova_mdsvc.Commit.{CommitChg, ◌/◌}
use niova_mdsvc.Populate.{
  populate_device, populate_partition, populate_pdu, populate_rack, populate_hv, populate_nisd_args,
}
use niova_mdsvc.Authorizer.{Config, check_rbac, get_policy, any_role}
use niova_mdsvc.Authorizer.Defaults.{default_policies}
use niova_mdsvc.Session.{
  TokenClaims, ClaimValue, validate_token, authorize_role, validate_and_authorize_rbac,
}
use niova_mdsvc.Session.Claims.{validate_and_authorize_rbac-eq-ok}
use niova_mdsvc.Prepare.{PrepareError, auth, map_error, authorized}
use niova_mdsvc.Prepare.Accepted.{map_error-eq-ok}

abbrev device_cfg_key : String
device_cfg_key = "d_cfg"

abbrev pt_key : String
pt_key = "pt"

-- The partitions of a device, under the device's key.
unfoldable pub partitions_changes : String → List DevicePartition → List CommitChg
partitions_changes dev_id [] = []
partitions_changes dev_id (pt ∷ pts) =
    populate_partition pt (device_cfg_key / dev_id / pt_key) ++ partitions_changes dev_id pts

-- The requests by their registered function.
pub data HardwareReq : Type 0 where
  put_device : Device → HardwareReq
  put_pdu : Pdu → HardwareReq
  put_rack : Rack → HardwareReq
  put_hypervisor : Hypervisor → HardwareReq
  put_partition : DevicePartition → HardwareReq
  put_nisd_args : NisdArgs → HardwareReq

module _ (verify_token : String → String ⊎ List (String × ClaimValue)) (parse_uuid : String → Bool)
    (enabled : Bool) (authorizer : Option Config) where
  -- `WPDeviceInfo`
  unfoldable pub wp_device_info : String → Device → Outcome PrepareError (List CommitChg × String)
  unfolding authorized partitions_changes
  wp_device_info token dev = do
    tc ← authorized verify_token parse_uuid enabled authorizer token "WPDeviceInfo"
    ok (populate_device dev device_cfg_key ++ partitions_changes dev.id dev.partitions, dev.id)

  -- `WPCreatePartition`
  unfoldable pub wp_create_partition :
      String → DevicePartition → Outcome PrepareError (List CommitChg × String)
  unfolding authorized
  wp_create_partition token pt = do
    tc ← authorized verify_token parse_uuid enabled authorizer token "WPCreatePartition"
    ok (
      populate_partition pt pt_key ++ populate_partition pt (device_cfg_key / pt.dev_id / pt_key),
      pt.partition_id,
    )

  -- `WPPDUCfg`
  unfoldable pub wp_pdu_cfg : String → Pdu → Outcome PrepareError (List CommitChg × String)
  unfolding authorized
  wp_pdu_cfg token pdu = do
    tc ← authorized verify_token parse_uuid enabled authorizer token "WPPDUCfg"
    ok (populate_pdu pdu "p", pdu.id)

  -- `WPRackCfg`
  unfoldable pub wp_rack_cfg : String → Rack → Outcome PrepareError (List CommitChg × String)
  unfolding authorized
  wp_rack_cfg token rack = do
    tc ← authorized verify_token parse_uuid enabled authorizer token "WPRackCfg"
    ok (populate_rack rack "r", rack.id)

  -- `WPHyperVisorCfg`
  unfoldable pub wp_hypervisor_cfg :
      String → Hypervisor → Outcome PrepareError (List CommitChg × String)
  unfolding authorized
  wp_hypervisor_cfg token hv = do
    tc ← authorized verify_token parse_uuid enabled authorizer token "WPHyperVisorCfg"
    ok (populate_hv hv "hv", hv.id)

  -- `WPNisdArgs`
  unfoldable pub wp_nisd_args : String → NisdArgs → Outcome PrepareError (List CommitChg × String)
  unfolding authorized
  wp_nisd_args token args = do
    tc ← authorized verify_token parse_uuid enabled authorizer token "WPNisdArgs"
    ok (populate_nisd_args args, "nisd-args")

  -- The handler that is registered for a request.
  unfoldable pub wp_hardware : String → HardwareReq → Outcome PrepareError (List CommitChg × String)
  unfolding wp_device_info wp_create_partition wp_pdu_cfg wp_rack_cfg wp_hypervisor_cfg wp_nisd_args
  wp_hardware token (put_device dev) = wp_device_info token dev
  wp_hardware token (put_pdu pdu) = wp_pdu_cfg token pdu
  wp_hardware token (put_rack rack) = wp_rack_cfg token rack
  wp_hardware token (put_hypervisor hv) = wp_hypervisor_cfg token hv
  wp_hardware token (put_partition pt) = wp_create_partition token pt
  wp_hardware token (put_nisd_args args) = wp_nisd_args token args

-- All elements of a list of lists, in order.
abbrev pub joined {ℓ} : {A : Type ℓ} → List (List A) → List A
joined [] = []
joined (xs ∷ xss) = xs ++ joined xss

-- What a request is answered with: the changes and the name.
abbrev pub reply : HardwareReq → List CommitChg × String
reply (put_device dev) = (
  populate_device dev "d_cfg"
      ++ joined (map (λ pt. populate_partition pt ("d_cfg" / dev.id / "pt")) dev.partitions),
  dev.id,
)
reply (put_pdu pdu) = (populate_pdu pdu "p", pdu.id)
reply (put_rack rack) = (populate_rack rack "r", rack.id)
reply (put_hypervisor hv) = (populate_hv hv "hv", hv.id)
reply (put_partition pt) = (
  populate_partition pt "pt" ++ populate_partition pt ("d_cfg" / pt.dev_id / "pt"),
  pt.partition_id,
)
reply (put_nisd_args args) = (populate_nisd_args args, "nisd-args")

-- The loop over the partitions gives the changes of each in turn.
partitions_changes-joined :
    (id : String) (pts : List DevicePartition)
    → partitions_changes id pts
      ≡ joined (map (λ pt. populate_partition pt ("d_cfg" / id / "pt")) pts)
unfolding partitions_changes
partitions_changes-joined id [] = refl
partitions_changes-joined id (pt ∷ pts) =
    ap (λ cs. populate_partition pt ("d_cfg" / id / "pt") ++ cs) (partitions_changes-joined id pts)

-- Only the role "admin" may call the function.
abbrev OnlyAdmin : String → Type 0
OnlyAdmin fn = (role : String) → check_rbac default_policies fn (role ∷ []) ≡ str_eq role "admin"

module _ (verify_token : String → String ⊎ List (String × ClaimValue)) (parse_uuid : String → Bool)
    (token : String) where
  abbrev Accepted : List CommitChg × String → List CommitChg × String → Type 0
  Accepted r out =
      (tc : TokenClaims) × (validate_token verify_token true token ≡ ok tc)
      × (tc.role ≡ "admin")
      × (out ≡ r)

  handler_iff :
      (fn : String) (r out : List CommitChg × String)
      → OnlyAdmin fn
      → (authorized verify_token parse_uuid true (some default_policies) token fn >>= (λ tc. ok r)
          ≡ ok out)
        ↔ Accepted r out
  unfolding authorized validate_and_authorize_rbac authorize_role
  handler_iff fn r out only = (to, from)
    where
      to :
          authorized verify_token parse_uuid true (some default_policies) token fn >>= (λ tc. ok r)
            ≡ ok out
          → Accepted r out
      to h =
          let (tc, made, passed) =
            first_call (λ (tc : TokenClaims). ok r)
              (map_error auth
                (validate_and_authorize_rbac verify_token true (some default_policies) token fn))
              out h in
          let (known, _, _, allowed) =
            validate_and_authorize_rbac-eq-ok verify_token default_policies token fn tc
              (map_error-eq-ok auth _ passed) in
          (
            tc,
            known,
            str_eq→eq tc.role "admin" (sym (only tc.role) ∙ allowed),
            ok_eq {E = PrepareError} (ok out) refl (sym made),
          )

      from :
          Accepted r out
          → authorized verify_token parse_uuid true (some default_policies) token fn
              >>= (λ tc. ok r)
            ≡ ok out
      from (tc, known, admin, same) =
          let allowed : check_rbac default_policies fn (tc.role ∷ []) ≡ true =
            only tc.role ∙ ap (λ s. str_eq s "admin") admin in
          rw (known, authorized) (rw (allowed, authorized) (ap (λ o. ok o) (sym same)))

  -- With authentication enabled and the default policies, the handlers WPDeviceInfo, WPPDUCfg, WPRackCfg,
  -- WPHyperVisorCfg, WPCreatePartition and WPNisdArgs answer exactly the callers whose token is valid and
  -- has the role "admin": each then prepares the changes that store its entity, for a device followed by
  -- those that store each of its partitions in order under the device's key, and for a partition also
  -- those under its device, and names the entity's ID, WPNisdArgs a fixed name.
  pub wp_hardware_iff :
      (req : HardwareReq) (out : List CommitChg × String)
      → (wp_hardware verify_token parse_uuid true (some default_policies) token req ≡ ok out) ↔ (
          (tc : TokenClaims) × (validate_token verify_token true token ≡ ok tc)
          × (tc.role ≡ "admin")
          × (out ≡ reply req))
  unfolding wp_hardware wp_device_info wp_create_partition wp_pdu_cfg wp_rack_cfg wp_hypervisor_cfg
      wp_nisd_args check_rbac get_policy any_role default_policies
  wp_hardware_iff (put_device dev) out =
      subst
        (λ (cs : List CommitChg).
          (wp_device_info verify_token parse_uuid true (some default_policies) token dev ≡ ok out)
          ↔ Accepted (populate_device dev "d_cfg" ++ cs, dev.id) out)
        (partitions_changes-joined dev.id dev.partitions)
        (handler_iff "WPDeviceInfo" _ out (λ role. ground arith))
  wp_hardware_iff (put_pdu pdu) out = handler_iff "WPPDUCfg" _ out (λ role. ground arith)
  wp_hardware_iff (put_rack rack) out = handler_iff "WPRackCfg" _ out (λ role. ground arith)
  wp_hardware_iff (put_hypervisor hv) out =
      handler_iff "WPHyperVisorCfg" _ out (λ role. ground arith)
  wp_hardware_iff (put_partition pt) out =
      handler_iff "WPCreatePartition" _ out (λ role. ground arith)
  wp_hardware_iff (put_nisd_args args) out = handler_iff "WPNisdArgs" _ out (λ role. ground arith)
