-- ===== src/Tests/Hardware.antt =====
-- The handlers of hardware at concrete inputs.
use niova_mdsvc.Prelude.{String, true, ◌≡◌, ◌⊎◌, inr, ◌↔◌, some, List, [], ◌∷◌, ok}
use niova_mdsvc.Authorizer.Defaults.{default_policies}
use niova_mdsvc.Session.{TokenClaims, ClaimValue, text, flag, validate_token}
use niova_mdsvc.Prepare.Hardware.{HardwareReq, put_device, wp_hardware, reply, wp_hardware_iff}

abbrev operator_token : String → String ⊎ List (String × ClaimValue)
operator_token token =
    inr (("userID", text "u0") ∷ ("role", text "admin") ∷ ("isAdmin", flag true) ∷ [])

abbrev device_req : HardwareReq
device_req = put_device record {
  id = "dev-1";
  name = "disk";
  device_path = "/dev/sda";
  serial_number = "sn";
  state = 0;
  size = 1024;
  hypervisor_id = "hv-1";
  failure_domain = "";
  partitions =
      record {
        partition_id = "part-1";
        partition_path = "/dev/sda1";
        nisd_uuid = "nisd-a";
        dev_id = "dev-1";
        size = 512;
      }
      ∷ [];
}

wp_hardware_iff_example :
    (wp_hardware operator_token (λ s. true) true (some default_policies) "t" device_req
      ≡ ok (reply device_req))
    ↔ ((tc : TokenClaims) × (validate_token operator_token true "t" ≡ ok tc)
        × (tc.role ≡ "admin")
        × (reply device_req ≡ reply device_req))
wp_hardware_iff_example =
    wp_hardware_iff operator_token (λ s. true) "t" device_req (reply device_req)
