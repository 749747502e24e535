-- ===== src/Populate.antt =====
-- controlplane/ctlplanefuncs/server/populate.go: the changes that store an entity. The loop over the field
-- names and its switch are the list of fields with their values.
use niova_mdsvc.Prelude.{
  ℕ, ◌+◌, String, Bool, true, false, List, [], ◌∷◌, ◌++◌, map, Outcome, ok, panic, length, get_or,
  ltb, str_eq, if◌then◌else◌, itoa,
}
use niova_mdsvc.CpLib.{
  Nisd, NetworkInfo, VdevConfig, fd_max, pdu_idx, rack_idx, hv_idx, device_idx, partition_idx,
}
use niova_mdsvc.CpLib.Entities.{Device, DevicePartition, NisdArgs, Pdu, Rack, Hypervisor}
use niova_mdsvc.Commit.{CommitChg, change, ◌/◌, get_conf_key}

-- Every field, with an empty value too.
unfoldable pub all_fields : String → List (String × String) → List CommitChg
all_fields key fields = map (λ (field, value). change (key / field) value) fields

-- The fields whose value is not empty.
unfoldable pub set_fields : String → List (String × String) → List CommitChg
set_fields key [] = []
set_fields key ((field, value) ∷ fields) =
    let rest = set_fields key fields in
    if str_eq value "" then rest else change (key / field) value ∷ rest

-- `strconv.FormatBool`
unfoldable pub format_bool : Bool → String
format_bool true = "true"
format_bool false = "false"

unfoldable pub populate_rack : Rack → String → List CommitChg
unfolding all_fields
populate_rack rack entity_key = all_fields (get_conf_key entity_key rack.id) (
    ("nm", rack.name) ∷ ("l", rack.location) ∷ ("sp", rack.specification) ∷ ("p", rack.pdu_id) ∷ [])

unfoldable pub populate_partition : DevicePartition → String → List CommitChg
unfolding all_fields
populate_partition pt entity_key = all_fields (get_conf_key entity_key pt.partition_id) (
    ("ptp", pt.partition_path) ∷ ("n", pt.nisd_uuid) ∷ ("d", pt.dev_id) ∷ ("sz", itoa pt.size) ∷ [])

-- The networks of a NISD.
unfoldable pub network_changes : String → List NetworkInfo → List CommitChg
network_changes key nets =
    map (λ (ni : NetworkInfo). change (key / "ni" / ni.ip_addr) (itoa ni.port)) nets

-- A NISD must name the five levels: the source indexes them without a test.
unfoldable pub populate_nisd : Nisd → String → Outcome Unit (List CommitChg)
unfolding set_fields network_changes
populate_nisd nisd entity_key =
    let key = get_conf_key entity_key nisd.id in
    let level = λ (i : ℕ). get_or nisd.failure_domain i "" in
    if ltb (length nisd.failure_domain) fd_max
    then panic
    else ok (
        set_fields key (
          ("d", level device_idx)
          ∷ ("pp", itoa nisd.peer_port)
          ∷ ("hv", level hv_idx)
          ∷ ("ts", itoa nisd.total_size)
          ∷ ("as", itoa nisd.available_size)
          ∷ ("sck", nisd.socket_path)
          ∷ ("p", level pdu_idx)
          ∷ ("r", level rack_idx)
          ∷ ("pt", level partition_idx)
          ∷ ("nic", itoa nisd.net_info_cnt)
          ∷ [])
        ++ network_changes key nisd.net_info)

-- The key of a parent, where there is one.
unfoldable pub parent_change : String → String → String → List CommitChg
parent_change prefix parent id =
    if str_eq parent "" then [] else change (prefix / parent / "d_cfg") id ∷ []

unfoldable pub populate_device : Device → String → List CommitChg
unfolding set_fields parent_change
populate_device dev entity_key =
    let k = get_conf_key entity_key dev.id in
    change k ""
    ∷ (set_fields k (
          ("nm", dev.name)
          ∷ ("dp", dev.device_path)
          ∷ ("s", itoa dev.state)
          ∷ ("sz", itoa dev.size)
          ∷ ("sn", dev.serial_number)
          ∷ ("hv", dev.hypervisor_id)
          ∷ ("fd", dev.failure_domain)
          ∷ [])
        ++ parent_change "hv" dev.hypervisor_id dev.id
        ++ parent_change "fd" dev.failure_domain dev.id)

-- The addresses of a hypervisor from number `i` on.
unfoldable pub address_changes : String → ℕ → List String → List CommitChg
address_changes key i [] = []
address_changes key i (ip ∷ ips) = change (key / "ip" / itoa i) ip ∷ address_changes key (i + 1) ips

unfoldable pub populate_hv : Hypervisor → String → List CommitChg
unfolding all_fields format_bool address_changes
populate_hv hv entity_key =
    let key = get_conf_key entity_key hv.id in
    all_fields key (
      ("r", hv.rack_id)
      ∷ ("nm", hv.name)
      ∷ ("pr", hv.port_range)
      ∷ ("ssh", hv.ssh_port)
      ∷ ("rdma", format_bool hv.rdma_enabled)
      ∷ [])
    ++ address_changes key 0 hv.ip_addrs

unfoldable pub populate_pdu : Pdu → String → List CommitChg
unfolding all_fields
populate_pdu pdu entity_key =
    change (get_conf_key "p" pdu.id) ""
    ∷ all_fields (get_conf_key entity_key pdu.id) (
        ("nm", pdu.name)
        ∷ ("l", pdu.location)
        ∷ ("sp", pdu.specification)
        ∷ ("pw", pdu.power_capacity)
        ∷ [])

unfoldable pub populate_nisd_args : NisdArgs → List CommitChg
unfolding all_fields format_bool
populate_nisd_args args = all_fields "na" (
    ("dfg", format_bool args.defrag)
    ∷ ("mbc", itoa args.mbc_cnt)
    ∷ ("mhc", itoa args.merge_h_cnt)
    ∷ ("mrc", itoa args.mcib_read_cache)
    ∷ ("s3", args.s3)
    ∷ ("ds", args.dsync)
    ∷ ("admc", format_bool args.allow_defrag_mcib_cache)
    ∷ [])

unfoldable pub populate_vdev : VdevConfig → String → List CommitChg
unfolding set_fields
populate_vdev vdev entity_key = set_fields (get_conf_key entity_key vdev.id / "cfg") (
    ("sz", itoa vdev.size)
    ∷ ("nc", itoa vdev.chunk_cnt)
    ∷ ("nd", itoa vdev.data_blk_cnt)
    ∷ ("np", itoa vdev.parity_blk_cnt)
    ∷ ("rm", itoa vdev.redundancy)
    ∷ ("nm", vdev.name)
    ∷ [])
