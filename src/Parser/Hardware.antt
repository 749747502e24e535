-- ===== src/Parser/Hardware.antt =====
-- The parsers of controlplane/ctlplanefuncs/server/parser.go for racks, power units, hypervisors, partitions
-- and devices.
use niova_mdsvc.Prelude.{
  ◌%◌, String, Bool, false, ◌&&◌, Option, none, some, List, [], ◌∷◌, ◌++◌, length, get_or, ltb,
  ◌==◌, str_eq, if◌then◌else◌,
}
use niova_mdsvc.Prelude.Numbers.{atoi, parse_bool}
use niova_mdsvc.CpLib.Entities.{Device, DevicePartition, Pdu, Rack, Hypervisor}
use niova_mdsvc.Parser.{ParseEntity}

-- Whether the key has three pieces and this one is the third.
unfoldable pub is_field : String → List String → Bool
is_field field parts = length parts == 3 && str_eq (get_or parts 2 "") field

-- A `switch` over a field's name, with what each case makes of the entity, and the default.
unfoldable pub switch {ℓ} : {A : Type ℓ} → (String → Bool) → List (String × A) → A → A
switch is [] d = d
switch is ((f, a) ∷ cases) d = if is f then a else switch is cases d

unfoldable pub rack_parser : ParseEntity Rack Rack
rack_parser = record {
  root_key = "r";
  new_entity = λ id. record { id = id; name = ""; pdu_id = ""; location = ""; specification = "" };
  parse_field = λ r parts value.
      switch (λ f. is_field f parts)
        (("l", record r { location = value })
          ∷ ("p", record r { pdu_id = value })
          ∷ ("sp", record r { specification = value })
          ∷ ("nm", record r { name = value })
          ∷ [])
        r;
  get_entity = λ r. r;
}

unfoldable pub pdu_parser : ParseEntity Pdu Pdu
pdu_parser = record {
  root_key = "p";
  new_entity =
      λ id. record { id = id; name = ""; location = ""; power_capacity = ""; specification = "" };
  parse_field = λ pdu parts value.
      switch (λ f. is_field f parts)
        (("l", record pdu { location = value })
          ∷ ("pw", record pdu { power_capacity = value })
          ∷ ("sp", record pdu { specification = value })
          ∷ ("nm", record pdu { name = value })
          ∷ [])
        pdu;
  get_entity = λ pdu. pdu;
}

unfoldable pub hv_parser : ParseEntity Hypervisor Hypervisor
hv_parser = record {
  root_key = "hv";
  new_entity = λ id. record {
    id = id;
    rack_id = "";
    name = "";
    ip_addrs = [];
    port_range = "";
    ssh_port = "";
    rdma_enabled = false;
  };
  parse_field = λ hv parts value.
      switch (λ f. is_field f parts)
        (("r", record hv { rack_id = value })
          ∷ ("pr", record hv { port_range = value })
          ∷ ("ssh", record hv { ssh_port = value })
          ∷ ("nm", record hv { name = value })
          ∷ ("rdma", record hv { rdma_enabled = parse_bool value })
          ∷ [])
        (if ltb 3 (length parts) && str_eq (get_or parts 2 "") "ip"
          then record hv { ip_addrs = hv.ip_addrs ++ (value ∷ []) }
          else hv);
  get_entity = λ hv. hv;
}

unfoldable pub pt_parser : ParseEntity DevicePartition DevicePartition
pt_parser = record {
  root_key = "pt";
  new_entity = λ id. record {
    partition_id = id;
    partition_path = "";
    nisd_uuid = "";
    dev_id = "";
    size = 0;
  };
  parse_field = λ pt parts value.
      switch (λ f. is_field f parts)
        (("d", record pt { dev_id = value })
          ∷ ("sz", record pt { size = atoi value })
          ∷ ("ptp", record pt { partition_path = value })
          ∷ ("n", record pt { nisd_uuid = value })
          ∷ [])
        pt;
  get_entity = λ pt. pt;
}

-- One field of a partition that a device's key names.
unfoldable pub partition_field : String → String → DevicePartition → DevicePartition
partition_field field value pt =
    switch (λ f. str_eq field f)
      (("d", record pt { dev_id = value })
        ∷ ("sz", record pt { size = atoi value })
        ∷ ("ptp", record pt { partition_path = value })
        ∷ ("n", record pt { nisd_uuid = value })
        ∷ [])
      pt

-- The first partition with this ID, or a new one at the end, after `change`.
unfoldable pub change_partition :
    String → (DevicePartition → DevicePartition) → List DevicePartition → List DevicePartition
change_partition id change [] =
    change
      (record { partition_id = id; partition_path = ""; nisd_uuid = ""; dev_id = ""; size = 0 })
    ∷ []
change_partition id change (pt ∷ pts) =
    if str_eq pt.partition_id id then change pt ∷ pts else pt ∷ change_partition id change pts

unfoldable pub device_field : Device → List String → String → Device
device_field dev parts value =
    switch (λ f. is_field f parts)
      (("hv", record dev { hypervisor_id = value })
        ∷ ("sn", record dev { serial_number = value })
        ∷ ("s", record dev { state = atoi value % 65536 })
        ∷ ("fd", record dev { failure_domain = value })
        ∷ ("dp", record dev { device_path = value })
        ∷ ("nm", record dev { name = value })
        ∷ ("sz", record dev { size = atoi value })
        ∷ [])
      dev

-- `deviceWithPartitionParser`: none is a call that has panicked, since a key of four pieces has no fifth.
unfoldable pub device_parser : ParseEntity (Option Device) (Option Device)
unfolding device_field partition_field change_partition
device_parser = record {
  root_key = "d_cfg";
  new_entity = λ id. some (record {
    id = id;
    name = "";
    device_path = "";
    serial_number = "";
    state = 0;
    size = 0;
    hypervisor_id = "";
    failure_domain = "";
    partitions = [];
  });
  parse_field = λ d parts value. elim d [
    | none ↦ none
    | some dev ↦
        if length parts == 3
        then some (device_field dev parts value)
        else if ltb 3 (length parts) && str_eq (get_or parts 2 "") "pt"
        then if length parts == 4
          then none
          else some (record dev {
            partitions =
                change_partition (get_or parts 3 "") (partition_field (get_or parts 4 "") value)
                  dev.partitions;
          })
        else some dev
  ];
  get_entity = λ d. d;
}
