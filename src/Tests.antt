-- ===== src/Tests.antt =====
-- The theorems at concrete inputs: two NISDs with room for three chunks, in racks and devices of their
-- own, on the B-tree of BTree/Lists.
mod Registration
mod Allocation
mod Access
mod Handlers
mod Nisds
mod Reads
mod Creation
mod Hardware
mod Stored
mod Users
use niova_mdsvc.Prelude.{ℕ, String, List, [], ◌∷◌, Option, none, ◌*◌, ◌==◌, if◌then◌else◌}
use niova_mdsvc.BTree.{BTree}
use niova_mdsvc.BTree.Lists.{lists}
use niova_mdsvc.CpLib.{Nisd, DeviceAlloc, VdevConfig, VdevReq, Filter, chunk_size}
use niova_mdsvc.Hierarchy.{Heap, Entities, FailureDomain, Hierarchy, device_id, entity_id}

abbrev pub nisd_a : Nisd
nisd_a = record {
  peer_port = 7000;
  id = "nisd-a";
  failure_domain = "pdu-1" ∷ "rack-1" ∷ "hv-1" ∷ "dev-1" ∷ "part-1" ∷ [];
  total_size = 3 * chunk_size;
  available_size = 3 * chunk_size;
  socket_path = "/a";
  net_info = [];
  net_info_cnt = 0;
}

abbrev pub nisd_b : Nisd
nisd_b = record {
  peer_port = 7001;
  id = "nisd-b";
  failure_domain = "pdu-1" ∷ "rack-2" ∷ "hv-2" ∷ "dev-2" ∷ "part-2" ∷ [];
  total_size = 3 * chunk_size;
  available_size = 2 * chunk_size;
  socket_path = "/b";
  net_info = [];
  net_info_cnt = 0;
}

-- The NISD 0, and the NISD 1 at every other address.
abbrev pub heap : Heap
heap p = if p == 0 then nisd_a else nisd_b

abbrev pub device_a : DeviceAlloc
device_a = record { id = "dev-1"; available_size = 3 * chunk_size; nisds = 0 ∷ [] }

abbrev pub device_b : DeviceAlloc
device_b = record { id = "dev-2"; available_size = 2 * chunk_size; nisds = 1 ∷ [] }

abbrev pub empty_devices : lists.Tree DeviceAlloc device_id
empty_devices = lists.new DeviceAlloc device_id

abbrev pub rack_1 : Entities lists
rack_1 = record { id = "rack-1"; devices = lists.set device_a empty_devices }

abbrev pub rack_2 : Entities lists
rack_2 = record { id = "rack-2"; devices = lists.set device_b empty_devices }

abbrev pub racks : FailureDomain lists
racks = record {
  type = 1;
  tree = lists.set rack_2 (lists.set rack_1 (lists.new (Entities lists) (entity_id lists)));
}

abbrev pub no_entities : ℕ → FailureDomain lists
no_entities i = record { type = i; tree = lists.new (Entities lists) (entity_id lists) }

abbrev pub two_racks : Hierarchy lists
two_racks = record {
  fd = no_entities 0 ∷ racks ∷ no_entities 2 ∷ no_entities 3 ∷ no_entities 4 ∷ [];
}

-- A replicated vdev of one chunk with as many blocks as given.
abbrev pub request : ℕ → VdevReq
request blocks = record {
  vdev = record {
    id = "vdev-1";
    name = "v1";
    size = chunk_size;
    redundancy = 0;
    chunk_cnt = 1;
    data_blk_cnt = blocks;
    parity_blk_cnt = 0;
    vdev_mount_info = record { mount_counter = 0; last_updated_lts = 0 };
    pfs_id = "";
    access_token = "";
    filter_type = "";
    filter_id = "";
    pfs_name = "";
  };
  filter = record { id = ""; type = 2 };
}
