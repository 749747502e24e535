-- ===== src/Parser/Storage.antt =====
-- The parsers of controlplane/ctlplanefuncs/server/parser.go for NISDs, vdevs and the chunks of a vdev.
-- `time.Parse` with the layout RFC3339 is the parameter `parse_time`.
use Prim.Native.String.{◌++◌ as str_append}
use mathlib.Core.Option
use niova_mdsvc.Prelude.{
  ℕ, zero, suc, ◌+◌, ◌%◌, ◌^◌, String, Bool, not, ◌&&◌, Option, none, some, List, [], ◌∷◌, ◌++◌,
  length, get_or, set, ltb, ◌==◌, str_eq, if◌then◌else◌,
}
use niova_mdsvc.Prelude.Texts.{split}
use niova_mdsvc.Prelude.Numbers.{
  Parsed, number, bad_syntax, out_of_range, atoi, parse_int, parse_uint, value_of_parsed, max_u8,
  max_u32, max_u64,
}
use niova_mdsvc.CpLib.{
  Nisd, VdevConfig, ChunkType, replica_block, data_block, parity_block, pdu_idx, rack_idx, hv_idx,
  device_idx, partition_idx,
}
use niova_mdsvc.CpLib.Entities.{Chunk, ChunkNisd}
use niova_mdsvc.Parser.{ParseEntity}
use niova_mdsvc.Parser.Hardware.{is_field, switch}

-- A write of one level of a NISD's path.
abbrev level : ℕ → String → Nisd → Nisd
level i value nisd = record nisd { failure_domain = set nisd.failure_domain i value }

unfoldable pub nisd_parser : ParseEntity Nisd Nisd
nisd_parser = record {
  root_key = "n_cfg";
  new_entity = λ id. record {
    peer_port = 0;
    id = id;
    failure_domain = "" ∷ "" ∷ "" ∷ "" ∷ "" ∷ [];
    total_size = 0;
    available_size = 0;
    socket_path = "";
    net_info = [];
    net_info_cnt = 0;
  };
  parse_field = λ nisd parts value.
      switch (λ f. is_field f parts)
        (("d", level device_idx value nisd)
          ∷ ("pp", record nisd { peer_port = atoi value % 2 ^ 16 })
          ∷ ("hv", level hv_idx value nisd)
          ∷ ("p", level pdu_idx value nisd)
          ∷ ("r", level rack_idx value nisd)
          ∷ ("pt", level partition_idx value nisd)
          ∷ ("ts", record nisd { total_size = atoi value })
          ∷ ("as", record nisd { available_size = atoi value })
          ∷ ("sck", record nisd { socket_path = value })
          ∷ ("nic", record nisd { net_info_cnt = atoi value })
          ∷ [])
        (if ltb 3 (length parts) && str_eq (get_or parts 2 "") "ni"
          then record nisd {
            net_info =
                nisd.net_info
                ++ (record { ip_addr = get_or parts 3 ""; port = atoi value % 2 ^ 16 } ∷ []);
          }
          else nisd);
  get_entity = λ nisd. nisd;
}

-- `if n, err := …; err == nil`: the new value, or else the old one.
unfoldable pub if_parsed {ℓ} : {A : Type ℓ} → Parsed → (ℕ → A) → A → A
if_parsed (number n) f old = f n
if_parsed bad_syntax f old = old
if_parsed (out_of_range n) f old = old

-- Whether the key has more than three pieces, and these are the third and the fourth.
unfoldable pub is_element : String → String → List String → Bool
is_element group field parts =
    ltb 3 (length parts) && str_eq (get_or parts 2 "") group && str_eq (get_or parts 3 "") field

unfoldable pub vdev_field : VdevConfig → List String → String → VdevConfig
unfolding if_parsed
vdev_field v parts value =
    switch (λ f. is_element "cfg" f parts)
      (("sz", if_parsed (parse_int value) (λ n. record v { size = n }) v)
        ∷ ("nc", if_parsed (parse_uint max_u32 value) (λ n. record v { chunk_cnt = n }) v)
        ∷ ("nd", if_parsed (parse_uint max_u8 value) (λ n. record v { data_blk_cnt = n }) v)
        ∷ ("np", if_parsed (parse_uint max_u8 value) (λ n. record v { parity_blk_cnt = n }) v)
        ∷ ("rm", if_parsed (parse_int value) (λ n. record v { redundancy = n }) v)
        ∷ ("pfs", record v { pfs_id = value })
        ∷ ("nm", record v { name = value })
        ∷ ("fdt", record v { filter_type = value })
        ∷ ("fdi", record v { filter_id = value })
        ∷ [])
      v

module _ (parse_time : String → Option ℕ) where
  unfoldable pub mount_field : VdevConfig → List String → String → VdevConfig
  unfolding is_element if_parsed
  mount_field v parts value =
      let info = v.vdev_mount_info in
      if is_element "m" "mc" parts
      then if_parsed (parse_uint max_u64 value)
          (λ n. record v { vdev_mount_info = record info { mount_counter = n } }) v
      else if is_element "m" "lu" parts
      then elim (parse_time value) [
        | none ↦ v
        | some t ↦ record v { vdev_mount_info = record info { last_updated_lts = t } }
      ]
      else v

  unfoldable pub vdev_parser : ParseEntity VdevConfig VdevConfig
  unfolding vdev_field mount_field
  vdev_parser = record {
    root_key = "v";
    new_entity = λ id. record {
      id = id;
      name = "";
      size = 0;
      redundancy = 0;
      chunk_cnt = 0;
      data_blk_cnt = 0;
      parity_blk_cnt = 0;
      vdev_mount_info = record { mount_counter = 0; last_updated_lts = 0 };
      pfs_id = "";
      access_token = "";
      filter_type = "";
      filter_id = "";
      pfs_name = "";
    };
    parse_field = λ v parts value.
        if ltb 3 (length parts) && str_eq (get_or parts 2 "") "cfg"
        then vdev_field v parts value
        else mount_field v parts value;
    get_entity = λ v. v;
  }

-- The redundancy letter and the number of a block's name, such as "D.0".
unfoldable pub block_name : List String → Option (String × ℕ)
block_name parts =
    let pieces = split b'.' (get_or parts 4 "") in
    if ltb (length parts) 5
    then none
    else if not (length pieces == 2)
    then none
    else elim (parse_uint max_u8 (get_or pieces 1 "")) [
      | number n ↦ some (get_or pieces 0 "", n)
      | _ ↦ none
    ]

-- The redundancy mode of the chunk and the type of the block; the zero values for another letter.
abbrev placed : String → ℕ → String → Chunk → Chunk
placed letter seq nisd_id chunk =
    let new = λ (type : ChunkType).
      chunk.placements ++ (record { sequence = seq; type = type; nisd_id = nisd_id } ∷ []) in
    if str_eq letter "D"
    then record chunk { redundancy = 1; placements = new data_block }
    else if str_eq letter "P"
    then record chunk { redundancy = 1; placements = new parity_block }
    else record chunk { placements = new replica_block }

unfoldable pub chunk_parser : ParseEntity Chunk Chunk
unfolding block_name
chunk_parser = record {
  root_key = "v";
  new_entity = λ id. record {
    index = value_of_parsed (parse_uint max_u32 id);
    redundancy = 0;
    placements = [];
  };
  parse_field = λ chunk parts value. elim (block_name parts) [
    | none ↦ chunk
    | some (letter, seq) ↦ placed letter seq value chunk
  ];
  get_entity = λ chunk. chunk;
}

-- `cnInternal`: the NISDs of a chunk by the number of the block.
pub record CnInternal : Type 0 where
  pub data_ids : List (ℕ × String)
  pub parity_ids : List (ℕ × String)

-- A read and a write of such a map.
unfoldable pub block_at : ℕ → List (ℕ × String) → Option String
block_at i [] = none
block_at i ((j, id) ∷ m) = if j == i then some id else block_at i m

unfoldable pub put_block : ℕ → String → List (ℕ × String) → List (ℕ × String)
put_block i id [] = (i, id) ∷ []
put_block i id ((j, x) ∷ m) = if j == i then (i, id) ∷ m else (j, x) ∷ put_block i id m

-- The IDs from the number `i` on up to the first that is missing; the number is a uint8. The loop ends
-- unless all 256 are there: none is a loop that does not.
unfoldable pub ids_from : ℕ → ℕ → List (ℕ × String) → Option (List String)
unfolding block_at
ids_from zero i m = none
ids_from (suc fuel) i m =
    let rest = ids_from fuel ((i + 1) % 256) m in
    elim (block_at i m) [ none ↦ some [] | some id ↦ Option.map (λ ids. id ∷ ids) rest ]

-- `strings.Join`
unfoldable pub join : String → List String → String
join sep [] = ""
join sep (s ∷ []) = s
join sep (s ∷ t ∷ r) = str_append s (str_append sep (join sep (t ∷ r)))

-- The number of rounds after which every uint8 was met.
abbrev pub rounds : ℕ
rounds = 257

unfoldable pub chunk_nisd_parser : ParseEntity CnInternal (Option ChunkNisd)
unfolding block_name put_block ids_from join
chunk_nisd_parser = record {
  root_key = "v";
  new_entity = λ id. record { data_ids = []; parity_ids = [] };
  parse_field = λ cn parts value. elim (block_name parts) [
    | none ↦ cn
    | some (letter, seq) ↦
        if str_eq letter "D"
        then record cn { data_ids = put_block seq value cn.data_ids }
        else if str_eq letter "P"
        then record cn { parity_ids = put_block seq value cn.parity_ids }
        else cn
  ];
  get_entity = λ cn. elim (ids_from rounds 0 cn.data_ids) [
    | none ↦ none
    | some data_ids ↦ elim (ids_from rounds 0 cn.parity_ids) [
      | none ↦ none
      | some parity_ids ↦ some (record { nisd_ids = join "," (data_ids ++ parity_ids) })
    ]
  ];
}
