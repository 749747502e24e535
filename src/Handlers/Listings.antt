-- ===== src/Handlers/Listings.antt =====
-- The listing of all kinds of entities and the handlers of each kind, in
-- controlplane/ctlplanefuncs/server/srvctlplanefuncs.go.
use niova_mdsvc.Prelude.{String, Bool, ◌≡◌, ap, ◌∙◌, Option, List, Outcome, ok, ◌>>=◌, first_call}
use niova_mdsvc.Authorizer.{Config}
use niova_mdsvc.Store.{RangeRead, found, key_not_found, range_read_failure}
use niova_mdsvc.Store.Ranges.{RangeStore}
use niova_mdsvc.Parser.{ParseEntity, parse_entities}
use niova_mdsvc.Parser.Hardware.{rack_parser, pdu_parser, hv_parser, pt_parser}
use niova_mdsvc.Handlers.{Env, HandlerError}
use niova_mdsvc.Handlers.Mount.{or_failed}
use niova_mdsvc.Handlers.Read.{
  Resources, racks, pdus, hypervisors, partitions, key_for, or_empty, permitted, read_entities,
  read_partition, read_pdu_cfg, read_rack_cfg, read_hypervisor_cfg, listed, list_kind,
  read_all_resources,
}

-- The kinds that have a handler which lists all or one.
pub data Kind : Type 0 where
  rack pdu hypervisor partition : Kind

abbrev pub name_of : Kind → String
name_of rack = "rack"
name_of pdu = "pdu"
name_of hypervisor = "hypervisor"
name_of partition = "partition"

or_empty-or_failed :
    (r : RangeRead) {kvs : List (String × String)} → or_failed r ≡ ok kvs → or_empty r ≡ ok kvs
unfolding or_failed or_empty
or_empty-or_failed (found kvs) h = h
or_empty-or_failed key_not_found h = cc
or_empty-or_failed range_read_failure h = cc

module _ (rs : RangeStore) (env : Env) (enabled : Bool) (authorizer : Option Config)
    (s : rs.ds.State) where
  -- The handler of a kind.
  abbrev pub own : Kind → String → String → Bool → Outcome HandlerError Resources
  own rack token id get_all =
      read_rack_cfg rs env enabled authorizer s token id get_all >>= (λ xs. ok (racks xs))
  own pdu token id get_all =
      read_pdu_cfg rs env enabled authorizer s token id get_all >>= (λ xs. ok (pdus xs))
  own hypervisor token id get_all =
      read_hypervisor_cfg rs env enabled authorizer s token id get_all
      >>= (λ xs. ok (hypervisors xs))
  own partition token id get_all =
      read_partition rs env enabled authorizer s token id get_all >>= (λ xs. ok (partitions xs))

  listed-read_entities :
      {E R : Type 0} (pe : ParseEntity E R) (made : List R → Resources) (fn root token id : String)
      (get_all : Bool) (a : Resources)
      → read_entities rs env enabled authorizer s pe fn (key_for root id get_all) token
          >>= (λ xs. ok (made xs))
        ≡ ok a
      → listed rs env enabled authorizer s pe made root id get_all ≡ ok a
  unfolding read_entities listed
  listed-read_entities {R = R} pe made fn root token id get_all a h =
      let (xs, same, read) =
        first_call done
          (read_entities rs env enabled authorizer s pe fn (key_for root id get_all) token) a h in
      let (tc, h1, _) =
        first_call (λ _. after_token) (permitted rs env enabled authorizer s token fn) xs read in
      let (kvs, parsed, there) =
        first_call after_read (or_failed (rs.range_read s (key_for root id get_all))) xs h1 in
      let reads : or_empty (rs.range_read s (key_for root id get_all)) ≡ ok kvs =
        or_empty-or_failed _ there in
      ap
        (λ (o : Outcome HandlerError (List (String × String))).
          o >>= (λ kvs. ok (made (parse_entities pe 1 kvs))))
        reads
      ∙ ap (λ (o : Outcome HandlerError (List R)). o >>= done) parsed
      ∙ same
    where
      done : List R → Outcome HandlerError Resources
      done xs = ok (made xs)

      after_read : List (String × String) → Outcome HandlerError (List R)
      after_read kvs = ok (parse_entities pe 1 kvs)

      after_token : Outcome HandlerError (List R)
      after_token = or_failed (rs.range_read s (key_for root id get_all)) >>= after_read

  list_kind-own :
      (kind : Kind) (token id : String) (get_all : Bool) (a : Resources)
      → own kind token id get_all ≡ ok a
      → list_kind rs env enabled authorizer s (name_of kind) id get_all ≡ ok a
  unfolding list_kind read_rack_cfg read_pdu_cfg read_hypervisor_cfg read_partition
  list_kind-own rack token id get_all a h =
      listed-read_entities rack_parser racks "ReadRackCfg" "r" token id get_all a h
  list_kind-own pdu token id get_all a h =
      listed-read_entities pdu_parser pdus "ReadPDUCfg" "p" token id get_all a h
  list_kind-own hypervisor token id get_all a h =
      listed-read_entities hv_parser hypervisors "ReadHyperVisorCfg" "hv" token id get_all a h
  list_kind-own partition token id get_all a h =
      listed-read_entities pt_parser partitions "ReadPartition" "pt" token id get_all a h

  -- For racks, PDUs, hypervisors and partitions ReadAllResources lists the same as the handler of the
  -- kind: if that one answers a request for all or one, ReadAllResources gives the same entities to every
  -- caller whom it permits, and otherwise the error of the permission.
  pub read_all_resources-own :
      (kind : Kind) (token token' id : String) (get_all : Bool) (a : Resources)
      → own kind token id get_all ≡ ok a
      → read_all_resources rs env enabled authorizer s token' (name_of kind) id get_all
        ≡ permitted rs env enabled authorizer s token' "ReadAllResources" >>= (λ tc. ok a)
  unfolding read_all_resources
  read_all_resources-own kind token token' id get_all a h =
      ap
        (λ (o : Outcome HandlerError Resources).
          permitted rs env enabled authorizer s token' "ReadAllResources" >>= (λ tc. o))
        (list_kind-own kind token id get_all a h)
