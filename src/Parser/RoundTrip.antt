-- ===== src/Parser/RoundTrip.antt =====
-- Racks that controlplane/ctlplanefuncs/server/populate.go stores are read back by
-- controlplane/ctlplanefuncs/server/parser.go.
use niova_mdsvc.Prelude.{String, ◌≡◌, refl, inl, some, List, [], ◌∷◌, All}
use niova_mdsvc.Keys.{IsFree}
use niova_mdsvc.Commit.{◌/◌, get_conf_key}
use niova_mdsvc.CpLib.Entities.{Rack}
use niova_mdsvc.Populate.{populate_rack}
use niova_mdsvc.Authorizer.{lookup}
use niova_mdsvc.Parser.{route, parse_entities_map}
use niova_mdsvc.Parser.Grouping.{parse_all}
use niova_mdsvc.Parser.Fields.{Step}
use niova_mdsvc.Parser.Holds.{Holds, FieldsOf, all_fields-FieldsOf}
use niova_mdsvc.Parser.Restored.{Plain, stored, restored, is_field_three}
use niova_mdsvc.Parser.Stored.{Stored, kept, text-eq}
use niova_mdsvc.Parser.Switch.{Fits, proj-switch, untouched, is_field-Single}
use niova_mdsvc.Parser.Hardware.{rack_parser, is_field}

rack_fields : Rack → List (String × String)
rack_fields rack =
    ("nm", rack.name) ∷ ("l", rack.location) ∷ ("sp", rack.specification) ∷ ("p", rack.pdu_id) ∷ []

abbrev rack_cases : Rack → String → List (String × Rack)
rack_cases r v =
    ("l", record r { location = v })
    ∷ ("p", record r { pdu_id = v })
    ∷ ("sp", record r { specification = v })
    ∷ ("nm", record r { name = v })
    ∷ []

rack_step :
    (proj : Rack → String) (name : String)
    → ((r : Rack) (v : String) → Fits proj name v (proj r) (rack_cases r v))
    → Step rack_parser proj (is_field name) (λ old v. v)
unfolding rack_parser
rack_step proj name fits r parts v =
    proj-switch proj name v (proj r) (λ f. is_field f parts) (is_field-Single parts) _ r (fits r v)
      refl

rack_id_kept :
    (r : Rack) (parts : List String) (v : String) → (rack_parser.parse_field r parts v).id ≡ r.id
unfolding rack_parser
rack_id_kept r parts v =
    untouched (λ (r : Rack). r.id) "" r.id r.id (λ f. is_field f parts) (is_field-Single parts)
      (rack_cases r v) r (refl, (refl, (refl, (refl, tt)))) refl

module _ (rack : Rack) (keys : List (List String × String))
    (st : Stored (λ f. "r" ∷ rack.id ∷ f ∷ []) (rack_fields rack) keys) where
  rack_text :
      (proj : Rack → String) (name w : String)
      → ((r : Rack) (v : String) → Fits proj name v (proj r) (rack_cases r v))
      → lookup name (rack_fields rack) ≡ some w
      → (e : Rack) → proj e ≡ ""
      → proj (parse_all rack_parser (route "r" 1) e keys) ≡ w
  unfolding rack_fields
  rack_text proj name w fits h e new =
      text-eq rack_parser (route "r" 1) (λ f. "r" ∷ rack.id ∷ f ∷ []) (rack_fields rack) keys st
        refl proj (is_field name) (rack_step proj name fits) name (is_field_three "r" rack.id name)
        w e h new

  rack_back : parse_all rack_parser (route "r" 1) (rack_parser.new_entity rack.id) keys ≡ rack
  unfolding rack_parser rack_fields
  rack_back = λ i. record {
    id = kept rack_parser (route "r" 1) (λ (r : Rack). r.id) rack_id_kept keys new i;
    name =
        rack_text (λ r. r.name) "nm" rack.name (λ r v. (refl, (refl, (refl, (refl, tt))))) refl new
          refl i;
    pdu_id =
        rack_text (λ r. r.pdu_id) "p" rack.pdu_id (λ r v. (refl, (refl, (refl, (refl, tt))))) refl
          new refl i;
    location =
        rack_text (λ r. r.location) "l" rack.location (λ r v. (refl, (refl, (refl, (refl, tt)))))
          refl new refl i;
    specification =
        rack_text (λ r. r.specification) "sp" rack.specification
          (λ r v. (refl, (refl, (refl, (refl, tt))))) refl new refl i;
  }
    where
      new : Rack
      new = rack_parser.new_entity rack.id

-- A rack that is stored is read back: from a read result that holds its changes, in any order and among
-- keys that belong to other racks or to none, ParseEntitiesMap makes that rack for its ID, if the ID has
-- no slash.
pub populate_rack-parse_entities_map :
    (rack : Rack) (kvs : List (String × String))
    → IsFree rack.id
    → Holds (route "r" 1) rack.id (populate_rack rack "r") kvs
    → lookup rack.id (parse_entities_map rack_parser 1 kvs) ≡ some rack
unfolding populate_rack rack_fields rack_parser
populate_rack-parse_entities_map rack kvs free holds =
    restored rack_parser rack.id kvs (rack_fields rack) (populate_rack rack "r") changes names
      (refl, refl) free holds "nm" rack.name rack (refl, refl) (inl refl)
      (rack_back rack _ (
        stored rack_parser rack.id kvs (rack_fields rack) (populate_rack rack "r") changes names
          (refl, refl) free holds))
  where
    changes :
        FieldsOf (λ f. get_conf_key "r" rack.id / f) (rack_fields rack) (populate_rack rack "r")
    changes = all_fields-FieldsOf (get_conf_key "r" rack.id) (rack_fields rack)

    names : All (λ (p : String × String). Plain p.0) (rack_fields rack)
    names = ((refl, refl), ((refl, refl), ((refl, refl), ((refl, refl), tt))))
