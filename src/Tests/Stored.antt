-- ===== src/Tests/Stored.antt =====
-- Stored entities and users at concrete inputs.
use native.Mathlib.Decide.{dec_lt}
use niova_mdsvc.Prelude.{
  refl, none, false, String, ◌≡◌, inl, inr, Option, some, List, [], ◌∷◌, map, All, ap, ◌∙◌, arith,
  eq_iff,
}
use niova_mdsvc.Commit.{CommitChg, change}
use niova_mdsvc.CpLib.Entities.{Rack}
use niova_mdsvc.Populate.{populate_rack, all_fields, set_fields}
use niova_mdsvc.Parser.{route, collect, parse_entities_map}
use niova_mdsvc.Parser.Grouping.{own, grown, lookup-collect}
use niova_mdsvc.Parser.Fields.{Among}
use niova_mdsvc.Parser.Holds.{Holds}
use niova_mdsvc.Parser.Hardware.{rack_parser}
use niova_mdsvc.Parser.RoundTrip.{populate_rack-parse_entities_map}
use niova_mdsvc.Authorizer.{lookup}
use niova_mdsvc.User.{User, serialize_user, user_fields, user_route, deserialize_single_user}
use niova_mdsvc.User.RoundTrip.{deserialize_single_user-serialize_user}

-- The pairs that the store holds after these changes.
abbrev pub pairs : List CommitChg → List (String × String)
pairs cs = map (λ (c : CommitChg). (c.key, c.value)) cs

Among-pairs :
    (k v : String) (cs : List CommitChg)
    → All (λ (c : CommitChg). c ≡ change c.key c.value) cs
    → Among (k, v) (pairs cs)
    → Among (change k v) cs
Among-pairs k v [] a m = absurd m
Among-pairs k v (c ∷ cs) a (inl e) = inl (a.0 ∙ ap (λ (p : String × String). change p.0 p.1) e)
Among-pairs k v (c ∷ cs) a (inr m) = inr (Among-pairs k v cs a.1 m)

pairs-Among : (k v : String) (cs : List CommitChg) → Among (change k v) cs → Among (k, v) (pairs cs)
pairs-Among k v [] m = absurd m
pairs-Among k v (c ∷ cs) (inl e) = inl (ap (λ (d : CommitChg). (d.key, d.value)) e)
pairs-Among k v (c ∷ cs) (inr m) = inr (pairs-Among k v cs m)

pairs-Holds :
    (select : List String → Option String) (i : String) (cs : List CommitChg)
    → All (λ (c : CommitChg). c ≡ change c.key c.value) cs
    → Holds select i cs (pairs cs)
pairs-Holds select i cs a = record {
  only = λ k v m e. Among-pairs k v cs a m;
  all = λ k v m. pairs-Among k v cs m;
}

abbrev rack_a : Rack
rack_a = record {
  id = "r-1";
  name = "first";
  pdu_id = "p-1";
  location = "hall";
  specification = "";
}

abbrev rack_pairs : List (String × String)
rack_pairs = ("r/r-2/nm", "second") ∷ ("r/r-1/l", "hall") ∷ ("r/r-1/nm", "first") ∷ []

lookup-collect_example :
    lookup "r-1" (collect rack_parser (route "r" 1) rack_pairs [])
    ≡ grown rack_parser (route "r" 1) "r-1" none (own rack_parser (route "r" 1) "r-1" rack_pairs)
lookup-collect_example = lookup-collect rack_parser (route "r" 1) "r-1" rack_pairs []

rack_changes : All (λ (c : CommitChg). c ≡ change c.key c.value) (populate_rack rack_a "r")
unfolding populate_rack all_fields
rack_changes = (refl, (refl, (refl, (refl, tt))))

populate_rack-parse_entities_map_example :
    lookup "r-1" (parse_entities_map rack_parser 1 (pairs (populate_rack rack_a "r"))) ≡ some rack_a
populate_rack-parse_entities_map_example =
    populate_rack-parse_entities_map rack_a (pairs (populate_rack rack_a "r")) refl
      (pairs-Holds (route "r" 1) "r-1" (populate_rack rack_a "r") rack_changes)

abbrev pub bob : User
bob = record {
  username = "bob";
  user_id = "u1";
  secret_key = "s3cret";
  user_role = "user";
  status = 0;
  is_admin = false;
}

bob_changes : All (λ (c : CommitChg). c ≡ change c.key c.value) (serialize_user bob)
unfolding serialize_user user_fields set_fields dec_lt
bob_changes = (refl, (refl, (refl, (refl, (refl, (refl, tt))))))

deserialize_single_user-serialize_user_example :
    deserialize_single_user (pairs (serialize_user bob)) "u1" ≡ some bob
deserialize_single_user-serialize_user_example =
    deserialize_single_user-serialize_user bob (pairs (serialize_user bob)) (omega arith) refl
      (λ e. absurd (ground (arith, e, eq_iff "u1" "")))
      (pairs-Holds user_route "u1" (serialize_user bob) bob_changes)
