-- ===== src/Parser.antt =====
-- Reading entities back: `ParseEntities` and its variants of
-- controlplane/ctlplanefuncs/server/parser.go and `DeserializeUsers` of
-- controlplane/user/server/deserializer.go. A read result is the list of its pairs, in the order in which
-- the source's loop over the map meets them; the map of entities is an association list.
pub mod Grouping
pub mod Fields
pub mod Hardware
pub mod Restored
pub mod Switch
pub mod RoundTrip
pub mod Holds
pub mod Stored
pub mod Storage
use niova_mdsvc.Prelude.{
  ℕ, String, Bool, not, ◌||◌, Option, none, some, List, [], ◌∷◌, ◌++◌, map, leb, length, get_or,
  str_eq, if◌then◌else◌,
}
use niova_mdsvc.Keys.{key_parts}

-- `ParseEntity`: an entity is parsed as an `E` and given out as an `R`.
pub record ParseEntity (E R : Type 0) : Type 0 where
  pub root_key : String
  pub new_entity : String → E
  pub parse_field : E → List String → String → E
  pub get_entity : E → R

-- The ID to which the pieces of a key belong, if the key is not skipped.
unfoldable pub route : String → ℕ → List String → Option String
route root id_idx parts =
    if leb (length parts) id_idx || not (str_eq (get_or parts 0 "") root)
    then none
    else some (get_or parts id_idx "")

module _ {E : Type 0} where
  -- The entity with this ID after `change`, of a new one if there was none.
  pub update : String → E → (E → E) → List (String × E) → List (String × E)
  update id new change [] = (id, change new) ∷ []
  update id new change ((j, e) ∷ m) =
      if str_eq j id then (j, change e) ∷ m else (j, e) ∷ update id new change m

module _ {E R : Type 0} (pe : ParseEntity E R) (select : List String → Option String) where
  -- The loop over the pairs.
  unfoldable pub collect : List (String × String) → List (String × E) → List (String × E)
  unfolding update
  collect [] m = m
  collect ((k, v) ∷ kvs) m =
      let parts = key_parts k in
      collect kvs (elim (select parts) [
        | none ↦ m
        | some id ↦ update id (pe.new_entity id) (λ e. pe.parse_field e parts v) m
      ])

  unfoldable pub all_entities : List (String × String) → List R
  unfolding collect
  all_entities kvs = map (λ (id, e). pe.get_entity e) (collect kvs [])

join_all : {A : Type 0} → List (List A) → List A
join_all [] = []
join_all (xs ∷ xss) = xs ++ join_all xss

-- `ParseEntities`
unfoldable pub parse_entities :
    {E R : Type 0} → ParseEntity E R → ℕ → List (String × String) → List R
unfolding all_entities route
parse_entities pe id_idx kvs = all_entities pe (route pe.root_key id_idx) kvs

-- `ParseEntitiesMap`
unfoldable pub parse_entities_map :
    {E R : Type 0} → ParseEntity E R → ℕ → List (String × String) → List (String × E)
unfolding collect route
parse_entities_map pe id_idx kvs = collect pe (route pe.root_key id_idx) kvs []

-- `ParseEntitiesRR`: the results of several reads, one after the other.
unfoldable pub parse_entities_rr :
    {E R : Type 0} → ParseEntity E R → ℕ → List (List (String × String)) → List R
unfolding all_entities route join_all
parse_entities_rr pe id_idx reads = all_entities pe (route pe.root_key id_idx) (join_all reads)
