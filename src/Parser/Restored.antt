-- ===== src/Parser/Restored.antt =====
-- Entities whose changes of controlplane/ctlplanefuncs/server/populate.go are in a read result are read back
-- by controlplane/ctlplanefuncs/server/parser.go: the part that all entities share.
use Prim.Native.String.{◌++◌}
use mathlib.Core.Path.{subst}
use text.Mathlib.TextLemmas.{append_assoc}
use niova_mdsvc.Prelude.{
  String, ◌≡◌, refl, ap, ◌∙◌, false, inl, inr, Option, none, some, List, [], ◌∷◌, str_eq, eq_refl,
  All,
}
use niova_mdsvc.Prelude.Texts.{is_empty}
use niova_mdsvc.Keys.{IsFree, key_parts, key_parts-key}
use niova_mdsvc.Commit.{CommitChg, change, ◌/◌, get_conf_key}
use niova_mdsvc.Authorizer.{lookup}
use niova_mdsvc.Parser.{ParseEntity, route, parse_entities_map}
use niova_mdsvc.Parser.Grouping.{own, parse_all, grown, lookup-collect}
use niova_mdsvc.Parser.Fields.{Among}
use niova_mdsvc.Parser.Holds.{Holds, Holds-Stored, own-all, FieldsOf}
use niova_mdsvc.Parser.Stored.{Stored}
use niova_mdsvc.Parser.Hardware.{is_field}

pub grown-new :
    {E R : Type 0} (pe : ParseEntity E R) (select : List String → Option String) (i : String)
    (keys : List (List String × String)) (x : List String × String)
    → Among x keys
    → grown pe select i none keys ≡ some (parse_all pe select (pe.new_entity i) keys)
unfolding grown
grown-new pe select i [] x m = absurd m
grown-new pe select i (k ∷ keys) x m = refl

-- An entity with such a key is what its keys were parsed into.
pub read_back :
    {E R : Type 0} (pe : ParseEntity E R) (i : String) (kvs : List (String × String))
    (x : List String × String)
    → Among x (own pe (route pe.root_key 1) i kvs)
    → lookup i (parse_entities_map pe 1 kvs)
      ≡ some (
          parse_all pe (route pe.root_key 1) (pe.new_entity i) (own pe (route pe.root_key 1) i kvs))
unfolding parse_entities_map
read_back pe i kvs x m =
    lookup-collect pe (route pe.root_key 1) i kvs []
    ∙ grown-new pe (route pe.root_key 1) i (own pe (route pe.root_key 1) i kvs) x m

-- The test of a field on a key of three pieces.
pub is_field_three : (a i f g : String) → is_field f (a ∷ i ∷ g ∷ []) ≡ str_eq g f
unfolding is_field
is_field_three a i f g = refl

route_three : (a i g : String) → route a 1 (a ∷ i ∷ g ∷ []) ≡ some i
unfolding route
route_three a i g = rw (eq_refl a) refl

-- A piece of a key that may stand first or last.
abbrev pub Plain : String → Type 0
Plain f = IsFree f × (is_empty f ≡ false)

pub three_pieces :
    (a i f : String)
    → Plain a
    → IsFree i
    → Plain f
    → key_parts (get_conf_key a i / f) ≡ a ∷ i ∷ f ∷ []
unfolding get_conf_key
three_pieces a i f (fa, na) fi (ff, nf) =
    ap key_parts
      (append_assoc a ("/" ++ i) ("/" ++ f) ∙ ap (λ t. a ++ t) (append_assoc "/" i ("/" ++ f)))
    ∙ key_parts-key a (i ∷ f ∷ []) (fa, (fi, (ff, tt))) na nf

pub All-Among :
    (fields : List (String × String)) (f v : String)
    → All (λ (p : String × String). Plain p.0) fields
    → Among (f, v) fields
    → Plain f
All-Among [] f v a m = absurd m
All-Among ((g, w) ∷ fields) f v a (inl same) = subst (λ (p : String × String). Plain p.0) same a.0
All-Among ((g, w) ∷ fields) f v a (inr m) = All-Among fields f v a.1 m

-- The changes of an entity's fields under its root key and its ID.
module _ {E R : Type 0} (pe : ParseEntity E R) (i : String) (kvs : List (String × String))
    (fields : List (String × String)) (cs : List CommitChg)
    (fo : FieldsOf (λ f. get_conf_key pe.root_key i / f) fields cs)
    (names : All (λ (p : String × String). Plain p.0) fields) (root : Plain pe.root_key)
    (free : IsFree i) (holds : Holds (route pe.root_key 1) i cs kvs) where
  abbrev own_keys : List (List String × String)
  own_keys = own pe (route pe.root_key 1) i kvs

  pub stored : Stored (λ f. pe.root_key ∷ i ∷ f ∷ []) fields own_keys
  stored =
      Holds-Stored pe (route pe.root_key 1) i (λ f. pe.root_key ∷ i ∷ f ∷ [])
        (λ f. get_conf_key pe.root_key i / f) fields cs kvs fo
        (λ f v m. three_pieces pe.root_key i f root free (All-Among fields f v names m))
        (λ f. route_three pe.root_key i f) holds

  pub restored :
      (f v : String) (e : E)
      → Plain f
      → Among (change (get_conf_key pe.root_key i / f) v) cs
      → parse_all pe (route pe.root_key 1) (pe.new_entity i) own_keys ≡ e
      → lookup i (parse_entities_map pe 1 kvs) ≡ some e
  restored f v e plain m parsed =
      read_back pe i kvs (key_parts (get_conf_key pe.root_key i / f), v)
        (own-all pe (route pe.root_key 1) i kvs (get_conf_key pe.root_key i / f) v
          (holds.all (get_conf_key pe.root_key i / f) v m)
          (ap (route pe.root_key 1) (three_pieces pe.root_key i f root free plain)
            ∙ route_three pe.root_key i f))
      ∙ ap some parsed
