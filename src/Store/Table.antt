-- ===== src/Store/Table.antt =====
-- A store that never fails, as a function from keys to values: it meets what is assumed of the data store.
use niova_mdsvc.Prelude.{String, ap, sym, Option, none, some, some_eq, str_eq, if◌then◌else◌}
use niova_mdsvc.Store.{DataStore}

abbrev pub Values : Type 0
Values = String → Option String

abbrev pub put : String → Option String → Values → Values
put k v s j = if str_eq k j then v else s j

abbrev pub table : DataStore
table = record {
  State = Values;
  read = λ k s. s k;
  write = λ k v s. some (put k (some v) s);
  delete = λ k s. some (put k none s);
  read-write = λ k v s s' e j. ap (λ (t : Values). t j) (sym (some_eq e));
  read-delete = λ k s s' e j. ap (λ (t : Values). t j) (sym (some_eq e));
}
