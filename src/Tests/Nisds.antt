-- ===== src/Tests/Nisds.antt =====
-- Registering a NISD that the write-prepare handler refused.
use niova_mdsvc.Prelude.{String, true, ◌⊎◌, inr, List, [], ◌∷◌}
use niova_mdsvc.Session.{ClaimValue, text, flag}
use niova_mdsvc.Prepare.{failed_to_initialize}
use niova_mdsvc.Store.Pairs.{Pairs}
use niova_mdsvc.Hierarchy.{Hierarchy}
use niova_mdsvc.Handlers.Create.{Prepared, refused}

abbrev admin : String → String ⊎ List (String × ClaimValue)
admin token = inr (("userID", text "u0") ∷ ("role", text "admin") ∷ ("isAdmin", flag true) ∷ [])

abbrev not_valid : Prepared
not_valid = refused failed_to_initialize
