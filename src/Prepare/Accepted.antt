-- ===== src/Prepare/Accepted.antt =====
-- Which NISDs `WPNisdCfg` of controlplane/ctlplanefuncs/server/srvctlplanefuncs.go accepts.
use niova_mdsvc.Prelude.{
  String, ◌≡◌, refl, sym, ap, ◌∙◌, ok_eq, Bool, true, ◌⊎◌, some, List, [], ◌∷◌, Outcome, ok, err,
  panic, running, ◌>>=◌, first_call,
}
use niova_mdsvc.CpLib.{Nisd}
use niova_mdsvc.CpLib.Validate.{validate_nisd, validate_nisd-eq-ok, IsValid}
use niova_mdsvc.Commit.{CommitChg, nisd_cfg_key}
use niova_mdsvc.Populate.{populate_nisd}
use niova_mdsvc.Authorizer.{Config, check_rbac}
use niova_mdsvc.Session.{TokenClaims, ClaimValue, validate_token, validate_and_authorize_rbac}
use niova_mdsvc.Session.Claims.{validate_and_authorize_rbac-eq-ok}
use niova_mdsvc.Prepare.{
  PrepareError, ResponseXml, map_error, wp_nisd_cfg, authorized, populated, auth, invalid_nisd,
}

pub map_error-eq-ok {ℓ} :
    {D E A : Type ℓ} (f : D → E) (r : Outcome D A) {a : A} → map_error f r ≡ ok a → r ≡ ok a
map_error-eq-ok f (ok b) h = cc
map_error-eq-ok f (err d) h = cc
map_error-eq-ok f panic h = cc
map_error-eq-ok f running h = cc

module _ (verify_token : String → String ⊎ List (String × ClaimValue)) (parse_uuid : String → Bool)
    (cfg : Config) where
  -- With authentication enabled and an authorizer, WPNisdCfg prepares changes only for a valid NISD and a
  -- caller with a valid token whose role CheckRBAC lets pass; the changes are those that store the NISD,
  -- and the response has success, the NISD's ID as its name, and neither an ID nor an error.
  pub wp_nisd_cfg-eq-ok :
      (token : String) (nisd : Nisd) (out : List CommitChg × ResponseXml)
      → wp_nisd_cfg verify_token parse_uuid true (some cfg) token nisd ≡ ok out
      → IsValid parse_uuid nisd
        × ((tc : TokenClaims) × (validate_token verify_token true token ≡ ok tc)
            × (check_rbac cfg "WPNisdCfg" (tc.role ∷ []) ≡ true))
        × (populate_nisd nisd nisd_cfg_key ≡ ok out.0)
        × (out.1 ≡ record { name = nisd.id; id = ""; error = ""; success = true })
  unfolding wp_nisd_cfg authorized
  wp_nisd_cfg-eq-ok token nisd out h =
      let (u, rest, valid) =
        first_call (λ _. after_validation) (map_error invalid_nisd (validate_nisd parse_uuid nisd))
          out h in
      let (tc, made, passed) =
        first_call (λ (tc : TokenClaims). prepared)
          (map_error auth
            (validate_and_authorize_rbac verify_token true (some cfg) token "WPNisdCfg"))
          out rest in
      let (known, _, _, allowed) =
        validate_and_authorize_rbac-eq-ok verify_token cfg token "WPNisdCfg" tc
          (map_error-eq-ok auth _ passed) in
      let (stored, named) = written (populate_nisd nisd nisd_cfg_key) refl made in
      (
        (validate_nisd-eq-ok parse_uuid nisd).0 (map_error-eq-ok invalid_nisd _ valid),
        (tc, known, allowed),
        stored,
        named,
      )
    where
      response : ResponseXml
      response = record { name = nisd.id; id = ""; error = ""; success = true }

      written :
          (r : Outcome Unit (List CommitChg))
          → populate_nisd nisd nisd_cfg_key ≡ r
          → populated r >>= (λ changes. ok (changes, response)) ≡ ok out
          → (populate_nisd nisd nisd_cfg_key ≡ ok out.0) × (out.1 ≡ response)
      written (ok cs) e p =
          let same : (cs, response) ≡ out = ok_eq (ok (cs, response)) refl p in
          (
            e ∙ ap (λ (o : List CommitChg × ResponseXml). ok o.0) same,
            ap (λ (o : List CommitChg × ResponseXml). o.1) (sym same),
          )
      written (err u) e p = cc
      written panic e p = cc
      written running e p = cc

      prepared : Outcome PrepareError (List CommitChg × ResponseXml)
      prepared = populated (populate_nisd nisd nisd_cfg_key) >>= λ changes. ok (changes, response)

      after_validation : Outcome PrepareError (List CommitChg × ResponseXml)
      after_validation =
          map_error auth
            (validate_and_authorize_rbac verify_token true (some cfg) token "WPNisdCfg")
          >>= λ tc. prepared
