-- ===== src/Handlers/Mounted.antt =====
-- What `APMountVdev` of controlplane/ctlplanefuncs/server/srvctlplanefuncs.go accepts and writes.
use niova_mdsvc.Prelude.{
  ℕ, ◌+◌, ◌≤◌, String, ◌≡◌, refl, sym, ap, ◌∙◌, Bool, true, false, inl, inr, Option, none, some,
  List, [], ◌∷◌, Outcome, ok, ◌>>=◌, first_call, ok_eq, arith, ltb, str_eq, if◌then◌else◌, add64,
  utoa, Bool-cases,
}
use niova_mdsvc.Commit.{CommitChg}
use niova_mdsvc.CpLib.{VdevConfig, VdevMountInfo}
use niova_mdsvc.Authorizer.{Config, authorize}
use niova_mdsvc.Session.{TokenClaims, validate_token}
use niova_mdsvc.Prepare.{map_error}
use niova_mdsvc.Prepare.Accepted.{map_error-eq-ok}
use niova_mdsvc.Store.{found}
use niova_mdsvc.Store.Ranges.{RangeStore, reader}
use niova_mdsvc.Parser.{parse_entities, all_entities, collect}
use niova_mdsvc.Parser.Storage.{vdev_parser}
use niova_mdsvc.Handlers.{Env, HandlerError, auth, not_authorized}
use niova_mdsvc.Store.Applied.{last}
use niova_mdsvc.Handlers.Committed.{commit-eq-ok}
use niova_mdsvc.Handlers.Named.{or_failed-eq-ok, Names, resolve-Names}
use niova_mdsvc.Handlers.Mount.{
  vdev_mount_limit, or_failed, require, mc_key, lu_key, vdev_prefix, stored_counter, stored_time,
  next_counter, first_vdev, or_no_token, mount_changes, mounted, resolve, may_mount, mount_plan,
  ap_mount_vdev,
}

pub require-eq-ok : (b : Bool) (e : HandlerError) {u : Unit {0}} → require b e ≡ ok u → b ≡ true
unfolding require
require-eq-ok true e h = refl
require-eq-ok false e h = cc

or_no_token-eq-ok : (t : Option String) {u : String} → or_no_token t ≡ ok u → t ≡ some u
unfolding or_no_token
or_no_token-eq-ok none h = cc
or_no_token-eq-ok (some t) h = cc

module _ (rs : RangeStore) (env : Env) (cfg : Config) where
  -- The steps of an accepted mount.
  pub record Plan (token req_id : String) (now : ℕ) (s : rs.ds.State)
      (out : VdevConfig × List CommitChg) : Type 0 where
    pub tc : TokenClaims
    pub id : String
    pub kvs : List (String × String)
    pub counter : ℕ
    pub access : String
    pub vdev : VdevConfig
    pub known : validate_token env.verify_token true token ≡ ok tc
    pub resolved : resolve rs env true (some cfg) req_id s ≡ ok id
    pub allowed : may_mount rs env true (some cfg) tc id s ≡ ok tt
    pub stored : rs.range_read s (vdev_prefix id) ≡ found kvs
    pub counted : next_counter env.parse_time id now kvs ≡ ok counter
    pub parsed : first_vdev (parse_entities (vdev_parser env.parse_time) 1 kvs) ≡ ok vdev
    pub made : (mounted vdev counter now access, mount_changes env.format_time id counter now) ≡ out

  mount_plan-eq-ok :
      (token req_id : String) (now : ℕ) (s : rs.ds.State) (out : VdevConfig × List CommitChg)
      → mount_plan rs env true (some cfg) token req_id now s ≡ ok out
      → Plan token req_id now s out
  unfolding mount_plan
  mount_plan-eq-ok token req_id now s out h =
      let (tc, h1, known) =
        first_call after_auth (map_error auth (validate_token env.verify_token true token)) out h in
      let (id, h2, resolved) =
        first_call (after_resolve tc) (resolve rs env true (some cfg) req_id s) out h1 in
      let (_, h3, allowed) =
        first_call (λ _. after_allowed id) (may_mount rs env true (some cfg) tc id s) out h2 in
      let (kvs, h4, stored) =
        first_call (after_read id) (or_failed (rs.range_read s (vdev_prefix id))) out h3 in
      let (counter, h5, counted) =
        first_call (after_count id kvs) (next_counter env.parse_time id now kvs) out h4 in
      let (access, h6, _) =
        first_call (after_token id kvs counter) (or_no_token (env.create_token id counter now)) out
          h5 in
      let (vdev, h7, parsed) =
        first_call (done id counter access)
          (first_vdev (parse_entities (vdev_parser env.parse_time) 1 kvs)) out h6 in
      record {
        tc = tc;
        id = id;
        kvs = kvs;
        counter = counter;
        access = access;
        vdev = vdev;
        known = map_error-eq-ok auth _ known;
        resolved = resolved;
        allowed = allowed;
        stored = or_failed-eq-ok _ stored;
        counted = counted;
        parsed = parsed;
        made = ok_eq (done id counter access vdev) refl h7;
      }
    where
      done : String → ℕ → String → VdevConfig → Outcome HandlerError (VdevConfig × List CommitChg)
      done id counter access v =
          ok (mounted v counter now access, mount_changes env.format_time id counter now)

      after_token :
          String
          → List (String × String)
          → ℕ
          → String
          → Outcome HandlerError (VdevConfig × List CommitChg)
      after_token id kvs counter access =
          first_vdev (parse_entities (vdev_parser env.parse_time) 1 kvs) >>= done id counter access

      after_count :
          String → List (String × String) → ℕ → Outcome HandlerError (VdevConfig × List CommitChg)
      after_count id kvs counter =
          or_no_token (env.create_token id counter now) >>= after_token id kvs counter

      after_read :
          String → List (String × String) → Outcome HandlerError (VdevConfig × List CommitChg)
      after_read id kvs = next_counter env.parse_time id now kvs >>= after_count id kvs

      after_allowed : String → Outcome HandlerError (VdevConfig × List CommitChg)
      after_allowed id = or_failed (rs.range_read s (vdev_prefix id)) >>= after_read id

      after_resolve : TokenClaims → String → Outcome HandlerError (VdevConfig × List CommitChg)
      after_resolve tc id = may_mount rs env true (some cfg) tc id s >>= λ _. after_allowed id

      after_auth : TokenClaims → Outcome HandlerError (VdevConfig × List CommitChg)
      after_auth tc = resolve rs env true (some cfg) req_id s >>= after_resolve tc

  next_counter-eq-ok :
      (id : String) (now : ℕ) (kvs : List (String × String)) (vdev : VdevConfig) {n : ℕ}
      → first_vdev (parse_entities (vdev_parser env.parse_time) 1 kvs) ≡ ok vdev
      → next_counter env.parse_time id now kvs ≡ ok n
      → (stored_time env.parse_time id kvs + vdev_mount_limit ≤ now)
        × (add64 (stored_counter id kvs) 1 ≡ n)
  unfolding next_counter first_vdev parse_entities all_entities collect
  next_counter-eq-ok id now [] vdev f h = cc
  next_counter-eq-ok id now (kv ∷ kvs) vdev f h =
      elim (Bool-cases (ltb now (stored_time env.parse_time id (kv ∷ kvs) + vdev_mount_limit))) [
        | inl e ↦ absurd (ground (arith, e, h))
        | inr e ↦ (ground (arith, e), ground (arith, e, h))
      ]

  may_mount-authorize :
      (tc : TokenClaims) (id : String) (s : rs.ds.State)
      → may_mount rs env true (some cfg) tc id s ≡ ok tt
      → authorize
          (reader rs s)
          cfg
          "APMountVdev"
          tc.user_id
          (tc.role ∷ [])
          (("vdev", id) ∷ [])
          env.family
        ≡ true
  unfolding may_mount
  may_mount-authorize tc id s h = require-eq-ok _ not_authorized h

  pub ap_mount_vdev-Mounted :
      (token req_id : String) (now : ℕ) (s s' : rs.ds.State) (v : VdevConfig)
      → ap_mount_vdev rs env true (some cfg) token req_id now s ≡ (ok v, s')
      → (tc : TokenClaims) × (id : String) × (kvs : List (String × String)) × (validate_token
            env.verify_token true token
          ≡ ok tc)
        × Names rs env cfg req_id s id
        × (authorize
              (reader rs s)
              cfg
              "APMountVdev"
              tc.user_id
              (tc.role ∷ [])
              (("vdev", id) ∷ [])
              env.family
            ≡ true)
        × (rs.range_read s (vdev_prefix id) ≡ found kvs)
        × (stored_time env.parse_time id kvs + vdev_mount_limit ≤ now)
        × (v.vdev_mount_info
            ≡ record { mount_counter = add64 (stored_counter id kvs) 1; last_updated_lts = now })
        × ((k : String)
            → rs.ds.read k s' ≡ (
                if str_eq (lu_key id) k
                then some (env.format_time now)
                else if str_eq (mc_key id) k
                then some (utoa v.vdev_mount_info.mount_counter)
                else rs.ds.read k s))
  unfolding ap_mount_vdev mount_changes mounted
  ap_mount_vdev-Mounted token req_id now s s' v h =
      let (cs, planned, values) =
        commit-eq-ok rs (mount_plan rs env true (some cfg) token req_id now s) s s' h in
      let p = mount_plan-eq-ok token req_id now s (v, cs) planned in
      let (spaced, counted) = next_counter-eq-ok p.id now p.kvs p.vdev p.parsed p.counted in
      let info : v.vdev_mount_info ≡ record { mount_counter = p.counter; last_updated_lts = now } =
        ap (λ (o : VdevConfig × List CommitChg). o.0.vdev_mount_info) (sym p.made) in
      let written : mount_changes env.format_time p.id v.vdev_mount_info.mount_counter now ≡ cs =
        ap (λ (i : VdevMountInfo). mount_changes env.format_time p.id i.mount_counter now) info
        ∙ ap (λ (o : VdevConfig × List CommitChg). o.1) p.made in
      (
        p.tc,
        p.id,
        p.kvs,
        p.known,
        resolve-Names rs env cfg req_id s p.id p.resolved,
        may_mount-authorize p.tc p.id s p.allowed,
        p.stored,
        spaced,
        info ∙ ap (λ (n : ℕ). record { mount_counter = n; last_updated_lts = now }) (sym counted),
        λ k. values k ∙ ap (λ (c : List CommitChg). last k c (rs.ds.read k s)) (sym written),
      )
