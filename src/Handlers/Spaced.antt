-- ===== src/Handlers/Spaced.antt =====
-- Two mounts of one vdev by `APMountVdev` of controlplane/ctlplanefuncs/server/srvctlplanefuncs.go.
use Prim.Native.String.{◌++◌ as str_append}
use mathlib.Core.Path.{subst}
use text.Mathlib.TextLemmas.{append_cancel_left}
use niova_mdsvc.Prelude.{
  ℕ, ◌+◌, ◌*◌, ◌/◌, ◌<◌, ◌≤◌, String, ◌≡◌, refl, ap, ◌∙◌, true, false, Option, some, List, ok,
  arith, str_eq, eq_refl, str_eq-ne, eq_iff, two64, utoa, inl, inr, sym, false,
}
use niova_mdsvc.Prelude.Numbers.{max_u64, value_of_parsed, parse_uint-utoa}
use niova_mdsvc.Commit.{◌/◌ as key_of}
use niova_mdsvc.CpLib.{VdevConfig, VdevMountInfo}
use niova_mdsvc.Authorizer.{Config, lookup}
use niova_mdsvc.Store.Ranges.{RangeStore, begins, begins-append, begins-append_both}
use niova_mdsvc.Handlers.{Env}
use niova_mdsvc.Handlers.Mount.{
  second, vdev_mount_limit, mc_key, lu_key, vdev_prefix, stored_counter, stored_time, ap_mount_vdev,
}
use niova_mdsvc.Handlers.Named.{Names}
use niova_mdsvc.Handlers.Mounted.{ap_mount_vdev-Mounted}

-- A key under a vdev begins with the prefix of the vdev's keys.
begins-element : (id rest : String) → begins (vdev_prefix id) (key_of "v" (key_of id rest)) ≡ true
unfolding vdev_prefix
begins-element id rest =
    begins-append_both "v" (str_append "/" (str_append id "/")) (str_append "/" (key_of id rest))
    ∙ begins-append_both "/" (str_append id "/") (key_of id rest)
    ∙ begins-append_both id "/" (str_append "/" rest)
    ∙ begins-append "/" rest

lu-ne-mc : (id : String) → str_eq (lu_key id) (mc_key id) ≡ false
unfolding lu_key mc_key
lu-ne-mc id = str_eq-ne (lu_key id) (mc_key id) λ e.
    let same : ◌≡◌ {A = String} "/m/lu" "/m/mc" =
      append_cancel_left id _ _ (append_cancel_left "/" _ _ (append_cancel_left "v" _ _ e)) in
    absurd (ground (arith, same, eq_iff "/m/lu" "/m/mc"))

stored_counter-some :
    (id : String) (n : ℕ) (kvs : List (String × String))
    → n < two64
    → lookup (mc_key id) kvs ≡ some (utoa n)
    → stored_counter id kvs ≡ n
unfolding stored_counter value_of_parsed
stored_counter-some id n kvs h e =
    rw (e, stored_counter) (ap value_of_parsed (parse_uint-utoa max_u64 n h (omega arith)))

stored_time-some :
    (parse_time : String → Option ℕ) (id v : String) (t : ℕ) (kvs : List (String × String))
    → lookup (lu_key id) kvs ≡ some v
    → parse_time v ≡ some t
    → stored_time parse_time id kvs ≡ t
unfolding stored_time
stored_time-some parse_time id v t kvs e p = rw (e, stored_time) (rw (p, stored_time) refl)

-- The first time that has no text form of four digits for its year, 3652059 days after the zero time.
abbrev pub year_10000 : ℕ
year_10000 = 3652059 * 86400 * second

module _ (rs : RangeStore) (env : Env) (cfg : Config)
    (rfc3339 : (t : ℕ)
      → t < year_10000
      → env.parse_time (env.format_time t) ≡ some (t / second * second)) where
  Names-uuid :
      (id : String) (s : rs.ds.State) {j : String}
      → env.is_uuid id ≡ true
      → Names rs env cfg id s j
      → j ≡ id
  Names-uuid id s u (inl (_, e)) = e
  Names-uuid id s u (inr (no_uuid, _)) = let clash : true ≡ false = sym u ∙ no_uuid in cc

  -- The keys of a mount in the store that it leaves.
  abbrev Left : String → VdevConfig → ℕ → rs.ds.State → Type 0
  Left id v now s =
      (rs.ds.read (lu_key id) s ≡ some (env.format_time now))
      × (rs.ds.read (mc_key id) s ≡ some (utoa v.vdev_mount_info.mount_counter))

  ap_mount_vdev-Left :
      (token id : String) (now : ℕ) (s s' : rs.ds.State) (v : VdevConfig)
      → env.is_uuid id ≡ true
      → ap_mount_vdev rs env true (some cfg) token id now s ≡ (ok v, s')
      → Left id v now s'
  ap_mount_vdev-Left token id now s s' v uuid h =
      let (_, j, _, _, named, _, _, _, _, values) =
        ap_mount_vdev-Mounted rs env cfg token id now s s' v h in
      subst (λ i. Left i v now s') (Names-uuid id s uuid named)
        (
          values (lu_key j) ∙ rw (eq_refl (lu_key j)) refl,
          values (mc_key j) ∙ rw (lu-ne-mc j) (rw (eq_refl (mc_key j)) refl),
        )

  -- With authentication enabled and an authorizer, and a text form of times that keeps whole seconds
  -- before the year 10000: if two mounts of the same vdev by its ID succeed, the first of them before that
  -- year, and between them nothing wrote its mount keys, the second is at least VDEV_MOUNT_LIMIT after the
  -- first taken in whole seconds, and its counter is the first's plus one if that is below 2 ^ 64.
  pub ap_mount_vdev_spaced :
      (id token token' : String) (t t' : ℕ) (s s' r r' : rs.ds.State) (v v' : VdevConfig)
      → env.is_uuid id ≡ true
      → t < year_10000
      → ap_mount_vdev rs env true (some cfg) token id t s ≡ (ok v, s')
      → rs.ds.read (mc_key id) r ≡ rs.ds.read (mc_key id) s'
      → rs.ds.read (lu_key id) r ≡ rs.ds.read (lu_key id) s'
      → ap_mount_vdev rs env true (some cfg) token' id t' r ≡ (ok v', r')
      → v.vdev_mount_info.mount_counter + 1 < two64
      → (t / second * second + vdev_mount_limit ≤ t')
        × (v'.vdev_mount_info.mount_counter ≡ v.vdev_mount_info.mount_counter + 1)
  unfolding lu_key mc_key
  ap_mount_vdev_spaced id token token' t t' s s' r r' v v' uuid early first same_mc same_lu next
        small =
      let (lu, mc) = ap_mount_vdev-Left token id t s s' v uuid first in
      let (_, k, kvs, _, again, _, stored, spaced, info, _) =
        ap_mount_vdev-Mounted rs env cfg token' id t' r r' v' next in
      let is : k ≡ id = Names-uuid id r uuid again in
      let read_lu : lookup (lu_key k) kvs ≡ some (env.format_time t) =
        rs.lookup-range_read r (vdev_prefix k) (lu_key k) stored (begins-element k "m/lu")
        ∙ ap (λ i. rs.ds.read (lu_key i) r) is
        ∙ same_lu
        ∙ lu in
      let read_mc : lookup (mc_key k) kvs ≡ some (utoa v.vdev_mount_info.mount_counter) =
        rs.lookup-range_read r (vdev_prefix k) (mc_key k) stored (begins-element k "m/mc")
        ∙ ap (λ i. rs.ds.read (mc_key i) r) is
        ∙ same_mc
        ∙ mc in
      let since : stored_time env.parse_time k kvs ≡ t / second * second =
        stored_time-some env.parse_time k _ (t / second * second) kvs read_lu (rfc3339 t early) in
      let count : stored_counter k kvs ≡ v.vdev_mount_info.mount_counter =
        stored_counter-some k v.vdev_mount_info.mount_counter kvs (omega (arith, small)) read_mc in
      (
        omega (arith, since, spaced),
        ap (λ (i : VdevMountInfo). i.mount_counter) info ∙ omega (arith, count),
      )
