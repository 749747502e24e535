-- ===== src/CpLib/Validate.antt =====
-- The checks of requests in controlplane/ctlplanefuncs/lib/libctlplanefuncs.go. `uuid.Parse` of
-- github.com/google/uuid and Go's `net.ParseIP` with `strings.TrimSpace` are parameters: whether the text
-- is accepted.
use mathlib.Core.Bool.{true≢false}
use niova_mdsvc.Prelude.{
  inl, inr, sym, ◌∙◌, ◌≤◌, ℕ, zero, suc, ◌≡◌, ◌≢◌, ◌↔◌, refl, ◌+◌, ◌<◌, String, Bool, true, false,
  not, List, [], ◌∷◌, Outcome, ok, err, panic, ◌>>=◌, first_call, arith, All, length, get_or, slt64,
  ◌==◌, if◌then◌else◌, Bool-cases,
}
use niova_mdsvc.CpLib.{Nisd, fd_max, device_idx}

pub data Invalid : Type 0 where
  id_uuid : Invalid
  failure_domain_info : ℕ → Invalid
  failure_domain_uuid : ℕ → Invalid
  size_exceeds_total : Invalid
  net_info_cnt_mismatch : ℕ → ℕ → Invalid
  no_network_info : Invalid
  invalid_ip : String → Invalid
  unknown_failure_domain : String → Invalid

ok≢err : (e : Invalid) → ok tt ≢ err e
ok≢err e h = cc

module _ (parse_uuid : String → Bool) where
  -- `DeleteVdevReq.Validate` on the request's ID.
  unfoldable pub validate_delete_vdev : String → Outcome Invalid Unit
  validate_delete_vdev id = if parse_uuid id then ok tt else err id_uuid

  -- The loop over the levels from `i` on.
  unfoldable pub check_domains : ℕ → ℕ → List String → Outcome Invalid Unit
  check_domains zero i ids = ok tt
  check_domains (suc n) i [] = panic
  check_domains (suc n) i (id ∷ ids) =
      let rest = check_domains n (i + 1) ids in
      if parse_uuid id then rest else err (failure_domain_uuid i)

  -- The last two checks of `Nisd.Validate`.
  unfoldable pub check_sizes : Nisd → Outcome Invalid Unit
  check_sizes n =
      if slt64 n.total_size n.available_size
      then err size_exceeds_total
      else if not (length n.net_info == n.net_info_cnt)
      then err (net_info_cnt_mismatch n.net_info_cnt (length n.net_info))
      else ok tt

  -- `Nisd.Validate`
  unfoldable pub validate_nisd : Nisd → Outcome Invalid Unit
  unfolding check_domains check_sizes
  validate_nisd n =
      if not (parse_uuid n.id)
      then err id_uuid
      else if not (length n.failure_domain == fd_max)
      then err (failure_domain_info (length n.failure_domain))
      else (do checked ← check_domains device_idx 0 n.failure_domain; check_sizes n)

  -- What a valid NISD is.
  pub record IsValid (n : Nisd) : Type 0 where
    pub id : parse_uuid n.id ≡ true
    pub levels : length n.failure_domain ≡ fd_max
    pub domains : (i : ℕ) → i < device_idx → parse_uuid (get_or n.failure_domain i "") ≡ true
    pub sizes : slt64 n.total_size n.available_size ≡ false
    pub networks : length n.net_info ≡ n.net_info_cnt

  check_domains-eq-ok :
      (n i : ℕ) (ids : List String)
      → n ≤ length ids
      → (check_domains n i ids ≡ ok tt) ↔ ((j : ℕ) → j < n → parse_uuid (get_or ids j "") ≡ true)
  unfolding check_domains
  check_domains-eq-ok zero i ids le = ((λ _ j lt. absurd (omega arith)), (λ _. refl))
  check_domains-eq-ok (suc n) i [] le = absurd (omega arith)
  check_domains-eq-ok (suc n) i (id ∷ ids) le =
      let (to, from) = check_domains-eq-ok n (i + 1) ids (omega arith) in
      elim (Bool-cases (parse_uuid id)) [
        | inl e ↦ rw e ((λ h. each e (to h)), (λ all. from (λ j lt. all (suc j) (omega arith))))
        | inr e ↦ rw e ((λ h. cc), (λ all. absurd (true≢false (sym (all 0 (omega arith)) ∙ e))))
      ]
    where
      each :
          parse_uuid id ≡ true
          → ((j : ℕ) → j < n → parse_uuid (get_or ids j "") ≡ true)
          → (j : ℕ) → j < suc n
          → parse_uuid (get_or (id ∷ ids) j "") ≡ true
      each e all zero lt = e
      each e all (suc j) lt = all j (omega arith)

  -- Nisd.Validate accepts a NISD exactly when its ID and the IDs of its first three levels are UUIDs, it
  -- names five levels, its available size is at most its total size and it has as many networks as it
  -- counts.
  pub validate_nisd-eq-ok : (n : Nisd) → (validate_nisd n ≡ ok tt) ↔ IsValid n
  unfolding validate_nisd check_sizes
  validate_nisd-eq-ok n = (to, from)
    where
      domains :
          length n.failure_domain ≡ fd_max
          → (check_domains device_idx 0 n.failure_domain ≡ ok tt)
            ↔ ((i : ℕ) → i < device_idx → parse_uuid (get_or n.failure_domain i "") ≡ true)
      domains levels = check_domains-eq-ok device_idx 0 n.failure_domain (omega arith)

      sized :
          check_sizes n ≡ ok tt
          → (slt64 n.total_size n.available_size ≡ false)
            × ((length n.net_info == n.net_info_cnt) ≡ true)
      sized h = elim (Bool-cases (slt64 n.total_size n.available_size)) [
        | inl e ↦ absurd (ok≢err size_exceeds_total (sym h ∙ rw (e, check_sizes) refl))
        | inr e ↦ elim (Bool-cases (length n.net_info == n.net_info_cnt)) [
          | inl m ↦ (e, m)
          | inr m ↦ absurd (
              ok≢err (net_info_cnt_mismatch n.net_info_cnt (length n.net_info))
                (sym h ∙ rw (e, check_sizes) (rw (m, check_sizes) refl)))
        ]
      ]

      to : validate_nisd n ≡ ok tt → IsValid n
      to h = elim (Bool-cases (parse_uuid n.id)) [
        | inr e ↦ absurd (ok≢err id_uuid (sym h ∙ rw (e, validate_nisd) refl))
        | inl e ↦ elim (Bool-cases (length n.failure_domain == fd_max)) [
          | inr l ↦ absurd (
              ok≢err (failure_domain_info (length n.failure_domain))
                (sym h ∙ rw (e, validate_nisd) (rw (l, validate_nisd) refl)))
          | inl l ↦
              let levels : length n.failure_domain ≡ fd_max = ground arith in
              let (u, rest, checked) =
                first_call (λ _. check_sizes n) (check_domains device_idx 0 n.failure_domain) tt
                  (sym (rw (e, validate_nisd) (rw (l, validate_nisd) refl)) ∙ h) in
              record {
                id = e;
                levels = levels;
                domains = (domains levels).0 checked;
                sizes = (sized rest).0;
                networks = ground (arith, (sized rest).1);
              }
        ]
      ]

      from : IsValid n → validate_nisd n ≡ ok tt
      from v =
          let levels : (length n.failure_domain == fd_max) ≡ true = ground (arith, v.levels) in
          let networks : (length n.net_info == n.net_info_cnt) ≡ true =
            ground (arith, v.networks) in
          rw (v.id, validate_nisd)
            (rw (levels, validate_nisd)
              (rw ((domains v.levels).1 v.domains, validate_nisd)
                (rw (v.sizes, check_sizes) (rw (networks, check_sizes) refl))))

module _ (parse_ip : String → Bool) where
  unfoldable pub check_ips : List String → Outcome Invalid Unit
  check_ips [] = ok tt
  check_ips (ip ∷ ips) =
      let rest = check_ips ips in if parse_ip ip then err (invalid_ip ip) else rest

  -- `Hypervisor.ValidateIPs` on the addresses.
  unfoldable pub validate_ips : List String → Outcome Invalid Unit
  unfolding check_ips
  validate_ips ips = if length ips == 0 then err no_network_info else check_ips ips

  check_ips-eq-ok :
      (ips : List String) → (check_ips ips ≡ ok tt) ↔ All (λ ip. parse_ip ip ≡ false) ips
  unfolding check_ips
  check_ips-eq-ok [] = ((λ _. tt), (λ _. refl))
  check_ips-eq-ok (ip ∷ ips) = elim (Bool-cases (parse_ip ip)) [
    | inl e ↦ rw e ((λ h. cc), (λ h. cc))
    | inr e ↦ rw e ((λ h. (refl, (check_ips-eq-ok ips).0 h)), (λ a. (check_ips-eq-ok ips).1 a.1))
  ]

  -- Hypervisor.ValidateIPs accepts the addresses exactly when there is one and none of them parses as an
  -- IP address.
  pub validate_ips-eq-ok :
      (ips : List String)
      → (validate_ips ips ≡ ok tt) ↔ ((ips ≢ []) × All (λ ip. parse_ip ip ≡ false) ips)
  unfolding validate_ips
  validate_ips-eq-ok [] = ((λ h. cc), (λ h. absurd (h.0 refl)))
  validate_ips-eq-ok (ip ∷ ips) =
      let some_ip : (suc (length ips) == 0) ≡ false = ground arith in
      rw (some_ip, validate_ips)
        (
          (λ h. ((λ e. cc), (check_ips-eq-ok (ip ∷ ips)).0 h)),
          (λ h. (check_ips-eq-ok (ip ∷ ips)).1 h.1),
        )
