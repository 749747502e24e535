-- ===== src/CpLib/Names.antt =====
-- Names in requests: `ParseFD` of controlplane/ctlplanefuncs/lib/libctlplanefuncs.go, and `isAlphanumeric`
-- of controlplane/ctlplanefuncs/server/srvctlplanefuncs.go.
use Prim.Native.Char.{code}
use niova_mdsvc.Prelude.{
  inl, inr, ℕ, ◌≡◌, refl, String, Bool, true, false, ◌&&◌, ◌||◌, Outcome, ok, err, arith, leb, ◌==◌,
  str_eq, if◌then◌else◌, Bool-cases,
}
use niova_mdsvc.CpLib.Domains.{fd_any, fd_pdu, fd_rack, fd_hv, fd_device, fd_partition, fd_name}
use niova_mdsvc.CpLib.Validate.{Invalid, unknown_failure_domain}

-- `ParseFD` on a text that is trimmed and in lower case.
unfoldable pub parse_fd : String → Outcome Invalid ℕ
parse_fd s =
    if str_eq s ""
    then ok fd_any
    else if str_eq s "any"
    then ok fd_any
    else if str_eq s "pdu"
    then ok fd_pdu
    else if str_eq s "rack"
    then ok fd_rack
    else if str_eq s "hv"
    then ok fd_hv
    else if str_eq s "device"
    then ok fd_device
    else if str_eq s "partition"
    then ok fd_partition
    else err (unknown_failure_domain s)

-- ParseFD reads back the name that FDName gives to each level, and FD_ANY for any value that is no named
-- level.
pub parse_fd-fd_name :
    (t : ℕ) → parse_fd (fd_name t) ≡ ok (if leb t fd_partition then t else fd_any)
unfolding parse_fd fd_name
parse_fd-fd_name t = elim (Bool-cases (t == fd_pdu)) [
  | inl e ↦ let v : t ≡ fd_pdu = ground arith in rw v refl
  | inr pdu ↦ elim (Bool-cases (t == fd_rack)) [
    | inl e ↦ let v : t ≡ fd_rack = ground arith in rw v refl
    | inr rack ↦ elim (Bool-cases (t == fd_hv)) [
      | inl e ↦ let v : t ≡ fd_hv = ground arith in rw v refl
      | inr hv ↦ elim (Bool-cases (t == fd_device)) [
        | inl e ↦ let v : t ≡ fd_device = ground arith in rw v refl
        | inr device ↦ elim (Bool-cases (t == fd_partition)) [
          | inl e ↦ let v : t ≡ fd_partition = ground arith in rw v refl
          | inr partition ↦
              let name : fd_name t ≡ "any" = rw (pdu, rack, hv, device, partition) refl in
              rw name (ground arith)
        ]
      ]
    ]
  ]
]

unfoldable pub alphanumeric : ℕ → Bool
alphanumeric c =
    (leb 97 c && leb c 122)
    || ((leb 65 c && leb c 90) || ((leb 48 c && leb c 57) || (c == 45 || c == 95)))

unfoldable pub all_alphanumeric : String → Bool
unfolding alphanumeric
all_alphanumeric String.[] = true
all_alphanumeric (String.◌∷◌ c s) =
    let rest = all_alphanumeric s in if alphanumeric (code c) then rest else false

-- `isAlphanumeric`, a dash and an underscore included.
unfoldable pub is_alphanumeric : String → Bool
unfolding all_alphanumeric
is_alphanumeric s = if str_eq s "" then false else all_alphanumeric s
