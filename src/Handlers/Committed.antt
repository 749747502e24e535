-- ===== src/Handlers/Committed.antt =====
-- What a handler that prepares changes and applies them leaves in the store, in
-- controlplane/ctlplanefuncs/server/srvctlplanefuncs.go.
use niova_mdsvc.Prelude.{String, ◌≡◌, ap, List, Outcome, ok, err, panic, running}
use niova_mdsvc.Commit.{CommitChg}
use niova_mdsvc.Store.{StoreError, apply_kv}
use niova_mdsvc.Store.Applied.{last, all_applied}
use niova_mdsvc.Store.Ranges.{RangeStore}
use niova_mdsvc.Handlers.{HandlerError, after_apply, commit}

abbrev pub Answer : Type 0 → Type 0 → Type 0
Answer A S = Outcome HandlerError A × S

ok_inj : {A : Type 0} {a b : A} → ◌≡◌ {A = Outcome HandlerError A} (ok a) (ok b) → a ≡ b
ok_inj h = cc

no_answer :
    {A S : Type 0} {r : Outcome HandlerError A} {s s' : S} {a : A}
    → ◌≡◌ {A = Answer A S} (r, s) (ok a, s')
    → r ≡ ok a
no_answer h = ap (λ (p : Answer _ _). p.0) h

pub after_apply-eq-ok :
    {A S : Type 0} (a : A) (r : Outcome StoreError (Unit {0}) × S) {b : A} {s' : S}
    → after_apply a r ≡ (ok b, s')
    → (a ≡ b) × (r ≡ (ok tt, s'))
unfolding after_apply
after_apply-eq-ok a (ok tt, s) h = (ok_inj (no_answer h), ap (λ (p : Answer _ _). (ok tt, p.1)) h)
after_apply-eq-ok a (err e, s) h = let e' = no_answer h in cc
after_apply-eq-ok a (panic, s) h = let e' = no_answer h in cc
after_apply-eq-ok a (running, s) h = let e' = no_answer h in cc

-- A handler that answers prepared changes, all of which were applied.
pub commit-eq-ok :
    {A : Type 0} (rs : RangeStore) (plan : Outcome HandlerError (A × List CommitChg))
    (s s' : rs.ds.State) {a : A}
    → commit rs plan s ≡ (ok a, s')
    → (cs : List CommitChg) × (plan ≡ ok (a, cs))
      × ((k : String) → rs.ds.read k s' ≡ last k cs (rs.ds.read k s))
unfolding commit
commit-eq-ok rs (ok (a, cs)) s s' h =
    let (same, applied) = after_apply-eq-ok a (apply_kv rs.ds cs s) h in
    (cs, ap (λ b. ok (b, cs)) same, all_applied rs.ds cs s s' applied)
commit-eq-ok rs (err e) s s' h = let e' = no_answer h in cc
commit-eq-ok rs panic s s' h = let e' = no_answer h in cc
commit-eq-ok rs running s s' h = let e' = no_answer h in cc
