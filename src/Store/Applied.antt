-- ===== src/Store/Applied.antt =====
-- What `applyKV` of controlplane/ctlplanefuncs/server/srvctlplanefuncs.go leaves in the store.
use mathlib.Core.Path.{subst}
use mathlib.Core.List.{append-nil}
use niova_mdsvc.Prelude.{
  String, ◌≡◌, refl, sym, ap, ◌∙◌, inl, inr, Option, none, some, List, [], ◌∷◌, ◌++◌, map, elem,
  arith, Outcome, ok, err, str_eq, if◌then◌else◌, Option-cases,
}
use niova_mdsvc.Commit.{Op, apply, delete, unknown, CommitChg}
use niova_mdsvc.Store.{
  DataStore, StoreError, failed_to_apply, failed_to_delete, unknown_operation, apply_kv, delete_kv,
}

-- What a change leaves under its key.
abbrev pub value_of : Op → String → Option String
value_of apply v = some v
value_of delete v = none
value_of unknown v = none

-- The value of the key `k` after the changes: that of the last one for `k`, or else `d`.
abbrev pub last : String → List CommitChg → Option String → Option String
last k [] d = d
last k (c ∷ cs) d = last k cs (if str_eq c.key k then value_of c.op c.value else d)

pub last-append :
    (k : String) (bs cs : List CommitChg) (d : Option String)
    → last k (bs ++ cs) d ≡ last k cs (last k bs d)
last-append k [] cs d = refl
last-append k (b ∷ bs) cs d = last-append k bs cs _

module _ (ds : DataStore) where
  -- The changes `done` are applied and the changes `rest` are not.
  pub record Applied (cs : List CommitChg) (s : ds.State) (r : Outcome StoreError Unit)
      (s' : ds.State) : Type 0 where
    pub done : List CommitChg
    pub rest : List CommitChg
    pub split : cs ≡ done ++ rest
    pub values : (k : String) → ds.read k s' ≡ last k done (ds.read k s)
    pub complete : r ≡ ok tt → rest ≡ []

  nothing : (cs : List CommitChg) (s : ds.State) (e : StoreError) → Applied cs s (err e) s
  nothing cs s e = record {
    done = [];
    rest = cs;
    split = refl;
    values = λ k. refl;
    complete = λ h. cc;
  }

  -- One change more at the front.
  front :
      (c : CommitChg) (cs : List CommitChg) (s s1 : ds.State) (r : Outcome StoreError Unit)
      (s' : ds.State)
      → ((k : String)
          → ds.read k s1 ≡ (if str_eq c.key k then value_of c.op c.value else ds.read k s))
      → Applied cs s1 r s'
      → Applied (c ∷ cs) s r s'
  front c cs s s1 r s' step a = record {
    done = c ∷ a.done;
    rest = a.rest;
    split = ap (λ t. c ∷ t) a.split;
    values = λ k. a.values k ∙ ap (last k a.done) (step k);
    complete = a.complete;
  }

  -- applyKV applies the changes in order up to the first that fails, and all of them if it succeeds: every
  -- key then has the value of the last change applied for it, and every other key the value it had.
  pub apply_kv-Applied :
      (cs : List CommitChg) (s : ds.State) → let (r, s') = apply_kv ds cs s in Applied cs s r s'
  unfolding apply_kv
  apply_kv-Applied [] s = record {
    done = [];
    rest = [];
    split = refl;
    values = λ k. refl;
    complete = λ h. refl;
  }
  apply_kv-Applied (c ∷ cs) s = go c.op refl (λ s. apply_kv-Applied cs s)
    where
      left : ds.State → Outcome StoreError Unit × ds.State
      left s = apply_kv ds cs s

      reached :
          (p : Outcome StoreError Unit × ds.State)
          → apply_kv ds (c ∷ cs) s ≡ p
          → Applied (c ∷ cs) s p.0 p.1
          → let (r, s') = apply_kv ds (c ∷ cs) s in Applied (c ∷ cs) s r s'
      reached p e a = subst (λ p. Applied (c ∷ cs) s p.0 p.1) (sym e) a

      go :
          (op : Op)
          → c.op ≡ op
          → ((s : ds.State) → let (r, s') = left s in Applied cs s r s')
          → let (r, s') = apply_kv ds (c ∷ cs) s in Applied (c ∷ cs) s r s'
      go apply o rest = elim (Option-cases (ds.write c.key c.value s)) [
        | inl e ↦
            reached (err (failed_to_apply c.key), s) (rw (o, apply_kv) (rw (e, apply_kv) refl))
              (nothing (c ∷ cs) s _)
        | inr (s1, e) ↦
            reached (left s1) (rw (o, apply_kv) (rw (e, apply_kv) refl))
              (front c cs s s1 _ _ (λ k. rw o (ds.read-write c.key c.value s s1 e k)) (rest s1))
      ]
      go delete o rest = elim (Option-cases (ds.delete c.key s)) [
        | inl e ↦
            reached (err (failed_to_apply c.key), s) (rw (o, apply_kv) (rw (e, apply_kv) refl))
              (nothing (c ∷ cs) s _)
        | inr (s1, e) ↦
            reached (left s1) (rw (o, apply_kv) (rw (e, apply_kv) refl))
              (front c cs s s1 _ _ (λ k. rw o (ds.read-delete c.key s s1 e k)) (rest s1))
      ]
      go unknown o rest =
          reached (err (unknown_operation c.key), s) (rw (o, apply_kv) refl) (nothing (c ∷ cs) s _)

  -- After all changes were applied, every key has the value of the last change for it.
  pub all_applied :
      (cs : List CommitChg) (s s' : ds.State)
      → apply_kv ds cs s ≡ (ok tt, s')
      → (k : String) → ds.read k s' ≡ last k cs (ds.read k s)
  all_applied cs s s' done k =
      let a = apply_kv-Applied cs s in
      let none_left =
        a.complete (ap (λ (q : Outcome StoreError (Unit {0}) × ds.State). q.0) done) in
      ap (λ (q : Outcome StoreError (Unit {0}) × ds.State). ds.read k q.1) (sym done)
      ∙ a.values k
      ∙ ap (λ (t : List CommitChg). last k t (ds.read k s))
          (sym (a.split ∙ ap (λ t. a.done ++ t) none_left ∙ append-nil a.done))

  -- After all deletions no deleted key has a value, and every other key has the value it had.
  pub all_deleted :
      (cs : List CommitChg) (s s' : ds.State)
      → delete_kv ds cs s ≡ (ok tt, s')
      → (k : String)
      → ds.read k s' ≡ (if elem k (map (λ (c : CommitChg). c.key) cs) then none else ds.read k s)
  unfolding delete_kv
  all_deleted [] s s' h k =
      ap (λ (q : Outcome StoreError (Unit {0}) × ds.State). ds.read k q.1) (sym h)
  all_deleted (c ∷ cs) s s' h k = elim (Option-cases (ds.delete c.key s)) [
    | inl e ↦ absurd (failed (ap (λ (q : Outcome StoreError (Unit {0}) × ds.State). q.0) (stuck e)))
    | inr (t, e) ↦
        all_deleted cs t s' (sym (rw (e, delete_kv) refl) ∙ h) k
        ∙ ground (arith, ds.read-delete c.key s t e k)
  ]
    where
      stuck :
          ds.delete c.key s ≡ none
          → ◌≡◌ {A = Outcome StoreError (Unit {0}) × ds.State}
              (err (failed_to_delete c.key), s)
              (ok tt, s')
      stuck e = sym (rw (e, delete_kv) refl) ∙ h

      failed : ◌≡◌ {A = Outcome StoreError (Unit {0})} (err (failed_to_delete c.key)) (ok tt) → ⊥
      failed e = cc
