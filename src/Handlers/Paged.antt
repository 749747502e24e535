-- ===== src/Handlers/Paged.antt =====
-- The pages of a range read that the loop of `APDeleteVdev` of
-- controlplane/ctlplanefuncs/server/srvctlplanefuncs.go goes over, and that it ends.
use mathlib.Core.Path.{subst, fun_ext}
use niova_mdsvc.Prelude.{
  ℕ, zero, suc, ◌≤◌, String, ◌≡◌, refl, sym, ap, ◌∙◌, true, false, inl, inr, Option, none, some,
  List, ◌++◌, Outcome, ok, ◌>>=◌, first_call, ok_eq, arith, str_eq, Bool-cases, Option-cases,
}
use niova_mdsvc.Store.Ranges.{RangeStore}
use niova_mdsvc.Handlers.{HandlerError, range_read_failed}
use niova_mdsvc.Handlers.Delete.{Page, Deletion, delete_pairs, delete_pages}
use niova_mdsvc.Handlers.Gathered.{
  err≢ok, >>=-ok, Gathers, Gathers-append, delete_pairs-Gathers, delete_pairs-append,
}

module _ (rs : RangeStore) (s : rs.ds.State) (id : String) where
  module _ (read_page : String → ℕ → Option Page) where
    -- The pages from a key and a sequence number on have these pairs together.
    pub data Pages : String → ℕ → List (String × String) → Type 0 where
      final :
          {key : String} {seq : ℕ} {p : Page}
          → read_page key seq ≡ some p
          → str_eq p.last_key "" ≡ true
          → Pages key seq p.pairs
      next :
          {key : String} {seq : ℕ} {p : Page} {rest : List (String × String)}
          → read_page key seq ≡ some p
          → str_eq p.last_key "" ≡ false
          → Pages p.last_key p.seq_num rest
          → Pages key seq (p.pairs ++ rest)

    pub delete_pages-Gathers :
        (fuel : ℕ) (key : String) (seq : ℕ) (d d' : Deletion)
        → delete_pages rs s read_page fuel id key seq d ≡ ok d'
        → (kvs : List (String × String)) × Pages key seq kvs × Gathers rs s id kvs d d'
    unfolding delete_pages
    delete_pages-Gathers zero key seq d d' h = cc
    delete_pages-Gathers (suc fuel) key seq d d' h = elim (Option-cases (read_page key seq)) [
      | inl e ↦ absurd (failed e h)
      | inr (p, e) ↦
          let (d1, more, first) =
            first_call (after p) (delete_pairs rs s id p.pairs d) d'
              (sym (rw (e, delete_pages) refl) ∙ h) in
          let g = delete_pairs-Gathers rs s id p.pairs d d1 first in
          elim (Bool-cases (str_eq p.last_key "")) [
            | inl t ↦ (
              p.pairs,
              final e t,
              subst (Gathers rs s id p.pairs d) (ok_eq (after p d1) (rw (t, after) refl) more) g,
            )
            | inr t ↦
                let (rest, pages, g') =
                  delete_pages-Gathers fuel p.last_key p.seq_num d1 d'
                    (sym (rw (t, after) refl) ∙ more) in
                (p.pairs ++ rest, next e t pages, Gathers-append rs s id p.pairs rest d d1 d' g g')
          ]
    ]
      where
        after : Page → Deletion → Outcome HandlerError Deletion
        after p d1 = elim (str_eq p.last_key "") [
          | true ↦ ok d1
          | false ↦ delete_pages rs s read_page fuel id p.last_key p.seq_num d1
        ]

        failed :
            read_page key seq ≡ none
            → delete_pages rs s read_page (suc fuel) id key seq d ≡ ok d'
            → ⊥
        failed e k = err≢ok {e = range_read_failed} (sym (rw (e, delete_pages) refl) ∙ k)

    -- How many pages there are.
    abbrev pub page_count :
        {key : String} {seq : ℕ} {kvs : List (String × String)} → Pages key seq kvs → ℕ
    page_count (final e t) = 1
    page_count (next e t more) = suc (page_count more)

    -- With at least as many rounds as there are pages, the loop of APDeleteVdev over the pages ends, and
    -- does what the loop over all their pairs together does.
    pub delete_pages-delete_pairs :
        (fuel : ℕ) (key : String) (seq : ℕ) (kvs : List (String × String)) (w : Pages key seq kvs)
        (d : Deletion)
        → page_count w ≤ fuel
        → delete_pages rs s read_page fuel id key seq d ≡ delete_pairs rs s id kvs d
    unfolding delete_pages
    delete_pages-delete_pairs zero key seq kvs (final e t) d h = absurd (omega arith)
    delete_pages-delete_pairs zero key seq kvs (next e t more) d h = absurd (omega arith)
    delete_pages-delete_pairs (suc fuel) key seq kvs (final {p = p} e t) d h =
        rw (e, delete_pages) (rw (t, delete_pages) (>>=-ok (delete_pairs rs s id p.pairs d)))
    delete_pages-delete_pairs (suc fuel) key seq kvs (next {p = p} {rest} e t more) d h =
        rw (e, delete_pages)
          (rw (t, delete_pages)
            (ap (λ f. delete_pairs rs s id p.pairs d >>= f)
                (fun_ext λ d'.
                  delete_pages-delete_pairs fuel p.last_key p.seq_num rest more d' (omega arith))
              ∙ sym (delete_pairs-append rs s id p.pairs rest d)))
