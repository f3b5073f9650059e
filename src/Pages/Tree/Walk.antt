-- ===== src/Pages/Tree/Walk.antt =====
-- components/pages/component.go: the walk of a directory gives each pattern its files, in order.
use kweb.Base.{
  Bool-cases, if◌then◌else◌, some, List, [], ◌∷◌, ◌++◌, append_assoc, append-nil, Text, text_eq,
  text_eq_iff, text_eq_differ, ok, err, >>=-eq-ok, ◌≡◌, refl, sym, ap, ◌∙◌, subst, inl, inr,
}
use kweb.Base.Dict.{lookup, lookup-insert_self, lookup-insert_other}
use kweb.Pages.Route.{template_tokens, pattern_of, page_handler}
use kweb.Pages.Route.Served.{handlers_of}
use kweb.Pages.Tree.{
  Entry, file, directory, Entries, unreadable, no_entries, more_entries, join, Patterns, or_none,
  handlers_at, add_page, add_file, add_handlers, add_handlers_from_dir,
}

module _ {H : Type 0} where
  -- The files that can be read, with their paths, depth first.
  mutual
    pub files : Entry H → Text → List (Text × H)
    files (file name (err e)) p = []
    files (file name (ok h)) p = (join p name, h) ∷ []
    files (directory name entries) p = files_of entries (join p name)

    pub files_of : Entries H → Text → List (Text × H)
    files_of (unreadable e) p = []
    files_of no_entries p = []
    files_of (more_entries entry entries) p = files entry p ++ files_of entries p

  -- Those of a pattern.
  abbrev pub with_pattern : Text → List (Text × H) → List (Text × H)
  with_pattern pattern [] = []
  with_pattern pattern ((p, h) ∷ pages) =
      let rest = with_pattern pattern pages in
      if text_eq (pattern_of (template_tokens p)) pattern then (p, h) ∷ rest else rest

  -- The handlers of every pattern are those from before and those of its files.
  abbrev pub Adds : List (Text × H) → Patterns H → Patterns H → Type 0
  Adds pages ps ps' =
      (pattern : Text)
      → handlers_at pattern ps' ≡ handlers_at pattern ps ++ handlers_of (with_pattern pattern pages)

  handlers_of-append :
      (a b : List (Text × H)) → handlers_of (a ++ b) ≡ handlers_of a ++ handlers_of b
  handlers_of-append [] b = refl
  handlers_of-append (x ∷ a) b = ap (λ hs. page_handler x.0 x.1 ∷ hs) (handlers_of-append a b)

  with_pattern-append :
      (pattern : Text) (a b : List (Text × H))
      → with_pattern pattern (a ++ b) ≡ with_pattern pattern a ++ with_pattern pattern b
  with_pattern-append pattern [] b = refl
  with_pattern-append pattern ((p, h) ∷ a) b =
      elim (Bool-cases (text_eq (pattern_of (template_tokens p)) pattern)) [
        | inl e ↦ rw e (ap (λ r. (p, h) ∷ r) (with_pattern-append pattern a b))
        | inr e ↦ rw e (with_pattern-append pattern a b)
      ]

  Adds-none : (ps : Patterns H) → Adds [] ps ps
  Adds-none ps pattern = sym (append-nil (handlers_at pattern ps))

  Adds-append :
      (a b : List (Text × H)) (x y z : Patterns H) → Adds a x y → Adds b y z → Adds (a ++ b) x z
  Adds-append a b x y z h k pattern =
      k pattern
      ∙ ap (λ hs. hs ++ handlers_of (with_pattern pattern b)) (h pattern)
      ∙ append_assoc (handlers_at pattern x) (handlers_of (with_pattern pattern a))
          (handlers_of (with_pattern pattern b))
      ∙ ap (λ hs. handlers_at pattern x ++ hs)
          (sym (
            ap handlers_of (with_pattern-append pattern a b)
            ∙ handlers_of-append (with_pattern pattern a) (with_pattern pattern b)))

  add_page-Adds : (p : Text) (h : H) (ps : Patterns H) → Adds ((p, h) ∷ []) ps (add_page p h ps)
  unfolding add_page
  add_page-Adds p h ps pattern =
      let own = pattern_of (template_tokens p) in
      elim (Bool-cases (text_eq own pattern)) [
        | inl e ↦
            let same : own ≡ pattern = (text_eq_iff own pattern).0 e in
            rw e (
              ap or_none (
                subst
                  (λ x.
                    lookup x (add_page p h ps) ≡ some (handlers_at x ps ++ page_handler p h ∷ []))
                  same (lookup-insert_self own (handlers_at own ps ++ page_handler p h ∷ []) ps)))
        | inr e ↦ rw e (
            ap or_none (
              lookup-insert_other own pattern (handlers_at own ps ++ page_handler p h ∷ []) ps
                (text_eq_differ own pattern e))
            ∙ sym (append-nil (handlers_at pattern ps)))
      ]

  mutual
    unfolding add_handlers add_file files

    entry-Adds :
        (entry : Entry H) (p : Text) (ps ps' : Patterns H)
        → add_handlers entry p ps ≡ ok ps'
        → Adds (files entry p) ps ps'
    entry-Adds (file name (err e)) p ps ps' h = cc
    entry-Adds (file name (ok page)) p ps ps' h =
        let same : add_page (join p name) page ps ≡ ps' = cc h in
        subst (Adds ((join p name, page) ∷ []) ps) same (add_page-Adds (join p name) page ps)
    entry-Adds (directory name entries) p ps ps' h = entries-Adds entries (join p name) ps ps' h

    entries-Adds :
        (entries : Entries H) (p : Text) (ps ps' : Patterns H)
        → add_handlers_from_dir entries p ps ≡ ok ps'
        → Adds (files_of entries p) ps ps'
    entries-Adds (unreadable e) p ps ps' h = cc
    entries-Adds no_entries p ps ps' h =
        let same : ps ≡ ps' = cc h in subst (Adds [] ps) same (Adds-none ps)
    entries-Adds (more_entries entry entries) p ps ps' h =
        let (mid, first, rest) = >>=-eq-ok (add_handlers entry p ps) _ h in
        Adds-append (files entry p) (files_of entries p) ps mid ps'
          (entry-Adds entry p ps mid first) (entries-Adds entries p mid ps' rest)

  -- Whenever a directory is added without an error, the handlers of every pattern are those that
  -- there were and, behind them, one for each file below the directory with that pattern, depth
  -- first in the order of the entries.
  pub add_handlers_from_dir-Adds :
      (entries : Entries H) (p : Text) (ps ps' : Patterns H)
      → add_handlers_from_dir entries p ps ≡ ok ps'
      → Adds (files_of entries p) ps ps'
  add_handlers_from_dir-Adds = entries-Adds
