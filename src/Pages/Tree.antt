-- ===== src/Pages/Tree.antt =====
-- components/pages/component.go: the handlers of all files below a directory.
pub mod Walk
use kweb.Base.{
  Bool, if◌then◌else◌, Option, none, some, List, [], ◌∷◌, ◌++◌, Text, codes, text_eq, Result, ok,
  err, ◌>>=◌,
}
use kweb.Base.Dict.{Dict, lookup, insert}
use kweb.Pages.Route.{template_tokens, pattern_of, PatternHandler, page_handler}

-- What fs.ReadDir and reading a file give: a page, or an error.
mutual
  pub data Entry (H : Type 0) : Type 0 where
    file : Text → Result Text H → Entry H
    directory : Text → Entries H → Entry H

  pub data Entries (H : Type 0) : Type 0 where
    unreadable : Text → Entries H
    no_entries : Entries H
    more_entries : Entry H → Entries H → Entries H

-- `path.Join`, of a path and a name.
unfoldable pub join : Text → Text → Text
join p name = if text_eq p (codes ".") then name else p ++ (codes "/" ++ name)

abbrev pub Patterns : Type 0 → Type 0
Patterns H = Dict (List (PatternHandler H))

module _ {H : Type 0} where
  abbrev pub or_none : Option (List (PatternHandler H)) → List (PatternHandler H)
  or_none none = []
  or_none (some hs) = hs

  -- The handlers of a pattern.
  abbrev pub handlers_at : Text → Patterns H → List (PatternHandler H)
  handlers_at pattern ps = or_none (lookup pattern ps)

  -- A file among the handlers of its pattern.
  unfoldable pub add_page : Text → H → Patterns H → Patterns H
  add_page p h ps =
      let pattern = pattern_of (template_tokens p) in
      insert pattern (handlers_at pattern ps ++ page_handler p h ∷ []) ps

  unfoldable pub add_file : Text → Result Text H → Patterns H → Result Text (Patterns H)
  unfolding add_page
  add_file p (err e) ps = err e
  add_file p (ok h) ps = ok (add_page p h ps)

  unfoldable mutual
    unfolding add_file join

    -- `addHandlers`, for an entry of a directory.
    pub add_handlers : Entry H → Text → Patterns H → Result Text (Patterns H)
    add_handlers (file name content) p ps = add_file (join p name) content ps
    add_handlers (directory name entries) p ps = add_handlers_from_dir entries (join p name) ps

    -- `addHandlersFromDir`
    pub add_handlers_from_dir : Entries H → Text → Patterns H → Result Text (Patterns H)
    add_handlers_from_dir (unreadable e) p ps = err e
    add_handlers_from_dir no_entries p ps = ok ps
    add_handlers_from_dir (more_entries entry entries) p ps =
        add_handlers entry p ps >>= λ ps'. add_handlers_from_dir entries p ps'
