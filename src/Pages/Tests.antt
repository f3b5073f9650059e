-- ===== src/Pages/Tests.antt =====
-- Pages at work, and the results applied to them.
use kweb.Base.{ℕ, some, List, [], ◌∷◌, Text, codes, text_eq, ok, ◌≡◌, refl, All}
use kweb.Base.Dict.{lookup, insert}
use kweb.Base.Strings.{
  has_prefix, has_suffix, trim_prefix, trim_suffix, trim_left, trim, split, split_from,
}
use kweb.Pages.Route.{
  below_pages, without_html, without_index, serve_on, tokens_of, template_tokens, match_of,
  template_map, pattern_of, page_handler, all_match, accepts, token_at, set_parameters,
  serve_tokens, serve_http,
}
use kweb.Pages.Route.Served.{Full, Found, handlers_of, serve_http-Found}
use kweb.Pages.Route.Parameters.{Visits}
use kweb.Pages.Tree.{
  Entries, file, directory, no_entries, more_entries, join, Patterns, add_page, add_file,
  add_handlers_from_dir,
}
use kweb.Pages.Tree.Walk.{Adds, files_of, add_handlers_from_dir-Adds}

post_tokens : template_tokens (codes "pages/blog/_slug.html") ≡ codes "blog" ∷ codes "_slug" ∷ []
unfolding below_pages without_html without_index serve_on tokens_of has_prefix has_suffix
    trim_prefix trim_suffix trim_left trim split split_from text_eq
post_tokens = refl

-- A map visited in the order of its entries.
abbrev in_order : List (ℕ × Text) → List (ℕ × Text)
in_order m = m

in_order-Visits : Visits in_order
in_order-Visits m x = (λ h. h, λ h. h)

abbrev posts : List (Text × ℕ)
posts = (codes "pages/blog/about.html", 1) ∷ (codes "pages/blog/_slug.html", 2) ∷ []

posts-Full : All (λ page. Full (template_tokens page.0)) posts
unfolding below_pages without_html without_index serve_on tokens_of has_prefix has_suffix
    trim_prefix trim_suffix trim_left trim split split_from text_eq
posts-Full = ((refl, (refl, tt)), ((refl, (refl, tt)), tt))

serve_post :
    serve_http in_order (handlers_of posts) (codes "/blog/first") []
    ≡ some (2, (codes "slug", codes "first") ∷ [])
unfolding below_pages without_html without_index serve_on tokens_of has_prefix has_suffix
    trim_prefix trim_suffix trim_left trim split split_from text_eq serve_http serve_tokens accepts
    all_match match_of template_map set_parameters token_at insert
serve_post = refl

-- The index of the root is served for a page that does not exist.
serve_unknown :
    serve_http {H = ℕ} in_order
      (page_handler (codes "pages/index.html") 7 ∷ [])
      (codes "/no-such-page")
      []
    ≡ some (7, [])
unfolding below_pages without_html without_index serve_on tokens_of has_prefix has_suffix
    trim_prefix trim_suffix trim_left trim split split_from text_eq serve_http serve_tokens accepts
    all_match match_of template_map set_parameters token_at insert
serve_unknown = refl

serve_http-Found_example :
    Found posts
      (tokens_of (codes "/blog/first"))
      []
      (serve_http in_order (handlers_of posts) (codes "/blog/first") [])
serve_http-Found_example =
    serve_http-Found in_order posts (codes "/blog/first") [] in_order-Visits posts-Full

abbrev site : Entries ℕ
site = more_entries (file (codes "index.html") (ok 1)) (
    more_entries
      (directory (codes "blog") (
        more_entries (file (codes "_slug.html") (ok 2))
          (more_entries (file (codes "_slug.txt") (ok 3)) no_entries)))
      no_entries)

abbrev site_patterns : Patterns ℕ
site_patterns =
    (codes "/", page_handler (codes "index.html") 1 ∷ [])
    ∷ (
      codes "/blog/",
      page_handler (codes "blog/_slug.html") 2 ∷ page_handler (codes "blog/_slug.txt") 3 ∷ [],
    )
    ∷ []

site_added : add_handlers_from_dir site (codes ".") [] ≡ ok site_patterns
unfolding add_handlers_from_dir add_file add_page join pattern_of lookup insert below_pages
    without_html without_index serve_on tokens_of has_prefix has_suffix trim_prefix trim_suffix
    trim_left trim split split_from text_eq
site_added = refl

add_handlers_from_dir-Adds_example : Adds (files_of site (codes ".")) [] site_patterns
add_handlers_from_dir-Adds_example =
    add_handlers_from_dir-Adds site (codes ".") [] site_patterns site_added
