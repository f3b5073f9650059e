-- ===== src/Lib.antt =====
-- A model of kweb, a web framework in Go, and theorems about it.
--
-- The program serves pages from HTML templates. A template's texts and attributes hold expressions
-- in double braces and its elements the directives *ngIf and *ngFor. Everything that reads such
-- text is built on one lexer base and one parser base.
--
-- - Base: shared names, tests on numbers, texts as lists of code points, results with an error, and
--   maps with text keys as association lists (`lookup`, `insert`, `erase`).
-- - Lexparse: templates/lexparse. `Lexparse.Lexer` is lexer.go (`BaseLexer` with `Init`, `Unread`,
--   `Read`, `Peek`), `Lexparse.Token` is token.go, `Lexparse.Parser` is parser.go (`BaseParser`). The
--   lexer that a `BaseParser` holds is a parameter there, one function for its method `Next`.
-- - Fieldpath: templates/mustache/fieldpath. `Fieldpath.Lexer` is lexer.go, `Fieldpath.Parser` is
--   parser.go with helpers.go, `Fieldpath.Syntax` holds the data types and the `String` methods of
--   expression.go and condition.go, and `Fieldpath.Eval` their evaluation.
-- - Mustache: templates/mustache. `Mustache.Lexer` is lexer.go, `Mustache.Parser` is parser.go with
--   helpers.go and the data types of expression.go, and `Mustache.Eval` is the evaluation there.
-- - Scopes: templates/scopes.
-- - Render: templates/render.go. `Render.Tree` holds the nodes of golang.org/x/net/html,
--   `Render.Writer` the state of a `Render`, `Render.Nodes` its methods, and `Render.Escape`
--   `escape` and `writeQuoted`. `Render.Html` is a description of HTML output with tables of its own.
-- - Components: components/request.go (`Request`, `is_localhost`, `browser_using_https`),
--   components/response.go (`Response` and what it writes), and ServeHTTP of components/serve.go
--   (`Components.Serve`: the chain of filters around a handler, and the written reply), with
--   GetComponentFromServer in `Components.Lookup`.
-- - Sessions: components/sessions and components/cookies. `Sessions.Session` is session.go,
--   `Sessions.Codec` is codec.go, `Sessions.Storage` is the interface of storage.go with what a
--   storage promises, `Sessions.Memory` is memorysessionstorage/storage.go, `Sessions.Kube` is
--   kubesessionstorage/storage.go, `Sessions.Filter` is the filter of component.go, and
--   `Sessions.Cookies` is components/cookies.
-- - Users: the current user in components/users: cookie.go, and of component.go the filter, SetUser,
--   GetUser and the namespaces; `Users.Accounts` is MapToUser.
-- - OauthSessions: components/oauthsessions.
-- - Github: components/github/appauth.go, the sources of tokens. Times are natural numbers.
-- - Login: components/login. `Login.Handlers` is handlers.go and state.go: the start of a sign-in and
--   the callback of the provider.
-- - Keystore: components/keystore. `Keystore.Keys` is secretbox.go and rsakey.go with the messages of
--   pb/keystore.proto; of kubernetes.go `Keystore.KeySet` holds the methods of `keySet`,
--   `Keystore.Secret` the reading and changing of the secret, and `Keystore.Store` the
--   `KubernetesKeyStore`.
-- - Pages: components/pages/component.go. `Pages.Route` is where a file is served and what its handler
--   accepts, `Pages.Tree` the walk of the directory.
-- - Blobstore: services/blobstore. `Blobstore.FsStore` is pkg/server/fs_store.go with the interface of
--   store.go, `Blobstore.Service` pkg/server/blobstore_server.go, and `Blobstore.Client`
--   pkg/blobstoreclient/client.go. `Blobstore.Disk` holds the calls of package os that they make: the
--   files, and a list of the faults of the calls to come, so that any call may fail.
--
-- A request passes the filter of cookies, then that of sessions, then a handler. The state that they
-- share is `Sessions.Context.Context`: the request's session, the store of sessions, the cookies
-- to set, and the rest. A handler is a function on a request and a context that returns a response,
-- an error and the context. A nil response is a constructor. Random IDs, JSON, protocol buffers, the
-- order in which a map is visited, and the functions of net/http and net/url are parameters. So are
-- the calls of the Kubernetes API server, on a state of the cluster, and in Keystore cryptography
-- and the clock.
--
-- A reader is the list of the runes that it is still to return, as strings.Reader decodes them; the
-- two negative constants that stand for the end and for an error are constructors. A stack of
-- pushed back runes or tokens has its top in front. An error is a constructor with the values that
-- its message shows. A method that changes the lexer or the parser returns it anew.
--
-- Every loop of a lexer and of a parser takes fuel. A lexer's loop is given one round more than the
-- runes at hand, and a parser's two more than the runes of its text: a round takes a rune or a
-- token. The fuel never runs out: for the lexers that follows from their agreement with
-- descriptions by plain recursion, for the parsers it is among the results. The loop of `escape` is given
-- one round more than the characters of its text, of which each round takes one.
--
-- The dynamic values that expressions are evaluated on are a parameter, with Go's type switch,
-- reflection and reflect.DeepEqual on them; a function in a scope is taken for what it returns. A
-- call by reflection that panics is an error of the evaluation.
--
-- The verb %q of fmt, by which `String` prints a literal, is a parameter, of which is assumed that
-- it puts a text of printable ASCII without quote and backslash between quotes. Log output is left
-- out. So are the other parts of the program: the Kubernetes client, the rest of components/github,
-- the stores of blobs in a cloud, and the applications.
pub mod Base
pub mod Lexparse
pub mod Fieldpath
pub mod Mustache
pub mod Scopes
pub mod Components
pub mod Sessions
pub mod Users
pub mod Login
pub mod Render
pub mod Keystore
pub mod Blobstore
pub mod Pages
pub mod OauthSessions
pub mod Github
