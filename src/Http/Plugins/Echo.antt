-- ===== src/Http/Plugins/Echo.antt =====
-- http/plugins: the handlers that make or change a response, of echo.rs, mod_headers.rs and index.rs.
use ws_platform.Common.{
  Text, codes, Option, none, some, Bool, true, false, List, [], ◌∷◌, ◌++◌, Eq, trim_end, get_or,
}
use ws_platform.KeyVal.{Key, KeyVal}
use ws_platform.Variable.{Variable}
use ws_platform.Http.Types.{HttpStatus}
use ws_platform.Http.Response.{HttpResponse, Exchange, add_header, remove_header, new}
use ws_platform.Http.Response.Send.{send}

module _ ⦃e : Eq Key⦄ {R : Type 0} where
  -- echo.rs: the content handler, on a new response; the filters are those of the response.
  unfoldable pub echo :
      (Exchange → Exchange)
      → (Exchange → Exchange)
      → (Exchange → Variable R → Text)
      → Option HttpStatus
      → Variable R
      → Exchange
      → Exchange
  unfolding send
  echo filters0 filters1 expand status text x =
      send filters0 filters1 (get_or status HttpStatus.ok) (codes "text/plain")
        (some (expand x text)) (record x { inner = new x.request })

  -- mod_headers.rs, the filters.
  unfoldable pub add_values :
      (HttpResponse → Variable R → Text) → Text → List (Variable R) → HttpResponse → HttpResponse
  add_values expand key [] r = r
  add_values expand key (v ∷ vs) r = add_values expand key vs (add_header key (expand r v) r)

  unfoldable pub add_headers :
      (HttpResponse → Variable R → Text) → KeyVal (Variable R) → HttpResponse → HttpResponse
  unfolding add_values
  add_headers expand [] r = r
  add_headers expand ((key, values) ∷ headers) r =
      add_headers expand headers (add_values expand key.name values r)

  unfoldable pub clear_headers :
      (HttpResponse → Variable R → Text) → List (Variable R) → HttpResponse → HttpResponse
  clear_headers expand [] r = r
  clear_headers expand (key ∷ keys) r = clear_headers expand keys (remove_header (expand r key) r)

-- index.rs: the path of the file, given whether a path is a directory, where there is anything.
unfoldable pub index_path : (Text → Option Bool) → Text → Text → Text
index_path is_dir root uri =
    let path = root ++ trim_end b'/' uri in
    elim (is_dir path) [ none ↦ path | some false ↦ path | some true ↦ path ++ codes "/index.html" ]
