-- ===== src/Http/Plugins.antt =====
-- http/plugins: the handlers that the small plugins make. `expand` is `HttpRequest::expand` where it returns,
-- or that of the response. The commands that register the handlers are left out.
pub mod Echo
pub mod Upstreams
pub mod Rewriting
use ws_platform.Common.{
  ℕ, Text, codes, Option, none, some, Bool, true, false, List, [], ◌∷◌, ◌++◌, Eq, trim_end, ◌≡◌,
  refl,
}
use ws_platform.Error.{Code, done, again, declined}
use ws_platform.KeyVal.{Key, KeyVal, batch_replace, add, set, remove_name}
use ws_platform.Variable.{Variable}
use ws_platform.Http.Request.{HttpRequest}
use ws_platform.Http.ServerCore.{Session, Phase, ServerContext}

abbrev pub on_request : {H R : Type 0} → (HttpRequest → HttpRequest) → Session H R → Session H R
on_request f r = record r { request = f r.request }

-- `HttpRequest::rewrite`.
abbrev pub rewrite : {H R : Type 0} → Text → Session H R → Session H R
rewrite uri r = record r { request = record r.request { uri = uri } }

-- rewrite.rs: the commands `rewrite` and `break`.
abbrev pub rewrite_handler :
    {H R : Type 0} → (Session H R → Variable R → Text) → Variable R → Phase H R
rewrite_handler expand target r = (rewrite (expand r target) r, again)

abbrev pub break_handler : {H R : Type 0} → Phase H R
break_handler r = (r, done)

-- basic_auth.rs, for both contexts.
abbrev pub basic_handler : {H R : Type 0} → Text → Phase H R
basic_handler basic r = (r, declined)

module _ ⦃e : Eq Key⦄ {H R : Type 0} (expand : Session H R → Variable R → Text) where
  -- mod_vars.rs.
  unfoldable pub add_vars : KeyVal (Variable R) → Phase H R
  unfolding batch_replace
  add_vars vars r = (record r { vars = batch_replace vars r.vars }, declined)

  -- mod_args.rs: each value is expanded in the request that the earlier ones have changed.
  unfoldable pub add_values : Text → List (Variable R) → Session H R → Session H R
  unfolding add
  add_values key [] r = r
  add_values key (v ∷ vs) r =
      add_values key vs (on_request (λ q. record q { args = add key (expand r v) q.args }) r)

  unfoldable pub add_all : KeyVal (Variable R) → Session H R → Session H R
  unfolding add_values
  add_all [] r = r
  add_all ((key, values) ∷ args) r = add_all args (add_values key.name values r)

  abbrev pub add_args : KeyVal (Variable R) → Phase H R
  add_args args r = (add_all args r, declined)

  unfoldable pub clear_all : List (Variable R) → Session H R → Session H R
  unfolding remove_name
  clear_all [] r = r
  clear_all (key ∷ keys) r =
      clear_all keys (on_request (λ q. record q { args = remove_name (expand r key) q.args }) r)

  abbrev pub clear_args : List (Variable R) → Phase H R
  clear_args args r = (clear_all args r, declined)

  -- mod_headers.rs, the handlers of a request.
  unfoldable pub set_values : Text → List (Variable R) → Session H R → Session H R
  unfolding set
  set_values key [] r = r
  set_values key (v ∷ vs) r =
      set_values key vs (on_request (λ q. record q { headers = set key (expand r v) q.headers }) r)

  unfoldable pub set_all : KeyVal (Variable R) → Session H R → Session H R
  unfolding set_values
  set_all [] r = r
  set_all ((key, values) ∷ headers) r = set_all headers (set_values key.name values r)

  abbrev pub set_request_headers : KeyVal (Variable R) → Phase H R
  set_request_headers headers r = (set_all headers r, declined)

  unfoldable pub clear_each : List (Variable R) → Session H R → Session H R
  unfolding remove_name
  clear_each [] r = r
  clear_each (key ∷ keys) r =
      clear_each keys
        (on_request (λ q. record q { headers = remove_name (expand r key) q.headers }) r)

  abbrev pub clear_request_headers : List (Variable R) → Phase H R
  clear_request_headers headers r = (clear_each headers r, declined)
