-- ===== src/Http/Plugins/Rewriting.antt =====
-- http/plugins/rewrite.rs: what the command `rewrite` of a server makes of the loop that serves requests.
use ws_platform.Common.{
  ℕ, Text, Option, none, some, List, [], ◌∷◌, ◌++◌, ◌≡◌, ◌≢◌, refl, All, Eq, arith,
}
use ws_platform.Error.{done, again}
use ws_platform.KeyVal.{Key}
use ws_platform.Variable.{Variable}
use ws_platform.Router.Regex.{Engine}
use ws_platform.Http.ServerCore.{Session, Phase, ServerContext, Routers}
use ws_platform.Http.ServerCore.Phases.{phase_handler, phases_of, server_rewrite}
use ws_platform.Http.ServerCore.Serve.{serve_loop}
use ws_platform.Http.ServerCore.Rounds.{Rewrites}
use ws_platform.Http.ServerCore.Endings.{serve_loop-forever}
use ws_platform.Http.Plugins.{rewrite_handler}

module _ {H R : Type 0} where
  -- No handler of the list ends the rewrites with OK.
  abbrev pub Passes : List (Phase H R) → Type 0
  Passes = All (λ h. (r : Session H R) → (h r).1 ≢ done)

  phase_handler-again :
      (expand : Session H R → Variable R → Text) (target : Variable R)
      (before after : List (Phase H R)) (r : Session H R)
      → Passes before
      → (phase_handler (before ++ rewrite_handler expand target ∷ after) r).1 ≡ again
  unfolding phase_handler
  phase_handler-again expand target [] after r h = refl
  phase_handler-again expand target (f ∷ before) after r (x, h) =
      ground (arith, x r, phase_handler-again expand target before after (f r).0 h)

  rewrite_handler-Rewrites :
      {K : Type 0} (expand : Session H R → Variable R → Text) (target : Variable R)
      (s : ServerContext H K R) (before after : List (Phase H R))
      → s.rewrite ≡ before ++ rewrite_handler expand target ∷ after
      → Passes before
      → Rewrites s
  unfolding server_rewrite
  rewrite_handler-Rewrites expand target s before after e h r =
      rw (e, server_rewrite)
        (phase_handler-again expand target before after
          (phase_handler (phases_of (λ c. c.setvar) (some s)) r).0 h)

module _ (engine : Engine) ⦃e : Eq Key⦄ {H K R : Type 0} where
  open engine use {Re}

  -- A site with the command `rewrite` among its rewrites answers no request, however long the loop runs
  -- and whatever its routes, unless a rewrite before that ends with OK.
  pub serve_loop-rewrite_handler :
      (expand : Session H R → Variable R → Text) (target : Variable R)
      (before after : List (Phase H R)) (server s : ServerContext H K R)
      (rs : Option (Routers Re H K R)) (handler : Option K) (fuel : ℕ) (r : Session H R)
      → s.rewrite ≡ before ++ rewrite_handler expand target ∷ after
      → Passes before
      → serve_loop engine server (some s) rs handler fuel r ≡ none
  serve_loop-rewrite_handler expand target before after server s rs handler fuel r same h =
      serve_loop-forever engine server s rs handler fuel r
        (rewrite_handler-Rewrites expand target s before after same h)
