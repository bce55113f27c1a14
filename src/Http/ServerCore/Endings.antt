-- ===== src/Http/ServerCore/Endings.antt =====
-- http/http_server_core.rs: a site that refuses every request, and one that never comes to an answer.
use ws_platform.Common.{
  ℕ, zero, suc, ◌≡◌, refl, sym, ◌∙◌, Option, none, some, inl, inr, Option-cases, Eq,
}
use ws_platform.KeyVal.{Key}
use ws_platform.Router.Regex.{Engine}
use ws_platform.Http.ServerCore.{Session, ServerContext, Routers}
use ws_platform.Http.ServerCore.Phases.{Answer, unauthorized, round_picked, server_rewrite}
use ws_platform.Http.ServerCore.Serve.{picked, serve_loop}
use ws_platform.Http.ServerCore.Rounds.{
  Refuses, round-Stops, Round-cases, Rewrites, round-continue, loop-continue, loop-answers,
  loop-panics,
}

none-some : {A : Type 0} {a : A} → none ≡ some a → ⊥
none-some h = cc

same_answer : {K S : Type 0} {x y : K × S} → some x ≡ some y → y.0 ≡ x.0
same_answer h = cc

module _ (engine : Engine) ⦃e : Eq Key⦄ {H K R : Type 0} where
  open engine use {Re}

  loop_unauthorized :
      (server s : ServerContext H K R) (rs : Option (Routers Re H K R)) (handler : Option K)
      (fuel : ℕ) (r r' : Session H R) (a : Answer K)
      → Refuses s.access
      → serve_loop engine server (some s) rs handler fuel r ≡ some (a, r')
      → a ≡ unauthorized
  unfolding serve_loop
  loop_unauthorized server s rs handler zero r r' a h over = absurd (cc)
  loop_unauthorized server s rs handler (suc fuel) r r' a h over =
      elim (Option-cases (picked engine rs r)) [
        | inl lost ↦
            absurd
              (none-some (sym (loop-panics engine server (some s) rs handler fuel r lost) ∙ over))
        | inr (p, found) ↦ elim (Round-cases (round_picked server (some s) handler p)) [
          | inl (r1, more) ↦
              loop_unauthorized server s rs handler fuel r1 r' a h (
                sym (loop-continue engine server (some s) rs handler fuel r r1 p found more) ∙ over)
          | inr (b, r1, ends) ↦
              let same =
                sym (loop-answers engine server (some s) rs handler fuel r r1 b p found ends)
                ∙ over in
              same_answer same ∙ rw ends at (round-Stops server s handler p h)
        ]
      ]

  -- The loop has come to no answer, or to `Unauthorized`.
  abbrev pub Refused : Option (Answer K × Session H R) → Type 0
  Refused none = Unit
  Refused (some (a, r)) = a ≡ unauthorized

  Refused-cases :
      (o : Option (Answer K × Session H R))
      → ((a : Answer K) (r : Session H R) → o ≡ some (a, r) → a ≡ unauthorized)
      → Refused o
  Refused-cases none h = tt
  Refused-cases (some (a, r)) h = h a r refl

  -- Where the access handlers of the site refuse every request, and leave its uri alone, the loop comes to
  -- no other answer than `Unauthorized`: whatever the routes, their own handlers and the rewrites.
  pub serve_loop-Refused :
      (server s : ServerContext H K R) (rs : Option (Routers Re H K R)) (handler : Option K)
      (fuel : ℕ) (r : Session H R)
      → Refuses s.access
      → Refused (serve_loop engine server (some s) rs handler fuel r)
  serve_loop-Refused server s rs handler fuel r h =
      Refused-cases (serve_loop engine server (some s) rs handler fuel r)
        λ a r' over. loop_unauthorized server s rs handler fuel r r' a h over

  -- A site whose own rewrites end with AGAIN for every request answers none, however long the loop runs.
  pub serve_loop-forever :
      (server s : ServerContext H K R) (rs : Option (Routers Re H K R)) (handler : Option K)
      (fuel : ℕ) (r : Session H R)
      → Rewrites s
      → serve_loop engine server (some s) rs handler fuel r ≡ none
  unfolding serve_loop
  serve_loop-forever server s rs handler zero r h = refl
  serve_loop-forever server s rs handler (suc fuel) r h = elim (Option-cases (picked engine rs r)) [
    | inl lost ↦ loop-panics engine server (some s) rs handler fuel r lost
    | inr (p, found) ↦
        loop-continue engine server (some s) rs handler fuel r (server_rewrite (some s) p.0).0 p
          found (round-continue server s handler p h)
        ∙ serve_loop-forever server s rs handler fuel (server_rewrite (some s) p.0).0 h
  ]
