-- ===== src/Lifecycle/Routes.antt =====
-- `OnManagementRegister` of internal/lifecycle/events.go: every route reaches the router.
use cli_control_account.Base.{
  ◌≡◌, ◌≢◌, refl, ◌∙◌, subst, [], ◌∷◌, true, false, none, some, arith, All, is_empty,
}
use cli_control_account.Text.{Text, eq_text}
use cli_control_account.Text.Laws.{eq_text-eq}
use cli_control_account.TextMap.{lookup, insert, lookup-insert}
use cli_control_account.Lifecycle.{
  Handler, Router, Dispatcher, register_resource, register_routes, on_management_register,
  get_route,
}
use cli_control_account.Lifecycle.Registration.{IsMap, or_else}

-- A route that the router takes: its path is not empty and its handler not nil.
abbrev pub IsRoute : {H : Type 0} → Text × Handler H → Type 0
IsRoute (path, handler) = (is_empty path ≡ false) × (handler ≢ none)

module _ {H : Type 0} where
  register_routes_step :
      (p : Text) (h : Handler H) (routes r : Router H)
      → IsRoute (p, h)
      → register_routes ((p, h) ∷ routes) r ≡ register_routes routes (insert p h r)
  unfolding register_routes register_resource
  register_routes_step p none routes r k = absurd (k.1 refl)
  register_routes_step [] (some h) routes r k = absurd (ground (arith, k.0))
  register_routes_step (c ∷ p) (some h) routes r k = refl

  register_routes_lem :
      (routes r : Router H)
      → IsMap routes
      → All IsRoute routes
      → ((register_routes routes r).0 ≡ none)
        × ((k : Text)
            → lookup k (register_routes routes r).1 ≡ or_else (lookup k routes) (lookup k r))
  unfolding register_routes lookup
  register_routes_lem [] r m v = (refl, λ k. refl)
  register_routes_lem ((p, h) ∷ routes) r m v =
      let rest = register_routes_lem routes (insert p h r) m.1 v.1 in
      rw (register_routes_step p h routes r v.0) (
        rest.0,
        λ k.
            let once : eq_text p k ≡ true → lookup k routes ≡ none =
              λ e. subst (λ x. lookup x routes ≡ none) (eq_text-eq p k e) m.0 in
            rest.1 k ∙ ground (arith, lookup-insert p k h r, once),
      )

-- A router that is given the routes, each with a path and a handler, in whatever order the loop
-- takes them, ends up with every route of the dispatcher under its path, keeps what it had under
-- other paths, and there is no error.
pub on_management_register_lem :
    {V H : Type 0} (order : Router H → Router H) (r : Router H) (d : Dispatcher V H)
    → ((k : Text) → lookup k (order d.routes) ≡ lookup k d.routes)
    → IsMap (order d.routes)
    → All IsRoute (order d.routes)
    → (r' : Router H) × (on_management_register order (some r) d ≡ (none, some r'))
      × ((k : Text) → lookup k r' ≡ or_else (get_route k d) (lookup k r))
unfolding on_management_register get_route
on_management_register_lem order r d same m v =
    let (e, found') = register_routes_lem (order d.routes) r m v in
    ((register_routes (order d.routes) r).1, rw e refl, λ k. rw (← same k) (found' k))
