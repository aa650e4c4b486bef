-- ===== src/Ego/Queries/Summary/Unpriced.antt =====
-- The requests without a price, and the counts, of `getSummary` of internal/ego/storage.go.
use cli_control_account.Base.{
  ◌+◌, ◌≡◌, refl, sym, ap, ◌∙◌, List, [], ◌∷◌, Bool, true, false, not, arith, ltb, if◌then◌else◌,
  All,
}
use cli_control_account.Text.{Text, Unicode}
use cli_control_account.Text.Laws.{eq_text_self, eq_text_iff}
use cli_control_account.TextMap.{TextMap}
use cli_control_account.Float.{Float}
use cli_control_account.Ego.Pricing.{ModelPricing, find_model_pricing}
use cli_control_account.Ego.Events.{EgoEvent}
use cli_control_account.Ego.Storage.Engine.{
  Faults, scan, Result, ok, err, ◌>>◌, fail_if, bind_ok, call, query, rows_err, call_failed,
  with_db, Db, Storage,
}
use cli_control_account.Ego.Queries.Window.{QueryWindow, selected, read_rows, read_rows_whole}
use cli_control_account.Ego.Queries.Groups.{count_of, every, Group, rows, group_by}
use cli_control_account.Ego.Queries.Groups.Sums.{
  total, total-group_by, IsUniform, group_by-IsUniform,
}
use cli_control_account.Ego.Queries.Summary.{
  SummaryStats, Costs, same_model, has_price, add_cost, add_costs, no_costs, empty_summary,
  summary_of, get_summary,
}

same_model_self : (e : EgoEvent) → same_model e e ≡ true
same_model_self e = ground (arith, eq_text_self e.model, eq_text_self e.provider)

module _ {F : Type 0} ⦃fl : Float F⦄ ⦃u : Unicode⦄ (prices : TextMap (ModelPricing F)) where
  -- The model of the event has no positive rate.
  abbrev pub is_unpriced : EgoEvent → Bool
  is_unpriced e = not (has_price (find_model_pricing prices e.model))

  count_of_uniform :
      (first : EgoEvent) (es : List EgoEvent)
      → All (λ e. same_model first e ≡ true) es
      → count_of is_unpriced es ≡ (if is_unpriced first then count_of every es else 0)
  unfolding count_of
  count_of_uniform first [] h = ground arith
  count_of_uniform first (e ∷ es) (k, h) =
      let same : first.model ≡ e.model = ground (arith, eq_text_iff first.model e.model) in
      rw (← same) (ground (arith, count_of_uniform first es h))

  unpriced-add_costs :
      (c : Costs F) (gs : List Group)
      → All (IsUniform same_model same_model_self) gs
      → (add_costs prices c gs).unpriced
        ≡ c.unpriced + total (λ g. count_of is_unpriced (rows g)) gs
  unfolding add_costs add_cost total
  unpriced-add_costs c [] h = omega arith
  unpriced-add_costs c (g ∷ gs) (k, h) =
      ground
        (arith, unpriced-add_costs (add_cost prices c g) gs h, count_of_uniform g.first (rows g) k)

  unpriced-group_by :
      (es : List EgoEvent)
      → (add_costs prices no_costs (group_by same_model es)).unpriced ≡ count_of is_unpriced es
  unpriced-group_by es = ground (
    arith,
    unpriced-add_costs no_costs (group_by same_model es)
        (group_by-IsUniform same_model same_model_self es),
    total-group_by same_model is_unpriced es,
  )

  -- What was returned, and a default for an error.
  abbrev from_ok : SummaryStats F → Result (SummaryStats F) → SummaryStats F
  from_ok d (ok st) = st
  from_ok d (err e) = d

  answer_unpriced :
      (es : List EgoEvent) (gs : List Group) (broken : Bool) (st : SummaryStats F)
      → (broken ≡ false → gs ≡ group_by same_model es)
      → (fail_if broken (call_failed rows_err) >> ok (summary_of es (add_costs prices no_costs gs)))
        ≡ ok st
      → (st.unpriced_requests ≡ count_of (is_unpriced) es)
        × (st.is_partial ≡ ltb 0 (count_of is_unpriced es))
  unfolding summary_of
  answer_unpriced es gs true st whole h = ground arith
  answer_unpriced es gs false st whole h =
      let unpriced' =
        ap (λ g. (add_costs prices no_costs g).unpriced) (whole refl) ∙ unpriced-group_by es in
      (
        sym (ap (λ r. (from_ok empty_summary r).unpriced_requests) h) ∙ unpriced',
        sym (ap (λ r. (from_ok empty_summary r).is_partial) h) ∙ ap (ltb 0) unpriced',
      )

module _ {F : Type 0} ⦃fl : Float F⦄ ⦃u : Unicode⦄ where
  -- Of an open database, a summary that is returned counts as unpriced exactly the selected events
  -- whose model has no positive rate, and calls its cost partial just if there is such an event.
  pub get_summary_unpriced :
      (faults faults' : Faults) (window : QueryWindow) (provider : Text) (s : Storage F) (db : Db F)
      (st : SummaryStats F)
      → get_summary faults faults' window provider (with_db s db) ≡ ok st
      → let missing = count_of (is_unpriced s.pricing_cache) (selected window provider db.events) in
        (st.unpriced_requests ≡ missing) × (st.is_partial ≡ ltb 0 missing)
  unfolding get_summary
  get_summary_unpriced faults faults' window provider s db st h =
      let es : List EgoEvent = selected window provider db.events in
      let (a, p, h1) = bind_ok (call faults db query) _ h in
      let (a', p', h2) = bind_ok (fail_if (faults (scan 0)) (call_failed (scan 0))) _ h1 in
      let (a'', p'', h3) = bind_ok (call faults' db query) _ h2 in
      let ((gs, broken), r, h4) = bind_ok (read_rows faults' 0 (group_by same_model es)) _ h3 in
      answer_unpriced s.pricing_cache es gs broken st
        (λ b. read_rows_whole faults' 0 (group_by same_model es) (r ∙ ap (λ x. ok (gs, x)) b)) h4
