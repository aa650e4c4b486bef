-- ===== src/Ego/Queries/Rankings/Totals.antt =====
-- The totals of the rankings of internal/ego/storage.go.
use cli_control_account.Base.{ℕ, ◌+◌, ◌≡◌, refl, ap, ◌∙◌, List, [], ◌∷◌, false, map}
use cli_control_account.Base.Int.{ℤ, ◌+ℤ◌}
use cli_control_account.Float.{Float}
use cli_control_account.Ego.Events.{EgoEvent}
use cli_control_account.Ego.Storage.Engine.{Faults, query, ok, Db, Storage, with_db}
use cli_control_account.Ego.Storage.Atomic.{NoFaults}
use cli_control_account.Ego.Queries.Window.{QueryWindow, selected, read_rows_no_faults}
use cli_control_account.Ego.Queries.Groups.{
  count_of, sum_of, every, Group, rows, order_by, group_by,
}
use cli_control_account.Ego.Queries.Groups.Sums.{
  total, total-group_by, total-order_by, sum_of-group_by, sum_of-order_by,
}
use cli_control_account.Ego.Queries.Rankings.{
  ProviderRanking, tokens, more_used, same_provider, ranked, deliver, provider_ranking,
  get_provider_rankings,
}

pub sum_of-map {ℓ κ} :
    {A : Type ℓ} {B : Type κ} (g : B → ℤ) (f : A → B) (xs : List A)
    → sum_of g (map f xs) ≡ sum_of (λ x. g (f x)) xs
unfolding sum_of
sum_of-map g f [] = refl
sum_of-map g f (x ∷ xs) = ap (λ s. g (f x) +ℤ s) (sum_of-map g f xs)

pub total-map {ℓ κ} :
    {A : Type ℓ} {B : Type κ} (g : B → ℕ) (f : A → B) (xs : List A)
    → total g (map f xs) ≡ total (λ x. g (f x)) xs
unfolding total
total-map g f [] = refl
total-map g f (x ∷ xs) = ap (λ s. g (f x) + s) (total-map g f xs)

pub deliver-NoFaults {ℓ} :
    {R : Type ℓ} (faults : Faults) (quiet : NoFaults faults) (row : Group → R) (gs : List Group)
    → deliver faults row gs ≡ ok (map row gs)
unfolding deliver
deliver-NoFaults faults quiet row gs = rw (read_rows_no_faults faults quiet 0 gs) refl

module _ {F : Type 0} ⦃fl : Float F⦄ where
  -- On an open database without failures, the provider rankings are returned, and the tokens and
  -- the requests that they list are together those of all the events in the window.
  pub get_provider_rankings_total :
      (faults : Faults) (window : QueryWindow) (s : Storage F) (db : Db F)
      → NoFaults faults
      → db.closed ≡ false
      → (rs : List (ProviderRanking F)) × (get_provider_rankings faults window (with_db s db)
          ≡ ok rs)
        × (sum_of (λ r. r.total_tokens) rs
            ≡ sum_of (λ e. e.total_tokens) (selected window [] db.events))
        × (total (λ r. r.total_requests) rs ≡ count_of every (selected window [] db.events))
  unfolding get_provider_rankings ranked provider_ranking
  get_provider_rankings_total faults window s db quiet live =
      let es : List EgoEvent = selected window [] db.events in
      let gs : List Group = group_by same_provider es in
      (
        map provider_ranking (order_by more_used gs),
        rw (quiet query, live)
            (deliver-NoFaults faults quiet provider_ranking (order_by more_used gs)),
        sum_of-map (λ r. r.total_tokens) provider_ranking (order_by more_used gs)
            ∙ sum_of-order_by more_used tokens gs
            ∙ sum_of-group_by same_provider (λ e. e.total_tokens) es,
        total-map (λ r. r.total_requests) provider_ranking (order_by more_used gs)
            ∙ total-order_by more_used (λ g. count_of every (rows g)) gs
            ∙ total-group_by same_provider every es,
      )
