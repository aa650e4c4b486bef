-- ===== src/Ego/Queries/Rankings/Order.antt =====
-- The order and the length of the rankings of internal/ego/storage.go.
use cli_control_account.Base.{
  ℕ, suc, ◌≤◌, ◌≡◌, refl, sym, ap, ◌∙◌, List, [], ◌∷◌, Bool, true, false, ◌&&◌, ◌||◌, arith, ltb,
  take, map, length, length-take, All, keep,
}
use cli_control_account.Base.Int.{ℤ, ltb_ℤ, eqb_ℤ}
use cli_control_account.Text.{Text, Unicode}
use cli_control_account.Float.{Float}
use cli_control_account.Ego.Storage.Engine.{
  Faults, query, Result, ok, err, bind_ok, call, Db, Storage, with_db,
}
use cli_control_account.Ego.Queries.Window.{QueryWindow, selected, read_rows, read_rows_prefix}
use cli_control_account.Ego.Queries.Groups.{Group, order_by, group_by}
use cli_control_account.Ego.Queries.Groups.Order.{IsOrdered, order_by-IsOrdered, take-IsOrdered}
use cli_control_account.Ego.Queries.Summary.{same_model}
use cli_control_account.Ego.Queries.Rankings.{
  ProviderRanking, ModelRanking, AccountRanking, more_tokens, more_used, same_provider,
  same_account, has_account, ranked, deliver, provider_ranking, model_ranking, account_ranking,
  get_provider_rankings, get_model_rankings, get_account_rankings,
}

-- What was delivered, and nothing for an error.
unfoldable delivered {ℓ} : {R : Type ℓ} → Result (List R) → List R
delivered (ok rs) = rs
delivered (err e) = []

pub deliver_prefix {ℓ} :
    {R : Type ℓ} (faults : Faults) (row : Group → R) (gs : List Group) {rs : List R}
    → deliver faults row gs ≡ ok rs
    → (k : ℕ) × (rs ≡ map row (take k gs))
unfolding deliver delivered
deliver_prefix faults row gs h =
    let ((ys, b), r, h') = bind_ok (read_rows faults 0 gs) _ h in
    let (k, e) = read_rows_prefix faults 0 gs r in (k, sym (ap delivered h') ∙ ap (map row) e)

module _ {ℓ κ} {A : Type ℓ} {B : Type κ} (before : A → A → Bool) (before' : B → B → Bool)
    (f : A → B) (same : (x y : A) → before' (f x) (f y) ≡ before x y) where
  All-map :
      (x : A) (ys : List A)
      → All (λ y. before y x ≡ false) ys
      → All (λ y. before' y (f x) ≡ false) (map f ys)
  All-map x [] h = tt
  All-map x (y ∷ ys) h = (same y x ∙ h.0, All-map x ys h.1)

  IsOrdered-map : (xs : List A) → IsOrdered before xs → IsOrdered before' (map f xs)
  IsOrdered-map [] h = tt
  IsOrdered-map (x ∷ xs) h = (All-map x xs h.0, IsOrdered-map xs h.1)

more_used_asym : (a b : Group) → more_used a b ≡ true → more_used b a ≡ false
more_used_asym a b h = ground arith

more_used_trans :
    (a b c : Group) → more_used b a ≡ false → more_used c b ≡ false → more_used c a ≡ false
more_used_trans a b c h k = ground arith

more_tokens_asym : (a b : Group) → more_tokens a b ≡ true → more_tokens b a ≡ false
more_tokens_asym a b h = ground arith

more_tokens_trans :
    (a b c : Group) → more_tokens b a ≡ false → more_tokens c b ≡ false → more_tokens c a ≡ false
more_tokens_trans a b c h k = ground arith

-- A ranking is in front of another by tokens, then by requests.
abbrev pub in_front : ℤ → ℕ → ℤ → ℕ → Bool
in_front t n t' n' = ltb_ℤ t' t || (eqb_ℤ t t' && ltb n' n)

-- What is delivered of groups in order is in the order of the rankings' own fields.
delivered-IsOrdered {ℓ} :
    {R : Type ℓ} (faults : Faults) (before : Group → Group → Bool) (before' : R → R → Bool)
    (row : Group → R) {rs : List R} (same : (a b : Group) → before' (row a) (row b) ≡ before a b)
    (gs : List Group)
    → IsOrdered before gs
    → deliver faults row gs ≡ ok rs
    → IsOrdered before' rs
delivered-IsOrdered faults before before' row same gs o h =
    let (k, e) = deliver_prefix faults row gs h in
    rw e (IsOrdered-map before before' row same (take k gs) (take-IsOrdered before k gs o))

length-map {ℓ κ} :
    {A : Type ℓ} {B : Type κ} (f : A → B) (xs : List A) → length (map f xs) ≡ length xs
length-map f [] = refl
length-map f (x ∷ xs) = ap suc (length-map f xs)

delivered-length {ℓ} :
    {R : Type ℓ} (faults : Faults) (row : Group → R) {rs : List R} (n : ℕ) (gs : List Group)
    → deliver faults row (take n gs) ≡ ok rs
    → length rs ≤ n
delivered-length faults row {rs = rs} n gs h =
    let (k, e) = deliver_prefix faults row (take n gs) h in
    omega (
      arith,
      ap length e,
      length-map row (take k (take n gs)),
      length-take k (take n gs),
      length-take n gs,
    )

module _ {F : Type 0} ⦃fl : Float F⦄ where
  abbrev pub model_in_front : ModelRanking F → ModelRanking F → Bool
  model_in_front a b = in_front a.total_tokens a.total_requests b.total_tokens b.total_requests

  abbrev pub provider_in_front : ProviderRanking F → ProviderRanking F → Bool
  provider_in_front a b = in_front a.total_tokens a.total_requests b.total_tokens b.total_requests

  abbrev pub account_in_front : AccountRanking F → AccountRanking F → Bool
  account_in_front a b = ltb_ℤ b.total_tokens a.total_tokens

  -- Provider rankings that are returned are in descending order of their tokens, then of their
  -- requests, whatever rows the engine failed to give.
  pub get_provider_rankings-IsOrdered :
      (faults : Faults) (window : QueryWindow) (s : Storage F) (db : Db F)
      (rs : List (ProviderRanking F))
      → get_provider_rankings faults window (with_db s db) ≡ ok rs
      → IsOrdered provider_in_front rs
  unfolding get_provider_rankings ranked provider_ranking
  get_provider_rankings-IsOrdered faults window s db rs h =
      let (a, p, h') = bind_ok (call faults db query) _ h in
      let gs : List Group = group_by same_provider (selected window [] db.events) in
      delivered-IsOrdered faults more_used provider_in_front provider_ranking (λ a b. refl)
        (order_by more_used gs) (order_by-IsOrdered more_used more_used_asym more_used_trans gs) h'

  -- Account rankings that are returned are at most 50, in descending order of their tokens.
  pub get_account_rankings-IsOrdered :
      (faults : Faults) (window : QueryWindow) (provider : Text) (s : Storage F) (db : Db F)
      (rs : List (AccountRanking F))
      → get_account_rankings faults window provider (with_db s db) ≡ ok rs
      → IsOrdered account_in_front rs × (length rs ≤ 50)
  unfolding get_account_rankings ranked account_ranking
  get_account_rankings-IsOrdered faults window provider s db rs h =
      let (a, p, h') = bind_ok (call faults db query) _ h in
      let gs : List Group =
        group_by same_account (keep has_account (selected window provider db.events)) in
      (
        delivered-IsOrdered faults more_tokens account_in_front account_ranking (λ a b. refl)
            (take 50 (order_by more_tokens gs))
            (take-IsOrdered more_tokens 50 (order_by more_tokens gs)
              (order_by-IsOrdered more_tokens more_tokens_asym more_tokens_trans gs))
            h',
        delivered-length faults account_ranking 50 (order_by more_tokens gs) h',
      )

module _ {F : Type 0} ⦃fl : Float F⦄ ⦃u : Unicode⦄ where
  -- Model rankings that are returned are at most 50, in descending order of their tokens, then of
  -- their requests.
  pub get_model_rankings-IsOrdered :
      (faults : Faults) (window : QueryWindow) (provider : Text) (s : Storage F) (db : Db F)
      (rs : List (ModelRanking F))
      → get_model_rankings faults window provider (with_db s db) ≡ ok rs
      → IsOrdered model_in_front rs × (length rs ≤ 50)
  unfolding get_model_rankings ranked model_ranking
  get_model_rankings-IsOrdered faults window provider s db rs h =
      let (a, p, h') = bind_ok (call faults db query) _ h in
      let gs : List Group = group_by same_model (selected window provider db.events) in
      (
        delivered-IsOrdered faults more_used model_in_front (model_ranking s.pricing_cache)
            (λ a b. refl) (take 50 (order_by more_used gs))
            (take-IsOrdered more_used 50 (order_by more_used gs)
              (order_by-IsOrdered more_used more_used_asym more_used_trans gs))
            h',
        delivered-length faults (model_ranking s.pricing_cache) 50 (order_by more_used gs) h',
      )
