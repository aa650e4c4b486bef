-- ===== src/Ego/Counted.antt =====
-- From the events that internal/ego/worker.go accepts to the summary of internal/ego/storage.go.
use cli_control_account.Base.{
  ◌≡◌, refl, sym, ap, subst, ◌∙◌, List, [], ◌∷◌, ◌++◌, map, Bool, ◌&&◌, Option, some, Bool-cases,
  inl, inr, append-nil,
}
use cli_control_account.Text.{Text, Unicode}
use cli_control_account.Float.{Float}
use cli_control_account.Ego.Events.{EgoEvent}
use cli_control_account.Ego.Storage.Engine.{Faults, ok, with_db, Db, Storage}
use cli_control_account.Ego.Storage.Atomic.{NoFaults}
use cli_control_account.Ego.Queries.Window.{QueryWindow, selected, in_window, of_provider}
use cli_control_account.Ego.Queries.Groups.{count_of, every}
use cli_control_account.Ego.Queries.Figures.{succeeded, is_failed, is_sample}
use cli_control_account.Ego.Queries.Rankings.Totals.{sum_of-map}
use cli_control_account.Ego.Queries.Summary.{SummaryStats, get_summary}
use cli_control_account.Ego.Queries.Summary.Counts.{CountsEvents, get_summary-CountsEvents}
use cli_control_account.Ego.Worker.{Worker, Reach}
use cli_control_account.Ego.Worker.Runs.{content, accepted_by}
use cli_control_account.Ego.Worker.Ledger.{IsLive, ledger, ledger-Reach, Reach-IsLive}

count_of-content :
    (p : EgoEvent → Bool) (es : List EgoEvent)
    → ((e : EgoEvent) → p (content e) ≡ p e)
    → count_of p (map content es) ≡ count_of p es
unfolding count_of
count_of-content p [] same = refl
count_of-content p (e ∷ es) same = rw (same e, count_of-content p es same) refl

-- The window and the filter do not look at the id of an event.
selected-content :
    (window : QueryWindow) (provider : Text) (es : List EgoEvent)
    → selected window provider (map content es) ≡ map content (selected window provider es)
unfolding selected
selected-content window provider [] = refl
selected-content window provider (e ∷ es) =
    elim (Bool-cases (in_window window e && of_provider provider e)) [
      | inl y ↦ rw y (ap (λ r. content e ∷ r) (selected-content window provider es))
      | inr n ↦ rw n (selected-content window provider es)
    ]

module _ {F : Type 0} where
  CountsEvents-content :
      {es : List EgoEvent} {st : SummaryStats F}
      → CountsEvents es st
      → CountsEvents (map content es) st
  CountsEvents-content {es} c = record {
    requests = c.requests ∙ sym (count_of-content every es λ e. refl);
    successes = c.successes ∙ sym (count_of-content succeeded es λ e. refl);
    failures = c.failures ∙ sym (count_of-content is_failed es λ e. refl);
    samples = c.samples ∙ sym (count_of-content is_sample es λ e. refl);
    tokens = c.tokens ∙ sym (sum_of-map (λ e. e.total_tokens) content es);
    prompts = c.prompts ∙ sym (sum_of-map (λ e. e.prompt_tokens) content es);
    completions = c.completions ∙ sym (sum_of-map (λ e. e.completion_tokens) content es);
    reasonings = c.reasonings ∙ sym (sum_of-map (λ e. e.reasoning_tokens) content es);
    creations = c.creations ∙ sym (sum_of-map (λ e. e.cache_creation_tokens) content es);
    cached = c.cached ∙ sym (sum_of-map (λ e. e.cached_tokens) content es);
  }

  -- With nothing in the batch and in the queue, the ledger is what is stored.
  flushed_ledger :
      (w : Worker F) (s : Storage F) (db : Db F)
      → w.storage ≡ with_db s db
      → w.queue ≡ []
      → w.batch ≡ []
      → ledger w ≡ map content db.events
  flushed_ledger w s db e q b = rw (e, q, b) (append-nil (map content db.events))

  with_own_db : (s : Storage F) (db : Db F) → s.db ≡ some db → s ≡ record s { db = some db }
  with_own_db s db k = ap (λ d. record s { db = d }) k

  same_storage :
      (p : Option (Storage F)) (s : Storage F) (db : Db F)
      → p ≡ some s
      → s.db ≡ some db
      → p ≡ with_db s db
  same_storage p s db e k = e ∙ ap some (with_own_db s db k)

module _ {F : Type 0} ⦃fl : Float F⦄ ⦃u : Unicode⦄ where
  -- From a worker over an open database whose writes succeed, after any interleaving of senders,
  -- ticks, toggles and a stop that leaves the queue and the batch empty, a summary that is returned
  -- has the counts of requests, successes, failures and samples and the token sums (total, prompt,
  -- completion, reasoning, cached and cache creation) of the selected ones among the events that
  -- were stored, in the batch and in the queue at the start and those that were accepted since.
  pub get_summary_after_run :
      (writing faults faults' : Faults) (quiet : NoFaults writing) (window : QueryWindow)
      (provider : Text) {w w' : Worker F} (r : Reach writing w w') (st : SummaryStats F)
      → IsLive w.storage
      → w'.queue ≡ []
      → w'.batch ≡ []
      → get_summary faults faults' window provider w'.storage ≡ ok st
      → CountsEvents (selected window provider (ledger w ++ accepted_by r)) st
  get_summary_after_run writing faults faults' quiet window provider {w} {w'} r st live q b h =
      let (s, db, e, edb, is_open) = Reach-IsLive writing quiet r live in
      let at : w'.storage ≡ with_db s db = same_storage w'.storage s db e edb in
      let counted =
        get_summary-CountsEvents faults faults' window provider s db st
          (ap (get_summary faults faults' window provider) (sym at) ∙ h) in
      let all : map content db.events ≡ ledger w ++ accepted_by r =
        sym (flushed_ledger w' s db at q b) ∙ ledger-Reach writing quiet r live in
      subst (λ es. CountsEvents es st)
        (sym (selected-content window provider db.events) ∙ ap (selected window provider) all)
        (CountsEvents-content counted)
