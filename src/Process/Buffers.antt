-- ===== src/Process/Buffers.antt =====
-- The memory that the C interface of main.go hands to the host.
use cli_control_account.Base.{
  ℕ, suc, ◌≤◌, ◌<◌, ◌≡◌, refl, ◌∙◌, sym, ap, subst, inl, inr, List, [], ◌∷◌, true, false, not, ◌==◌,
  Option, none, some, arith, length, keep, All, Bool-cases, Option-cases,
}
use cli_control_account.Text.{Text, Unicode}
use cli_control_account.Float.{Float}
use cli_control_account.Plugin.{Envelope, panicked}
use cli_control_account.Process.{
  Memory, clear_response, write_response, plugin_free, drop_buffer, pointer, go_bytes, Process,
  ProcessEnv, finish_call, is_panicked, call_on, plugin_call,
}

-- Every block was allocated below the next address.
abbrev pub IsFresh : Memory → Type 0
IsFresh m = All (λ b. b.0 < m.next) m.blocks

-- What a call does to the memory: either it allocates nothing and its buffer points nowhere, or it
-- allocates one block, and its buffer points to this block and has its length.
pub data HandsOver (m m' : Memory) : Type 0 where
  nothing : m'.blocks ≡ m.blocks → m'.next ≡ m.next → pointer m' ≡ none → HandsOver m m'
  one_block :
      (raw : Text)
      → m'.blocks ≡ (m.next, raw) ∷ m.blocks
      → m'.next ≡ suc m.next
      → m'.response ≡ some (record { ptr = some m.next; len = length raw })
      → HandsOver m m'

pointer-clear_response : (m : Memory) → pointer (clear_response m) ≡ none
unfolding clear_response
pointer-clear_response m = ground arith

write_response_empty : (m : Memory) → write_response [] m ≡ m
unfolding write_response
write_response_empty m = ground arith

write_response_no_buffer : (raw : Text) (m : Memory) → m.response ≡ none → write_response raw m ≡ m
unfolding write_response
write_response_no_buffer raw m e = ground arith

write_response-HandsOver :
    (raw : Text) (m : Memory) → pointer m ≡ none → HandsOver m (write_response raw m)
write_response-HandsOver [] m h = rw (write_response_empty m) (nothing refl refl h)
write_response-HandsOver (c ∷ raw) m h = elim (Option-cases m.response) [
  | inl e ↦ rw (write_response_no_buffer (c ∷ raw) m e) (nothing refl refl h)
  | inr (b, e) ↦
      one_block (c ∷ raw) (unfold write_response in rw e refl) (unfold write_response in rw e refl)
        (unfold write_response in rw e refl)
]

clear_response_keeps :
    (m : Memory) → ((clear_response m).blocks ≡ m.blocks) × ((clear_response m).next ≡ m.next)
unfolding clear_response
clear_response_keeps m = (ground arith, ground arith)

after_clear_response : {m m' : Memory} → HandsOver (clear_response m) m' → HandsOver m m'
after_clear_response {m} (nothing e k p) =
    let (b, n) = clear_response_keeps m in nothing (e ∙ b) (k ∙ n) p
after_clear_response {m} (one_block raw e k r) =
    let (b, n) = clear_response_keeps m in
    one_block raw (rw (e, b, n) refl) (rw (k, n) refl) (rw (r, n) refl)

drop_nothing : (m : Memory) → pointer m ≡ none → drop_buffer m ≡ m
unfolding drop_buffer
drop_nothing m h = ground arith

below_differs : {x a : ℕ} → x < a → (x == a) ≡ false
below_differs h = ground arith

same_address : (a : ℕ) → (a == a) ≡ true
same_address a = ground arith

raise : (a : ℕ) (bs : List (ℕ × Text)) → All (λ b. b.0 < a) bs → All (λ b. b.0 < suc a) bs
raise a [] h = tt
raise a (b ∷ bs) h = (omega (arith, h.0), raise a bs h.1)

keep_others :
    (a : ℕ) (bs : List (ℕ × Text)) → All (λ b. b.0 < a) bs → keep (λ b. not (b.0 == a)) bs ≡ bs
keep_others a [] h = refl
keep_others a (b ∷ bs) h =
    let other : (b.0 == a) ≡ false = below_differs h.0 in
    rw other (ap (λ r. b ∷ r) (keep_others a bs h.1))

HandsOver-IsFresh : {m m' : Memory} → HandsOver m m' → IsFresh m → IsFresh m'
HandsOver-IsFresh {m} (nothing e k p) h = rw (e, k) h
HandsOver-IsFresh {m} (one_block raw e k r) h =
    rw e
      (omega (arith, k), subst (λ n. All (λ b. b.0 < n) m.blocks) (sym k) (raise m.next m.blocks h))

-- The host frees the pointer of the buffer.
free_HandsOver :
    {m m' : Memory} → HandsOver m m' → IsFresh m → (plugin_free (pointer m') m').blocks ≡ m.blocks
unfolding plugin_free
free_HandsOver {m} (nothing e k p) h = rw p e
free_HandsOver {m} (one_block raw e k r) h =
    rw (r, e, same_address m.next) (keep_others m.next m.blocks h)

module _ {F : Type 0} where
  finish_call-HandsOver :
      (c : ProcessEnv F) (envelope : Envelope F) (m : Memory)
      → pointer m ≡ none
      → HandsOver m (finish_call c envelope m).1
  unfolding finish_call
  finish_call-HandsOver c envelope m h = elim (Bool-cases (is_panicked envelope)) [
    | inl e ↦ rw (e, drop_nothing m h) (write_response-HandsOver _ m h)
    | inr e ↦ elim (Option-cases (c.marshal envelope)) [
      | inl n ↦ rw (e, n) (write_response-HandsOver _ m h)
      | inr (raw, n) ↦ rw (e, n) (write_response-HandsOver raw m h)
    ]
  ]

  finish_call_code :
      (c : ProcessEnv F) (envelope : Envelope F) (m : Memory) → (finish_call c envelope m).0 ≤ 1
  unfolding finish_call
  finish_call_code c envelope m = ground arith

module _ {F : Type 0} ⦃fl : Float F⦄ ⦃u : Unicode⦄ where
  call_on-HandsOver :
      (c : ProcessEnv F) (method : Text) (m : Memory) (p : Process F) (bytes : Option Text)
      → pointer m ≡ none
      → HandsOver m (call_on c method m p bytes).1.memory
  call_on-HandsOver c method m p none h = finish_call-HandsOver c panicked m h
  call_on-HandsOver c method m p (some bytes) h = finish_call-HandsOver c _ m h

  call_on_code :
      (c : ProcessEnv F) (method : Text) (m : Memory) (p : Process F) (bytes : Option Text)
      → (call_on c method m p bytes).0 ≤ 1
  call_on_code c method m p none = finish_call_code c panicked m
  call_on_code c method m p (some bytes) = finish_call_code c _ m

  plugin_call_code :
      (c : ProcessEnv F) (method request : Option Text) (p : Process F)
      → (plugin_call c method request p).0 ≤ 1
  unfolding plugin_call
  plugin_call_code c none request p = omega arith
  plugin_call_code c (some method) request p =
      call_on_code c method (clear_response p.memory) p (go_bytes request)

  plugin_call-HandsOver :
      (c : ProcessEnv F) (method request : Option Text) (p : Process F)
      → HandsOver p.memory (plugin_call c method request p).1.memory
  unfolding plugin_call
  plugin_call-HandsOver c none request p =
      after_clear_response
        (write_response-HandsOver _ (clear_response p.memory) (pointer-clear_response p.memory))
  plugin_call-HandsOver c (some method) request p = after_clear_response (
      call_on-HandsOver c method (clear_response p.memory) p (go_bytes request)
        (pointer-clear_response p.memory))

  -- Whatever the host calls, with or without a buffer, and whatever goes wrong, the code is 0 or 1
  -- and the host gets at most one block, so that the host's free of the pointer in its buffer leaves
  -- the memory with the blocks that it had before the call.
  pub plugin_free-plugin_call :
      (c : ProcessEnv F) (method request : Option Text) (p : Process F)
      → IsFresh p.memory
      → let (rc, q) = plugin_call c method request p in
        (rc ≤ 1)
        × HandsOver p.memory q.memory
        × ((plugin_free (pointer q.memory) q.memory).blocks ≡ p.memory.blocks)
        × IsFresh q.memory
  plugin_free-plugin_call c method request p h =
      let given = plugin_call-HandsOver c method request p in
      (
        plugin_call_code c method request p,
        given,
        free_HandsOver given h,
        HandsOver-IsFresh given h,
      )
