-- ===== src/Timeouts/Once.antt =====
-- Whatever happens, one response, and no deadline for a body that is there.
use ydb_qdrant.Prelude.{
  ℕ, [], ◌∷◌, ◌++◌, Bool, true, false, ◌||◌, if◌then◌else◌, ◌≡◌, ◌⊎◌, inl, inr, refl, ap, ◌∙◌, none,
}
use ydb_qdrant.Timeouts.{
  UpsertTimeoutPhase, body, parse, processing, Timer, Exchange, Answer, request_timeout, answer,
  is_request_timeout, send, fire, clear_upsert_timeout, cleared_phase,
  mark_upsert_request_timed_out, respond_upsert_request_timed_out, install_upsert_timeout,
}
use ydb_qdrant.Timeouts.Runs.{reply, handle_error}

-- Either nothing was sent, or one answer, which is that of a deadline if the request timed out.
abbrev pub IsAnswered : Exchange → Type 0
IsAnswered x =
    ((x.answers ≡ [])
      × (x.headers_sent ≡ false)
      × (x.writable_ended ≡ false)
      × (x.timed_out ≡ false)
      × (x.timeout_phase ≡ none))
    ⊎ ((x.headers_sent ≡ true)
        × (a : Answer) × (x.answers ≡ a ∷ [])
        × (x.timed_out ≡ is_request_timeout a))

pub if-keeps {ℓ} :
    {A : Type ℓ} (P : A → Type 0) (c : Bool) {a b : A}
    → (c ≡ true → P a)
    → (c ≡ false → P b)
    → P (if c then a else b)
if-keeps P true h k = h refl
if-keeps P false h k = k refl

send-IsAnswered :
    (x : Exchange) (status : ℕ)
    → IsAnswered x
    → x.headers_sent ≡ false
    → IsAnswered (send x (answer status))
unfolding send
send-IsAnswered x status (inl (n, h, w, t, p)) e =
    inr (refl, answer status, ap (λ rs. rs ++ answer status ∷ []) n, t)
send-IsAnswered x status (inr (h, a, n, t)) e = cc

pub or_false : (a b : Bool) → (a || b) ≡ false → a ≡ false
or_false true b h = h
or_false false b h = refl

-- The guard of a late answer.
abbrev pub is_closed : Exchange → Bool
is_closed x = x.headers_sent || x.writable_ended || x.timed_out

pub not_sent : (x : Exchange) → is_closed x ≡ false → x.headers_sent ≡ false
not_sent x e = or_false x.headers_sent x.writable_ended (or_false _ x.timed_out e)

pub reply-IsAnswered : (x : Exchange) (status : ℕ) → IsAnswered x → IsAnswered (reply x status)
unfolding reply
reply-IsAnswered x status h =
    if-keeps IsAnswered (is_closed x) (λ e. h) (λ e. send-IsAnswered x status h (not_sent x e))

pub handle_error-IsAnswered :
    (x : Exchange) (status : ℕ) → IsAnswered x → IsAnswered (handle_error x status)
unfolding handle_error
handle_error-IsAnswered x status h =
    if-keeps IsAnswered _ (λ e. h) (λ e. send-IsAnswered x status h (or_false _ _ e))

pub clear-IsAnswered :
    (x : Exchange) (phase : UpsertTimeoutPhase)
    → IsAnswered x
    → IsAnswered (clear_upsert_timeout x phase)
unfolding clear_upsert_timeout
clear-IsAnswered x body h = h
clear-IsAnswered x parse h = h
clear-IsAnswered x processing h = h

pub install-IsAnswered :
    (x : Exchange) (ms : ℕ) (phase : UpsertTimeoutPhase)
    → IsAnswered x
    → IsAnswered (install_upsert_timeout x ms phase)
unfolding install_upsert_timeout
install-IsAnswered x ms body h = if-keeps IsAnswered _ (λ e. h) (λ e. h)
install-IsAnswered x ms parse h = if-keeps IsAnswered _ (λ e. h) (λ e. h)
install-IsAnswered x ms processing h = if-keeps IsAnswered _ (λ e. h) (λ e. h)

sent_timeout-IsAnswered :
    (x : Exchange) (ms : ℕ) (phase : UpsertTimeoutPhase)
    → IsAnswered x
    → x.headers_sent ≡ false
    → IsAnswered (send (mark_upsert_request_timed_out x ms phase) request_timeout)
unfolding send mark_upsert_request_timed_out
sent_timeout-IsAnswered x ms phase (inl (n, h, w, t, p)) e =
    inr (refl, request_timeout, ap (λ rs. rs ++ request_timeout ∷ []) n, refl)
sent_timeout-IsAnswered x ms phase (inr (h, a, n, t)) e = cc

clear-headers_sent :
    (x : Exchange) (phase : UpsertTimeoutPhase)
    → (clear_upsert_timeout x phase).headers_sent ≡ x.headers_sent
unfolding clear_upsert_timeout
clear-headers_sent x body = refl
clear-headers_sent x parse = refl
clear-headers_sent x processing = refl

pub respond-IsAnswered :
    (x : Exchange) (ms : ℕ) (phase : UpsertTimeoutPhase)
    → IsAnswered x
    → IsAnswered (respond_upsert_request_timed_out x ms phase).0
unfolding respond_upsert_request_timed_out
respond-IsAnswered x ms phase h =
    if-keeps (λ (p : Exchange × Bool). IsAnswered (p.0)) (is_closed x) {a = (x, false)} (λ e. h)
      (λ e.
        sent_timeout-IsAnswered (clear_upsert_timeout x (cleared_phase phase)) ms phase
          (clear-IsAnswered x (cleared_phase phase) h)
          (clear-headers_sent x (cleared_phase phase) ∙ not_sent x e))

pub fire-IsAnswered : (x : Exchange) (t : Timer) → IsAnswered x → IsAnswered (fire x t)
unfolding fire
fire-IsAnswered x t h = respond-IsAnswered _ t.timeout_ms t.phase h
