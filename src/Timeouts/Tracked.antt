-- ===== src/Timeouts/Tracked.antt =====
-- The callback that clears a body's deadline belongs to the only timer of that phase.
use mathlib.Core.Path.{subst}
use ydb_qdrant.Prelude.{
  ℕ, List, [], ◌∷◌, Bool, true, false, not, ◌==◌, leb, get_or, ◌≡◌, ◌⊎◌, inl, inr, refl, sym, ap,
  ◌∙◌, Option, none, some, filter, All, All-filter, All-append, arith,
}
use ydb_qdrant.Timeouts.{
  UpsertTimeoutPhase, body, parse, processing, is_body, Timer, Exchange, fire, clear_timer,
  clear_upsert_timeout, cleared_phase, mark_upsert_request_timed_out,
  respond_upsert_request_timed_out, install_upsert_timeout, send,
}
use ydb_qdrant.Timeouts.Runs.{armed}
use ydb_qdrant.Timeouts.Once.{IsAnswered, if-keeps, is_closed, not_sent}

abbrev pub Tracks : Option ℕ → Timer → Type 0
Tracks c t = (is_body t.phase ≡ false) ⊎ (c ≡ some t.id)

abbrev pub IsTracked : Exchange → Type 0
IsTracked x = All (Tracks x.clear_body_timeout) x.timers

pub clear_timer-Tracks :
    (c o : Option ℕ) (ts : List Timer) → All (Tracks c) ts → All (Tracks c) (clear_timer o ts)
unfolding clear_timer
clear_timer-Tracks c none ts h = h
clear_timer-Tracks c (some n) ts h = All-filter (Tracks c) _ ts h

cleared_own :
    (n : ℕ) (ts : List Timer)
    → All (Tracks (some n)) ts
    → All (Tracks none) (filter (λ (t : Timer). not (t.id == n)) ts)
cleared_own n [] h = tt
cleared_own n (t ∷ ts) (p, h) =
    if-keeps (All (Tracks none)) (not (t.id == n)) (λ e. (inl (kept p e), cleared_own n ts h))
      (λ e. cleared_own n ts h)
  where
    kept : Tracks (some n) t → not (t.id == n) ≡ true → is_body t.phase ≡ false
    kept (inl other) e = other
    kept (inr same) e = let eq : n ≡ t.id = ap (λ o. get_or o 0) same in grind arith

pub clear_timer-own :
    (c : Option ℕ) (ts : List Timer) → All (Tracks c) ts → All (Tracks none) (clear_timer c ts)
unfolding clear_timer
clear_timer-own none ts h = h
clear_timer-own (some n) ts h = cleared_own n ts h

pub clear-IsTracked :
    (x : Exchange) (phase : UpsertTimeoutPhase)
    → IsTracked x
    → IsTracked (clear_upsert_timeout x phase)
unfolding clear_upsert_timeout
clear-IsTracked x body h = clear_timer-own x.clear_body_timeout x.timers h
clear-IsTracked x parse h =
    clear_timer-Tracks x.clear_body_timeout x.clear_processing_timeout x.timers h
clear-IsTracked x processing h =
    clear_timer-Tracks x.clear_body_timeout x.clear_processing_timeout x.timers h

pub respond-IsTracked :
    (x : Exchange) (ms : ℕ) (phase : UpsertTimeoutPhase)
    → IsTracked x
    → IsTracked (respond_upsert_request_timed_out x ms phase).0
unfolding respond_upsert_request_timed_out send mark_upsert_request_timed_out
respond-IsTracked x ms phase h =
    if-keeps (λ (p : Exchange × Bool). IsTracked (p.0)) (is_closed x) {a = (x, false)} (λ e. h)
      (λ e. clear-IsTracked x (cleared_phase phase) h)

pub fire-IsTracked : (x : Exchange) (t : Timer) → IsTracked x → IsTracked (fire x t)
unfolding fire
fire-IsTracked x t h =
    respond-IsTracked _ t.timeout_ms t.phase
      (clear_timer-Tracks x.clear_body_timeout (some t.id) x.timers h)

pub install-IsTracked :
    (x : Exchange) (ms : ℕ) → IsTracked x → IsTracked (install_upsert_timeout x ms processing)
unfolding install_upsert_timeout
install-IsTracked x ms h =
    if-keeps IsTracked (leb ms 0) {a = x} (λ e. h)
      (λ e.
        All-append (Tracks x.clear_body_timeout) x.timers
          (record { id = x.next_timer; timeout_ms = ms; phase = processing } ∷ []) h (inl refl, tt))

-- Whether a deadline for the body has passed.
abbrev pub is_body_timeout : Option UpsertTimeoutPhase → Bool
is_body_timeout none = false
is_body_timeout (some phase) = is_body phase

-- The body's deadline is gone, and has passed or not.
abbrev pub IsSettled : Bool → Exchange → Type 0
IsSettled passed x = (x.clear_body_timeout ≡ none) × (is_body_timeout x.timeout_phase ≡ passed)

pub clear-IsSettled :
    (passed : Bool) (x : Exchange) (phase : UpsertTimeoutPhase)
    → IsSettled passed x
    → IsSettled passed (clear_upsert_timeout x phase)
unfolding clear_upsert_timeout
clear-IsSettled passed x body h = (refl, h.1)
clear-IsSettled passed x parse h = h
clear-IsSettled passed x processing h = h

-- A request without an answer has not timed out.
unset_phase : (x : Exchange) → IsAnswered x → x.headers_sent ≡ false → x.timeout_phase ≡ none
unset_phase x (inl (n, h, w, t, p)) e = p
unset_phase x (inr (h, a, n, t)) e = cc

pub respond-IsSettled :
    (passed : Bool) (x : Exchange) (ms : ℕ) (phase : UpsertTimeoutPhase)
    → is_body phase ≡ false
    → IsAnswered x
    → IsSettled passed x
    → IsSettled passed (respond_upsert_request_timed_out x ms phase).0
unfolding respond_upsert_request_timed_out send mark_upsert_request_timed_out
respond-IsSettled passed x ms phase other h s =
    if-keeps (λ (p : Exchange × Bool). IsSettled passed (p.0)) (is_closed x) {a = (x, false)}
      (λ e. s)
      (λ e. (
        (clear-IsSettled passed x (cleared_phase phase) s).0,
        other ∙ sym (ap is_body_timeout (unset_phase x h (not_sent x e))) ∙ s.1,
      ))

pub install-IsSettled :
    (passed : Bool) (x : Exchange) (ms : ℕ)
    → IsSettled passed x
    → IsSettled passed (install_upsert_timeout x ms processing)
unfolding install_upsert_timeout
install-IsSettled passed x ms h = if-keeps (IsSettled passed) _ (λ e. h) (λ e. h)

pub armed-Tracks :
    (c : Option ℕ) (n : ℕ) (ts : List Timer) (t : Timer)
    → armed n ts ≡ some t
    → All (Tracks c) ts
    → Tracks c t
armed-Tracks c n [] t e h = cc
armed-Tracks c n (u ∷ ts) t e (p, h) =
    if-keeps (λ o. o ≡ some t → Tracks c t) (u.id == n)
      (λ _ same. subst (λ o. Tracks c (get_or o u)) same p)
      (λ _ later. armed-Tracks c n ts t later h) e

pub other_phase : (t : Timer) → Tracks none t → is_body t.phase ≡ false
other_phase t (inl e) = e
other_phase t (inr e) = cc
