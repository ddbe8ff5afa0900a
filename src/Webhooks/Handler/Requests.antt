-- ===== src/Webhooks/Handler/Requests.antt =====
-- Requests are checked, and those that were answered are not processed again.
use ydb_qdrant.Prelude.{
  ℕ, ◌++◌, Bool, true, false, ◌||◌, ◌==◌, ◌≡◌, ◌≢◌, ◌↔◌, ◌⊎◌, refl, ap, sym, ◌∙◌, inl, inr, arith,
  length, Bool-cases, Option, none, some, Option-cases,
}
use ydb_qdrant.Text.{Text, codes, is_empty, trim, text_eq}
use ydb_qdrant.Text.Laws.{text_eq_iff, text_eq_refl}
use ydb_qdrant.Json.{Json}
use ydb_qdrant.Webhooks.Fallback.{create_webhook_signature, verify_webhook_signature, Deps, State}
use ydb_qdrant.Webhooks.Handler.{
  Request, Reply, failure, success, Answer, replied, threw, deliver, header, webhook_handler,
}
use ydb_qdrant.Webhooks.Handler.Delivery.{deliver-duplicate, deliver-marked}

abbrev code_of : Answer → ℕ
code_of (replied c r) = c
code_of threw = 0

-- The header of a signature is, but for white space around it, the prefix and the digest of the body
-- under the secret.
abbrev pub IsSigned : Deps → Request → Type 0
IsSigned deps req =
    (raw : Text) × (req.signature ≡ some raw)
    × (trim raw ≡ codes "sha256=" ++ deps.hmac deps.webhook_secret req.body)

text_eq-length : (s t : Text) → text_eq s t ≡ true → (length s == length t) ≡ true
text_eq-length s t e =
    let same : length s ≡ length t = ap length ((text_eq_iff s t).0 e) in ground arith

-- The checks of the prefix and of the length let every equal text pass.
verify-text_eq :
    (hmac : Text → Text → Text) (body secret raw : Text)
    → (verify_webhook_signature hmac body secret (some raw) ≡ true)
      ↔ (trim raw ≡ codes "sha256=" ++ hmac secret body)
unfolding verify_webhook_signature create_webhook_signature
verify-text_eq hmac body secret raw = (
  λ h. (text_eq_iff (trim raw) expected).0 (ground arith),
  λ e. simp (
    e,
    verify_webhook_signature,
    text_eq-length expected expected (text_eq_refl expected),
    text_eq_refl expected,
  ),
)
  where
    expected : Text
    expected = codes "sha256=" ++ hmac secret body

verify_iff :
    (deps : Deps) (req : Request)
    → (verify_webhook_signature deps.hmac req.body deps.webhook_secret req.signature ≡ true)
      ↔ IsSigned deps req
unfolding verify_webhook_signature
verify_iff deps req = go req.signature
  where
    go :
        (signature : Option Text)
        → (verify_webhook_signature deps.hmac req.body deps.webhook_secret signature ≡ true) ↔ (
            (raw : Text) × (signature ≡ some raw)
            × (trim raw ≡ codes "sha256=" ++ deps.hmac deps.webhook_secret req.body))
    go none = (λ h. cc, λ (raw, e, t). cc)
    go (some raw) =
        let (a, b) = verify-text_eq deps.hmac req.body deps.webhook_secret raw in
        (λ h. (raw, refl, a h), λ (r, e, t). let same : raw ≡ r = cc in b (rw same t))

module _ (deps : Deps) (req : Request) (s : State) where
  -- The checks do not depend on the state.
  answered-deliver :
      (r : Reply)
      → (webhook_handler deps req s).1 ≡ replied 200 r
      → (payload : Json) × ((q : State)
          → webhook_handler deps req q
            ≡ deliver deps (header req.delivery) (header req.event) payload q)
  unfolding webhook_handler
  answered-deliver r h =
      elim (Bool-cases (is_empty (header req.delivery) || is_empty (header req.event))) [
        | inl e ↦
            let clash = rw (e, webhook_handler) at h in absurd (omega (arith, ap code_of clash))
        | inr e ↦
            elim (Bool-cases
              (verify_webhook_signature deps.hmac req.body deps.webhook_secret req.signature)) [
                | inr f ↦
                    let clash = rw (e, f, webhook_handler) at h in
                    absurd (omega (arith, ap code_of clash))
                | inl f ↦ elim (Option-cases (deps.parse req.body)) [
                  | inl g ↦
                      let clash = rw (e, f, g, webhook_handler) at h in
                      absurd (omega (arith, ap code_of clash))
                  | inr (payload, g) ↦ (payload, λ q. rw (e, f, g, webhook_handler))
                ]
              ]
      ]

  -- Once a request has been answered with status 200, sending it again is answered as a duplicate
  -- and changes nothing: its jobs are queued once.
  pub webhook_handler-twice :
      (r : Reply)
      → (webhook_handler deps req s).1 ≡ replied 200 r
      → let s' = (webhook_handler deps req s).0 in
        webhook_handler deps req s' ≡ (s', replied 200 (success 0 (codes "duplicate")))
  webhook_handler-twice r h =
      let (payload, through) = answered-deliver r h in
      let id = header req.delivery in
      let event = header req.event in
      let (reserves, marked, _) =
        deliver-marked deps id event payload s 200 r
          (ap (λ (p : State × Answer). p.1) (sym (through s)) ∙ h) in
      rw (through s) (
        through (deliver deps id event payload s).0
        ∙ deliver-duplicate deps id event payload (deliver deps id event payload s).0 reserves
            marked)

  abbrev lacks_header : Bool
  lacks_header = is_empty (header req.delivery) || is_empty (header req.event)

  lacking :
      lacks_header ≡ true
      → webhook_handler deps req s
        ≡ (s, replied 400 (failure (codes "missing GitHub delivery or event header")))
  unfolding webhook_handler
  lacking e = rw (e, webhook_handler) refl

  unsigned :
      lacks_header ≡ false
      → verify_webhook_signature deps.hmac req.body deps.webhook_secret req.signature ≡ false
      → webhook_handler deps req s ≡ (s, replied 401 (failure (codes "invalid signature")))
  unfolding webhook_handler
  unsigned e f = rw (e, f, webhook_handler) refl

  -- What is signed is refused only for its body.
  not_refused :
      (r : Reply)
      → lacks_header ≡ false
      → verify_webhook_signature deps.hmac req.body deps.webhook_secret req.signature ≡ true
      → (webhook_handler deps req s).1 ≢ replied 401 r
  unfolding webhook_handler
  not_refused r e f h = elim (Option-cases (deps.parse req.body)) [
    | inl g ↦
        let clash = rw (e, f, g, webhook_handler) at h in absurd (omega (arith, ap code_of clash))
    | inr (payload, g) ↦
        let (_, _, other) =
          deliver-marked deps (header req.delivery) (header req.event) payload s 401 r
            (rw (e, f, g, webhook_handler) at h) in
        absurd (omega (arith, other))
  ]

  -- A request is answered 401 exactly if it has both headers but no signature header that is, but
  -- for white space around it, the prefix sha256= and the digest of its body under the secret; and
  -- a request that changes anything has such a header.
  pub webhook_handler-IsSigned :
      (((webhook_handler deps req s).1 ≡ replied 401 (failure (codes "invalid signature"))) ↔ (
        ((is_empty (header req.delivery) || is_empty (header req.event)) ≡ false)
        × ¬ IsSigned deps req))
      × (((webhook_handler deps req s).0 ≡ s) ⊎ IsSigned deps req)
  webhook_handler-IsSigned =
      let (signed, checked) = verify_iff deps req in
      elim (Bool-cases lacks_header) [
        | inl e ↦ (
          (
            λ h. absurd (
                omega (arith, ap code_of (sym (ap (λ (p : State × Answer). p.1) (lacking e)) ∙ h))),
            λ (f, _). let clash : true ≡ false = sym e ∙ f in cc,
          ),
          inl (ap (λ (p : State × Answer). p.0) (lacking e)),
        )
        | inr e ↦
            elim (Bool-cases
              (verify_webhook_signature deps.hmac req.body deps.webhook_secret req.signature)) [
                | inl f ↦ (
                  (λ h. absurd (not_refused _ e f h), λ (_, n). absurd (n (signed f))),
                  inr (signed f),
                )
                | inr f ↦ (
                  (
                    λ h. (e, λ k. let clash : true ≡ false = sym (checked k) ∙ f in cc),
                    λ _. ap (λ (p : State × Answer). p.1) (unsigned e f),
                  ),
                  inl (ap (λ (p : State × Answer). p.0) (unsigned e f)),
                )
              ]
      ]
