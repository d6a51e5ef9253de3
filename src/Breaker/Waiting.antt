-- ===== src/Breaker/Waiting.antt =====
-- When Allow lets a caller through, and how long it makes one wait.
use phonewave.Prelude.{
  ℕ, ◌+◌, ◌≤◌, ◌<◌, ◌≡◌, ◌↔◌, ◌⊎◌, inl, inr, Bool, true, false, none, some, List, [], ◌∷◌, arith,
  ltb, not, ◌&&◌, Bool-cases, if◌then◌else◌,
}
use phonewave.Breaker.Defs.{
  CircuitBreaker, circuit_half_open, is_open_state, is_open, allow_pass, is_due, wait_duration,
  Wake, allow, wait, admitted, handle_all, Event, failure, success, handle,
}

-- The moment after which an open breaker may be probed.
abbrev pub deadline : CircuitBreaker → ℕ
deadline cb = elim cb.reset_at [ some reset ↦ reset | none ↦ cb.last_trip + cb.backoff_current ]

is_due-deadline : (now : ℕ) (cb : CircuitBreaker) → is_due now cb ≡ ltb (deadline cb) now
unfolding is_due
is_due-deadline now cb = ground arith

wait_duration-deadline :
    (now : ℕ) (cb : CircuitBreaker)
    → (deadline cb ≤ now + wait_duration now cb) × (0 < wait_duration now cb)
unfolding wait_duration
wait_duration-deadline now cb = (ground arith, ground arith)

-- A pass admits exactly when the context is not cancelled and the breaker is not open or its
-- deadline has passed. An open breaker that admits becomes half-open; otherwise a pass leaves the
-- breaker as it is.
pub allow_pass_iff :
    (now : ℕ) (done : Bool) (cb : CircuitBreaker)
    → (((allow_pass now done cb).1 ≡ admitted)
        ↔ ((done ≡ false) × ((is_open cb ≡ false) ⊎ (deadline cb < now))))
      × ((allow_pass now done cb).0 ≡ (
          if not done && is_open cb && ltb (deadline cb) now
          then record cb { state = circuit_half_open }
          else cb))
unfolding allow_pass is_open
allow_pass_iff now done cb = (
  (λ h. ground (arith, is_due-deadline now cb), λ (d, h). ground (arith, is_due-deadline now cb)),
  ground (arith, is_due-deadline now cb),
)

abbrev pub quiet : ℕ → Wake
quiet now = record { now = now; done = false; before = [] }

allow-admit :
    (t : ℕ) (ws : List Wake) (cb : CircuitBreaker)
    → (allow_pass t false cb).1 ≡ admitted
    → (allow (quiet t ∷ ws) cb).1 ≡ some admitted
unfolding allow handle_all allow_pass
allow-admit t ws cb h = rw h

allow-wait :
    (t : ℕ) (ws : List Wake) (cb : CircuitBreaker)
    → allow_pass t false cb ≡ (cb, wait (wait_duration t cb) cb.notify)
    → allow (quiet t ∷ ws) cb ≡ allow ws cb
unfolding allow handle_all
allow-wait t ws cb h = ground (arith, h)

-- A pass that is not cancelled admits, or it waits and its time is not past the deadline.
pass-cases :
    (t : ℕ) (cb : CircuitBreaker)
    → ((allow_pass t false cb).1 ≡ admitted)
      ⊎ ((allow_pass t false cb ≡ (cb, wait (wait_duration t cb) cb.notify)) × (t ≤ deadline cb))
pass-cases t cb = elim (Bool-cases (is_open_state cb.state)) [
  | inr c ↦ inl (unfold allow_pass in rw c)
  | inl o ↦ elim (Bool-cases (is_due t cb)) [
    | inl d ↦ inl (unfold allow_pass in rw (o, d))
    | inr n ↦ inr (unfold allow_pass in rw (o, n), ground (arith, is_due-deadline t cb))
  ]
]

-- If nobody else touches the breaker and the context is not cancelled, Allow returns nil in its
-- third pass at the latest, provided that each pass comes no earlier than the wait before it said.
pub allow_returns :
    (cb : CircuitBreaker) (t₁ t₂ t₃ : ℕ)
    → t₁ + wait_duration t₁ cb ≤ t₂
    → t₂ + wait_duration t₂ cb ≤ t₃
    → (allow (quiet t₁ ∷ quiet t₂ ∷ quiet t₃ ∷ []) cb).1 ≡ some admitted
allow_returns cb t₁ t₂ t₃ h k = elim (pass-cases t₁ cb) [
  | inl a ↦ allow-admit t₁ (quiet t₂ ∷ quiet t₃ ∷ []) cb a
  | inr (w, _) ↦ rw (allow-wait t₁ (quiet t₂ ∷ quiet t₃ ∷ []) cb w) (elim (pass-cases t₂ cb) [
    | inl a ↦ allow-admit t₂ (quiet t₃ ∷ []) cb a
    | inr (v, _) ↦ rw (allow-wait t₂ (quiet t₃ ∷ []) cb v) (elim (pass-cases t₃ cb) [
      | inl a ↦ allow-admit t₃ [] cb a
      | inr (_, late) ↦
          absurd (omega (arith, wait_duration-deadline t₁ cb, wait_duration-deadline t₂ cb))
    ])
  ])
]

-- No wakeup is lost: what others do to an open breaker either changes nothing of it or closes the
-- channel that its waiters hold.
pub handle-notify :
    (e : Event) (cb : CircuitBreaker)
    → is_open cb ≡ true
    → (handle e cb ≡ cb) ⊎ ((handle e cb).notify ≡ cb.notify + 1)
unfolding handle is_open
handle-notify (failure now info) cb h = ground arith
handle-notify success cb h = ground arith
