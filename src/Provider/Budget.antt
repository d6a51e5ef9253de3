-- ===== src/Provider/Budget.antt =====
-- RetryBudgetTracker. The counters are never negative: a negative budget is taken as 0.
use Prim.Native.Nat.{min}
use phonewave.Prelude.{
  ℕ, zero, suc, ◌+◌, ◌-◌, ◌≡◌, Bool, true, false, arith, leb, ltb, if◌then◌else◌, ℤ, pos, negsuc,
}

pub record Tracker : Type 0 where
  pub initial : ℕ
  pub consumed : ℕ

abbrev pub clamp : ℤ → ℕ
clamp (pos n) = n
clamp (negsuc n) = 0

unfoldable pub new_tracker : ℤ → Tracker
new_tracker initial = record { initial = clamp initial; consumed = 0 }

unfoldable pub consume : Tracker → Tracker × Bool
consume t =
    if leb t.initial t.consumed then (t, false) else (record t { consumed = t.consumed + 1 }, true)

-- `-` stops at 0, as the code's own test does.
unfoldable pub remaining : Tracker → ℕ
remaining t = t.initial - t.consumed

unfoldable pub exhausted : Tracker → Bool
exhausted t = leb t.initial t.consumed

unfoldable pub reset : Tracker → ℤ → Tracker
reset t initial = record { initial = clamp initial; consumed = 0 }

-- Any number of calls of Consume, and how many of them were granted.
unfoldable pub consume_times : ℕ → Tracker → Tracker × ℕ
consume_times zero t = (t, 0)
consume_times (suc n) t =
    let (t', granted) = consume t in
    let (t'', more) = consume_times n t' in (t'', if granted then more + 1 else more)

exhausted-remaining : (t : Tracker) → exhausted t ≡ leb (remaining t) 0
unfolding exhausted remaining
exhausted-remaining t = ground arith

-- One call.
consume-remaining :
    (t : Tracker)
    → ((consume t).1 ≡ ltb 0 (remaining t)) × (remaining (consume t).0 ≡ remaining t - 1)
unfolding consume remaining
consume-remaining t = (ground arith, ground arith)

consume_times-granted :
    (n : ℕ) (t : Tracker)
    → ((consume_times n t).1 ≡ min n (remaining t))
      × (remaining (consume_times n t).0 ≡ remaining t - n)
unfolding consume_times
consume_times-granted zero t = (omega arith, omega arith)
consume_times-granted (suc n) t = (
  ground (arith, consume-remaining t, consume_times-granted n (consume t).0),
  ground (arith, consume-remaining t, consume_times-granted n (consume t).0),
)

-- Of n calls of Consume, exactly as many are granted as budget remains, up to n; n less remain,
-- and none below zero; the tracker is exhausted exactly if it had at most n left.
pub consume_times-remaining :
    (n : ℕ) (t : Tracker)
    → ((consume_times n t).1 ≡ min n (remaining t))
      × (remaining (consume_times n t).0 ≡ remaining t - n)
      × (exhausted (consume_times n t).0 ≡ leb (remaining t) n)
consume_times-remaining n t = (
  (consume_times-granted n t).0,
  (consume_times-granted n t).1,
  ground (arith, consume_times-granted n t, exhausted-remaining (consume_times n t).0),
)
