-- ===== src/Server/Slots.antt =====
-- The concurrency limit of HandleToolCall: any number of calls, each of which waits for a slot, runs, and
-- gives its slot back, in any interleaving. The semaphore is the buffered channel of internal/server:
-- `in_use` is its length.
use jig_mcp.Prelude.{
  Run, run_keeps, ℕ, ◌+◌, ◌-◌, ◌≤◌, ◌<◌, List, [], ◌∷◌, ◌++◌, ◌≡◌, refl, ◌∙◌, ap, arith,
}

-- A call before the select, with a slot, or done (run, panicked, or rejected).
pub data Phase : Type 0 where
  waiting running done : Phase

pub record Pool : Type 0 where
  pub capacity : ℕ
  pub in_use : ℕ
  pub calls : List Phase

-- What one goroutine may do next. A send to the channel goes through only below the capacity; the call may
-- be rejected, or its timeout fire, at any time; the deferred receive frees the slot whether the handler
-- returned or panicked.
pub data Step (p : Pool) : Pool → Type 0 where
  arrive : Step p (record p { calls = p.calls ++ (waiting ∷ []) })
  acquire :
      (before after : List Phase)
      → p.calls ≡ before ++ (waiting ∷ after)
      → p.in_use < p.capacity
      → Step p (record p { in_use = p.in_use + 1; calls = before ++ (running ∷ after) })
  time_out :
      (before after : List Phase)
      → p.calls ≡ before ++ (waiting ∷ after)
      → Step p (record p { calls = before ++ (done ∷ after) })
  release :
      (before after : List Phase)
      → p.calls ≡ before ++ (running ∷ after)
      → Step p (record p { in_use = p.in_use - 1; calls = before ++ (done ∷ after) })

abbrev pub Reach : Pool → Pool → Type 0
Reach = Run Step

abbrev pub is_running : Phase → ℕ
is_running waiting = 0
is_running running = 1
is_running done = 0

unfoldable pub count_running : List Phase → ℕ
count_running [] = 0
count_running (c ∷ cs) = is_running c + count_running cs

pub record IsValid (p : Pool) : Type 0 where
  pub counted : p.in_use ≡ count_running p.calls
  pub bounded : p.in_use ≤ p.capacity

count_running-append :
    (before : List Phase) (c : Phase) (after : List Phase)
    → count_running (before ++ (c ∷ after))
      ≡ count_running before + is_running c + count_running after
unfolding count_running
count_running-append [] c after = omega arith
count_running-append (b ∷ before) c after = omega (arith, count_running-append before c after)

counted_at :
    {p : Pool} (before : List Phase) (c : Phase) (after : List Phase)
    → IsValid p
    → p.calls ≡ before ++ (c ∷ after)
    → p.in_use ≡ count_running before + is_running c + count_running after
counted_at before c after v e = v.counted ∙ ap count_running e ∙ count_running-append before c after

Step-IsValid : {p q : Pool} → Step p q → IsValid p → IsValid q
unfolding count_running
Step-IsValid {p} arrive v = record {
  counted = omega (arith, v.counted, count_running-append p.calls waiting []);
  bounded = v.bounded;
}
Step-IsValid (acquire before after e room) v = record {
  counted =
      omega (arith, counted_at before waiting after v e, count_running-append before running after);
  bounded = omega arith;
}
Step-IsValid (time_out before after e) v = record {
  counted =
      omega (arith, counted_at before waiting after v e, count_running-append before done after);
  bounded = v.bounded;
}
Step-IsValid (release before after e) v = record {
  counted =
      omega (arith, counted_at before running after v e, count_running-append before done after);
  bounded = omega (arith, v.bounded);
}

abbrev pub empty_pool : ℕ → Pool
empty_pool n = record { capacity = n; in_use = 0; calls = [] }

Step-capacity : {p q : Pool} → Step p q → q.capacity ≡ p.capacity
Step-capacity arrive = refl
Step-capacity (acquire before after e room) = refl
Step-capacity (time_out before after e) = refl
Step-capacity (release before after e) = refl

Reach-capacity : {p q : Pool} → Reach p q → q.capacity ≡ p.capacity
Reach-capacity {p} r =
    run_keeps (λ q. q.capacity ≡ p.capacity) (λ t u s e. Step-capacity s ∙ e) r refl

-- Whatever the calls and their interleaving, the length of the channel is the number of calls that are
-- running, and that is never above the limit.
pub slots_bounded :
    (n : ℕ) {p : Pool}
    → Reach (empty_pool n) p
    → (p.in_use ≡ count_running p.calls) × (count_running p.calls ≤ n)
unfolding count_running
slots_bounded n r =
    let v =
      run_keeps IsValid (λ t u s v. Step-IsValid s v) r
        (record { counted = refl; bounded = omega arith }) in
    (v.counted, omega (arith, v.counted, v.bounded, Reach-capacity r))

-- No slot is lost: once no call is running, the channel is empty, and below the limit a waiting call can
-- take a slot.
slots_available :
    (n : ℕ) {p : Pool} (before after : List Phase)
    → Reach (empty_pool n) p
    → p.calls ≡ before ++ (waiting ∷ after)
    → count_running p.calls < n
    → Step p (record p { in_use = p.in_use + 1; calls = before ++ (running ∷ after) })
slots_available n before after r e room =
    acquire before after e (omega (arith, (slots_bounded n r).0, Reach-capacity r))
