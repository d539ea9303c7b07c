-- ===== src/Collector/Logsock.antt =====
-- flowd/flowd.c: the errors on the log socket that `process_flow` counts, and the test by which
-- `flowd_mainloop` opens the socket again.
--
-- The time of the first error and the count are of the type `int`: each is the number of its 32 bits,
-- negative from 2 ^ 31 on, and wraps. `time` gives a number of 64 bits, which is not negative.
use network_monitoring_emula.Common.{
  ℕ, suc, ◌+◌, ◌-◌, ◌%◌, ◌^◌, ◌≤◌, ◌<◌, ◌≡◌, ◌⊎◌, refl, inl, inr, Bool, true, false, List, [], ◌∷◌,
  ◌++◌, ltb, ◌==◌, ◌&&◌, if◌then◌else◌, arith, length, ==→eq, ap, sym, ◌∙◌, Bool-cases,
}

-- `logsock_first_error` and `logsock_num_errors`.
pub record Logsock : Type 0 where
  pub first_error : ℕ
  pub num_errors : ℕ

abbrev pub no_errors : Logsock
no_errors = record { first_error = 0; num_errors = 0 }

-- What a call of `send` comes to: no error, or no socket; ENOBUFS; any other error, at the time that
-- `time` gives.
pub data Send : Type 0 where
  sent : Send
  no_buffers : Send
  failed : ℕ → Send

-- `n > 0`
is_positive : ℕ → Bool
is_positive n = ltb 0 n && ltb n (2 ^ 31)

unfoldable pub track_send : Send → Logsock → Logsock
unfolding is_positive
track_send sent s =
    let left = if is_positive s.num_errors then s.num_errors - 1 else s.num_errors in
    record { first_error = if left == 0 then 0 else s.first_error; num_errors = left }
track_send no_buffers s = s
track_send (failed now) s = record {
  first_error = if s.first_error == 0 then now % 2 ^ 32 else s.first_error;
  num_errors = (s.num_errors + 1) % 2 ^ 32;
}

abbrev pub reopen_error_count : ℕ
reopen_error_count = 128

abbrev pub reopen_delay : ℕ
reopen_delay = 60

-- The test for an open socket. A sum that is negative lies before any time.
unfoldable pub is_reopened : ℕ → Logsock → Bool
is_reopened now s =
    let due = (s.first_error + reopen_delay) % 2 ^ 32 in
    ltb reopen_error_count s.num_errors
    && ltb s.num_errors (2 ^ 31)
    && (if ltb due (2 ^ 31) then ltb due now else true)

-- The counts after the sends, the last one at the head of the list.
unfoldable pub after_sends : List Send → Logsock
after_sends [] = no_errors
after_sends (e ∷ es) = track_send e (after_sends es)

abbrev pub fails : List Send → ℕ
fails [] = 0
fails (failed now ∷ es) = suc (fails es)
fails (sent ∷ es) = fails es
fails (no_buffers ∷ es) = fails es

abbrev pub successes : List Send → ℕ
successes [] = 0
successes (failed now ∷ es) = successes es
successes (sent ∷ es) = suc (successes es)
successes (no_buffers ∷ es) = successes es

-- After each of the sends, there were as many failures among them as successes, or more.
abbrev pub IsAhead : List Send → Type 0
IsAhead [] = Unit {0}
IsAhead (e ∷ es) = (successes (e ∷ es) ≤ fails (e ∷ es)) × IsAhead es

-- The clock stands past 0, and an `int` has room for its time and the delay.
abbrev pub IsTimed : List Send → Type 0
IsTimed [] = Unit {0}
IsTimed (failed now ∷ es) = (0 < now) × (now + reopen_delay < 2 ^ 31) × IsTimed es
IsTimed (sent ∷ es) = IsTimed es
IsTimed (no_buffers ∷ es) = IsTimed es

-- A run of errors: a failure at the time `t` with no error counted before it, and the sends since,
-- among which the successes never outnumbered the failures.
pub record IsRun (es : List Send) (t n : ℕ) : Type 0 where
  pub later : List Send
  pub earlier : List Send
  pub split : es ≡ later ++ failed t ∷ earlier
  pub started : after_sends earlier ≡ no_errors
  pub ahead : IsAhead later
  pub timed : 0 < t
  pub short : t + reopen_delay < 2 ^ 31
  pub counted : n + successes later ≡ suc (fails later)

abbrev pub IsTracking : List Send → Logsock → Type 0
IsTracking es s = (s ≡ no_errors) ⊎ ((0 < s.num_errors) × IsRun es s.first_error s.num_errors)

track_sent :
    (es : List Send) (s : Logsock)
    → s.num_errors < 2 ^ 31
    → IsTracking es s
    → IsTracking (sent ∷ es) (track_send sent s)
unfolding track_send
track_sent es s small (inl fresh) = inl (rw fresh refl)
track_sent es s small (inr (some_errors, run)) =
    let positive : (ltb 0 s.num_errors && ltb s.num_errors (2 ^ 31)) ≡ true = ground arith in
    rw (positive, track_send)
      (elim (Bool-cases (s.num_errors - 1 == 0)) [
        | inl last ↦ inl (rw (last, track_send) (rw (==→eq (s.num_errors - 1) 0 last) refl))
        | inr more ↦
            let left : 0 < s.num_errors - 1 = ground arith in
            inr (
              rw (more, track_send)
                (
                  left,
                  record {
                    later = sent ∷ run.later;
                    earlier = run.earlier;
                    split = ap (◌∷◌ sent) run.split;
                    started = run.started;
                    ahead = (omega (arith, run.counted), run.ahead);
                    timed = run.timed;
                    short = run.short;
                    counted = omega (arith, run.counted);
                  },
                ))
      ])

track_no_buffers :
    (es : List Send) (s : Logsock)
    → IsTracking es s
    → IsTracking (no_buffers ∷ es) (track_send no_buffers s)
unfolding track_send
track_no_buffers es s (inl fresh) = inl fresh
track_no_buffers es s (inr (some_errors, run)) = inr (
  some_errors,
  record {
    later = no_buffers ∷ run.later;
    earlier = run.earlier;
    split = ap (◌∷◌ no_buffers) run.split;
    started = run.started;
    ahead = (omega (arith, run.counted), run.ahead);
    timed = run.timed;
    short = run.short;
    counted = run.counted;
  },
)

track_failed :
    (es : List Send) (s : Logsock) (now : ℕ)
    → s ≡ after_sends es
    → 0 < now
    → now + reopen_delay < 2 ^ 31
    → s.num_errors + 1 < 2 ^ 31
    → IsTracking es s
    → IsTracking (failed now ∷ es) (track_send (failed now) s)
unfolding track_send
track_failed es s now e clock room small (inl fresh) =
    let whole : now % 2 ^ 32 ≡ now = omega arith in
    inr (
      rw (ap (λ (u : Logsock). u.first_error) fresh, track_send)
        (rw (ap (λ (u : Logsock). u.num_errors) fresh, track_send)
          (rw whole (
            omega arith,
            record {
              later = [];
              earlier = es;
              split = refl;
              started = sym e ∙ fresh;
              ahead = tt;
              timed = clock;
              short = room;
              counted = omega arith;
            },
          ))))
track_failed es s now e clock room small (inr (some_errors, run)) =
    let kept : (s.first_error == 0) ≡ false = ground (arith, run.timed) in
    let more : (s.num_errors + 1) % 2 ^ 32 ≡ s.num_errors + 1 = omega arith in
    inr (
      rw (kept, track_send)
        (rw more (
          omega arith,
          record {
            later = failed now ∷ run.later;
            earlier = run.earlier;
            split = ap (◌∷◌ (failed now)) run.split;
            started = run.started;
            ahead = (omega (arith, run.counted), run.ahead);
            timed = run.timed;
            short = run.short;
            counted = omega (arith, run.counted);
          },
        )))

num_errors-le : (es : List Send) → (after_sends es).num_errors ≤ length es
unfolding after_sends track_send
num_errors-le [] = omega arith
num_errors-le (sent ∷ es) = ground (arith, num_errors-le es)
num_errors-le (no_buffers ∷ es) = omega (arith, num_errors-le es)
num_errors-le (failed now ∷ es) = omega (arith, num_errors-le es)

-- Where the clock stands past 0 and, with the delay, before 2 ^ 31, after fewer than 2 ^ 31 sends
-- either no error is counted and no time is kept, or errors are, and the time is that of the failure
-- since which the successes never outnumbered the failures, before which no error was counted; the
-- count is what that failure and those since are more than the successes since.
pub after_sends-IsTracking :
    (es : List Send) → IsTimed es → length es < 2 ^ 31 → IsTracking es (after_sends es)
unfolding after_sends
after_sends-IsTracking [] timed few = inl refl
after_sends-IsTracking (sent ∷ es) timed few =
    track_sent es (after_sends es) (omega (arith, num_errors-le es))
      (after_sends-IsTracking es timed (omega arith))
after_sends-IsTracking (no_buffers ∷ es) timed few =
    track_no_buffers es (after_sends es) (after_sends-IsTracking es timed (omega arith))
after_sends-IsTracking (failed now ∷ es) (clock, room, timed) few =
    track_failed es (after_sends es) now refl clock room (omega (arith, num_errors-le es))
      (after_sends-IsTracking es timed (omega arith))

-- Where the clock stands past 0 and, with the delay, before 2 ^ 31 at each failure, and there are
-- fewer than 2 ^ 31 sends, the log socket is opened again only if errors are counted that began with
-- a failure longer than the delay ago, since which there were at least as many failures more than
-- successes as the limit says.
pub is_reopened_lem :
    (es : List Send) (now : ℕ)
    → IsTimed es
    → length es < 2 ^ 31
    → is_reopened now (after_sends es) ≡ true
    → (t : ℕ) × (n : ℕ) × (run : IsRun es t n) × (t + reopen_delay < now)
      × (reopen_error_count + successes run.later ≤ fails run.later)
unfolding is_reopened
is_reopened_lem es now timed few h = elim (after_sends-IsTracking es timed few) [
  | inl fresh ↦ absurd (ground (arith, ap (λ (u : Logsock). u.num_errors) fresh))
  | inr (some_errors, run) ↦
      let whole : ((after_sends es).first_error + reopen_delay) % 2 ^ 32
          ≡ (after_sends es).first_error + reopen_delay =
        omega (arith, run.short) in
      (
        (after_sends es).first_error,
        (after_sends es).num_errors,
        run,
        ground (arith, whole, run.short),
        ground (arith, run.counted),
      )
]
