-- ===== src/Access/Limiter.antt =====
-- `FixedWindowRateLimiter` of backend/reversing_lab/api/rate_limit.py. The clock (`time.monotonic()`) and
-- the length of a window are in ticks of one size, whole numbers in place of the source's floats; a
-- call changes the table under the lock, so it is one step. It reads the clock before it takes the lock,
-- so that its time may lie before the start of the window that it finds.
use reversing_lab.Prelude.{
  ℕ, ◌+◌, ◌-◌, String, Option, none, some, List, [], ◌∷◌, if◌then◌else◌, leb,
}
use reversing_lab.Prelude.Dict.{lookup, insert}

-- (window_start_monotonic, count)
abbrev pub Hits : Type 0
Hits = ℕ × ℕ

abbrev pub Windows : Type 0
Windows = List (String × Hits)

-- self._windows.get(key, (now, 0))
abbrev pub or_new : ℕ → Option Hits → Hits
or_new now none = (now, 0)
or_new now (some h) = h

-- `if now - start >= window_seconds: start, count = now, 0`
abbrev pub roll : ℕ → ℕ → Hits → Hits
roll window now (start, count) = if leb (start + window) now then (now, 0) else (start, count)

-- The rest of `check`: the new entry, and `none` for an allowed request.
abbrev pub count_hit : ℕ → ℕ → ℕ → Hits → Hits × Option ℕ
count_hit limit window now (start, count) =
    if leb limit count
    then ((start, count), some (window + start - now))
    else ((start, count + 1), none)

unfoldable pub hit : ℕ → ℕ → ℕ → Option Hits → Hits × Option ℕ
hit limit window now entry = count_hit limit window now (roll window now (or_new now entry))

unfoldable pub check : ℕ → ℕ → ℕ → String → Windows → Windows × Option ℕ
unfolding hit
check limit window now key windows =
    let (entry, retry_after) = hit limit window now (lookup key windows) in
    (insert key entry windows, retry_after)

unfoldable pub reset : Windows → Windows
reset windows = []

-- A history of calls, each at its time with its key, and the answers that they got.
unfoldable pub serve : ℕ → ℕ → List (ℕ × String) → Windows → Windows × List (Option ℕ)
serve limit window [] windows = (windows, [])
serve limit window ((now, key) ∷ calls) windows =
    let (windows', answer) = check limit window now key windows in
    let (windows'', answers) = serve limit window calls windows' in (windows'', answer ∷ answers)
