-- ===== src/Counter/Forward.antt =====
-- incrementCounter while the device catches up with the counter that it had before a loss of power.
use ravens.Base.{
  ℕ, zero, suc, ◌+◌, ◌≡◌, ◌≤◌, ◌<◌, Bool, true, false, Option, some, arith, ◌==◌, if◌then◌else◌,
}
use ravens.Counter.{increment_counter}
use ravens.Decoder.Reader.{size_mod}
use ravens.Device.{Device, M, ok, pure, ◌>>=◌}
use ravens.Platform.{Platform}

-- `n` calls of incrementCounter in a row.
unfoldable pub increments :
    Platform → ℕ → (counter old_counter : ℕ) → Option Bool → M (ℕ × Option Bool)
increments p zero counter old fast = pure (counter, fast)
increments p (suc n) counter old fast = do
  (counter', fast') ← increment_counter p counter old fast
  increments p n counter' old fast'

step_fast :
    (p : Platform) (counter old : ℕ) (d : Device)
    → counter < old
    → old < size_mod
    → increment_counter p counter old (some true) d
      ≡ ok (counter + 1, (if counter + 1 == old then some false else some true)) d
unfolding increment_counter
step_fast p counter old d below fits = ground arith

-- From a counter below the old one, and not past it: fast-forwarding counts without a change to the device, and ends exactly at the old counter: up to
-- there `fastForward` is set, and there it is cleared.
pub increments-fast :
    (p : Platform) (n counter old : ℕ) (d : Device)
    → counter < old
    → counter + n ≤ old
    → old < size_mod
    → increments p n counter old (some true) d
      ≡ ok (counter + n, some (if counter + n == old then false else true)) d
unfolding increments
increments-fast p zero counter old d below reach fits = ground arith
increments-fast p (suc zero) counter old d below reach fits =
    rw (step_fast p counter old d below fits) (ground arith)
increments-fast p (suc (suc n)) counter old d below reach fits = ground (
  arith,
  step_fast p counter old d below fits,
  increments-fast p (suc n) (counter + 1) old d (omega arith) (omega arith) fits,
)
