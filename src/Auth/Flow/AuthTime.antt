-- ===== src/Auth/Flow/AuthTime.antt =====
-- How old a provider's authentication may be.
use atrium_core.Base.{ℕ, ◌+◌, ◌*◌, ◌≤◌, ◌<◌, ◌≡◌, ◌↔◌, true, false, arith, pos}
use atrium_core.Auth.Session.{Time, Duration, second}
use atrium_core.Auth.Flow.{auth_time_fresh, auth_time_leeway, unix_epoch, max_duration}

-- For an idle timeout that leaves room for the leeway, an attested authentication counts as fresh
-- exactly if it lies no further back than the idle timeout and the leeway of 30 seconds.
pub auth_time_fresh_iff :
    (now : Time) (at : ℕ) (within : Duration)
    → 0 < at
    → within + auth_time_leeway < max_duration
    → (auth_time_fresh now (pos at) within ≡ true)
      ↔ (now ≤ (unix_epoch + at) * second + (within + auth_time_leeway))
unfolding auth_time_fresh
auth_time_fresh_iff now at within h k = (λ p. ground arith, λ p. ground arith)

-- An idle timeout within 30 seconds of the largest duration makes the sum wrap around: every
-- authentication that the provider attests, up to the present instant, counts as too old.
pub auth_time_fresh-overflow :
    (now : Time) (at : ℕ) (within : Duration)
    → within ≤ max_duration
    → max_duration < within + auth_time_leeway
    → (unix_epoch + at) * second ≤ now
    → auth_time_fresh now (pos at) within ≡ false
unfolding auth_time_fresh
auth_time_fresh-overflow now at within h k p = ground arith
