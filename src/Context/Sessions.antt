-- ===== src/Context/Sessions.antt =====
-- skynet-src/skynet_server.c: the numbers that skynet_context_newsession gives.
use m2_server.Common.{ℕ, zero, suc, ◌+◌, ◌-◌, ◌%◌, ◌^◌, ◌<◌, ◌≡◌, ◌≢◌, arith}
use m2_server.Context.{newsession}

-- The session of the call with the number `n`, counted from 0, of a context whose field is `session_id`.
abbrev pub nth_session : ℕ → ℕ → ℕ
nth_session zero session_id = newsession session_id
nth_session (suc n) session_id = nth_session n (newsession session_id)

newsession-cycle :
    (session_id : ℕ) → session_id < 2 ^ 31 → newsession session_id ≡ session_id % (2 ^ 31 - 1) + 1
unfolding newsession
newsession-cycle s h = ground arith

nth_session-cycle :
    (n session_id : ℕ)
    → session_id < 2 ^ 31
    → nth_session n session_id ≡ (session_id + n) % (2 ^ 31 - 1) + 1
nth_session-cycle zero s h = omega (arith, newsession-cycle s h)
nth_session-cycle (suc n) s h = omega (
  arith,
  newsession-cycle s h,
  nth_session-cycle n (newsession s) (omega (arith, newsession-cycle s h)),
)

-- The sessions of a context are numbers from 1 to 2^31 - 1, and a number comes again only after 2^31 - 1
-- calls: two calls that are fewer apart get different ones.
pub sessions_differ :
    (session_id n d : ℕ)
    → session_id < 2 ^ 31
    → 0 < d
    → d < 2 ^ 31 - 1
    → (0 < nth_session n session_id)
      × (nth_session n session_id < 2 ^ 31)
      × (nth_session (n + d) session_id ≢ nth_session n session_id)
sessions_differ s n d h p q = omega (arith, nth_session-cycle n s h, nth_session-cycle (n + d) s h)
