-- ===== src/SessionStore/Ttl.antt =====
-- src/services/sessionStore.js: `computeSessionTtlMs`.
use relay_cerebro_infra.Base.{ℕ, ◌+◌, ◌<◌, true, some, ◌≡◌, ltb, arith}
use relay_cerebro_infra.SessionStore.{Session, cleanup_window_ms, compute_session_ttl_ms}

-- A session that has not expired is kept until six hours past its expiry.
compute_session_ttl_ms-live :
    (now : ℕ) (s : Session) (e : ℕ)
    → s.expires_at ≡ some e
    → now < e
    → now + compute_session_ttl_ms now s ≡ e + cleanup_window_ms
unfolding compute_session_ttl_ms
compute_session_ttl_ms-live now s e h lt = ground arith

pub compute_session_ttl_ms-pos :
    (now : ℕ) (s : Session) → ltb 0 (compute_session_ttl_ms now s) ≡ true
unfolding compute_session_ttl_ms
compute_session_ttl_ms-pos now s = ground arith
