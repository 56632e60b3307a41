-- ===== src/Failure.antt =====
-- `dispatchFailure` of proxy.go: why no usable upstream response could be returned, with what the
-- handlers relay to the client.
use codex_auth_broker.Prelude.{ℕ, List, [], Option, none}
use codex_auth_broker.Prelude.Clock.{Time}
use codex_auth_broker.Prelude.Text.{Bytes}

-- `retryAfter` is the zero time where there is no hint; nil headers are `none`.
pub record DispatchFailure : Type 0 where
  pub status : ℕ
  pub message : Bytes
  pub body : Bytes
  pub retry_after : Time
  pub window : Bytes
  pub upstream_headers : Option (List (Bytes × Bytes))

-- A composite literal that sets only the status and the message.
abbrev pub failure : ℕ → Bytes → DispatchFailure
failure status message = record {
  status = status;
  message = message;
  body = [];
  retry_after = 0;
  window = [];
  upstream_headers = none;
}
