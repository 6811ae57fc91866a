-- ===== src/Server.antt =====
-- The rate limit of src/uvhttp_server.c, which counts the requests of a window of time for the whole
-- server. The clock, in milliseconds, is an argument. The addresses that are exempt are left out.
pub mod Window
mod Tests
use uvhttp.Prelude.{
  ℕ, ◌+◌, ◌-◌, ◌*◌, ◌%◌, ◌^◌, Bool, true, false, not, ◌||◌, if◌then◌else◌, ltb, leb, ◌==◌,
}
use uvhttp.Error.{invalid_param, rate_limit_exceeded, Result, ok, err}

-- The fields `rate_limit_...` of `struct uvhttp_server`.
pub record RateLimit : Type 0 where
  pub enabled : Bool
  pub max_requests : ℕ
  pub window_seconds : ℕ
  pub request_count : ℕ
  pub window_start_time : ℕ

-- `uvhttp_server_enable_rate_limit`; a negative argument counts as 0, which is refused too.
unfoldable pub enable_rate_limit : RateLimit → ℕ → ℕ → RateLimit × Result (Unit {0})
enable_rate_limit r max_requests window_seconds =
    if max_requests == 0 || ltb 1000000 max_requests
    then (r, err invalid_param)
    else if window_seconds == 0 || ltb 86400 window_seconds
    then (r, err invalid_param)
    else (
      record {
        enabled = true;
        max_requests = max_requests;
        window_seconds = window_seconds;
        request_count = 0;
        window_start_time = 0;
      },
      ok tt,
    )

-- `uvhttp_server_disable_rate_limit`
unfoldable pub disable_rate_limit : RateLimit → RateLimit
disable_rate_limit r = record r { enabled = false; request_count = 0; window_start_time = 0 }

-- The difference of two times of 64 bits.
abbrev pub since : ℕ → ℕ → ℕ
since start now = (now + 2 ^ 64 - start) % 2 ^ 64

-- The counter starts again where the window is over.
abbrev pub in_window : RateLimit → ℕ → RateLimit
in_window r now =
    if leb (r.window_seconds * 1000) (since r.window_start_time now)
    then record r { request_count = 0; window_start_time = now }
    else r

-- The request is counted, or refused.
abbrev pub count_request : RateLimit → RateLimit × Result (Unit {0})
count_request r =
    if leb r.max_requests r.request_count
    then (r, err rate_limit_exceeded)
    else (record r { request_count = r.request_count + 1 }, ok tt)

-- `uvhttp_server_check_rate_limit`
unfoldable pub check_rate_limit : RateLimit → ℕ → RateLimit × Result (Unit {0})
check_rate_limit r now = if not r.enabled then (r, ok tt) else count_request (in_window r now)

-- `uvhttp_server_clear_rate_limit_all`
unfoldable pub clear_rate_limit_all : RateLimit → RateLimit
clear_rate_limit_all r = record r { request_count = 0; window_start_time = 0 }

-- `uvhttp_server_reset_rate_limit_client`, which resets the counter of all clients.
unfoldable pub reset_rate_limit_client : RateLimit → ℕ → RateLimit
reset_rate_limit_client r now = record r { request_count = 0; window_start_time = now }
