-- ===== src/Server/Tests.antt =====
-- Runs of the rate limit of src/uvhttp_server.c, and the theorem on it.
use uvhttp.Prelude.{ℕ, ◌-◌, ◌+◌, ◌≤◌, true, false, List, [], ◌∷◌, ◌≡◌, refl, arith}
use uvhttp.Error.{ok}
use uvhttp.Server.{RateLimit, check_rate_limit, enable_rate_limit}
use uvhttp.Server.Window.{passes, passes_le}

abbrev off : RateLimit
off = record {
  enabled = false;
  max_requests = 0;
  window_seconds = 0;
  request_count = 0;
  window_start_time = 0;
}

-- Two requests in each second.
abbrev two : RateLimit
two = record {
  enabled = true;
  max_requests = 2;
  window_seconds = 1;
  request_count = 0;
  window_start_time = 0;
}

enables_two : enable_rate_limit off 2 1 ≡ (two, ok tt)
unfolding enable_rate_limit
enables_two = refl

abbrev times : List ℕ
times = 900 ∷ 950 ∷ 960 ∷ 1000 ∷ 1100 ∷ 1200 ∷ []

-- Two of the first second and two of the next pass, all in less than a second.
four_pass : passes two times ≡ 4
unfolding passes check_rate_limit
four_pass = refl

passes_le_example : passes two times ≤ 2 - 0 + 2
passes_le_example =
    passes_le two 900 times (record { active = refl; counted = omega arith }) (omega arith)
      (omega arith) (omega arith)
