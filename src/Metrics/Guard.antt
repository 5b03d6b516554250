-- ===== src/Metrics/Guard.antt =====
-- The gauge of requests in flight, src/metrics.rs.
use tiny_httpd.Base.{ℕ, zero, suc, ◌+◌, ◌≡◌, refl, true, [], ◌∷◌, ◌++◌, list_laws, arith}
use tiny_httpd.Metrics.{
  Log, in_flight_up, in_flight_down, InFlightRequestGuard, request_started, finish, drop_guard,
}

-- How often the gauge went up, and down.
unfoldable pub ups : Log → ℕ
ups [] = 0
ups (in_flight_up ∷ log) = suc (ups log)
ups (_ ∷ log) = ups log

unfoldable pub downs : Log → ℕ
downs [] = 0
downs (in_flight_down ∷ log) = suc (downs log)
downs (_ ∷ log) = downs log

pub ups-append : (s t : Log) → ups (s ++ t) ≡ ups s + ups t
unfolding ups
ups-append [] t = omega arith
ups-append (in_flight_up ∷ s) t = omega (arith, ups-append s t)
ups-append (_ ∷ s) t = ups-append s t

pub downs-append : (s t : Log) → downs (s ++ t) ≡ downs s + downs t
unfolding downs
downs-append [] t = omega arith
downs-append (in_flight_down ∷ s) t = omega (arith, downs-append s t)
downs-append (_ ∷ s) t = downs-append s t

-- `finish` called any number of times.
unfoldable pub finish_times : ℕ → InFlightRequestGuard × Log → InFlightRequestGuard × Log
finish_times zero s = s
finish_times (suc n) s = finish_times n (finish s.0 s.1)

abbrev spent : InFlightRequestGuard
spent = record { finished = true }

finish_times-spent : (n : ℕ) (log : Log) → finish_times n (spent, log) ≡ (spent, log)
unfolding finish_times finish
finish_times-spent zero log = refl
finish_times-spent (suc n) log = finish_times-spent n log

-- A guard that is finished any number of times, also never, and then dropped, has moved the gauge
-- up once and down once.
pub guard_balanced :
    (n : ℕ) (log : Log)
    → let (g, log') = finish_times n (request_started log) in
      drop_guard g log' ≡ log ++ in_flight_up ∷ in_flight_down ∷ []
unfolding finish_times request_started finish drop_guard
guard_balanced zero log = simp list_laws
guard_balanced (suc n) log =
    rw (finish_times-spent n ((log ++ in_flight_up ∷ []) ++ in_flight_down ∷ [])) (simp list_laws)
