-- ===== src/Tests/Container.antt =====
-- A container whose components are numbers, in a world that counts the calls and raises at one of them.
use nexa_trade.Prelude.{ℕ, suc, ◌≡◌, refl, true, [], ◌∷◌, ◌==◌, if◌then◌else◌}
use nexa_trade.Outcome.{Outcome, ok, raised, connection_error}
use nexa_trade.Container.{
  pg, influx, redis, broker_svc, begun, stopped, Components, new_container, put, note_call, create,
  begin, launch, init_storage, init_all, stop_part, run_steps, teardown_all, start,
}
use nexa_trade.Container.Startup.{Promised, start_lem}
use nexa_trade.Container.Access.{at_first, by_start, Served, service_lem}

abbrev answer : {A : Type 0} → ℕ → A → ℕ → Outcome A × ℕ
answer failing a b = (if b == failing then raised connection_error else ok a, suc b)

abbrev components : ℕ → Components ℕ ℕ
components failing = record {
  make = λ p parts b. answer failing b b;
  begin_ = λ p h b. answer failing true b;
  end_ = λ p h b. answer failing tt b;
  redis_health = λ h b. ok true;
  data_health = λ h b. raised connection_error;
  is_running = λ p h b. true;
  is_connected = λ h b. true;
}

-- The sixth call is the start of the Redis client, which fails: three parts are begun and stopped.
failed_start_stops :
    (start (components 5) (new_container, 0)).1.0.log
    ≡ begun pg 0
      ∷ begun influx 2
      ∷ begun redis 4
      ∷ stopped redis 4
      ∷ stopped influx 2
      ∷ stopped pg 0
      ∷ []
unfolding start new_container init_all init_storage launch create begin put teardown_all run_steps
    stop_part note_call
failed_start_stops = refl

start_lem_example : Promised [] (start (components 5) (new_container, 0))
unfolding new_container
start_lem_example = start_lem (components 5) new_container 0 refl

service_lem_example : Served broker_svc (start (components 99) (new_container, 0)).1.0
service_lem_example =
    service_lem (components 99) (start (components 99) (new_container, 0)).1.0 broker_svc
      (by_start new_container 0 at_first)
