-- ===== src/Containers/Certificates/Ends.antt =====
-- The wait for a certificate job is over at some time.
use browseterm_server_local.Prelude.{
  ℕ, zero, suc, ◌<◌, String, ◌≡◌, Bool, true, false, Option, ◌∷◌, arith,
}
use browseterm_server_local.Python.Error.{returned}
use browseterm_server_local.World.Events.{Env, Log, kube, read_namespaced_job, sleep}
use browseterm_server_local.World.Action.{World, ◌>>=◌, when◌then◌else◌, pure, perform}
use browseterm_server_local.World.Halts.{HasReturned}
use browseterm_server_local.Containers.Certificates
use browseterm_server_local.Containers.Certificates.Completion.{on_look}

module _ (e : Env) (name namespace : String) where
  -- The log after some rounds of the wait, each a look at the job and a sleep.
  abbrev pub after_rounds : ℕ → Log → Log
  after_rounds zero l = l
  after_rounds (suc k) l =
      after_rounds k
        (sleep Certificates.job_poll_interval ∷ kube (read_namespaced_job name namespace) ∷ l)

  on_look-HasReturned :
      (fuel : ℕ) (b : Bool) (w : World)
      → HasReturned
          (Certificates.poll_loop fuel name namespace e
            (record w { log = sleep Certificates.job_poll_interval ∷ w.log })).0
      → HasReturned (on_look name namespace fuel b e w).0
  unfolding ◌>>=◌ when◌then◌else◌ perform pure
  on_look-HasReturned fuel true w later = tt
  on_look-HasReturned fuel false w later = later

  -- The wait for a job ends: when the cluster answers each look at it, and the job has succeeded
  -- after some number of rounds, any greater fuel lets the loop return.
  pub poll_loop-HasReturned :
      (answers : Log → Option ℕ)
      → ((l : Log) → e.cluster.on_read_job l name namespace ≡ returned (answers l))
      → (k fuel : ℕ) (w : World) → k < fuel
      → Certificates.has_succeeded (answers (after_rounds k w.log)) ≡ true
      → HasReturned (Certificates.poll_loop fuel name namespace e w).0
  unfolding Certificates.poll_loop ◌>>=◌ when◌then◌else◌ perform pure
  poll_loop-HasReturned answers answered k zero w more done = omega arith
  poll_loop-HasReturned answers answered zero (suc fuel) w more done = rw (answered w.log, done) tt
  poll_loop-HasReturned answers answered (suc k) (suc fuel) w more done = rw (answered w.log) (
      on_look-HasReturned fuel (Certificates.has_succeeded (answers w.log))
        (record w { log = kube (read_namespaced_job name namespace) ∷ w.log })
        (poll_loop-HasReturned answers answered k fuel _ (omega arith) done))
