-- ===== src/Startup/Unready.antt =====
-- The account routes of the process that `main` starts, which initialises none of their services.
use singal.Auth.{Services, Store}
use singal.Common.{◌≡◌, ◌≢◌, String, Option, some, List, ap}
use singal.Conference.{Env}
use singal.Http.Offline.{Refuses, serve-Refuses}
use singal.Http.{HttpRequest, Bodies, Meets, serve}
use singal.Rtc.Media.{ok}
use singal.Settings.{RouterRtpCapabilities}
use singal.Startup.Process.{Process, Step, main}
use singal.Startup.Running.{main-IsStarted}
use singal.Startup.{services_of, is_some}

-- However the goroutines of `main` interleave, a request to any path but "/echo" leaves the accounts
-- and codes as they are, and its answer has neither the code of success nor an account.
pub main-serve :
    (env : Env) (decode : String → Option RouterRtpCapabilities) (file : Option String)
    (xs : List Step) (p : Process) (sv : Services) (bodies : Bodies) (st : Store) (r : HttpRequest)
    (m : Meets)
    → main env decode file xs ≡ some (ok p)
    → r.path ≢ "/echo"
    → ((serve (services_of sv p.globals) bodies st r m).0 ≡ st)
      × Refuses (serve (services_of sv p.globals) bodies st r m).1
unfolding services_of
main-serve env decode file xs p sv bodies st r m e ne =
    let s = main-IsStarted env decode file xs p e in
    serve-Refuses (services_of sv p.globals) (ap is_some s.no_db) (ap is_some s.no_email) st bodies
      r m ne
