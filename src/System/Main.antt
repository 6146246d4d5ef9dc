-- ===== src/System/Main.antt =====
-- internal/cmd/serve-mysql/main.go: what `main` does from its start to its end, with the two senders as
-- they are then. The handlers and the goroutines of the senders run while `main` waits for a signal.
pub mod Senders
pub mod Body
pub mod Ends
mod Tests
use userservice.Prelude.{String, Bool, true, false, Option, none, some, if◌then◌else◌}
use mathlib.Core.Option
use userservice.Flow.{
  Flow, ret, next, Act, Proc, Result, ok, err, attempt, call, finish, pure, ◌>>=◌, ◌>>◌, run,
}
use userservice.Shared.{Error, error_text}
use userservice.Config.{Config, Sqls, new_sqls, mysql_url, redis_url}
use userservice.Messaging.{Sender, sender, test_sender, new_mail_sender, new_sms_sender, close}

pub record World (S M : Type 0) : Type 0 where
  pub outside : S
  -- none until `NewSender` gave one
  pub mail : Option (Sender M)
  pub sms : Option (Sender M)

-- What a panic is called with; the last is shown by `%v`.
pub data Panic : Type 0 where
  text : String → Panic
  error : Error → Panic
  stringer : String → Panic
  value : String → Panic

-- How the body of `main` ends early: by a panic, or because the goroutine of `startServer` logged a fatal
-- error, which ends the process at once.
pub data Abort : Type 0 where
  panics : Panic → Abort
  exits : String → Error → Abort

-- How the process ends. `fatal` is the log line of `cleanup`, with its error; `crashed` is a panic that
-- nothing recovers.
pub data Ended : Type 0 where
  returned : Ended
  fatal : String → Option Error → Ended
  exited : String → Error → Ended
  crashed : Error → Ended

-- What ends the waiting of `startServer`.
pub data Wake : Type 0 where
  signal : String → Wake
  not_serving : Error → Wake

woken : Wake → Result Error (Unit {0})
woken (signal _) = ok tt
woken (not_serving e) = err e

-- The environment, the database driver, redis' client, the files and the HTTP server.
pub record Platform (S M : Type 0) : Type 1 where
  pub process_env : Act S (Result Error Config)
  -- `sql.Open` and `redis.ParseURL`, and the two pings
  pub open_sql : String → Act S (Result Error (Unit {0}))
  pub ping_sql : Act S (Result Error (Unit {0}))
  pub parse_url : String → Result Error (Unit {0})
  pub ping_redis : Act S (Result Error (Unit {0}))
  pub File : Type 0
  pub open_file : String → Act S (Result Error File)
  pub decode : File → Act S (Result Error Sqls)
  -- dialling the mail relay and hanging up
  pub dial : Config → Act S (Result Error (Unit {0}))
  -- serving until a signal comes or the server fails, and the shutdown
  pub serve : Config → Act (World S M) Wake
  pub shutdown : Act (World S M) (Option Error)
  -- what `%v` shows of the entry with which `log.Panicf` panics
  pub show_entry : String → Error → String

abbrev closed_sender : {M : Type 0} → Sender M → Option (Sender M)
closed_sender test_sender = some test_sender
closed_sender (sender d) = Option.map (λ c. sender (record d { channel = c })) (close d.channel)

close_of_closed : Panic
close_of_closed = value "close of closed channel"

-- `Close` on a sender that was kept; closing twice is a panic.
abbrev close_kept : {M : Type 0} → Option (Sender M) → Option Panic × Option (Sender M)
close_kept none = (none, none)
close_kept (some d) = elim (closed_sender d) [
  | none ↦ (some close_of_closed, some d)
  | some d' ↦ (none, some d')
]

-- What `cleanup` takes of a panic.
panic_text : Panic → String
panic_text (text t) = t
panic_text (error e) = error_text e
panic_text (stringer t) = t
panic_text (value t) = t

-- `cleanup`, deferred with the error as it was then: a panic is logged as fatal, which ends the process.
pub cleanup : Option Error → Flow Abort (Unit {0}) → Ended
unfolding panic_text
cleanup e (next _) = returned
cleanup e (ret (panics p)) = fatal (panic_text p) e
cleanup e (ret (exits message x)) = exited message x

-- `defer c()`, for the rest of a function: a process that exits runs nothing any more, and a panic of `c`
-- takes the place of the outcome.
abbrev ended_by :
    {W : Type 0} → Act W (Option Panic) → Flow Abort (Unit {0}) → Act W (Flow Abort (Unit {0}))
ended_by c (ret (exits message e)) w = (ret (exits message e), w)
ended_by c (ret (panics p)) w =
    let (q, w') = c w in (elim q [ none ↦ ret (panics p) | some p' ↦ ret (panics p') ], w')
ended_by c (next u) w =
    let (q, w') = c w in (elim q [ none ↦ next u | some p' ↦ ret (panics p') ], w')

abbrev deferring :
    {W : Type 0} → Act W (Option Panic) → Proc W Abort (Unit {0}) → Proc W Abort (Unit {0})
deferring c m w = let (x, w') = m w in ended_by c x w'

module _ {S M : Type 0} (p : Platform S M) where
  outside : {A : Type 0} → Act S A → Act (World S M) A
  outside m w = let (a, s) = m w.outside in (a, record w { outside = s })

  -- `NewConfig`, whose error is a panic.
  pub new_config : Act S (Result Error Config)
  new_config = run do result ← attempt p.process_env (λ e. err e); finish (ok result)

  pub new_mysql : Config → Act S (Result Error (Unit {0}))
  new_mysql cfg = run do
    attempt (p.open_sql (mysql_url cfg)) (λ e. err e)
    attempt p.ping_sql (λ e. err e)
    finish (ok tt)

  pub new_redis : Config → Act S (Result Error (Unit {0}))
  new_redis cfg = run do
    attempt (λ s. (p.parse_url (redis_url cfg), s)) (λ e. err e)
    attempt p.ping_redis (λ e. err e)
    finish (ok tt)

  abbrev close_mail : Act (World S M) (Option Panic)
  close_mail w = let (q, d) = close_kept w.mail in (q, record w { mail = d })

  abbrev close_sms : Act (World S M) (Option Panic)
  close_sms w = let (q, d) = close_kept w.sms in (q, record w { sms = d })

  -- `startServer`; the wait group is done when it returns, and what `Shutdown` gives is only logged.
  pub start_server : Config → Proc (World S M) Abort (Unit {0})
  start_server cfg = do
    wake ← call (p.serve cfg)
    attempt (λ w. (woken wake, w)) (λ e. exits "http server didn't start properly" e)
    call p.shutdown
    pure tt

  -- From the senders on: a sender is kept in `us`, and closed when the body ends.
  pub with_sms : Config → Proc (World S M) Abort (Unit {0})
  unfolding start_server
  with_sms cfg = do
    sms ←
        attempt (λ w. (new_sms_sender cfg.sms_test_mode, w))
          (λ e. panics (value (p.show_entry "failed to initialize sms relay daemon" e)))
    call (λ w. (tt {0}, record w { sms = some sms }))
    deferring close_sms (start_server cfg)

  -- `maild.NewSender`, which dials the relay unless it is in the test mode.
  new_mail : Config → Act S (Result Error (Sender M))
  new_mail cfg s =
      let (ping, s') = p.dial cfg s in
      if cfg.email_test_mode
      then (new_mail_sender true (ok tt), s)
      else (new_mail_sender false ping, s')

  pub with_mail : Config → Proc (World S M) Abort (Unit {0})
  unfolding outside
  with_mail cfg = do
    mail ←
        attempt (outside (new_mail cfg))
          (λ e. panics (value (p.show_entry "failed to initialize mail relay daemon" e)))
    call (λ w. (tt {0}, record w { mail = some mail }))
    deferring close_mail (with_sms cfg)

  pub body : Config → Proc (World S M) Abort (Unit {0})
  unfolding outside
  body cfg = do
    attempt (outside (new_mysql cfg)) (λ _. panics (text "failed to connect mysql client"))
    attempt (outside (new_sqls p.open_file p.decode "mysql"))
        (λ _. panics (text "failed to connect mysql client"))
    attempt (outside (new_redis cfg)) (λ _. panics (text "failed to connect redis client"))
    with_mail (record cfg { mysql_pwd = "*****" })

  -- The rest of `main`, once there is a configuration; `err` is nil when `cleanup` is deferred.
  pub run_with : Result Error Config → Act (World S M) Ended
  run_with (err e) w = (crashed e, w)
  run_with (ok cfg) w = let (x, w') = body cfg w in (cleanup none x, w')

  pub main : Act (World S M) Ended
  unfolding outside
  main w = let (r, w') = outside new_config w in run_with r w'
