-- ===== src/Reactor/Build.antt =====
-- tokio-uring-reactor/src/reactor.rs and unpark.rs: `Reactor::new` with `Inner::build`,
-- `CompletionState::new` and `Park::new`. The answers of pipe2(2) and timerfd_create(2) are parameters.
pub mod Release
pub mod Start
mod Tests
use rust_io_uring.Prelude.{ℕ, pos, Result, ok, err, returned}
use rust_io_uring.Sys.Setup.{new_parameters}
use rust_io_uring.Uring.{
  Process, Kernel, Call, Uring, open_file, drop_file, attempt, new_uring, drop_uring,
}
use rust_io_uring.Reactor.State.{new_state}
use rust_io_uring.Reactor.Queue.{Inner, disarmed}

-- `Inner`, by what it owns: the ring, the two ends of the pipe and the timer.
pub record Built : Type 0 where
  pub uring : Uring
  pub read_fd : ℕ
  pub write_fd : ℕ
  pub timer_fd : ℕ

-- `Park::new`: the read end and the write end of a pipe.
unfoldable pub new_park : Result ℕ (ℕ × ℕ) → Process → Call (ℕ × ℕ)
new_park (err e) s = (s, returned (err e))
new_park (ok p) s = (open_file p.1 (open_file p.0 s), returned (ok p))

unfoldable pub new_timer : Result ℕ ℕ → Process → Call ℕ
new_timer (err e) s = (s, returned (err e))
new_timer (ok t) s = (open_file t s, returned (ok t))

-- The drops of `Park` and `Inner`, field by field.
unfoldable pub drop_park : ℕ × ℕ → Process → Process
drop_park p s = drop_file p.0 (drop_file p.1 s)

unfoldable pub drop_inner : Built → Process → Process
drop_inner b s = drop_file b.timer_fd (drop_park (b.read_fd, b.write_fd) (drop_uring b.uring s))

-- `Inner::build`, and `Reactor::new`, which only adds the address of a buffer.
unfoldable pub build : Kernel → Result ℕ (ℕ × ℕ) → Result ℕ ℕ → Process → Call Built
build kernel pipe timer s =
    attempt (new_uring kernel 4096 (new_parameters 0) s) (λ s. s)
      (λ u s. attempt (new_park pipe s) (drop_uring u) (λ p s.
        attempt (new_timer timer s) (λ s. drop_uring u (drop_park p s))
          (λ t s. (
            s,
            returned (ok (record { uring = u; read_fd = p.0; write_fd = p.1; timer_fd = t })),
          ))))

-- The reactor that begins with what is built.
unfoldable pub inner_of : {D : Type 0} → Built → Inner D
inner_of b = record {
  sq = b.uring.sq.ring;
  cq = b.uring.cq.ring;
  completion_state = new_state;
  timer_fd = pos b.timer_fd;
  park_fd = pos b.read_fd;
  timer = disarmed;
}
