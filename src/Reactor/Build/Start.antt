-- ===== src/Reactor/Build/Start.antt =====
-- `Reactor::new` on a kernel that serves it.
use rust_io_uring.Prelude.{ℕ, ◌≡◌, refl, [], ok, returned}
use rust_io_uring.Sys.Setup.{new_parameters}
use rust_io_uring.Uring.{open_file, Process, Kernel, new_uring}
use rust_io_uring.Uring.Fresh.{IsServed, IsEmpty, new_uring_lem}
use rust_io_uring.Reactor.State.{new_state}
use rust_io_uring.Reactor.World.{World}
use rust_io_uring.Reactor.World.Safety.{IsFresh}
use rust_io_uring.Reactor.Build.{Built, new_park, new_timer, build, inner_of}

-- The world of a reactor that has just been built.
abbrev pub first_world : {T F : Type 0} → Built → World T F
first_world b = record { reactor = inner_of b; held = []; futures = [] }

IsEmpty-IsFresh :
    {T F : Type 0} {k l : ℕ} (b : Built)
    → IsEmpty k l b.uring
    → IsFresh k l (first_world {T = T} {F = F} b)
unfolding inner_of new_state
IsEmpty-IsFresh b e = record {
  ring = e.sq;
  cring = e.cq;
  no_pending = e.nothing_pending;
  no_available = e.nothing_available;
  none_held = refl;
  no_futures = refl;
  no_cells = λ a. refl;
  no_wait = refl;
  timer_unarmed = refl;
  park_unarmed = refl;
}

-- From a kernel that serves rings of 4096 entries, a pipe and a timer, `Reactor::new` returns a reactor
-- from which the safety of all later states follows: both rings are valid and empty, nothing is in
-- flight, and neither of its own polls is armed.
pub build_lem :
    (T F : Type 0) {k l : ℕ} (kernel : Kernel) (pipe : ℕ × ℕ) (timer : ℕ) (s : Process)
    → IsServed kernel k l 4096 (new_parameters 0)
    → (b : Built) × (t : Process) × (build kernel (ok pipe) (ok timer) s ≡ (t, returned (ok b)))
      × IsFresh k l (first_world {T = T} {F = F} b)
unfolding build new_park new_timer
build_lem T F {k = k} {l = l} kernel pipe timer s v =
    let (u, e, empty) = new_uring_lem kernel {k = k} {l = l} 4096 (new_parameters 0) s v in
    let b : Built = record { uring = u; read_fd = pipe.0; write_fd = pipe.1; timer_fd = timer } in
    let t : Process = (new_uring kernel 4096 (new_parameters 0) s).0 in
    (
      b,
      open_file timer (open_file pipe.1 (open_file pipe.0 t)),
      rw (e, build) refl,
      IsEmpty-IsFresh b empty,
    )
