-- ===== src/Reactor/Build/Tests.antt =====
-- The theorems about `Reactor::new` at a concrete kernel.
use rust_io_uring.Prelude.{ℕ, ◌≡◌, ℤ, ok, err, returned}
use rust_io_uring.Uring.{Process}
use rust_io_uring.Uring.Resources.{drop_result}
use rust_io_uring.Uring.Tests.{kernel, process, no_empty, served}
use rust_io_uring.Sys.Setup.{new_parameters}
use rust_io_uring.Reactor.World.Safety.{IsFresh}
use rust_io_uring.Reactor.Build.{Built, build, drop_inner}
use rust_io_uring.Reactor.Build.Release.{build-drop}
use rust_io_uring.Reactor.Build.Start.{first_world, build_lem}

-- The timer cannot be created, after the ring and the pipe have been.
build-drop_example : drop_result drop_inner (build kernel (ok (8, 9)) (err 24) process) ≡ process
build-drop_example = build-drop kernel (ok (8, 9)) (err 24) process no_empty

build_lem_example :
    (b : Built) × (t : Process) × (build kernel (ok (8, 9)) (ok 10) process ≡ (t, returned (ok b)))
    × IsFresh 1 1 (first_world {T = ℕ} {F = ℤ} b)
build_lem_example =
    build_lem ℕ ℤ {k = 1} {l = 1} kernel (8, 9) 10 process (served 4096 (new_parameters 0))
