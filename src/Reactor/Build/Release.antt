-- ===== src/Reactor/Build/Release.antt =====
-- Whatever `Reactor::new` comes to, nothing stays open once its result is dropped.
use rust_io_uring.Prelude.{ℕ, ◌≡◌, ◌≢◌, refl, sym, ◌∙◌, ap, Result, ok, err, returned}
use rust_io_uring.Sys.Setup.{new_parameters}
use rust_io_uring.Uring.{
  Process, Kernel, Call, Uring, open_file, drop_file, attempt, new_uring, drop_uring,
}
use rust_io_uring.Uring.Resources.{
  drop_result, drop_file-open_file, drop_file-drop_file, attempt-drop,
}
use rust_io_uring.Uring.Release.{new_uring-drop, drop_uring-drop_file}
use rust_io_uring.Reactor.Build.{Built, new_park, new_timer, drop_park, drop_inner, build}

new_park-drop :
    (pipe : Result ℕ (ℕ × ℕ)) (s : Process) → drop_result drop_park (new_park pipe s) ≡ s
unfolding new_park drop_park
new_park-drop (err e) s = refl
new_park-drop (ok p) s =
    ap (drop_file p.0) (drop_file-open_file p.1 (open_file p.0 s)) ∙ drop_file-open_file p.0 s

new_timer-drop : (timer : Result ℕ ℕ) (s : Process) → drop_result drop_file (new_timer timer s) ≡ s
unfolding new_timer
new_timer-drop (err e) s = refl
new_timer-drop (ok t) s = drop_file-open_file t s

-- The order of the drops does not matter.
drop_inner_order :
    (b : Built) (s : Process)
    → drop_inner b s
      ≡ drop_uring b.uring (drop_park (b.read_fd, b.write_fd) (drop_file b.timer_fd s))
unfolding drop_inner drop_park
drop_inner_order b s =
    let u : Uring = b.uring in
    let r : ℕ = b.read_fd in
    let w : ℕ = b.write_fd in
    let t : ℕ = b.timer_fd in
    ap (λ x. drop_file t (drop_file r x)) (sym (drop_uring-drop_file u w s))
    ∙ ap (drop_file t) (sym (drop_uring-drop_file u r (drop_file w s)))
    ∙ sym (drop_uring-drop_file u t (drop_file r (drop_file w s)))
    ∙ ap (drop_uring u) (drop_file-drop_file t r (drop_file w s))
    ∙ ap (λ x. drop_uring u (drop_file r x)) (drop_file-drop_file t w s)

-- Whatever `Reactor::new` comes to, a reactor, an error at any of its system calls or a failed
-- assertion: when its result is dropped as well, the process has the descriptors and the mappings
-- that it had before. An `mmap` of length 0 is taken to fail.
pub build-drop :
    (kernel : Kernel) (pipe : Result ℕ (ℕ × ℕ)) (timer : Result ℕ ℕ) (s : Process)
    → ((fd offset addr : ℕ) → kernel.mmap fd offset 0 ≢ ok addr)
    → drop_result drop_inner (build kernel pipe timer s) ≡ s
unfolding build
build-drop kernel pipe timer s no_empty =
    attempt-drop drop_uring drop_inner (new_uring kernel 4096 (new_parameters 0) s) (λ s. s)
      after_uring s s (new_uring-drop kernel no_empty 4096 (new_parameters 0) s) refl
      (λ u s1 a.
        attempt-drop drop_park drop_inner (new_park pipe s1) (drop_uring u) (after_park u) s1 s
          (new_park-drop pipe s1) a
          (λ p s2 b.
            attempt-drop drop_file drop_inner (new_timer timer s2)
              (λ s. drop_uring u (drop_park p s)) (after_timer u p) s2 s (new_timer-drop timer s2)
              (ap (drop_uring u) b ∙ a)
              (λ t s3 c.
                drop_inner_order (record { uring = u; read_fd = p.0; write_fd = p.1; timer_fd = t })
                  s3
                ∙ ap (λ x. drop_uring u (drop_park p x)) c
                ∙ ap (drop_uring u) b
                ∙ a)))
  where
    after_timer : Uring → ℕ × ℕ → ℕ → Process → Call Built
    after_timer u p t s =
        (s, returned (ok (record { uring = u; read_fd = p.0; write_fd = p.1; timer_fd = t })))

    after_park : Uring → ℕ × ℕ → Process → Call Built
    after_park u p s =
        attempt (new_timer timer s) (λ s. drop_uring u (drop_park p s)) (after_timer u p)

    after_uring : Uring → Process → Call Built
    after_uring u s = attempt (new_park pipe s) (drop_uring u) (after_park u)
