-- ===== src/Uring/Resources.antt =====
-- What the constructors open, and that nothing of it stays open.
use rust_io_uring.Prelude.{
  ℕ, ◌+◌, ◌-◌, ◌≡◌, ◌≢◌, refl, false, Bool-cases, inl, inr, ◌∙◌, ap, ap₂, subst, arith, Result, ok,
  err, returned, panicked, undefined, out_of_fuel, ◌==◌,
}
use mathlib.Core.Path.{fun_ext}
use rust_io_uring.Uring.{
  MappedMemory, Process, Kernel, Call, one_at, one_of, open_file, add_map, drop_file, drop_map,
  attempt, map_memory,
}

-- The process after a call, when what the call gave is dropped as well.
abbrev pub drop_result : {A : Type 0} → (A → Process → Process) → Call A → Process
drop_result d (s, returned (ok a)) = d a s
drop_result d (s, returned (err e)) = s
drop_result d (s, panicked) = s
drop_result d (s, undefined) = s
drop_result d (s, out_of_fuel) = s

abbrev process : (ℕ → ℕ) → (ℕ → ℕ → ℕ) → Process
process files maps = record { files = files; maps = maps }

Process-ext :
    (s t : Process)
    → ((x : ℕ) → s.files x ≡ t.files x)
    → ((x y : ℕ) → s.maps x y ≡ t.maps x y)
    → s ≡ t
Process-ext s t f m = ap₂ process (fun_ext f) (fun_ext (λ x. fun_ext (m x)))

pub drop_file-open_file : (fd : ℕ) (s : Process) → drop_file fd (open_file fd s) ≡ s
unfolding drop_file
drop_file-open_file fd s = Process-ext _ _ (λ x. omega arith) (λ x y. refl)

drop_map-add_map : (m : MappedMemory) (s : Process) → m.len ≢ 0 → drop_map m (add_map m s) ≡ s
unfolding drop_map
drop_map-add_map m s n =
    rw (absent) (Process-ext _ _ (λ x. refl) (λ x y. added_away (s.maps x y) (one_of m x y)))
  where
    absent : (m.len == 0) ≡ false
    absent = ground arith

    added_away : (a b : ℕ) → a + b - b ≡ a
    added_away a b = omega arith

pub drop_map-drop_map :
    (m m' : MappedMemory) (s : Process) → drop_map m (drop_map m' s) ≡ drop_map m' (drop_map m s)
unfolding drop_map
drop_map-drop_map m m' s = elim (Bool-cases (m.len == 0)) [
  | inl e ↦ rw (e) refl
  | inr e ↦ elim (Bool-cases (m'.len == 0)) [
    | inl e' ↦ rw (e, e') refl
    | inr e' ↦
        rw (e, e')
          (Process-ext _ _ (λ x. refl) (λ x y. swapped (s.maps x y) (one_of m x y) (one_of m' x y)))
  ]
]
  where
    swapped : (a b c : ℕ) → a - c - b ≡ a - b - c
    swapped a b c = omega arith

pub drop_map-drop_file :
    (m : MappedMemory) (fd : ℕ) (s : Process)
    → drop_map m (drop_file fd s) ≡ drop_file fd (drop_map m s)
unfolding drop_map drop_file
drop_map-drop_file m fd s = elim (Bool-cases (m.len == 0)) [
  | inl e ↦ rw (e) refl
  | inr e ↦ rw (e) refl
]

pub drop_file-drop_file :
    (a b : ℕ) (s : Process) → drop_file a (drop_file b s) ≡ drop_file b (drop_file a s)
unfolding drop_file
drop_file-drop_file a b s =
    Process-ext _ _ (λ x. swapped (s.files x) (one_at a x) (one_at b x)) (λ x y. refl)
  where
    swapped : (n x y : ℕ) → n - y - x ≡ n - x - y
    swapped n x y = omega arith

-- A call, and what follows it.
pub attempt-drop :
    {A B : Type 0} (dA : A → Process → Process) (dB : B → Process → Process) (c : Call A)
    (drop : Process → Process) (f : A → Process → Call B) (s0 s : Process)
    → drop_result dA c ≡ s0
    → drop s0 ≡ s
    → ((a : A) (s1 : Process) → dA a s1 ≡ s0 → drop_result dB (f a s1) ≡ s)
    → drop_result dB (attempt c drop f) ≡ s
attempt-drop dA dB (s1, returned (ok a)) drop f s0 s e d next = next a s1 e
attempt-drop dA dB (s1, returned (err x)) drop f s0 s e d next = ap drop e ∙ d
attempt-drop dA dB (s1, panicked) drop f s0 s e d next = ap drop e ∙ d
attempt-drop dA dB (s1, undefined) drop f s0 s e d next = ap drop e ∙ d
attempt-drop dA dB (s1, out_of_fuel) drop f s0 s e d next = ap drop e ∙ d

module _ (kernel : Kernel)
    (no_empty : (fd offset addr : ℕ) → kernel.mmap fd offset 0 ≢ ok addr) where
  map_go :
      (fd offset len : ℕ) (s : Process) (r : Result ℕ ℕ)
      → kernel.mmap fd offset len ≡ r
      → drop_result drop_map (map_memory kernel fd offset len s) ≡ s
  unfolding map_memory
  map_go fd offset len s (err x) e = rw (e, map_memory) refl
  map_go fd offset len s (ok addr) e =
      rw (e, map_memory)
        (drop_map-add_map (record { addr = addr; len = len }) s
          (λ z. no_empty fd offset addr (subst (λ n. kernel.mmap fd offset n ≡ ok addr) z e)))

  pub map_memory-drop :
      (fd offset len : ℕ) (s : Process)
      → drop_result drop_map (map_memory kernel fd offset len s) ≡ s
  map_memory-drop fd offset len s = map_go fd offset len s (kernel.mmap fd offset len) refl
