-- ===== src/Reactor/Park/Wakeup.antt =====
-- No wakeup is lost between `enter` and `unpark`.
use Prim.Native.Nat.{ℕ}
use rust_io_uring.Prelude.{
  ◌<◌, ◌≡◌, ◌≢◌, ◌⊎◌, inl, inr, refl, sym, ap, ◌∙◌, arith, subst, Bool, true, false, if◌then◌else◌,
  ℕ_discrete, Bool-cases,
}
use mathlib.Core.Logic.{if_pos, if_neg}
use rust_io_uring.Reactor.Park.{
  Shared, swap_pending, store_entered, allow_wait, store_left, clear_unpark, clear_event, ParkPc,
  outside, announced, inside, withdrawn, UnparkPc, resting, swapped, writing, System, update,
  UnparkStep, swap, load, write, ParkStep, announce, decide, leave, clear, read, unparks, parks,
  appear, Reach, start, later,
}

-- `entered` says whether the parking thread is between its two stores.
abbrev enters : ParkPc → Bool
enters outside = false
enters (announced _) = true
enters (inside _) = true
enters withdrawn = false

-- A byte is in the pipe, or a thread is on its way to write one.
abbrev pub WakesSoon : System → Type 0
WakesSoon s = (0 < s.shared.pipe) ⊎ ((i : ℕ) × ((s.unpark i ≡ swapped) ⊎ (s.unpark i ≡ writing)))

record Inv (s : System) : Type 0 where
  entered : s.shared.entered ≡ enters s.park
  awaited : s.park ≡ inside true → s.shared.pending ≡ true → s.overlooked ≡ false → WakesSoon s

update_self {ℓ} : {A : Type ℓ} (f : ℕ → A) (i : ℕ) (a : A) → update f i a i ≡ a
update_self f i a = if_pos (ℕ_discrete i i) refl a (f i)

update_ne {ℓ} : {A : Type ℓ} (f : ℕ → A) (i j : ℕ) (a : A) → i ≢ j → update f i a j ≡ f j
update_ne f i j a ne = if_neg (ℕ_discrete i j) ne a (f j)

abbrev Busy : UnparkPc → Type 0
Busy pc = (pc ≡ swapped) ⊎ (pc ≡ writing)

-- A step of a resting thread leaves the busy ones busy.
Busy-stays :
    (f : ℕ → UnparkPc) (i j : ℕ) (a : UnparkPc) → f i ≡ resting → Busy (f j) → Busy (update f i a j)
Busy-stays f i j a rest busy = subst Busy (sym (update_ne f i j a apart)) busy
  where
    clash : (p : UnparkPc) → Busy p → p ≡ resting → ⊥
    clash p (inl e) r = cc
    clash p (inr e) r = cc

    apart : i ≢ j
    apart e = clash (f j) busy (ap f (sym e) ∙ rest)

swap-WakesSoon :
    (i : ℕ) (s : System)
    → s.unpark i ≡ resting
    → (s.shared.pending ≡ true → WakesSoon s)
    → WakesSoon (record s {
      shared = (swap_pending s.shared).0;
      unpark = update s.unpark i (if (swap_pending s.shared).1 then resting else swapped);
    })
unfolding swap_pending
swap-WakesSoon i s rest before = elim (Bool-cases s.shared.pending) [
  | inl was ↦ (elim (before was) [
    | inl bytes ↦ inl bytes
    | inr (j, busy) ↦ inr (j, Busy-stays s.unpark i j _ rest busy)
  ])
  | inr not_yet ↦ inr (i, inl (update_self s.unpark i _ ∙ rw not_yet refl))
]

entered-swap_pending : (s : Shared) → (swap_pending s).0.entered ≡ s.entered
unfolding swap_pending
entered-swap_pending s = refl

UnparkStep-Inv : {i : ℕ} {s t : System} → UnparkStep i s t → Inv s → Inv t
UnparkStep-Inv {i} {s} (swap at) inv = record {
  entered = entered-swap_pending s.shared ∙ inv.entered;
  awaited = λ p _ o. swap-WakesSoon i s at (λ e. inv.awaited p e o);
}
UnparkStep-Inv {i} {s} (load found at sees) inv = record {
  entered = inv.entered;
  awaited = λ p e o. inr (i, inr (update_self s.unpark i _ ∙ rw (sees (inside_entered p)) refl));
}
  where
    inside_entered : s.park ≡ inside true → s.shared.entered ≡ true
    inside_entered p = inv.entered ∙ ap enters p
UnparkStep-Inv {i} {s} (write t at w) inv = record {
  entered = w.1 ∙ inv.entered;
  awaited = λ p e o. inl (omega (arith, w.2));
}

ParkStep-Inv : {s t : System} → ParkStep s t → Inv s → Inv t
unfolding store_entered allow_wait store_left clear_unpark clear_event
ParkStep-Inv (announce wait at) inv = record { entered = refl; awaited = λ p e o. cc }
ParkStep-Inv {s} (decide wait at) inv = record {
  entered = inv.entered ∙ ap enters at;
  awaited = λ p e o. ground arith;
}
ParkStep-Inv (leave wait at) inv = record { entered = refl; awaited = λ p e o. cc }
ParkStep-Inv (clear at) inv = record { entered = inv.entered ∙ ap enters at; awaited = λ p e o. cc }
ParkStep-Inv (read at bytes) inv = record { entered = inv.entered; awaited = λ p e o. cc }

Reach-Inv : {s : System} → Reach s → Inv s
Reach-Inv start = record { entered = refl; awaited = λ p e o. cc }
Reach-Inv (later r (unparks i st)) = UnparkStep-Inv st (Reach-Inv r)
Reach-Inv (later r (parks st)) = ParkStep-Inv st (Reach-Inv r)
Reach-Inv (later {s} r (appear e)) =
    subst Inv (sym e) (record { entered = (Reach-Inv r).entered; awaited = (Reach-Inv r).awaited })

-- In every reachable state in which the parking thread is blocked although an unpark is pending, a
-- byte already is in the pipe or an unparking thread is on its way to write one, unless the load in
-- `enter` that let the parking thread wait read a value of `pending` older than a swap before it.
pub no_lost_wakeup :
    {s : System}
    → Reach s
    → s.park ≡ inside true
    → s.shared.pending ≡ true
    → s.overlooked ≡ false
    → WakesSoon s
no_lost_wakeup r p e o = (Reach-Inv r).awaited p e o
